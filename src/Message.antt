-- ===== src/Message.antt =====
-- Messages between processes: system/send.c, receive.c, recvclr.c and recvtime.c.
pub mod Deliver
pub mod Invariant
pub mod Wait
use ece592_final_project.Base.{
  ℕ, true, false, ◌==◌, if◌then◌else◌, update, is_neg, syserr, timeout, ok,
}
use ece592_final_project.Process.{Proc, PrState, isbadpid}
use ece592_final_project.Queue.{insertd}
use ece592_final_project.Kernel.{Kernel, set_state}
use ece592_final_project.Sched.{resched, ready}
use ece592_final_project.Clock.{unsleep}

-- A call that may wait: it has returned, or it stands at its `resched`, and goes on when its caller
-- is current again.
pub data Call : Type 0 where
  returned : ℕ → Kernel → Call
  waiting : Kernel → Call

abbrev pub set_proc : ℕ → Proc → Kernel → Kernel
set_proc pid p k = record k { proctab = update k.proctab pid p }

-- What follows the delivery, by the state of the recipient.
unfoldable pub wake_receiver : PrState → ℕ → Kernel → Kernel
wake_receiver PrState.recv pid k = (ready pid k).1
wake_receiver PrState.rectim pid k = (ready pid (unsleep pid k).1).1
wake_receiver _ pid k = k

unfoldable pub send : ℕ → ℕ → Kernel → ℕ × Kernel
send pid msg k =
    if isbadpid k.proctab pid
    then (syserr, k)
    else let p = k.proctab pid in
      if p.hasmsg
      then (syserr, k)
      else (ok, wake_receiver p.state pid (set_proc pid (record p { msg = msg; hasmsg = true }) k))

-- The end of `receive`, for the process `pid` that called it.
unfoldable pub receive_take : ℕ → Kernel → ℕ × Kernel
receive_take pid k =
    ((k.proctab pid).msg, set_proc pid (record (k.proctab pid) { hasmsg = false }) k)

unfoldable pub receive : Kernel → Call
receive k =
    if (k.proctab k.currpid).hasmsg
    then (let (msg, k') = receive_take k.currpid k in returned msg k')
    else waiting (resched (set_state k.currpid PrState.recv k))

unfoldable pub recvclr : Kernel → ℕ × Kernel
recvclr k =
    let p = k.proctab k.currpid in
    if p.hasmsg then (p.msg, set_proc k.currpid (record p { hasmsg = false }) k) else (ok, k)

-- The end of `recvtime`: the message, or TIMEOUT.
unfoldable pub recvtime_take : ℕ → Kernel → ℕ × Kernel
recvtime_take pid k =
    let p = k.proctab pid in
    if p.hasmsg then (p.msg, set_proc pid (record p { hasmsg = false }) k) else (timeout, k)

unfoldable pub recvtime : ℕ → Kernel → Call
recvtime maxwait k =
    if is_neg maxwait
    then returned syserr k
    else if (k.proctab k.currpid).hasmsg
    then (let (msg, k') = recvtime_take k.currpid k in returned msg k')
    else let (result, t) = insertd k.proctab k.currpid k.sleepq maxwait k.queuetab in
      if result == syserr
      then returned syserr (record k { queuetab = t })
      else waiting (resched (set_state k.currpid PrState.rectim (record k { queuetab = t })))
