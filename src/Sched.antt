-- ===== src/Sched.antt =====
-- Scheduling: system/resched.c, ready.c, resume.c, suspend.c, yield.c, getprio.c and chprio.c.
-- `ctxsw` stores the registers of the old process and loads those of the new one; here a switch is
-- the change of `currpid`, and what an operation does behind its `resched` it does when its caller
-- is current again.
pub mod Invariant
pub mod Frame
pub mod MakeReady
pub mod Switch
pub mod Priority
pub mod Ready
pub mod Keep
pub mod Block
pub mod Suspend
pub mod Deferral
use ece592_final_project.Base.{
  ℕ, ◌+◌, Bool, true, false, not, ◌&&◌, ◌||◌, ◌==◌, ltb, if◌then◌else◌, update, signed_lt,
  signed_le, is_neg, add32, sub32, syserr, ok,
}
use ece592_final_project.Process.{Proc, PrState, isbadpid, nullproc}
use ece592_final_project.Queue.{QTab, insert, dequeue, getitem, firstkey}
use ece592_final_project.Kernel.{Kernel, quantum, set_state}

abbrev pub is_curr : PrState → Bool
is_curr PrState.curr = true
is_curr _ = false

abbrev pub is_ready : PrState → Bool
is_ready PrState.ready = true
is_ready _ = false

abbrev pub is_susp : PrState → Bool
is_susp PrState.susp = true
is_susp _ = false

-- `prstate = PR_READY; insert(pid, readylist, prprio)`
unfoldable pub make_ready : ℕ → Kernel → Kernel
make_ready pid k =
    let k' = set_state pid PrState.ready k in
    record k' {
      queuetab = (insert k'.proctab pid k'.readylist (k'.proctab pid).prio k'.queuetab).1;
    }

-- The second half of `resched`: the switch to the first process of the ready list.
unfoldable pub switch_to_first : Kernel → Kernel
switch_to_first k =
    let (pid, t) = dequeue k.readylist k.queuetab in
    let k' = set_state pid PrState.curr (record k { queuetab = t; currpid = pid }) in
    record k' { preempt = quantum; cr3 = (k'.proctab pid).pdbr }

unfoldable pub resched : Kernel → Kernel
resched k =
    if signed_lt 0 k.ndefers
    then record k { attempt = true }
    else let old = k.proctab k.currpid in
      if is_curr old.state
      then if signed_lt (firstkey k.queuetab k.readylist) old.prio
        then k
        else switch_to_first (make_ready k.currpid k)
      else switch_to_first k

-- DEFER_START and DEFER_STOP
pub data Defer : Type 0 where
  start stop other : Defer

unfoldable pub resched_cntl : Defer → Kernel → ℕ × Kernel
resched_cntl Defer.start k = (
  ok,
  record k { ndefers = add32 k.ndefers 1; attempt = if k.ndefers == 0 then false else k.attempt },
)
resched_cntl Defer.stop k =
    if signed_le k.ndefers 0
    then (syserr, k)
    else let k' = record k { ndefers = sub32 k.ndefers 1 } in
      (ok, if (k'.ndefers == 0) && k'.attempt then resched k' else k')
resched_cntl Defer.other k = (syserr, k)

unfoldable pub ready : ℕ → Kernel → ℕ × Kernel
ready pid k = if isbadpid k.proctab pid then (syserr, k) else (ok, resched (make_ready pid k))

unfoldable pub resume : ℕ → Kernel → ℕ × Kernel
resume pid k =
    if isbadpid k.proctab pid
    then (syserr, k)
    else if not (is_susp (k.proctab pid).state)
    then (syserr, k)
    else ((k.proctab pid).prio, (ready pid k).1)

-- The priority that `suspend` returns is read behind the `resched`, when the caller runs again; no
-- operation but `chprio` changes it in between.
unfoldable pub suspend : ℕ → Kernel → ℕ × Kernel
suspend pid k =
    if isbadpid k.proctab pid || (pid == nullproc)
    then (syserr, k)
    else if not (is_curr (k.proctab pid).state) && not (is_ready (k.proctab pid).state)
    then (syserr, k)
    else if is_ready (k.proctab pid).state
    then (
      (k.proctab pid).prio,
      set_state pid PrState.susp (record k { queuetab = (getitem pid k.queuetab).1 }),
    )
    else ((k.proctab pid).prio, resched (set_state pid PrState.susp k))

unfoldable pub yield : Kernel → ℕ × Kernel
yield k = (ok, resched k)

unfoldable pub getprio : ℕ → Kernel → ℕ
getprio pid k = if isbadpid k.proctab pid then syserr else (k.proctab pid).prio

unfoldable pub chprio : ℕ → ℕ → Kernel → ℕ × Kernel
chprio pid newprio k = if isbadpid k.proctab pid then (syserr, k) else (
  (k.proctab pid).prio,
  record k { proctab = update k.proctab pid (record (k.proctab pid) { prio = newprio }) },
)
