-- ===== src/Message/Wait.antt =====
-- The calls that may wait for a message keep the invariant of the kernel, up to their return or their
-- `resched`.
use ece592_final_project.Base.{arith, ℕ, ◌≡◌, refl, ◌≢◌, inl, inr, false, Bool-cases, is_neg, ok}
use ece592_final_project.Message.{
  set_state, resched, insertd, PrState, Kernel, Call, receive, recvtime,
}
use ece592_final_project.Sched.Invariant.{IsRunning}
use ece592_final_project.Process.{nullproc}
use ece592_final_project.Message.Invariant.{receive_take-IsRunning, recvtime_take-IsRunning}
use ece592_final_project.Sched.Block.{leave-IsRunning}
use ece592_final_project.Clock.Sleep.{doze-IsRunning}

-- The kernel where a call has returned or waits.
abbrev pub after : Call → Kernel
after (Call.returned r k) = k
after (Call.waiting k) = k

receive_wait :
    (k : Kernel)
    → (k.proctab k.currpid).hasmsg ≡ false
    → receive k ≡ Call.waiting (resched (set_state k.currpid PrState.recv k))
unfolding receive
receive_wait k vacant = ground (arith, vacant)

recvtime_wait :
    (maxwait : ℕ) (k : Kernel)
    → is_neg maxwait ≡ false
    → (k.proctab k.currpid).hasmsg ≡ false
    → let (result, t) = insertd k.proctab k.currpid k.sleepq maxwait k.queuetab in
      result ≡ ok
      → recvtime maxwait k
        ≡ Call.waiting (resched (set_state k.currpid PrState.rectim (record k { queuetab = t })))
unfolding recvtime
recvtime_wait maxwait k pos vacant linked = ground (arith, vacant, linked)

-- `receive` by a running process other than the null process, with no rescheduling deferred.
pub receive-IsRunning :
    (k : Kernel) → IsRunning 0 k → k.currpid ≢ nullproc → IsRunning 0 (after (receive k))
unfolding receive
receive-IsRunning k run user = elim (Bool-cases (k.proctab k.currpid).hasmsg) [
  | inl full ↦ rw full (receive_take-IsRunning 0 k.currpid k run)
  | inr vacant ↦ rw (receive_wait k vacant) (leave-IsRunning k PrState.recv refl user run)
]

-- `recvtime` by a running process other than the null process, with no rescheduling deferred, keeps
-- the invariant of the kernel up to its return or its `resched`, whatever the time: a caller that
-- waits is in the sleep queue, and a process runs.
pub recvtime-IsRunning :
    (maxwait : ℕ) (k : Kernel)
    → IsRunning 0 k
    → k.currpid ≢ nullproc
    → IsRunning 0 (after (recvtime maxwait k))
unfolding recvtime
recvtime-IsRunning maxwait k run user = elim (Bool-cases (is_neg maxwait)) [
  | inl neg ↦ rw neg run
  | inr pos ↦ elim (Bool-cases (k.proctab k.currpid).hasmsg) [
    | inl full ↦ rw (pos, full) (recvtime_take-IsRunning 0 k.currpid k run)
    | inr vacant ↦
        let d = doze-IsRunning k maxwait PrState.rectim refl user run in
        rw (recvtime_wait maxwait k pos vacant d.0) d.1
  ]
]
