-- ===== src/Message/Invariant.antt =====
-- `send` keeps the invariant of the kernel.
use ece592_final_project.Base.{
  ap, Bool, ℕ, ◌≡◌, refl, ◌∙◌, inl, inr, true, false, List, arith, has, Bool-cases, split_of_has,
}
use ece592_final_project.Message.{
  ready, set_proc, unsleep, isbadpid, PrState, recvtime_take, receive_take, wake_receiver, recvclr,
  send,
}
use ece592_final_project.Kernel.{Kernel}
use ece592_final_project.Sched.Invariant.{KeepsOn, is_on, IsRunning, IsKernel}
use ece592_final_project.Sched.MakeReady.{IsLoose-of_state}
use ece592_final_project.Sched.Ready.{PlacedAs-out, semtab-ready}
use ece592_final_project.Queue.Refine.{isbadpid-lt}
use ece592_final_project.Sched.Block.{set_fields-IsKernel}
use ece592_final_project.Clock.Leave.{unsleep-IsSched, unsleep_same}
use ece592_final_project.Sched.Keep.{ready-KeepsOn}

set_msg-IsKernel :
    {k : Kernel} {view : ℕ → List ℕ}
    → IsKernel k view
    → (pid msg : ℕ) (full : Bool)
    → IsKernel (set_proc pid (record (k.proctab pid) { msg = msg; hasmsg = full }) k) view
set_msg-IsKernel {k} v pid msg full =
    set_fields-IsKernel v pid (record (k.proctab pid) { msg = msg; hasmsg = full }) refl refl
      (v.sched.prios pid)

module _ {k : Kernel} {view : ℕ → List ℕ} (v : IsKernel k view) (pid : ℕ)
    (on : is_on k ≡ true) where
  recv-KeepsOn :
      isbadpid k.proctab pid ≡ false
      → (k.proctab pid).state ≡ PrState.recv
      → KeepsOn k (ready pid k).1
  recv-KeepsOn good e =
      ready-KeepsOn v.sched v.counts pid (λ p lt ne. v.placed p lt) good
        (IsLoose-of_state v.sched pid (λ q home. ground arith)) (ground arith) on

  rectim-KeepsOn :
      isbadpid k.proctab pid ≡ false
      → (k.proctab pid).state ≡ PrState.rectim
      → has pid (view k.sleepq) ≡ true
      → KeepsOn k (ready pid (unsleep pid k).1).1
  rectim-KeepsOn good e here =
      let (xs, ys, split) = split_of_has pid (view k.sleepq) here in
      let u = unsleep-IsSched k v.sched pid xs ys good (ground arith) split in
      let same = unsleep_same k pid in
      rw same (
        ready-KeepsOn (rw same at u.0)
          (λ s lt. ground (arith, v.counts s lt, v.sched.sleep_ne_sem s lt)) pid
          (λ p lt ne.
            PlacedAs-out k view k.sleepq pid xs ys p split ne (k.proctab p).sem (k.proctab p).state
              (v.placed p lt))
          good u.1 (ground arith) on)

  wake-KeepsOn :
      (s : PrState)
      → (k.proctab pid).state ≡ s
      → isbadpid k.proctab pid ≡ false
      → KeepsOn k (wake_receiver s pid k)
  unfolding wake_receiver
  wake-KeepsOn PrState.free e good = (view, v, on, refl)
  wake-KeepsOn PrState.curr e good = (view, v, on, refl)
  wake-KeepsOn PrState.ready e good = (view, v, on, refl)
  wake-KeepsOn PrState.recv e good = recv-KeepsOn good e
  wake-KeepsOn PrState.sleep e good = (view, v, on, refl)
  wake-KeepsOn PrState.susp e good = (view, v, on, refl)
  wake-KeepsOn PrState.wait e good = (view, v, on, refl)
  wake-KeepsOn PrState.rectim e good =
      rectim-KeepsOn good e (rw e at (v.placed pid (isbadpid-lt k.proctab pid good)))

semtab-wake : (s : PrState) (pid : ℕ) (k : Kernel) → (wake_receiver s pid k).semtab ≡ k.semtab
unfolding wake_receiver
semtab-wake PrState.free pid k = refl
semtab-wake PrState.curr pid k = refl
semtab-wake PrState.ready pid k = refl
semtab-wake PrState.recv pid k = semtab-ready pid k
semtab-wake PrState.sleep pid k = refl
semtab-wake PrState.susp pid k = refl
semtab-wake PrState.wait pid k = refl
semtab-wake PrState.rectim pid k =
    semtab-ready pid (unsleep pid k).1 ∙ ap (λ k'. k'.semtab) (unsleep_same k pid)

-- `send` by a running process keeps the invariant of the kernel on every branch, also where it makes
-- a recipient ready that waits for a message, in the sleep queue or without a limit, and a process is
-- running afterwards.
pub send-IsRunning : (n pid msg : ℕ) (k : Kernel) → IsRunning n k → IsRunning n (send pid msg k).1
unfolding send
send-IsRunning n pid msg k (view, v, same, on, unused) =
    elim (Bool-cases (isbadpid k.proctab pid)) [
      | inl bad ↦ rw bad (view, v, same, on, unused)
      | inr good ↦ rw good (elim (Bool-cases (k.proctab pid).hasmsg) [
        | inl full ↦ rw full (view, v, same, on, unused)
        | inr vacant ↦
            let k1 = set_proc pid (record (k.proctab pid) { msg = msg; hasmsg = true }) k in
            let v1 = set_msg-IsKernel v pid msg true in
            let s = (k.proctab pid).state in
            let state : (k1.proctab pid).state ≡ s = ground arith in
            let r : KeepsOn k1 (wake_receiver s pid k1) =
              wake-KeepsOn v1 pid (ground arith) s state (ground arith) in
            rw vacant (r.0, r.1, r.3 ∙ same, r.2, λ t lt. rw (semtab-wake s pid k1) (unused t lt))
      ])
    ]

-- `receive` up to its return or its `resched`: a waiting process goes to PR_RECV.
pub receive_take-IsRunning :
    (n pid : ℕ) (k : Kernel) → IsRunning n k → IsRunning n (receive_take pid k).1
unfolding receive_take
receive_take-IsRunning n pid k (view, v, same, on, unused) =
    (view, set_msg-IsKernel v pid (k.proctab pid).msg false, same, ground arith, unused)

pub recvclr-IsRunning : (n : ℕ) (k : Kernel) → IsRunning n k → IsRunning n (recvclr k).1
unfolding recvclr
recvclr-IsRunning n k (view, v, same, on, unused) = elim (Bool-cases (k.proctab k.currpid).hasmsg) [
  | inr vacant ↦ rw vacant (view, v, same, on, unused)
  | inl full ↦ rw full (
    view,
    set_msg-IsKernel v k.currpid (k.proctab k.currpid).msg false,
    same,
    ground arith,
    unused,
  )
]

pub recvtime_take-IsRunning :
    (n pid : ℕ) (k : Kernel) → IsRunning n k → IsRunning n (recvtime_take pid k).1
unfolding recvtime_take
recvtime_take-IsRunning n pid k (view, v, same, on, unused) =
    elim (Bool-cases (k.proctab pid).hasmsg) [
      | inr vacant ↦ rw vacant (view, v, same, on, unused)
      | inl full ↦
          rw full
            (view, set_msg-IsKernel v pid (k.proctab pid).msg false, same, ground arith, unused)
    ]
