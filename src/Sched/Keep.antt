-- ===== src/Sched/Keep.antt =====
-- What the operations that end in `resched` or `ready` do to the invariant of the kernel.
use ece592_final_project.Base.{
  ℕ, ◌<◌, ◌≡◌, ◌⊎◌, inl, inr, true, false, List, arith, ◌==◌, Bool-cases, length,
}
use ece592_final_project.Process.{nproc, isbadpid}
use ece592_final_project.Queue.Table.{IsLoose}
use ece592_final_project.Kernel.{Kernel, nsem}
use ece592_final_project.Sched.{is_curr, resched, ready}
use ece592_final_project.Sched.Invariant.{
  is_active, IsSched, IsKernel, Placed, Kept, KeepsOn, Balanced, is_on,
}
use ece592_final_project.Sched.Frame.{Placed-Frame}
use ece592_final_project.Sched.Switch.{Rescheduled, resched-IsSched}
use ece592_final_project.Sched.Ready.{ready-IsSched}

-- The part of the invariant that is about the semaphores.
abbrev pub Counts : Kernel → (ℕ → List ℕ) → Type 0
Counts k view =
    (s : ℕ) → s < nsem → Balanced (k.semtab s).scount (length (view (k.semtab s).squeue))

-- The semaphores and their queues are kept.
Counts-Kept :
    (k k' : Kernel) {view view' : ℕ → List ℕ}
    → IsSched k view
    → Counts k view
    → k'.semtab ≡ k.semtab
    → Kept k view view'
    → Counts k' view'
Counts-Kept k k' v c same kept s lt =
    rw (same, kept (k.semtab s).squeue (v.sem_qid s lt) (v.ready_ne_sem s lt)) (c s lt)

pub IsKernel-Rescheduled :
    {k k' : Kernel} {view : ℕ → List ℕ}
    → IsSched k view
    → Counts k view
    → (r : Rescheduled k view k')
    → ((p : ℕ) → p < nproc → Placed k view p ⊎ (is_active (k'.proctab p).state ≡ true))
    → IsKernel k' r.0
IsKernel-Rescheduled {k} {k'} v c r placed = record {
  sched = r.1;
  placed = λ p lt. Placed-Frame v r.1 r.2 r.4 p lt (placed p lt);
  counts = Counts-Kept k k' v c r.4.semtab_same r.2;
}

-- `resched` where rescheduling is not deferred or the caller runs on.
pub resched-KeepsOn :
    {k : Kernel} {view : ℕ → List ℕ}
    → IsKernel k view
    → (k.ndefers ≡ 0) ⊎ (is_on k ≡ true)
    → KeepsOn k (resched k)
resched-KeepsOn v on =
    let r = resched-IsSched v.sched in
    (
      r.0,
      IsKernel-Rescheduled v.sched v.counts r (λ p lt. inl (v.placed p lt)),
      r.3 on,
      r.4.ndefers_same,
    )

-- `ready` of a process that is in no queue and does not run.
pub ready-KeepsOn :
    {k : Kernel} {view : ℕ → List ℕ}
    → IsSched k view
    → Counts k view
    → (pid : ℕ) → ((p : ℕ) → p < nproc → (p == pid) ≡ false → Placed k view p)
    → isbadpid k.proctab pid ≡ false
    → IsLoose pid view
    → is_curr (k.proctab pid).state ≡ false
    → is_on k ≡ true
    → KeepsOn k (ready pid k).1
ready-KeepsOn {k} {view} v c pid placed good loose off on =
    let (r, active) = ready-IsSched v pid good loose off in
    (r.0, IsKernel-Rescheduled v c r (λ p lt. here active p lt), r.3 (inr on), r.4.ndefers_same)
  where
    here :
        is_active ((ready pid k).1.proctab pid).state ≡ true
        → (p : ℕ) → p < nproc
        → Placed k view p ⊎ (is_active ((ready pid k).1.proctab p).state ≡ true)
    here active p lt = elim (Bool-cases (p == pid)) [
      | inl same ↦ let at : p ≡ pid = ground arith in inr (rw at active)
      | inr diff ↦ inl (placed p lt diff)
    ]
