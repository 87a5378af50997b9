-- ===== src/Sched/Deferral.antt =====
-- `resched_cntl`: a deferral is counted up and down, and rescheduling that was due takes place at the
-- last DEFER_STOP.
use ece592_final_project.Base.{
  sub32, signed_le, ℕ, suc, ◌<◌, ◌≡◌, refl, inl, inr, true, false, List, arith, ◌==◌, ◌&&◌,
  Bool-cases,
}
use ece592_final_project.Sched.{Defer, resched_cntl}
use ece592_final_project.Kernel.{Kernel}
use ece592_final_project.Sched.Invariant.{is_on, IsKernel, IsRunning}
use ece592_final_project.Sched.Keep.{resched-KeepsOn}
use ece592_final_project.Sched.Ready.{semtab-resched}

-- The counters, among them those of the clock and of rescheduling, play no part in the invariant.
pub IsKernel-counters :
    {k : Kernel} {view : ℕ → List ℕ}
    → IsKernel k view
    → (k' : Kernel)
    → k' ≡ record k {
      attempt = k'.attempt;
      ndefers = k'.ndefers;
      preempt = k'.preempt;
      prcount = k'.prcount;
      clktime = k'.clktime;
      count1000 = k'.count1000;
      nextpid = k'.nextpid;
      cr3 = k'.cr3;
    }
    → IsKernel k' view
IsKernel-counters {k} {view} v k' e = rw e (record {
  sched = record {
    table = v.sched.table;
    sem_next = v.sched.sem_next;
    ready_qid = v.sched.ready_qid;
    sleep_qid = v.sched.sleep_qid;
    sem_qid = v.sched.sem_qid;
    ready_ne_sleep = v.sched.ready_ne_sleep;
    ready_ne_sem = v.sched.ready_ne_sem;
    sleep_ne_sem = v.sched.sleep_ne_sem;
    sem_inj = v.sched.sem_inj;
    housed = v.sched.housed;
    queued = v.sched.queued;
    prios = v.sched.prios;
    running = v.sched.running;
    one = v.sched.one;
    null = v.sched.null;
    ordered = v.sched.ordered;
  };
  placed = v.placed;
  counts = v.counts;
})

-- What DEFER_START leaves.
module _ (k : Kernel) where
  pub semtab-start : (resched_cntl Defer.start k).1.semtab ≡ k.semtab
  unfolding resched_cntl
  semtab-start = refl

  pub start-IsKernel :
      {view : ℕ → List ℕ} → IsKernel k view → IsKernel (resched_cntl Defer.start k).1 view
  unfolding resched_cntl
  start-IsKernel v = IsKernel-counters v _ refl

  pub is_on-start : is_on k ≡ true → is_on (resched_cntl Defer.start k).1 ≡ true
  unfolding resched_cntl
  is_on-start on = on

  pub ndefers-start :
      {n : ℕ} → k.ndefers ≡ n → n < 0x7fff_ffff → (resched_cntl Defer.start k).1.ndefers ≡ suc n
  unfolding resched_cntl
  ndefers-start same small = ground arith

-- DEFER_START adds a deferral, within int32.
pub start-IsRunning :
    (n : ℕ) (k : Kernel)
    → n < 0x7fff_ffff
    → IsRunning n k
    → IsRunning (suc n) (resched_cntl Defer.start k).1
start-IsRunning n k small (view, v, same, on, unused) = (
  view,
  start-IsKernel k v,
  ndefers-start k same small,
  is_on-start k on,
  rw (semtab-start k) unused,
)

-- DEFER_STOP takes one off. A process runs, the caller or, where rescheduling was asked for meanwhile
-- and no deferral is left, the first of the ready list.
pub stop-IsRunning :
    (n : ℕ) (k : Kernel)
    → n < 0x7fff_ffff
    → IsRunning (suc n) k
    → IsRunning n (resched_cntl Defer.stop k).1
unfolding resched_cntl
stop-IsRunning n k small (view, v, same, on, unused) =
    let some_deferred : signed_le k.ndefers 0 ≡ false = ground arith in
    let down : sub32 k.ndefers 1 ≡ n = ground arith in
    elim (Bool-cases ((n == 0) && k.attempt)) [
      | inr late ↦
          rw (some_deferred, down, late) (view, IsKernel-counters v _ refl, refl, on, unused)
      | inl now ↦
          let k1 : Kernel = record k { ndefers = n } in
          let v1 : IsKernel k1 view = IsKernel-counters v k1 refl in
          let r = resched-KeepsOn v1 (inr on) in
          rw (some_deferred, down, now)
            (r.0, r.1, r.3, r.2, λ t lt. rw (semtab-resched k1) (unused t lt))
    ]
