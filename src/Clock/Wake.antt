-- ===== src/Clock/Wake.antt =====
-- `wakeup` and `clkhandler` keep the invariant of the kernel.
use ece592_final_project.Base.{
  ◌+◌, sym, ap, signed_le, sub32, ℕ, zero, suc, ◌<◌, ◌≡◌, refl, ◌∙◌, inl, inr, true, List, arith,
  ◌==◌, ◌&&◌, Bool-cases, List-cases, has, update,
}
use ece592_final_project.Clock.{
  Defer, resched_cntl, quantum, firstkey, ready, nqent, dequeue, firstid, nonempty, wakeup_loop,
  tick_sleep, tick_preempt, tick_second, wakeup, clkhandler,
}
use ece592_final_project.Kernel.{Kernel}
use ece592_final_project.Sched.Invariant.{IsKernel, IsRunning}
use ece592_final_project.Queue.Refine.{isempty-cons, first-view, isempty-nil}
use ece592_final_project.Sched.Deferral.{start-IsRunning, IsKernel-counters, stop-IsRunning}
use ece592_final_project.Queue.Table.{lt_of_has, IsTable-key}
use ece592_final_project.Clock.Leave.{Descending-agree}
use ece592_final_project.Sched.Keep.{resched-KeepsOn}
use ece592_final_project.Sched.Ready.{semtab-resched, first_ready}
use ece592_final_project.Queue.Links.{head_or}

-- The first process of the sleep queue becomes ready.
pub wake_first :
    (n : ℕ) (k : Kernel)
    → IsRunning n k
    → nonempty k.queuetab k.sleepq ≡ true
    → let (pid, t) = dequeue k.sleepq k.queuetab in
      IsRunning n (ready pid (record k { queuetab = t })).1
wake_first n k (view, v, same, on, unused) some_wait = elim (List-cases (view k.sleepq)) [
  | inl none_wait ↦
      absurd (ground (arith, isempty-nil v.sched.table k.sleepq v.sched.sleep_qid none_wait))
  | inr (x, xs, e) ↦
      let (first, r) =
        first_ready v.sched v.placed k.sleepq x v.sched.sleep_qid
          (λ h. v.sched.ready_ne_sleep (sym h)) xs e in
      rw first (
        r.0,
        record {
          sched = r.1;
          placed = r.2;
          counts = λ s ls. rw (r.5.semtab_same) (
              ground (
                arith,
                r.3 (k.semtab s).squeue (v.sched.sem_qid s ls) (v.sched.ready_ne_sem s ls),
                v.counts s ls,
                v.sched.sleep_ne_sem s ls,
              ));
        },
        r.5.ndefers_same ∙ same,
        r.4 (inr on),
        λ s ls. rw (r.5.semtab_same) (unused s ls),
      )
]

pub wakeup_loop-IsRunning :
    (rounds n : ℕ) (k : Kernel) → IsRunning n k → IsRunning n (wakeup_loop rounds k)
unfolding wakeup_loop
wakeup_loop-IsRunning zero n k run = run
wakeup_loop-IsRunning (suc rounds) n k run =
    elim (Bool-cases (nonempty k.queuetab k.sleepq && signed_le (firstkey k.queuetab k.sleepq) 0)) [
      | inl due ↦
          rw (wakeup_loop, due)
            (wakeup_loop-IsRunning rounds n _ (wake_first n k run (ground arith)))
      | inr later ↦ rw (wakeup_loop, later) run
    ]

-- `wakeup` by a running process keeps the invariant.
pub wakeup-IsRunning :
    (n : ℕ) (k : Kernel) → n < 0x7fff_ffff → IsRunning n k → IsRunning n (wakeup k)
unfolding wakeup
wakeup-IsRunning n k small run = stop-IsRunning n _ small (
    wakeup_loop-IsRunning nqent (suc n) (resched_cntl Defer.start k).1
      (start-IsRunning n k small run))

pub tick_second-IsRunning : (n : ℕ) (k : Kernel) → IsRunning n k → IsRunning n (tick_second k)
unfolding tick_second
tick_second-IsRunning n k (view, v, same, on, unused) =
    elim (Bool-cases (sub32 k.count1000 1 == 0)) [
      | inl full ↦ rw full (view, IsKernel-counters v _ refl, same, on, unused)
      | inr part ↦ rw part (view, IsKernel-counters v _ refl, same, on, unused)
    ]

-- The key of a process of the sleep queue may change.
pub set_key-IsKernel :
    {k : Kernel} {view : ℕ → List ℕ}
    → IsKernel k view
    → (x key : ℕ) → has x (view k.sleepq) ≡ true
    → IsKernel
        (record k { queuetab = record k.queuetab { key = update k.queuetab.key x key } })
        view
set_key-IsKernel {k} {view} v x key here = record {
  sched = record {
    table = IsTable-key v.sched.table (update k.queuetab.key x key) (λ a h. ground (
      arith,
      lt_of_has x (view k.sleepq) (v.sched.table.members k.sleepq v.sched.sleep_qid) here,
    ));
    sem_next = v.sched.sem_next;
    ready_qid = v.sched.ready_qid;
    sleep_qid = v.sched.sleep_qid;
    sem_qid = v.sched.sem_qid;
    ready_ne_sleep = v.sched.ready_ne_sleep;
    ready_ne_sem = v.sched.ready_ne_sem;
    sleep_ne_sem = v.sched.sleep_ne_sem;
    sem_inj = v.sched.sem_inj;
    housed = v.sched.housed;
    queued = v.sched.queued;
    prios = v.sched.prios;
    running = v.sched.running;
    one = v.sched.one;
    null = v.sched.null;
    ordered =
        Descending-agree k.queuetab.key (update k.queuetab.key x key) (view k.readylist)
          (λ a h. ground (
            arith,
            v.sched.table.apart k.readylist k.sleepq a v.sched.ready_qid v.sched.sleep_qid
                v.sched.ready_ne_sleep h,
          ))
          v.sched.ordered;
  };
  placed = v.placed;
  counts = v.counts;
}

pub tick_sleep-IsRunning :
    (n : ℕ) (k : Kernel) → n < 0x7fff_ffff → IsRunning n k → IsRunning n (tick_sleep k)
unfolding tick_sleep
tick_sleep-IsRunning n k small (view, v, same, on, unused) = elim (List-cases (view k.sleepq)) [
  | inl none_wait ↦
      rw (isempty-nil v.sched.table k.sleepq v.sched.sleep_qid none_wait)
        (view, v, same, on, unused)
  | inr (x, xs, e) ↦
      let first : firstid k.queuetab k.sleepq ≡ x =
        first-view v.sched.table k.sleepq v.sched.sleep_qid ∙ ap (head_or (k.sleepq + 1)) e in
      let key = sub32 (k.queuetab.key x) 1 in
      let k1 : Kernel = record k {
        queuetab = record k.queuetab { key = update k.queuetab.key x key };
      } in
      let run : IsRunning n k1 =
        (view, set_key-IsKernel v x key (ground (arith, e)), same, on, unused) in
      let at : update k.queuetab.key x key x ≡ key = ground arith in
      rw (isempty-cons v.sched.table k.sleepq v.sched.sleep_qid x xs e, first, at)
        (elim (Bool-cases (signed_le key 0)) [
          | inl due ↦ rw due (wakeup-IsRunning n k1 small run)
          | inr later ↦ rw later run
        ])
]

tick_preempt-IsRunning : (n : ℕ) (k : Kernel) → IsRunning n k → IsRunning n (tick_preempt k)
unfolding tick_preempt
tick_preempt-IsRunning n k (view, v, same, on, unused) =
    elim (Bool-cases (sub32 k.preempt 1 == 0)) [
      | inr part ↦ rw part (view, IsKernel-counters v _ refl, same, on, unused)
      | inl full ↦
          let k1 : Kernel = record k { preempt = quantum } in
          let v1 : IsKernel k1 view = IsKernel-counters v k1 refl in
          let r = resched-KeepsOn v1 (inr on) in
          rw full (r.0, r.1, r.3 ∙ same, r.2, λ t lt. rw (semtab-resched k1) (unused t lt))
    ]

-- The clock interrupt keeps the invariant of the kernel, also where it makes processes ready whose delay
-- is over and where it preempts the running process, and a process runs afterwards. At most
-- 2 ^ 31 - 2 deferrals are outstanding.
pub clkhandler-IsRunning :
    (n : ℕ) (k : Kernel) → n < 0x7fff_ffff → IsRunning n k → IsRunning n (clkhandler k)
unfolding clkhandler
clkhandler-IsRunning n k small run =
    tick_preempt-IsRunning n (tick_sleep (tick_second k))
      (tick_sleep-IsRunning n (tick_second k) small (tick_second-IsRunning n k run))
