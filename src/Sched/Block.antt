-- ===== src/Sched/Block.antt =====
-- The invariant where the fields of a process change, and where a process in no queue goes to a state
-- that has no queue: `suspend`, `resume`, `yield`, `chprio`, and what they share with others.
use ece592_final_project.Base.{
  ℕ, ◌<◌, ◌≡◌, refl, ◌≢◌, ◌∙◌, inl, inr, true, false, List, arith, ◌==◌, Bool-cases, update,
  signed_lt,
}
use ece592_final_project.Process.{Proc, PrState, nproc, nullproc, isbadpid}
use ece592_final_project.Queue.{minkey}
use ece592_final_project.Queue.Table.{IsLoose}
use ece592_final_project.Kernel.{Kernel, set_state}
use ece592_final_project.Sched.{is_curr, is_ready, is_susp, resched, resume, yield, chprio}
use ece592_final_project.Sched.Invariant.{IsSched, IsKernel, IsRunning, Placed, PlacedAs}
use ece592_final_project.Sched.MakeReady.{IsLoose-of_state, IsLoose-of_curr}
use ece592_final_project.Sched.Ready.{semtab-resched, semtab-ready}
use ece592_final_project.Sched.Keep.{Counts, resched-KeepsOn, ready-KeepsOn}

-- The fields that play a part in the invariant of the tables are the state, the semaphore and the
-- priority.
pub set_fields-IsKernel :
    {k : Kernel} {view : ℕ → List ℕ}
    → IsKernel k view
    → (pid : ℕ) (new : Proc) → new.state ≡ (k.proctab pid).state
    → new.sem ≡ (k.proctab pid).sem
    → signed_lt minkey new.prio ≡ true
    → IsKernel (record k { proctab = update k.proctab pid new }) view
set_fields-IsKernel {k} {view} v pid new state sem prio = record {
  sched = record {
    table = v.sched.table;
    sem_next = v.sched.sem_next;
    ready_qid = v.sched.ready_qid;
    sleep_qid = v.sched.sleep_qid;
    sem_qid = v.sched.sem_qid;
    ready_ne_sleep = v.sched.ready_ne_sleep;
    ready_ne_sem = v.sched.ready_ne_sem;
    sleep_ne_sem = v.sched.sleep_ne_sem;
    sem_inj = v.sched.sem_inj;
    housed = λ q p iq h. elim (Bool-cases (pid == p)) [
      | inl same ↦
          let at : pid ≡ p = ground arith in rw (same, state, sem, at) (v.sched.housed q p iq h)
      | inr diff ↦ rw diff (v.sched.housed q p iq h)
    ];
    queued = λ p lt h. ground (arith, v.sched.queued p lt);
    prios = λ p. ground (arith, v.sched.prios p);
    running = v.sched.running;
    one = λ p lt h. ground (arith, v.sched.one p lt);
    null = ground (arith, v.sched.null);
    ordered = v.sched.ordered;
  };
  placed = λ p lt. elim (Bool-cases (pid == p)) [
    | inl same ↦ let at : pid ≡ p = ground arith in rw (same, state, sem, at) (v.placed p lt)
    | inr diff ↦ rw diff (v.placed p lt)
  ];
  counts = v.counts;
}

-- The states without a queue, but for that of the running process.
abbrev pub is_apart : PrState → ℕ
is_apart PrState.recv = 1
is_apart PrState.free = 1
is_apart PrState.susp = 1
is_apart _ = 0

pub PlacedAs-apart :
    (k : Kernel) (view : ℕ → List ℕ) (p sem : ℕ) (s : PrState)
    → is_apart s ≡ 1
    → PlacedAs k view p sem s
PlacedAs-apart k view p sem PrState.recv h = tt
PlacedAs-apart k view p sem PrState.susp h = tt
PlacedAs-apart k view p sem PrState.free h = tt
PlacedAs-apart k view p sem PrState.curr h = tt
PlacedAs-apart k view p sem PrState.ready h = absurd (omega arith)
PlacedAs-apart k view p sem PrState.sleep h = absurd (omega arith)
PlacedAs-apart k view p sem PrState.wait h = absurd (omega arith)
PlacedAs-apart k view p sem PrState.rectim h = absurd (omega arith)

-- The entry of a process that is in no queue changes to one in such a state.
pub set_apart-IsKernel :
    {k : Kernel} {view : ℕ → List ℕ}
    → IsSched k view
    → Counts k view
    → (pid : ℕ) (new : Proc) → ((p : ℕ) → p < nproc → (p == pid) ≡ false → Placed k view p)
    → is_apart new.state ≡ 1
    → signed_lt minkey new.prio ≡ true
    → pid ≢ nullproc
    → IsLoose pid view
    → IsKernel (record k { proctab = update k.proctab pid new }) view
set_apart-IsKernel {k} {view} v c pid new placed apart prio user loose = record {
  sched = record {
    table = v.table;
    sem_next = v.sem_next;
    ready_qid = v.ready_qid;
    sleep_qid = v.sleep_qid;
    sem_qid = v.sem_qid;
    ready_ne_sleep = v.ready_ne_sleep;
    ready_ne_sem = v.ready_ne_sem;
    sleep_ne_sem = v.sleep_ne_sem;
    sem_inj = v.sem_inj;
    housed = λ q p iq h. elim (Bool-cases (pid == p)) [
      | inl same ↦ absurd (ground (arith, loose q iq))
      | inr diff ↦ rw diff (v.housed q p iq h)
    ];
    queued = λ p lt h. elim (Bool-cases (pid == p)) [
      | inl same ↦ absurd (not_ready new.state apart (rw same at h))
      | inr diff ↦ v.queued p lt (rw diff at h)
    ];
    prios = λ p. ground (arith, v.prios p);
    running = v.running;
    one = λ p lt h. elim (Bool-cases (pid == p)) [
      | inl same ↦ absurd (not_curr new.state apart (rw same at h))
      | inr diff ↦ v.one p lt (rw diff at h)
    ];
    null = ground (arith, v.null);
    ordered = v.ordered;
  };
  placed = λ p lt. elim (Bool-cases (pid == p)) [
    | inl same ↦ rw same (PlacedAs-apart k view p new.sem new.state apart)
    | inr diff ↦ rw diff (placed p lt (ground arith))
  ];
  counts = c;
}
  where
    not_ready : (s : PrState) → is_apart s ≡ 1 → is_ready s ≡ true → ⊥
    not_ready s a r = ground arith

    not_curr : (s : PrState) → is_apart s ≡ 1 → is_curr s ≡ true → ⊥
    not_curr s a r = ground arith

pub set_state-IsKernel :
    {k : Kernel} {view : ℕ → List ℕ}
    → IsKernel k view
    → (pid : ℕ) (s : PrState) → is_apart s ≡ 1
    → pid ≢ nullproc
    → IsLoose pid view
    → IsKernel (set_state pid s k) view
set_state-IsKernel {k} v pid s apart user loose =
    set_apart-IsKernel v.sched v.counts pid (record (k.proctab pid) { state = s })
      (λ p lt ne. v.placed p lt) apart (v.sched.prios pid) user loose

-- The running process gives up the processor for a state without a queue.
pub leave-IsRunning :
    (k : Kernel) (s : PrState)
    → is_apart s ≡ 1
    → k.currpid ≢ nullproc
    → IsRunning 0 k
    → IsRunning 0 (resched (set_state k.currpid s k))
leave-IsRunning k s apart user (view, v, zero, on, unused) =
    let r =
      resched-KeepsOn
        (set_state-IsKernel v k.currpid s apart user (IsLoose-of_curr v.sched k.currpid on))
        (inl zero) in
    (r.0, r.1, r.3 ∙ zero, r.2, λ t lt. rw (semtab-resched (set_state k.currpid s k)) (unused t lt))

-- `yield` by a running process keeps the invariant.
pub yield-IsRunning : (n : ℕ) (k : Kernel) → IsRunning n k → IsRunning n (yield k).1
unfolding yield
yield-IsRunning n k (view, v, same, on, unused) =
    let r = resched-KeepsOn v (inr on) in
    (r.0, r.1, r.3 ∙ same, r.2, λ t lt. rw (semtab-resched k) (unused t lt))

-- `chprio` to a priority above the least int32, such as every pri16, keeps the invariant.
pub chprio-IsRunning :
    (n pid new : ℕ) (k : Kernel)
    → signed_lt minkey new ≡ true
    → IsRunning n k
    → IsRunning n (chprio pid new k).1
unfolding chprio
chprio-IsRunning n pid new k high (view, v, same, on, unused) =
    elim (Bool-cases (isbadpid k.proctab pid)) [
      | inl bad ↦ rw bad (view, v, same, on, unused)
      | inr good ↦ rw good (
        view,
        set_fields-IsKernel v pid (record (k.proctab pid) { prio = new }) refl refl high,
        same,
        ground arith,
        unused,
      )
    ]

-- `resume` by a running process keeps the invariant.
pub resume-IsRunning : (n pid : ℕ) (k : Kernel) → IsRunning n k → IsRunning n (resume pid k).1
unfolding resume
resume-IsRunning n pid k (view, v, same, on, unused) = elim (Bool-cases (isbadpid k.proctab pid)) [
  | inl bad ↦ rw bad (view, v, same, on, unused)
  | inr good ↦ rw good (elim (Bool-cases (is_susp (k.proctab pid).state)) [
    | inr other ↦ rw other (view, v, same, on, unused)
    | inl susp ↦
        let r =
          ready-KeepsOn v.sched v.counts pid (λ p lt ne. v.placed p lt) good
            (IsLoose-of_state v.sched pid (λ q home. ground arith)) (ground arith) on in
        rw susp (r.0, r.1, r.3 ∙ same, r.2, λ t lt. rw (semtab-ready pid k) (unused t lt))
  ])
]
