-- ===== src/Clock/Sleep.antt =====
-- A process that goes to sleep keeps the invariant of the kernel.
use ece592_final_project.Base.{
  mul32, signed_lt, is_neg, sym, ok, sub32, ℕ, ◌≡◌, refl, ◌≢◌, ◌∙◌, inl, inr, true, false, List, [],
  ◌∷◌, arith, ◌==◌, ◌||◌, Bool-cases, update, has, if◌then◌else◌,
}
use ece592_final_project.Queue.{insertd}
use ece592_final_project.Queue.Delta.{has-dback, insertd_refines, dback, drest, dplace, dkeys}
use ece592_final_project.Kernel.{set_state, Kernel}
use ece592_final_project.Sched.Invariant.{IsRunning, Home, PlacedAs, is_on, IsKernel}
use ece592_final_project.Sched.MakeReady.{IsLoose-of_curr}
use ece592_final_project.Process.{nullproc, Proc, PrState}
use ece592_final_project.Queue.Order.{Descending}
use ece592_final_project.Queue.Table.{IsTable, IsLoose}
use ece592_final_project.Clock.{maxseconds, sleepms, sleep, resched, is_asleep}
use ece592_final_project.Clock.Leave.{Descending-agree}
use ece592_final_project.Sched.Keep.{resched-KeepsOn}
use ece592_final_project.Sched.Ready.{semtab-resched}
use ece592_final_project.Sched.Block.{yield-IsRunning}

-- The delta list with a new process.
has-dplace :
    (k : ℕ → ℕ) (pid key a : ℕ) (xs : List ℕ)
    → has a (dplace k pid key xs) ≡ ((a == pid) || has a xs)
has-dplace k pid key a [] = ground arith
has-dplace k pid key a (x ∷ xs) = ground (arith, has-dplace k pid (sub32 key (k x)) a xs)

dkeys-agree :
    (k : ℕ → ℕ) (pid r a : ℕ) (bs : List ℕ)
    → (a == pid) ≡ false
    → has a bs ≡ false
    → dkeys k pid r bs a ≡ k a
dkeys-agree k pid r a [] ne out = ground arith
dkeys-agree k pid r a (b ∷ bs) ne out = ground arith

module _ {k : Kernel} {view : ℕ → List ℕ} (v : IsKernel k view) (on : is_on k ≡ true)
    (key : ℕ) where
  abbrev slept : ℕ → List ℕ
  slept = update view k.sleepq (dplace k.queuetab.key k.currpid key (view k.sleepq))

  abbrev asleep : PrState → Kernel
  asleep s =
      set_state k.currpid s
        (record k { queuetab = (insertd k.proctab k.currpid k.sleepq key k.queuetab).1 })

  loose : IsLoose k.currpid view
  loose = IsLoose-of_curr v.sched k.currpid on

  pub insertd_curr :
      ((insertd k.proctab k.currpid k.sleepq key k.queuetab).0 ≡ ok)
      × IsTable (insertd k.proctab k.currpid k.sleepq key k.queuetab).1 slept
      × ((insertd k.proctab k.currpid k.sleepq key k.queuetab).1.key
          ≡ dkeys k.queuetab.key k.currpid
              (drest k.queuetab.key key (view k.sleepq))
              (dback k.queuetab.key key (view k.sleepq)))
  insertd_curr =
      insertd_refines v.sched.table k.proctab k.currpid k.sleepq key v.sched.sleep_qid
        (ground (arith, v.sched.running)) loose

  other : (k.sleepq == k.readylist) ≡ false
  other = ground (arith, v.sched.ready_ne_sleep)

  has-slept :
      (a q : ℕ)
      → has a (slept q)
        ≡ (if k.sleepq == q then (a == k.currpid) || has a (view q) else has a (view q))
  has-slept a q = elim (Bool-cases (k.sleepq == q)) [
    | inl same ↦
        let at : k.sleepq ≡ q = ground arith in
        rw (same, at) (has-dplace k.queuetab.key k.currpid key a (view q))
    | inr diff ↦ rw diff
  ]

  stay : (a q : ℕ) → has a (view q) ≡ true → has a (slept q) ≡ true
  stay a q h = ground (arith, has-slept a q)

  asleep-ordered :
      Descending (insertd k.proctab k.currpid k.sleepq key k.queuetab).1.key (view k.readylist)
  asleep-ordered = rw (insertd_curr.2) (
      Descending-agree k.queuetab.key
        (dkeys k.queuetab.key k.currpid (drest k.queuetab.key key (view k.sleepq))
          (dback k.queuetab.key key (view k.sleepq)))
        (view k.readylist)
        (λ a h.
          dkeys-agree k.queuetab.key k.currpid _ a _
            (ground (arith, loose k.readylist v.sched.ready_qid))
            (has-dback k.queuetab.key a key (view k.sleepq) (
              v.sched.table.apart k.readylist k.sleepq a v.sched.ready_qid v.sched.sleep_qid
                v.sched.ready_ne_sleep h)))
        v.sched.ordered)

  Home-asleep :
      (s : PrState) (p : Proc) → is_asleep s ≡ true → Home k k.sleepq (record p { state = s })
  Home-asleep PrState.sleep p h = refl
  Home-asleep PrState.rectim p h = refl
  Home-asleep PrState.free p h = absurd (ground arith)
  Home-asleep PrState.curr p h = absurd (ground arith)
  Home-asleep PrState.ready p h = absurd (ground arith)
  Home-asleep PrState.recv p h = absurd (ground arith)
  Home-asleep PrState.susp p h = absurd (ground arith)
  Home-asleep PrState.wait p h = absurd (ground arith)

  PlacedAs-asleep : (s : PrState) (sem : ℕ) → is_asleep s ≡ true → PlacedAs k slept k.currpid sem s
  PlacedAs-asleep PrState.sleep sem h = ground (arith, has-slept k.currpid k.sleepq)
  PlacedAs-asleep PrState.rectim sem h = ground (arith, has-slept k.currpid k.sleepq)
  PlacedAs-asleep PrState.free sem h = absurd (ground arith)
  PlacedAs-asleep PrState.curr sem h = absurd (ground arith)
  PlacedAs-asleep PrState.ready sem h = absurd (ground arith)
  PlacedAs-asleep PrState.recv sem h = absurd (ground arith)
  PlacedAs-asleep PrState.susp sem h = absurd (ground arith)
  PlacedAs-asleep PrState.wait sem h = absurd (ground arith)

  PlacedAs-stay : (p sem : ℕ) (s : PrState) → PlacedAs k view p sem s → PlacedAs k slept p sem s
  PlacedAs-stay p sem PrState.ready h = stay p k.readylist h
  PlacedAs-stay p sem PrState.sleep h = stay p k.sleepq h
  PlacedAs-stay p sem PrState.rectim h = stay p k.sleepq h
  PlacedAs-stay p sem PrState.wait h = (h.0, stay p (k.semtab sem).squeue h.1)
  PlacedAs-stay p sem PrState.free h = tt
  PlacedAs-stay p sem PrState.curr h = tt
  PlacedAs-stay p sem PrState.recv h = tt
  PlacedAs-stay p sem PrState.susp h = tt

  -- The current process joins the delta list and goes to a state that is asleep.
  pub asleep-IsKernel :
      (s : PrState) → is_asleep s ≡ true → k.currpid ≢ nullproc → IsKernel (asleep s) slept
  asleep-IsKernel s h user = record {
    sched = record {
      table = insertd_curr.1;
      sem_next = v.sched.sem_next;
      ready_qid = v.sched.ready_qid;
      sleep_qid = v.sched.sleep_qid;
      sem_qid = v.sched.sem_qid;
      ready_ne_sleep = v.sched.ready_ne_sleep;
      ready_ne_sem = v.sched.ready_ne_sem;
      sleep_ne_sem = v.sched.sleep_ne_sem;
      sem_inj = v.sched.sem_inj;
      housed = λ q p iq m. elim (Bool-cases (k.currpid == p)) [
        | inl same ↦
            let at : k.sleepq ≡ q = ground (arith, loose q iq, has-slept p q) in
            rw (same, sym at) (Home-asleep s (k.proctab k.currpid) h)
        | inr diff ↦ rw diff (v.sched.housed q p iq (ground (arith, has-slept p q)))
      ];
      queued = λ p lt r. rw other (ground (arith, v.sched.queued p lt));
      prios = λ p. ground (arith, v.sched.prios p, v.sched.prios k.currpid);
      running = v.sched.running;
      one = λ p lt c. ground (arith, v.sched.one p lt);
      null = ground (arith, v.sched.null);
      ordered = rw other asleep-ordered;
    };
    placed = λ p lt. elim (Bool-cases (k.currpid == p)) [
      | inl same ↦
          let at : k.currpid ≡ p = ground arith in rw (same, sym at) (PlacedAs-asleep s _ h)
      | inr diff ↦ rw diff (PlacedAs-stay p (k.proctab p).sem (k.proctab p).state (v.placed p lt))
    ];
    counts = λ s lt. ground (arith, v.counts s lt, v.sched.sleep_ne_sem s lt);
  }

-- The running process goes to sleep.
pub doze-IsRunning :
    (k : Kernel) (key : ℕ) (s : PrState)
    → is_asleep s ≡ true
    → k.currpid ≢ nullproc
    → IsRunning 0 k
    → ((insertd k.proctab k.currpid k.sleepq key k.queuetab).0 ≡ ok)
      × IsRunning 0 (
          resched (
            set_state k.currpid s
              (record k { queuetab = (insertd k.proctab k.currpid k.sleepq key k.queuetab).1 })))
doze-IsRunning k key s h user (view, v, zero, on, unused) =
    let r = resched-KeepsOn (asleep-IsKernel v on key s h user) (inl zero) in
    (
      (insertd_curr v on key).0,
      (r.0, r.1, r.3 ∙ zero, r.2, λ t lt. rw (semtab-resched (asleep v on key s)) (unused t lt)),
    )

-- `sleepms` by a running process other than the null process, with no rescheduling deferred, keeps
-- the invariant, whatever the delay: the caller, if it sleeps, is in the sleep queue, and another
-- process runs.
pub sleepms-IsRunning :
    (delay : ℕ) (k : Kernel)
    → IsRunning 0 k
    → k.currpid ≢ nullproc
    → IsRunning 0 (sleepms delay k).1
unfolding sleepms
sleepms-IsRunning delay k run user = elim (Bool-cases (is_neg delay)) [
  | inl neg ↦ rw neg run
  | inr pos ↦ elim (Bool-cases (delay == 0)) [
    | inl none_left ↦ rw (pos, none_left) (yield-IsRunning 0 k run)
    | inr some_left ↦
        let d = doze-IsRunning k delay PrState.sleep refl user run in rw (pos, some_left, d.0) d.1
  ]
]

-- `sleep` by a running process other than the null process, with no rescheduling deferred, keeps the
-- invariant of the kernel, whatever the delay: the caller, if it sleeps, is in the sleep queue, and a
-- process runs.
pub sleep-IsRunning :
    (delay : ℕ) (k : Kernel) → IsRunning 0 k → k.currpid ≢ nullproc → IsRunning 0 (sleep delay k).1
unfolding sleep
sleep-IsRunning delay k run user = elim (Bool-cases (is_neg delay || signed_lt maxseconds delay)) [
  | inl bad ↦ rw bad run
  | inr good ↦ rw good (sleepms-IsRunning (mul32 1000 delay) k run user)
]
