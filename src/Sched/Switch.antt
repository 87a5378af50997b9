-- ===== src/Sched/Switch.antt =====
-- `resched` keeps the invariant, and leaves a process of the highest priority running.
use ece592_final_project.Base.{
  ◌⊎◌, ℕ, ◌≡◌, refl, subst, inl, inr, Bool, true, false, List, ◌∷◌, arith, ◌==◌, update, has,
  Bool-cases, List-cases, signed_lt,
}
use ece592_final_project.Process.{PrState, nullproc}
use ece592_final_project.Queue.{QTab, dequeue, getfirst, getitem}
use ece592_final_project.Queue.Table.{IsQid}
use ece592_final_project.Queue.Refine.{dequeue_refines}
use ece592_final_project.Queue.Order.{Descending}
use ece592_final_project.Kernel.{Kernel}
use ece592_final_project.Sched.{is_curr, make_ready, switch_to_first, resched}
use ece592_final_project.Sched.Invariant.{is_on, Runs, Home, IsSched, Kept}
use ece592_final_project.Sched.Frame.{Frame-trans, Frame-refl, Frame}
use ece592_final_project.Sched.MakeReady.{with_ready, IsLoose-of_curr, make_ready-IsSched}

pub key-dequeue : (q : ℕ) (t : QTab) → (dequeue q t).1.key ≡ t.key
unfolding dequeue getfirst getitem
key-dequeue q t = ground arith

module _ {k : Kernel} {view : ℕ → List ℕ} (v : IsSched k view) where
  pub switch-IsSched :
      (x : ℕ) (xs : List ℕ)
      → view k.readylist ≡ x ∷ xs
      → is_curr (k.proctab k.currpid).state ≡ false
      → IsSched (switch_to_first k) (update view k.readylist xs)
        × ((switch_to_first k).currpid ≡ x)
        × (is_curr ((switch_to_first k).proctab (switch_to_first k).currpid).state ≡ true)
  unfolding switch_to_first
  switch-IsSched x xs e off =
      let r = dequeue_refines v.table k.readylist x xs v.ready_qid e in
      rw (r.0) (
        record {
          table = r.1;
          sem_next = v.sem_next;
          ready_qid = v.ready_qid;
          sleep_qid = v.sleep_qid;
          sem_qid = v.sem_qid;
          ready_ne_sleep = v.ready_ne_sleep;
          ready_ne_sem = v.ready_ne_sem;
          sleep_ne_sem = v.sleep_ne_sem;
          sem_inj = v.sem_inj;
          housed = λ q p iq h. home q p iq h (r.2 q iq);
          queued = λ p lt h. ground (arith, v.queued p lt, e);
          prios = λ p. ground (arith, v.prios p, v.prios x);
          running = ground (arith, v.table.members k.readylist v.ready_qid, e);
          one = λ p lt h. ground (arith, v.one p lt);
          null = ground (arith, v.null);
          ordered = rw (at_self, key-dequeue) rest;
        },
        refl,
        ground arith,
      )
    where
      at_self : (k.readylist == k.readylist) ≡ true
      at_self = ground arith

      rest : Descending k.queuetab.key xs
      rest = (subst (Descending k.queuetab.key) e v.ordered).1

      home :
          (q p : ℕ)
          → IsQid q
          → has p (update view k.readylist xs q) ≡ true
          → has x (update view k.readylist xs q) ≡ false
          → Home k q (update k.proctab x (record (k.proctab x) { state = PrState.curr }) p)
      home q p iq h out = elim (Bool-cases (x == p)) [
        | inl same ↦ rw same (absurd (ground arith))
        | inr diff ↦ rw diff (v.housed q p iq (ground arith))
      ]

  pub nonempty_of_off :
      is_curr (k.proctab k.currpid).state ≡ false
      → (x : ℕ) × (xs : List ℕ) × (view k.readylist ≡ x ∷ xs)
  nonempty_of_off off = elim (List-cases (view k.readylist)) [
    | inl none_ready ↦ absurd (ground (arith, v.null, v.one nullproc, v.queued nullproc))
    | inr found ↦ found
  ]

-- The variables of `struct defer` play no part in the invariant.
pub IsSched-flags :
    {k : Kernel} {view : ℕ → List ℕ}
    → IsSched k view
    → (a : Bool) (n : ℕ) → IsSched (record k { attempt = a; ndefers = n }) view
IsSched-flags v a n = record {
  table = v.table;
  sem_next = v.sem_next;
  ready_qid = v.ready_qid;
  sleep_qid = v.sleep_qid;
  sem_qid = v.sem_qid;
  ready_ne_sleep = v.ready_ne_sleep;
  ready_ne_sem = v.ready_ne_sem;
  sleep_ne_sem = v.sleep_ne_sem;
  sem_inj = v.sem_inj;
  housed = v.housed;
  queued = v.queued;
  prios = v.prios;
  running = v.running;
  one = v.one;
  null = v.null;
  ordered = v.ordered;
}

-- The view behind a `resched`: every queue but the ready list is as before, no process that does not
-- become ready or current has changed, and a process runs, unless rescheduling is deferred.
abbrev pub Rescheduled : Kernel → (ℕ → List ℕ) → Kernel → Type 0
Rescheduled k view k' =
    (view' : ℕ → List ℕ) × IsSched k' view' × Kept k view view' × Runs k k' × Frame k k'

-- The four ways of `resched`.
pub resched-cases :
    (k : Kernel)
    → (signed_lt 0 k.ndefers ≡ true) × (resched k ≡ record k { attempt = true })
      ⊎ (is_on k ≡ true) × (resched k ≡ k)
      ⊎ (is_on k ≡ true) × (resched k ≡ switch_to_first (make_ready k.currpid k))
      ⊎ (is_on k ≡ false) × (resched k ≡ switch_to_first k)
unfolding resched
resched-cases k = ground arith

switch-on : (k : Kernel) → is_on (switch_to_first k) ≡ true
unfolding switch_to_first
switch-on k = ground arith

switch-Frame : (k : Kernel) → Frame k (switch_to_first k)
unfolding switch_to_first
switch-Frame k = record {
  readylist_same = refl;
  sleepq_same = refl;
  semtab_same = refl;
  ndefers_same = refl;
  others = λ p. ground arith;
}

pub make_ready-Frame : (pid : ℕ) (k : Kernel) → Frame k (make_ready pid k)
unfolding make_ready
make_ready-Frame pid k = record {
  readylist_same = refl;
  sleepq_same = refl;
  semtab_same = refl;
  ndefers_same = refl;
  others = λ p. ground arith;
}

module _ {k : Kernel} {view : ℕ → List ℕ} (v : IsSched k view) where
  switch-Rescheduled :
      is_curr (k.proctab k.currpid).state ≡ false → Rescheduled k view (switch_to_first k)
  switch-Rescheduled off =
      let (x, xs, e) = nonempty_of_off v off in
      let r = switch-IsSched v x xs e off in
      (update view k.readylist xs, r.0, λ q iq ne. ground arith, λ h. switch-on k, switch-Frame k)

pub make_ready-off :
    (k : Kernel)
    → is_curr ((make_ready k.currpid k).proctab (make_ready k.currpid k).currpid).state ≡ false
unfolding make_ready
make_ready-off k = ground arith

module _ {k : Kernel} {view : ℕ → List ℕ} (v : IsSched k view) where
  -- What follows a `make_ready`, seen from before it.
  pub make_ready_then :
      (pid : ℕ) (k' : Kernel)
      → Rescheduled (make_ready pid k) (with_ready v pid) k'
      → is_curr (k.proctab pid).state ≡ false
      → Rescheduled k view k'
  unfolding make_ready
  make_ready_then pid k' r off = (
    r.0,
    r.1,
    λ q iq ne. ground (arith, r.2 q iq),
    λ h. r.3 (ground arith),
    Frame-trans (make_ready-Frame pid k) r.4,
  )

  insert_then_switch :
      is_curr (k.proctab k.currpid).state ≡ true
      → Rescheduled k view (switch_to_first (make_ready k.currpid k))
  insert_then_switch on =
      let k1 = make_ready k.currpid k in
      let r =
        switch-Rescheduled
          (make_ready-IsSched v k.currpid v.running (IsLoose-of_curr v k.currpid on))
          (make_ready-off k) in
      (
        r.0,
        r.1,
        λ q iq ne. ground (arith, r.2 q iq, make_ready-Frame k.currpid k),
        λ h. switch-on k1,
        Frame-trans (make_ready-Frame k.currpid k) r.4,
      )

  -- `resched` keeps the invariant of the process and queue tables and every queue but the ready list,
  -- changes no process but those that it makes ready or current, and leaves the current process in
  -- state PR_CURR unless rescheduling is deferred.
  pub resched-IsSched : Rescheduled k view (resched k)
  resched-IsSched = elim (resched-cases k) [
    | inl (deferred, e) ↦ rw e (
      view,
      IsSched-flags v true k.ndefers,
      λ q iq ne. refl,
      λ h. ground arith,
      record {
        readylist_same = refl;
        sleepq_same = refl;
        semtab_same = refl;
        ndefers_same = refl;
        others = λ p. inl refl;
      },
    )
    | inr (inl (on, e)) ↦ rw e (view, v, λ q iq ne. refl, λ h. on, Frame-refl k)
    | inr (inr (inl (on, e))) ↦ rw e (insert_then_switch on)
    | inr (inr (inr (off, e))) ↦ rw e (switch-Rescheduled v off)
  ]
