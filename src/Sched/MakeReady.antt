-- ===== src/Sched/MakeReady.antt =====
-- `make_ready` keeps the invariant of the tables.
use ece592_final_project.Base.{
  ℕ, ◌<◌, ◌≡◌, refl, inl, inr, true, false, ◌||◌, List, [], ◌∷◌, ◌++◌, arith, ◌==◌, update,
  if◌then◌else◌, has, Bool-cases,
}
use ece592_final_project.Process.{PrState, nproc, isbadpid}
use ece592_final_project.Queue.Table.{IsQid, IsTable, IsLoose}
use ece592_final_project.Queue.Refine.{front, back, insert_refines}
use ece592_final_project.Queue.Order.{Descending, insert-Descending}
use ece592_final_project.Kernel.{Kernel, set_state}
use ece592_final_project.Sched.{is_curr, make_ready}
use ece592_final_project.Sched.Invariant.{Home, IsSched}

has-place :
    (key : ℕ → ℕ) (new p pid : ℕ) (xs : List ℕ)
    → has p (front key new xs ++ (pid ∷ back key new xs)) ≡ ((p == pid) || has p xs)
has-place key new p pid [] = refl
has-place key new p pid (x ∷ xs) = ground (arith, has-place key new p pid xs)

module _ {k : Kernel} {view : ℕ → List ℕ} (v : IsSched k view) where
  -- A process whose state has no queue is in none.
  pub IsLoose-of_state : (p : ℕ) → ((q : ℕ) → ¬ Home k q (k.proctab p)) → IsLoose p view
  IsLoose-of_state p away q iq = elim (Bool-cases (has p (view q))) [
    | inl here ↦ absurd (away q (v.housed q p iq here))
    | inr gone ↦ gone
  ]

  pub IsLoose-of_curr : (p : ℕ) → is_curr (k.proctab p).state ≡ true → IsLoose p view
  IsLoose-of_curr p h = IsLoose-of_state p (λ q home. ground arith)

  -- The ready list behind `make_ready`.
  abbrev pub with_ready : ℕ → ℕ → List ℕ
  with_ready pid = update view k.readylist (
      front k.queuetab.key (k.proctab pid).prio (view k.readylist)
      ++ (pid ∷ back k.queuetab.key (k.proctab pid).prio (view k.readylist)))

  pub has-with_ready :
      (p pid q : ℕ)
      → has p (with_ready pid q)
        ≡ (if k.readylist == q then (p == pid) || has p (view q) else has p (view q))
  has-with_ready p pid q = elim (Bool-cases (k.readylist == q)) [
    | inl same ↦
        rw same
          (ground (arith, has-place k.queuetab.key (k.proctab pid).prio p pid (view k.readylist)))
    | inr diff ↦ rw diff
  ]

  pub make_ready_insert :
      (pid : ℕ)
      → pid < nproc
      → IsLoose pid view
      → IsTable (make_ready pid k).queuetab (with_ready pid)
        × ((make_ready pid k).queuetab.key ≡ update k.queuetab.key pid (k.proctab pid).prio)
        × Descending (make_ready pid k).queuetab.key (with_ready pid k.readylist)
  unfolding make_ready
  make_ready_insert pid small loose =
      rw (same, at_self)
        (
          (insert_refines v.table k'.proctab pid k.readylist (k.proctab pid).prio v.ready_qid good
              loose (v.prios pid)).1,
          (insert_refines v.table k'.proctab pid k.readylist (k.proctab pid).prio v.ready_qid good
              loose (v.prios pid)).2,
          insert-Descending v.table k'.proctab pid k.readylist (k.proctab pid).prio v.ready_qid good
              loose (v.prios pid) v.ordered,
        )
    where
      k' : Kernel
      k' = set_state pid PrState.ready k

      good : isbadpid k'.proctab pid ≡ false
      good = ground arith

      at_self : (k.readylist == k.readylist) ≡ true
      at_self = ground arith

      same : (k'.proctab pid).prio ≡ (k.proctab pid).prio
      same = ground arith

  pub make_ready-IsSched :
      (pid : ℕ) → pid < nproc → IsLoose pid view → IsSched (make_ready pid k) (with_ready pid)
  unfolding make_ready
  make_ready-IsSched pid small loose =
      let r = make_ready_insert pid small loose in
      record {
        table = r.0;
        sem_next = v.sem_next;
        ready_qid = v.ready_qid;
        sleep_qid = v.sleep_qid;
        sem_qid = v.sem_qid;
        ready_ne_sleep = v.ready_ne_sleep;
        ready_ne_sem = v.ready_ne_sem;
        sleep_ne_sem = v.sleep_ne_sem;
        sem_inj = v.sem_inj;
        housed = home;
        queued = λ p lt h. ground (arith, v.queued p lt, has-with_ready p pid k.readylist);
        prios = λ p. ground (arith, v.prios p, v.prios pid);
        running = v.running;
        one = λ p lt h. ground (arith, v.one p lt);
        null = ground (arith, v.null);
        ordered = r.2;
      }
    where
      home :
          (q p : ℕ)
          → IsQid q
          → has p (with_ready pid q) ≡ true
          → Home k q (update k.proctab pid (record (k.proctab pid) { state = PrState.ready }) p)
      home q p iq h = elim (Bool-cases (pid == p)) [
        | inl same ↦ rw same (ground (arith, loose q iq, has-with_ready p pid q))
        | inr diff ↦ rw diff (v.housed q p iq (ground (arith, has-with_ready p pid q)))
      ]
