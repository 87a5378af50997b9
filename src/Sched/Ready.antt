-- ===== src/Sched/Ready.antt =====
-- `ready` keeps the invariant, and the parts of the kernel that rescheduling leaves alone.
use ece592_final_project.Base.{
  has-append, has, ◌++◌, [], inr, inl, Bool-cases, ◌⊎◌, ◌<◌, ℕ, ◌≡◌, refl, ◌≢◌, true, false, List,
  ◌∷◌, arith, ◌==◌, update,
}
use ece592_final_project.Process.{PrState, nproc, isbadpid}
use ece592_final_project.Queue.{getitem, getfirst, QTab, dequeue}
use ece592_final_project.Queue.Table.{lt_of_has, IsTable, IsQid, IsLoose}
use ece592_final_project.Queue.Refine.{getfirst_refines, dequeue_refines, isbadpid-lt}
use ece592_final_project.Kernel.{Kernel}
use ece592_final_project.Sched.{is_curr, make_ready, switch_to_first, resched, ready}
use ece592_final_project.Sched.Invariant.{Runs, PlacedAs, Kept, Placed, IsSched, is_active}
use ece592_final_project.Sched.Frame.{Placed-Frame, Frame}
use ece592_final_project.Sched.MakeReady.{make_ready-IsSched}
use ece592_final_project.Sched.Switch.{key-dequeue, Rescheduled, resched-IsSched, make_ready_then}

semtab-switch : (k : Kernel) → (switch_to_first k).semtab ≡ k.semtab
unfolding switch_to_first
semtab-switch k = refl

pub semtab-resched : (k : Kernel) → (resched k).semtab ≡ k.semtab
unfolding resched make_ready
semtab-resched k = ground (arith, semtab-switch k, semtab-switch (make_ready k.currpid k))

pub semtab-ready : (pid : ℕ) (k : Kernel) → (ready pid k).1.semtab ≡ k.semtab
unfolding ready make_ready
semtab-ready pid k = ground (arith, semtab-resched (make_ready pid k))

make_ready-active : (pid : ℕ) (k : Kernel) → is_active ((make_ready pid k).proctab pid).state ≡ true
unfolding make_ready
make_ready-active pid k = ground arith

key-getfirst : (q : ℕ) (t : QTab) → (getfirst q t).1.key ≡ t.key
unfolding getfirst getitem
key-getfirst q t = ground arith

module _ {k : Kernel} {view : ℕ → List ℕ} (v : IsSched k view) where
  -- `ready` of a live process that is in no queue keeps the invariant of the tables and every queue
  -- but the ready list, changes no process but those that it makes ready or current, of which the
  -- process is one, and leaves the current process in state PR_CURR if it was so or rescheduling is
  -- not deferred. The process itself is not the running one.
  pub ready-IsSched :
      (pid : ℕ)
      → isbadpid k.proctab pid ≡ false
      → IsLoose pid view
      → is_curr (k.proctab pid).state ≡ false
      → Rescheduled k view (ready pid k).1 × (is_active ((ready pid k).1.proctab pid).state ≡ true)
  unfolding ready
  ready-IsSched pid good loose off = rw good (
      let small = isbadpid-lt k.proctab pid good in
      let r = resched-IsSched (make_ready-IsSched v pid small loose) in
      (make_ready_then v pid _ r off, ground (arith, r.4.others pid, make_ready-active pid k)))

  -- Taking a process out of a queue that is not the ready list keeps the invariant.
  pub out-IsSched :
      (q x : ℕ) (xs ys : List ℕ)
      → q ≢ k.readylist
      → view q ≡ xs ++ (x ∷ ys)
      → (t : QTab) → IsTable t (update view q (xs ++ ys))
      → t.key ≡ k.queuetab.key
      → IsSched (record k { queuetab = t }) (update view q (xs ++ ys))
  out-IsSched q x xs ys ne e t table keys = record {
    table = table;
    sem_next = v.sem_next;
    ready_qid = v.ready_qid;
    sleep_qid = v.sleep_qid;
    sem_qid = v.sem_qid;
    ready_ne_sleep = v.ready_ne_sleep;
    ready_ne_sem = v.ready_ne_sem;
    sleep_ne_sem = v.sleep_ne_sem;
    sem_inj = v.sem_inj;
    housed = λ r p ir h.
        v.housed r p ir (ground (arith, has-append p xs ys, has-append p xs (x ∷ ys), e));
    queued = λ p lt h. ground (arith, v.queued p lt h);
    prios = v.prios;
    running = v.running;
    one = v.one;
    null = v.null;
    ordered = let other : (q == k.readylist) ≡ false = ground arith in rw (other, keys) v.ordered;
  }

-- A process stays in its place where another leaves a queue.
pub PlacedAs-out :
    (k : Kernel) (view : ℕ → List ℕ) (q x : ℕ) (xs ys : List ℕ) (p : ℕ)
    → view q ≡ xs ++ (x ∷ ys)
    → (p == x) ≡ false
    → (sem : ℕ) (s : PrState) → PlacedAs k view p sem s
    → PlacedAs k (update view q (xs ++ ys)) p sem s
PlacedAs-out k view q x xs ys p e ne sem s = go s
  where
    stay : (r : ℕ) → has p (view r) ≡ true → has p (update view q (xs ++ ys) r) ≡ true
    stay r h = ground (arith, has-append p xs ys, has-append p xs (x ∷ ys), e)

    go : (s : PrState) → PlacedAs k view p sem s → PlacedAs k (update view q (xs ++ ys)) p sem s
    go PrState.ready h = stay k.readylist h
    go PrState.sleep h = stay k.sleepq h
    go PrState.rectim h = stay k.sleepq h
    go PrState.wait (small, h) = (small, stay (k.semtab sem).squeue h)
    go PrState.free h = tt
    go PrState.curr h = tt
    go PrState.recv h = tt
    go PrState.susp h = tt

-- What `ready` leaves of a process that was taken out of a queue other than the ready list.
abbrev pub Readied : Kernel → (ℕ → List ℕ) → Kernel → Type 0
Readied k view k' =
    (view' : ℕ → List ℕ) × IsSched k' view'
    × ((p : ℕ) → p < nproc → Placed k' view' p)
    × Kept k view view'
    × Runs k k'
    × Frame k k'

module _ {k : Kernel} {view : ℕ → List ℕ} (v : IsSched k view)
    (placed : (p : ℕ) → p < nproc → Placed k view p) (q x : ℕ) (iq : IsQid q)
    (ne : q ≢ k.readylist) where
  pub ready_out :
      (xs ys : List ℕ)
      → view q ≡ xs ++ (x ∷ ys)
      → (t : QTab) → IsTable t (update view q (xs ++ ys))
      → IsLoose x (update view q (xs ++ ys))
      → t.key ≡ k.queuetab.key
      → Readied k (update view q (xs ++ ys)) (ready x (record k { queuetab = t })).1
  ready_out xs ys e t table loose keys =
      let v1 = out-IsSched v q x xs ys ne e t table keys in
      let (r, active) = ready-IsSched v1 x good loose off in
      (
        r.0,
        r.1,
        λ p lt. Placed-Frame v1 r.1 r.2 r.4 p lt (still active p lt),
        r.2,
        r.3,
        record {
          readylist_same = r.4.readylist_same;
          sleepq_same = r.4.sleepq_same;
          semtab_same = r.4.semtab_same;
          ndefers_same = r.4.ndefers_same;
          others = r.4.others;
        },
      )
    where
      here : has x (view q) ≡ true
      here = ground (arith, has-append x xs (x ∷ ys), e)

      good : isbadpid k.proctab x ≡ false
      good = ground (arith, v.housed q x iq here, lt_of_has x (view q) (v.table.members q iq) here)

      off : is_curr (k.proctab x).state ≡ false
      off = ground (arith, v.housed q x iq here)

      k' : Kernel
      k' = (ready x (record k { queuetab = t })).1

      still :
          is_active (k'.proctab x).state ≡ true
          → (p : ℕ) → p < nproc
          → Placed k (update view q (xs ++ ys)) p ⊎ (is_active (k'.proctab p).state ≡ true)
      still active p lt = elim (Bool-cases (p == x)) [
        | inl same ↦ let at : p ≡ x = ground arith in inr (rw at active)
        | inr diff ↦ inl (
            PlacedAs-out k view q x xs ys p e diff (k.proctab p).sem (k.proctab p).state
              (placed p lt))
      ]

  -- `ready` of the first process of the queue, as `signal` and `wakeup` do it
  pub first_ready :
      (xs : List ℕ)
      → view q ≡ x ∷ xs
      → ((dequeue q k.queuetab).0 ≡ x)
        × Readied k
            (update view q xs)
            (ready x (record k { queuetab = (dequeue q k.queuetab).1 })).1
  first_ready xs e =
      let d = dequeue_refines v.table q x xs iq e in
      (d.0, ready_out [] xs e (dequeue q k.queuetab).1 d.1 d.2 (key-dequeue q k.queuetab))

  -- and as `semdelete` and `semreset` do it
  pub got_ready :
      (xs : List ℕ)
      → view q ≡ x ∷ xs
      → ((getfirst q k.queuetab).0 ≡ x)
        × Readied k
            (update view q xs)
            (ready x (record k { queuetab = (getfirst q k.queuetab).1 })).1
  got_ready xs e =
      let d = getfirst_refines v.table q x xs iq e in
      (d.0, ready_out [] xs e (getfirst q k.queuetab).1 d.1 d.2 (key-getfirst q k.queuetab))
