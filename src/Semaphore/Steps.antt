-- ===== src/Semaphore/Steps.antt =====
-- What the parts of `wait` and `signal` do to the invariant of the tables.
use ece592_final_project.Base.{
  length, ℕ, ◌<◌, ◌≡◌, ◌≢◌, inl, inr, true, false, List, [], ◌∷◌, ◌++◌, arith, ◌==◌, update, has,
  has-append, Bool-cases,
}
use ece592_final_project.Process.{Proc, PrState, nullproc, isbadpid}
use ece592_final_project.Queue.{QTab, enqueue}
use ece592_final_project.Queue.Table.{IsQid, IsTable}
use ece592_final_project.Queue.Refine.{enqueue_refines}
use ece592_final_project.Kernel.{Sem, Kernel, nsem, set_count}
use ece592_final_project.Sched.{is_curr}
use ece592_final_project.Sched.Invariant.{
  Balanced, IsKernel, Placed, PlacedAs, Home, HomeOf, IsSched,
}
use ece592_final_project.Sched.MakeReady.{IsLoose-of_curr}
use ece592_final_project.Semaphore.{block_on}

pub key-enqueue :
    (proctab : ℕ → Proc) (pid q : ℕ) (t : QTab) → (enqueue proctab pid q t).1.key ≡ t.key
unfolding enqueue
key-enqueue proctab pid q t = ground arith

-- The queue of a semaphore does not change with its count.
pub squeue-set_count :
    (sem c s : ℕ) (k : Kernel) → ((set_count sem c k).semtab s).squeue ≡ (k.semtab s).squeue
squeue-set_count sem c s k = ground arith

-- Entries of the table of semaphores change, but not their queues.
module _ (k : Kernel) (t : ℕ → Sem) (next : ℕ)
    (same : (s : ℕ) → (t s).squeue ≡ (k.semtab s).squeue) where
  HomeOf-set_semtab :
      (q s : ℕ) (st : PrState)
      → HomeOf k q s st
      → HomeOf (record k { semtab = t; nextsem = next }) q s st
  HomeOf-set_semtab q s PrState.wait h = rw (same s) h
  HomeOf-set_semtab q s PrState.ready h = h
  HomeOf-set_semtab q s PrState.sleep h = h
  HomeOf-set_semtab q s PrState.rectim h = h
  HomeOf-set_semtab q s PrState.free h = h
  HomeOf-set_semtab q s PrState.curr h = h
  HomeOf-set_semtab q s PrState.recv h = h
  HomeOf-set_semtab q s PrState.susp h = h

  PlacedAs-set_semtab :
      (view : ℕ → List ℕ) (p s : ℕ) (st : PrState)
      → PlacedAs k view p s st
      → PlacedAs (record k { semtab = t; nextsem = next }) view p s st
  PlacedAs-set_semtab view p s PrState.wait h = rw (same s) h
  PlacedAs-set_semtab view p s PrState.ready h = h
  PlacedAs-set_semtab view p s PrState.sleep h = h
  PlacedAs-set_semtab view p s PrState.rectim h = h
  PlacedAs-set_semtab view p s PrState.free h = h
  PlacedAs-set_semtab view p s PrState.curr h = h
  PlacedAs-set_semtab view p s PrState.recv h = h
  PlacedAs-set_semtab view p s PrState.susp h = h

  pub set_semtab-Placed :
      (view : ℕ → List ℕ) (p : ℕ)
      → Placed k view p
      → Placed (record k { semtab = t; nextsem = next }) view p
  set_semtab-Placed view p h = PlacedAs-set_semtab view p (k.proctab p).sem (k.proctab p).state h

  pub set_semtab-IsSched :
      {view : ℕ → List ℕ}
      → next < nsem
      → IsSched k view
      → IsSched (record k { semtab = t; nextsem = next }) view
  set_semtab-IsSched small v = record {
    table = v.table;
    sem_next = small;
    ready_qid = v.ready_qid;
    sleep_qid = v.sleep_qid;
    sem_qid = λ s lt. rw (same s) (v.sem_qid s lt);
    ready_ne_sleep = v.ready_ne_sleep;
    ready_ne_sem = λ s lt. rw (same s) (v.ready_ne_sem s lt);
    sleep_ne_sem = λ s lt. rw (same s) (v.sleep_ne_sem s lt);
    sem_inj = λ s r ls lr e. v.sem_inj s r ls lr (ground (arith, same s, same r));
    housed =
        λ q p iq h. HomeOf-set_semtab q (k.proctab p).sem (k.proctab p).state (v.housed q p iq h);
    queued = v.queued;
    prios = v.prios;
    running = v.running;
    one = v.one;
    null = v.null;
    ordered = v.ordered;
  }

  pub set_semtab-IsKernel :
      {view : ℕ → List ℕ}
      → next < nsem
      → IsKernel k view
      → ((s : ℕ) → s < nsem → Balanced (t s).scount (length (view (k.semtab s).squeue)))
      → IsKernel (record k { semtab = t; nextsem = next }) view
  set_semtab-IsKernel {view} small v counts = record {
    sched = set_semtab-IsSched small v.sched;
    placed = λ p lt. set_semtab-Placed view p (v.placed p lt);
    counts = λ s lt. rw (same s) (counts s lt);
  }

pub set_count-IsSched :
    {k : Kernel} {view : ℕ → List ℕ}
    → IsSched k view
    → (sem c : ℕ) → IsSched (set_count sem c k) view
set_count-IsSched {k} v sem c =
    set_semtab-IsSched k (set_count sem c k).semtab k.nextsem (λ s. squeue-set_count sem c s k)
      v.sem_next v

pub set_count-Placed :
    (sem c : ℕ) (k : Kernel) (view : ℕ → List ℕ) (p : ℕ)
    → Placed k view p
    → Placed (set_count sem c k) view p
set_count-Placed sem c k =
    set_semtab-Placed k (set_count sem c k).semtab k.nextsem (λ s. squeue-set_count sem c s k)

module _ {k : Kernel} {view : ℕ → List ℕ} (v : IsSched k view) where
  pub block_on-IsSched :
      (sem : ℕ)
      → sem < nsem
      → is_curr (k.proctab k.currpid).state ≡ true
      → k.currpid ≢ nullproc
      → IsSched
          (block_on sem k)
          (update view (k.semtab sem).squeue (view (k.semtab sem).squeue ++ (k.currpid ∷ [])))
        × (is_curr ((block_on sem k).proctab (block_on sem k).currpid).state ≡ false)
  unfolding block_on
  block_on-IsSched sem lt on user = (
    record {
      table = r.1;
      sem_next = v.sem_next;
      ready_qid = v.ready_qid;
      sleep_qid = v.sleep_qid;
      sem_qid = v.sem_qid;
      ready_ne_sleep = v.ready_ne_sleep;
      ready_ne_sem = v.ready_ne_sem;
      sleep_ne_sem = v.sleep_ne_sem;
      sem_inj = v.sem_inj;
      housed = home;
      queued = λ p small h. ground (arith, v.queued p small, v.ready_ne_sem sem lt);
      prios = λ p. ground (arith, v.prios p, v.prios k.currpid);
      running = v.running;
      one = λ p small h. ground (arith, v.one p small);
      null = ground (arith, v.null);
      ordered = rw (other, key-enqueue) v.ordered;
    },
    ground arith,
  )
    where
      proctab' : ℕ → Proc
      proctab' =
          update k.proctab k.currpid
            (record (k.proctab k.currpid) { state = PrState.wait; sem = sem })

      good : isbadpid proctab' k.currpid ≡ false
      good = ground (arith, v.running)

      other : ((k.semtab sem).squeue == k.readylist) ≡ false
      other = ground (arith, v.ready_ne_sem sem lt)

      r :
          ((enqueue proctab' k.currpid (k.semtab sem).squeue k.queuetab).0 ≡ k.currpid)
          × IsTable
              (enqueue proctab' k.currpid (k.semtab sem).squeue k.queuetab).1
              (update view (k.semtab sem).squeue (view (k.semtab sem).squeue ++ (k.currpid ∷ [])))
      r =
          enqueue_refines v.table proctab' k.currpid (k.semtab sem).squeue (v.sem_qid sem lt) good
            (IsLoose-of_curr v k.currpid on)

      home :
          (q p : ℕ)
          → IsQid q
          → has p
              (update view (k.semtab sem).squeue (view (k.semtab sem).squeue ++ (k.currpid ∷ [])) q)
            ≡ true
          → Home k q (proctab' p)
      home q p iq h = elim (Bool-cases (k.currpid == p)) [
        | inl same ↦ rw same (
          lt,
          ground
              (arith, IsLoose-of_curr v k.currpid on q iq, has-append p (view q) (k.currpid ∷ [])),
        )
        | inr diff ↦
            rw diff (v.housed q p iq (ground (arith, has-append p (view q) (k.currpid ∷ []))))
      ]

-- A process stays in its place where another joins the end of a queue.
pub PlacedAs-join :
    (k : Kernel) (view : ℕ → List ℕ) (q pid p sem : ℕ) (st : PrState)
    → PlacedAs k view p sem st
    → PlacedAs k (update view q (view q ++ (pid ∷ []))) p sem st
PlacedAs-join k view q pid p sem PrState.ready h = ground (arith, has-append p (view q) (pid ∷ []))
PlacedAs-join k view q pid p sem PrState.sleep h = ground (arith, has-append p (view q) (pid ∷ []))
PlacedAs-join k view q pid p sem PrState.rectim h = ground (arith, has-append p (view q) (pid ∷ []))
PlacedAs-join k view q pid p sem PrState.wait h = ground (arith, has-append p (view q) (pid ∷ []))
PlacedAs-join k view q pid p sem PrState.free h = tt
PlacedAs-join k view q pid p sem PrState.curr h = tt
PlacedAs-join k view q pid p sem PrState.recv h = tt
PlacedAs-join k view q pid p sem PrState.susp h = tt

-- `block_on` puts the caller where its new state says, and leaves the others.
pub block_on-Placed :
    (k : Kernel) (view : ℕ → List ℕ) (sem : ℕ)
    → sem < nsem
    → (p : ℕ) → Placed k view p
    → Placed
        (block_on sem k)
        (update view (k.semtab sem).squeue (view (k.semtab sem).squeue ++ (k.currpid ∷ [])))
        p
unfolding block_on
block_on-Placed k view sem lt p h = elim (Bool-cases (k.currpid == p)) [
  | inl same ↦
      rw same (lt, ground (arith, has-append p (view (k.semtab sem).squeue) (k.currpid ∷ [])))
  | inr diff ↦ rw diff (
      PlacedAs-join k view (k.semtab sem).squeue k.currpid p (k.proctab p).sem (k.proctab p).state
        h)
]
