-- ===== src/Semaphore/Balance.antt =====
-- `wait` and `signal` keep the kernel's invariant: a negative count is the number of processes that
-- wait in the semaphore's queue.
use ece592_final_project.Base.{
  ◌++◌, ℕ, ◌≤◌, ◌<◌, ◌≡◌, refl, ◌≢◌, inl, inr, true, false, List, [], ◌∷◌, arith, update, length,
  length-append, Bool-cases, List-cases, is_neg, sub32, add32,
}
use ece592_final_project.Process.{nproc, nullproc}
use ece592_final_project.Queue.{dequeue}
use ece592_final_project.Queue.Refine.{length-view}
use ece592_final_project.Kernel.{Kernel, nsem, isbadsem, set_count}
use ece592_final_project.Sched.{is_curr, resched, ready}
use ece592_final_project.Sched.Invariant.{
  KeepsOn, is_on, Keeps, Kept, Placed, IsSched, IsKernel, Balanced,
}
use ece592_final_project.Sched.Frame.{Placed-Frame}
use ece592_final_project.Sched.Switch.{Rescheduled, resched-IsSched}
use ece592_final_project.Sched.Ready.{Readied, first_ready, first_ready}
use ece592_final_project.Semaphore.{is_sfree, block_on, wait, release_first, signal_once, signal}
use ece592_final_project.Semaphore.Steps.{
  block_on-Placed, set_count-Placed, squeue-set_count, set_count-IsSched, block_on-IsSched,
}

pub semtab-block_on : (sem : ℕ) (k : Kernel) → (block_on sem k).semtab ≡ k.semtab
unfolding block_on
semtab-block_on sem k = refl

-- What follows a `block_on`, seen from before it.
block_on_then :
    (sem : ℕ) (k k' : Kernel) (view : ℕ → List ℕ) (r : Rescheduled (block_on sem k) view k')
    → Kept k view r.0
      × (k.ndefers ≡ 0 → is_on k' ≡ true)
      × (k'.semtab ≡ k.semtab)
      × (k'.ndefers ≡ k.ndefers)
unfolding block_on
block_on_then sem k k' view r = (r.2, λ h. r.3 (inl h), r.4.semtab_same, r.4.ndefers_same)

release_first_lem :
    (sem : ℕ) (k : Kernel) (q x : ℕ)
    → (k.semtab sem).squeue ≡ q
    → (dequeue q k.queuetab).0 ≡ x
    → release_first sem k ≡ (ready x (record k { queuetab = (dequeue q k.queuetab).1 })).1
unfolding release_first
release_first_lem sem k q x same first = rw (same, release_first, first)

module _ {k : Kernel} {view : ℕ → List ℕ} (v : IsKernel k view) (sem : ℕ) (lt : sem < nsem) where
  abbrev c : ℕ
  c = (k.semtab sem).scount

  abbrev q : ℕ
  q = (k.semtab sem).squeue

  few : length (view q) ≤ nproc
  few = length-view v.sched.table q (v.sched.sem_qid sem lt)

  -- Below zero the caller joins the queue.
  wait-block :
      is_neg (sub32 c 1) ≡ true
      → is_curr (k.proctab k.currpid).state ≡ true
      → k.currpid ≢ nullproc
      → Keeps k (resched (block_on sem (set_count sem (sub32 c 1) k)))
  wait-block neg on user =
      let k1 = set_count sem (sub32 c 1) k in
      let v1 = set_count-IsSched v.sched sem (sub32 c 1) in
      let b = block_on-IsSched v1 sem lt on user in
      let q1 = (k1.semtab sem).squeue in
      let view1 = update view q1 (view q1 ++ (k.currpid ∷ [])) in
      let r : Rescheduled (block_on sem k1) view1 (resched (block_on sem k1)) =
        resched-IsSched b.0 in
      (
        r.0,
        wait-counts (resched (block_on sem k1)) r.0 r.1
            (λ p small. Placed-Frame b.0 r.1 r.2 r.4 p small (
              inl (
                block_on-Placed k1 view sem lt p
                  (set_count-Placed sem (sub32 c 1) k view p (v.placed p small)))))
            (block_on_then sem k1 (resched (block_on sem k1)) view1 r),
        (block_on_then sem k1 (resched (block_on sem k1)) view1 r).1,
        (block_on_then sem k1 (resched (block_on sem k1)) view1 r).3,
      )
    where
      wait-counts :
          (k' : Kernel) (view' : ℕ → List ℕ)
          → IsSched k' view'
          → ((p : ℕ) → p < nproc → Placed k' view' p)
          → Kept k
              (update view
                ((set_count sem (sub32 c 1) k).semtab sem).squeue
                (view ((set_count sem (sub32 c 1) k).semtab sem).squeue ++ (k.currpid ∷ [])))
              view'
            × (k.ndefers ≡ 0 → is_on k' ≡ true)
            × (k'.semtab ≡ (set_count sem (sub32 c 1) k).semtab)
            × (k'.ndefers ≡ k.ndefers)
          → IsKernel k' view'
      wait-counts k' view' sched placed r = record {
        sched = sched;
        placed = placed;
        counts = λ s ls. rw (r.2) (
            ground (
              arith,
              r.0 (k.semtab s).squeue (v.sched.sem_qid s ls) (v.sched.ready_ne_sem s ls),
              v.counts s ls,
              v.counts sem lt,
              few,
              squeue-set_count sem (sub32 c 1) sem k,
              length-append (view q) (k.currpid ∷ []),
              v.sched.sem_inj s sem ls lt,
            ));
      }

  set_count-IsKernel : (c' : ℕ) → Balanced c' (length (view q)) → IsKernel (set_count sem c' k) view
  set_count-IsKernel c' b = record {
    sched = set_count-IsSched v.sched sem c';
    placed = λ p small. set_count-Placed sem c' k view p (v.placed p small);
    counts = λ s ls. ground (arith, v.counts s ls);
  }

  wait-pass : is_neg (sub32 c 1) ≡ false → IsKernel (set_count sem (sub32 c 1) k) view
  wait-pass pos = set_count-IsKernel (sub32 c 1) (ground (arith, v.counts sem lt, few))

  -- At or above zero a signal only counts.
  pub signal-pass : is_neg c ≡ false → c ≢ 0x7fff_ffff → IsKernel (set_count sem (add32 c 1) k) view
  signal-pass pos below = set_count-IsKernel (add32 c 1) (ground (arith, v.counts sem lt))

  -- Below zero it releases the first process of the queue, one behind the other.
  pub nonempty_of_neg : is_neg c ≡ true → (x : ℕ) × (xs : List ℕ) × (view q ≡ x ∷ xs)
  nonempty_of_neg neg = elim (List-cases (view q)) [
    | inl none_waits ↦ absurd (ground (arith, v.counts sem lt))
    | inr found ↦ found
  ]

  abbrev pub counted : Kernel
  counted = set_count sem (add32 c 1) k

  pub counted-IsSched : IsSched counted view
  counted-IsSched = set_count-IsSched v.sched sem (add32 c 1)

  pub counted-Placed : (p : ℕ) → p < nproc → Placed counted view p
  counted-Placed p small = set_count-Placed sem (add32 c 1) k view p (v.placed p small)

  pub Readied-KeepsOn :
      is_on k ≡ true
      → is_neg c ≡ true
      → (x : ℕ) (xs : List ℕ) → view q ≡ x ∷ xs
      → (k' : Kernel) → Readied counted (update view q xs) k'
      → KeepsOn k k'
  Readied-KeepsOn on neg x xs e k' r = (
    r.0,
    record {
      sched = r.1;
      placed = r.2;
      counts = λ s ls. rw (r.5.semtab_same) (
          ground (
            arith,
            r.3 (k.semtab s).squeue (v.sched.sem_qid s ls) (v.sched.ready_ne_sem s ls),
            v.counts s ls,
            v.counts sem lt,
            few,
            v.sched.sem_inj s sem ls lt,
          ));
    },
    r.4 (inr on),
    r.5.ndefers_same,
  )

  signal-release : is_on k ≡ true → is_neg c ≡ true → KeepsOn k (release_first sem counted)
  signal-release on neg =
      let (x, xs, e) = nonempty_of_neg neg in
      let r =
        first_ready counted-IsSched counted-Placed q x (v.sched.sem_qid sem lt)
          (v.sched.ready_ne_sem sem lt) xs e in
      rw (release_first_lem sem counted q x (squeue-set_count sem (add32 c 1) sem k) r.0)
        (Readied-KeepsOn on neg x xs e _ r.1)

scount-set_count : (sem c : ℕ) (k : Kernel) → ((set_count sem c k).semtab sem).scount ≡ c
scount-set_count sem c k = ground arith

pub lt_of_good : (sem : ℕ) → isbadsem sem ≡ false → sem < nsem
lt_of_good sem h = ground arith

module _ {k : Kernel} {view : ℕ → List ℕ} (v : IsKernel k view) (sem : ℕ) where
  -- `wait` by a running process other than the null process keeps the invariant of the kernel,
  -- whatever the semaphore. Unless rescheduling is deferred a process is running afterwards.
  pub wait-IsKernel : is_on k ≡ true → k.currpid ≢ nullproc → Keeps k (wait sem k).1
  unfolding wait
  wait-IsKernel on user = elim (Bool-cases (isbadsem sem)) [
    | inl bad ↦ rw bad (view, v, λ h. on, refl)
    | inr good ↦ rw good (elim (Bool-cases (is_sfree (k.semtab sem).sstate)) [
      | inl unused ↦ rw unused (view, v, λ h. on, refl)
      | inr used ↦
          rw (used, scount-set_count sem (sub32 (k.semtab sem).scount 1) k)
            (elim (Bool-cases (is_neg (sub32 (k.semtab sem).scount 1))) [
              | inl neg ↦ rw neg (wait-block v sem (lt_of_good sem good) neg on user)
              | inr pos ↦ rw pos (view, wait-pass v sem (lt_of_good sem good) pos, λ h. on, refl)
            ])
    ])
  ]

  -- The body of `signal` at a semaphore of the table.
  pub signal_once-IsKernel :
      sem < nsem
      → is_on k ≡ true
      → (k.semtab sem).scount ≢ 0x7fff_ffff
      → KeepsOn k (signal_once sem k)
  unfolding signal_once
  signal_once-IsKernel lt on below = elim (Bool-cases (is_neg (k.semtab sem).scount)) [
    | inl neg ↦ rw neg (signal-release v sem lt on neg)
    | inr pos ↦ rw pos (view, signal-pass v sem lt pos below, on, refl)
  ]

  pub signal-IsKernel :
      is_on k ≡ true → (k.semtab sem).scount ≢ 0x7fff_ffff → KeepsOn k (signal sem k).1
  unfolding signal
  signal-IsKernel on below = elim (Bool-cases (isbadsem sem)) [
    | inl bad ↦ rw bad (view, v, on, refl)
    | inr good ↦ rw good (elim (Bool-cases (is_sfree (k.semtab sem).sstate)) [
      | inl unused ↦ rw unused (view, v, on, refl)
      | inr used ↦ rw used (signal_once-IsKernel (lt_of_good sem good) on below)
    ])
  ]
