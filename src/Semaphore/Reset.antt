-- ===== src/Semaphore/Reset.antt =====
-- `semreset` and `semcreate` keep the invariant of the kernel.
use ece592_final_project.Base.{
  ◌⊎◌, syserr, ap, ℕ, zero, suc, ◌+◌, ◌<◌, ◌≡◌, refl, ◌∙◌, inl, inr, true, false, List, [], arith,
  ◌==◌, ◌||◌, if◌then◌else◌, leb, Bool-cases, List-cases, length, update, is_neg, ◌≢◌, empty,
}
use ece592_final_project.Semaphore.{
  SState, newsem, semcreate, newsem_scan, nqent, Defer, resched_cntl, is_sfree, isbadsem, set_count,
  ready, getfirst, nsem, semreset, Kernel, semreset_loop,
}
use ece592_final_project.Sched.Invariant.{
  Unused, is_on, IsKernel, Placed, Balanced, IsSched, IsRunning,
}
use ece592_final_project.Process.{nproc}
use ece592_final_project.Queue.Table.{IsQid}
use ece592_final_project.Semaphore.Steps.{
  squeue-set_count, set_semtab-IsKernel, set_count-Placed, set_count-IsSched,
}
use ece592_final_project.Queue.Refine.{length-view, dequeue_nil}
use ece592_final_project.Sched.Ready.{got_ready}
use ece592_final_project.Semaphore.Balance.{lt_of_good}
use ece592_final_project.Sched.Deferral.{
  ndefers-start, stop-IsRunning, is_on-start, start-IsKernel, semtab-start,
}

-- The invariant but for the count of one semaphore.
abbrev CountsBut : ℕ → Kernel → (ℕ → List ℕ) → Type 0
CountsBut sem k view =
    (s : ℕ)
    → s < nsem
    → (s == sem) ≡ false
    → Balanced (k.semtab s).scount (length (view (k.semtab s).squeue))

semreset_loop_done :
    (rounds q : ℕ) (k : Kernel)
    → getfirst q k.queuetab ≡ (empty, k.queuetab)
    → semreset_loop (suc rounds) q k ≡ k
unfolding semreset_loop
semreset_loop_done rounds q k none_left =
    rw (semreset_loop, none_left) (ap (λ r. record k { queuetab = r.1 }) none_left)

semreset_loop_more :
    (rounds q : ℕ) (k : Kernel) (x : ℕ)
    → (getfirst q k.queuetab).0 ≡ x
    → (x == empty) ≡ false
    → semreset_loop (suc rounds) q k
      ≡ semreset_loop rounds q (ready x (record k { queuetab = (getfirst q k.queuetab).1 })).1
unfolding semreset_loop
semreset_loop_more rounds q k x first ne =
    rw (semreset_loop, first, ne)
      (ap
        (λ y.
          semreset_loop rounds q (ready y (record k { queuetab = (getfirst q k.queuetab).1 })).1)
        first)

-- The loop of `semreset` empties the queue.
semreset_loop_lem :
    (rounds sem : ℕ) (k : Kernel) (view : ℕ → List ℕ)
    → IsSched k view
    → ((p : ℕ) → p < nproc → Placed k view p)
    → CountsBut sem k view
    → is_on k ≡ true
    → sem < nsem
    → (q : ℕ) → (k.semtab sem).squeue ≡ q
    → length (view q) < rounds
    → let k' = semreset_loop rounds q k in
      (view' : ℕ → List ℕ) × IsSched k' view'
      × ((p : ℕ) → p < nproc → Placed k' view' p)
      × CountsBut sem k' view'
      × (is_on k' ≡ true)
      × (view' q ≡ [])
      × (k'.semtab ≡ k.semtab)
      × (k'.ndefers ≡ k.ndefers)
semreset_loop_lem zero sem k view v placed c on lt q same few = absurd (omega arith)
semreset_loop_lem (suc rounds) sem k view v placed c on lt q same few =
    let iq : IsQid q = rw same at (v.sem_qid sem lt) in
    elim (List-cases (view q)) [
      | inl none_left ↦
          rw (semreset_loop_done rounds q k (dequeue_nil v.table q iq none_left).0)
            (view, v, placed, c, on, none_left, refl, refl)
      | inr (x, xs, e) ↦
          let ne : q ≢ k.readylist = rw same at (v.ready_ne_sem sem lt) in
          let (first, r) = got_ready v placed q x iq ne xs e in
          let k1 = (ready x (record k { queuetab = (getfirst q k.queuetab).1 })).1 in
          let shorter : r.0 q ≡ xs = ground (arith, r.3 q iq ne) in
          let ih =
            semreset_loop_lem rounds sem k1 r.0 r.1 r.2
              (λ s ls diff. rw (r.5.semtab_same) (
                ground (
                  arith,
                  r.3 (k.semtab s).squeue (v.sem_qid s ls) (v.ready_ne_sem s ls),
                  c s ls diff,
                  v.sem_inj s sem ls lt,
                  same,
                )))
              (r.4 (inr on)) lt q (rw (r.5.semtab_same) same)
              (rw shorter (ground (arith, e, few))) in
          rw (semreset_loop_more rounds q k x first (ground (arith, e, v.table.members q iq)))
            (ih.0, ih.1, ih.2, ih.3, ih.4, ih.5, ih.6 ∙ r.5.semtab_same, ih.7 ∙ r.5.ndefers_same)
    ]

-- `semreset` by a running process keeps the invariant of the kernel, whatever the semaphore and its new
-- count, and a process runs afterwards. At most 2 ^ 31 - 2 deferrals are outstanding.
pub semreset-IsRunning :
    (n sem count : ℕ) (k : Kernel)
    → n < 0x7fff_ffff
    → IsRunning n k
    → IsRunning n (semreset sem count k).1
unfolding semreset
semreset-IsRunning n sem count k small (view, v, same, on, unused) =
    elim (Bool-cases (is_neg count || isbadsem sem || is_sfree (k.semtab sem).sstate)) [
      | inl bad ↦ rw bad (view, v, same, on, unused)
      | inr good ↦
          let lt = lt_of_good sem (ground arith) in
          let q = (k.semtab sem).squeue in
          let k1 = (resched_cntl Defer.start k).1 in
          let tab : k1.semtab ≡ k.semtab = semtab-start k in
          let v1 : IsKernel k1 view = start-IsKernel k v in
          let d =
            semreset_loop_lem nqent sem k1 view v1.sched v1.placed (λ s ls ne. v1.counts s ls)
              (is_on-start k on) lt q (rw tab refl)
              (omega (arith, length-view v.sched.table q (v.sched.sem_qid sem lt))) in
          let k2 = semreset_loop nqent q k1 in
          let tab2 : k2.semtab ≡ k.semtab = d.6 ∙ tab in
          let k3 = set_count sem count k2 in
          let v3 : IsKernel k3 d.0 =
            emptied-IsKernel k2 d.0 sem count d.1 d.2 d.3 (rw tab2 d.5) (ground arith) in
          rw good (
            stop-IsRunning n k3 small (
              d.0,
              v3,
              d.7 ∙ ndefers-start k same small,
              d.4,
              λ s ls. rw tab2 (ground (arith, unused s ls)),
            ))
    ]
  where
    emptied-IsKernel :
        (k : Kernel) (view : ℕ → List ℕ) (sem count : ℕ)
        → IsSched k view
        → ((p : ℕ) → p < nproc → Placed k view p)
        → CountsBut sem k view
        → view (k.semtab sem).squeue ≡ []
        → is_neg count ≡ false
        → IsKernel (set_count sem count k) view
    emptied-IsKernel k view sem count v placed c none_left pos = record {
      sched = set_count-IsSched v sem count;
      placed = λ p lt. set_count-Placed sem count k view p (placed p lt);
      counts = λ s ls. ground (arith, c s ls, none_left);
    }

newsem_scan-IsRunning :
    (rounds n : ℕ) (k : Kernel)
    → IsRunning n k
    → (view : ℕ → List ℕ) × IsKernel (newsem_scan rounds k).1 view
      × ((newsem_scan rounds k).1.ndefers ≡ n)
      × (is_on (newsem_scan rounds k).1 ≡ true)
      × Unused (newsem_scan rounds k).1
      × (((newsem_scan rounds k).0 ≡ syserr)
          ⊎ ((newsem_scan rounds k).0 < nsem)
            × (is_neg ((newsem_scan rounds k).1.semtab (newsem_scan rounds k).0).scount ≡ false))
unfolding newsem_scan
newsem_scan-IsRunning zero n k (view, v, same, on, unused) = (view, v, same, on, unused, inl refl)
newsem_scan-IsRunning (suc rounds) n k (view, v, same, on, unused) =
    let sem = k.nextsem in
    let next = if leb nsem (sem + 1) then 0 else sem + 1 in
    let small : next < nsem = ground (arith, v.sched.sem_next) in
    let run : IsKernel (record k { nextsem = next }) view =
      set_semtab-IsKernel k k.semtab next (λ s. refl) small v v.counts in
    elim (Bool-cases (is_sfree (k.semtab sem).sstate)) [
      | inr used ↦
          rw (newsem_scan, used)
            (newsem_scan-IsRunning rounds n (record k { nextsem = next })
              (view, run, same, on, unused))
      | inl vacant ↦
          let t = update k.semtab sem (record (k.semtab sem) { sstate = SState.s_used }) in
          rw (newsem_scan, vacant)
            (
              view,
              set_semtab-IsKernel k t next (λ s. ground arith) small v
                  (λ s ls. ground (arith, v.counts s ls)),
              same,
              on,
              λ s ls. ground (arith, unused s ls),
              inr (v.sched.sem_next, ground (arith, unused sem v.sched.sem_next vacant)),
            )
    ]

-- `semcreate` by a running process keeps the invariant, whatever the count: the queue of a semaphore that was not in use is empty.
pub semcreate-IsRunning :
    (n count : ℕ) (k : Kernel) → IsRunning n k → IsRunning n (semcreate count k).1
unfolding semcreate newsem
semcreate-IsRunning n count k run = elim (Bool-cases (is_neg count)) [
  | inl neg ↦ rw neg run
  | inr pos ↦
      let r = newsem_scan-IsRunning nsem n k run in
      let k1 = (newsem_scan nsem k).1 in
      let sem = (newsem_scan nsem k).0 in
      elim r.5 [
        | inl failed ↦
            let bad : (sem == syserr) ≡ true = ground arith in
            rw (pos, bad) (r.0, r.1, r.2, r.3, r.4)
        | inr (lt, above) ↦
            let good : (sem == syserr) ≡ false = ground arith in
            rw (pos, good)
              (
                r.0,
                set_semtab-IsKernel k1 (set_count sem count k1).semtab k1.nextsem
                    (λ s. squeue-set_count sem count s k1) r.1.sched.sem_next r.1
                    (λ s ls. ground (arith, r.1.counts s ls)),
                r.2,
                r.3,
                λ s ls. ground (arith, r.4 s ls),
              )
      ]
]
