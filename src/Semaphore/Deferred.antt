-- ===== src/Semaphore/Deferred.antt =====
-- `signaln`, `semdelete` and `semreset`, which release several processes with rescheduling deferred,
-- and `semcreate` keep the invariant of the kernel.
use ece592_final_project.Base.{
  sym, modulus, ℕ, zero, suc, ◌+◌, ◌-◌, ◌<◌, ◌≡◌, refl, ◌∙◌, inl, inr, true, false, List, arith,
  ◌==◌, ◌||◌, Bool-cases, update, is_neg, add32, ◌≢◌,
}
use ece592_final_project.Semaphore.{
  semdelete, SState, Defer, ready, resched_cntl, getfirst, is_sfree, dequeue, isbadsem, set_count,
  nsem, release_first, Kernel, signal_times, signaln, signal_once, semdelete_loop,
}
use ece592_final_project.Sched.Invariant.{KeepsOn, is_on, IsRunning, IsKernel}
use ece592_final_project.Semaphore.Balance.{
  Readied-KeepsOn, counted, counted-Placed, counted-IsSched, nonempty_of_neg, lt_of_good,
  signal-pass, signal_once-IsKernel,
}
use ece592_final_project.Sched.Ready.{got_ready, semtab-ready}
use ece592_final_project.Semaphore.Steps.{set_semtab-IsKernel, squeue-set_count}
use ece592_final_project.Sched.Deferral.{
  ndefers-start, is_on-start, start-IsKernel, semtab-start, start-IsRunning, stop-IsRunning,
}

-- What a signal does to the table of semaphores.
semtab-signal_once :
    (sem : ℕ) (k : Kernel)
    → (signal_once sem k).semtab ≡ (set_count sem (add32 (k.semtab sem).scount 1) k).semtab
unfolding signal_once release_first
semtab-signal_once sem k =
    let k1 = set_count sem (add32 (k.semtab sem).scount 1) k in
    let (x, t) = dequeue (k1.semtab sem).squeue k1.queuetab in
    ground (arith, semtab-ready x (record k1 { queuetab = t }))

-- `count` signals do not take a count beyond int32.
abbrev Room : ℕ → ℕ → Type 0
Room c count = (count < 0x8000_0000) × (is_neg c ≡ false → c + count < 0x8000_0000)

signal_times-IsRunning :
    (count n sem : ℕ) (k : Kernel)
    → sem < nsem
    → is_sfree (k.semtab sem).sstate ≡ false
    → Room (k.semtab sem).scount count
    → IsRunning n k
    → IsRunning n (signal_times count sem k)
unfolding signal_times
signal_times-IsRunning zero n sem k lt used room run = run
signal_times-IsRunning (suc count) n sem k lt used room (view, v, same, on, unused) =
    let r = signal_once-IsKernel v sem lt on (ground (arith, v.counts sem lt)) in
    let tab = semtab-signal_once sem k in
    signal_times-IsRunning count n sem (signal_once sem k) lt (rw tab (ground arith))
      (rw tab (ground (arith, v.counts sem lt)))
      (r.0, r.1, r.3 ∙ same, r.2, λ s ls. rw tab (ground (arith, unused s ls)))

-- `signaln` by a running process keeps the invariant, whatever the semaphore and the count, if a
-- count that is not below zero has room for the signals.
pub signaln-IsRunning :
    (n sem count : ℕ) (k : Kernel)
    → n < 0x7fff_ffff
    → (is_neg (k.semtab sem).scount ≡ false → (k.semtab sem).scount + count < 0x8000_0000)
    → IsRunning n k
    → IsRunning n (signaln sem count k).1
unfolding signaln
signaln-IsRunning n sem count k small room run = elim (Bool-cases (isbadsem sem || is_neg count)) [
  | inl bad ↦ rw bad run
  | inr good ↦ elim (Bool-cases (is_sfree (k.semtab sem).sstate)) [
    | inl unused ↦ rw (good, unused) run
    | inr used ↦
        let k1 = (resched_cntl Defer.start k).1 in
        let tab : k1.semtab ≡ k.semtab = semtab-start k in
        rw (good, used)
          (stop-IsRunning n (signal_times count sem k1) small (
            signal_times-IsRunning count (suc n) sem k1 (ground arith) (rw tab used)
              (rw tab (ground arith, room)) (start-IsRunning n k small run)))
  ]
]

semdelete_loop_more :
    (rounds sem : ℕ) (k : Kernel) (x : ℕ)
    → let k1 = set_count sem (add32 (k.semtab sem).scount 1) k in
      is_neg (k.semtab sem).scount ≡ true
      → (getfirst (k.semtab sem).squeue k1.queuetab).0 ≡ x
      → semdelete_loop (suc rounds) sem k
        ≡ semdelete_loop rounds sem
            (ready x (record k1 { queuetab = (getfirst (k.semtab sem).squeue k1.queuetab).1 })).1
unfolding semdelete_loop
semdelete_loop_more rounds sem k x neg first =
    rw (semdelete_loop, neg, squeue-set_count sem (add32 (k.semtab sem).scount 1) sem k, first)

semdelete_loop_pos :
    (rounds sem : ℕ) (k : Kernel)
    → is_neg (k.semtab sem).scount ≡ false
    → semdelete_loop (suc rounds) sem k ≡ set_count sem (add32 (k.semtab sem).scount 1) k
unfolding semdelete_loop
semdelete_loop_pos rounds sem k pos = rw (semdelete_loop, pos)

-- The rounds that the loop of `semdelete` takes at a count.
abbrev Enough : ℕ → ℕ → Type 0
Enough c rounds = (is_neg c ≡ true → modulus < c + rounds) × (0 < rounds)

-- The loop of `semdelete` ends with the count above zero.
semdelete_loop-KeepsOn :
    (rounds sem : ℕ) (k : Kernel) (view : ℕ → List ℕ)
    → IsKernel k view
    → is_on k ≡ true
    → sem < nsem
    → Enough (k.semtab sem).scount rounds
    → (k.semtab sem).scount ≢ 0x7fff_ffff
    → KeepsOn k (semdelete_loop rounds sem k)
      × (is_neg ((semdelete_loop rounds sem k).semtab sem).scount ≡ false)
      × ((s : ℕ) → (sem == s) ≡ false → (semdelete_loop rounds sem k).semtab s ≡ k.semtab s)
semdelete_loop-KeepsOn zero sem k view v on lt enough below = absurd (omega (arith, enough.1))
semdelete_loop-KeepsOn (suc rounds) sem k view v on lt enough below =
    elim (Bool-cases (is_neg (k.semtab sem).scount)) [
      | inr pos ↦
          let k1 = set_count sem (add32 (k.semtab sem).scount 1) k in
          rw (semdelete_loop_pos rounds sem k pos) (
            (view, signal-pass v sem lt pos below, on, refl),
            ground (arith, v.counts sem lt),
            λ s ne. ground arith,
          )
      | inl neg ↦
          let (x, xs, e) = nonempty_of_neg v sem lt neg in
          let q = (k.semtab sem).squeue in
          let (first, r) =
            got_ready (counted-IsSched v sem lt) (counted-Placed v sem lt) q x
              (v.sched.sem_qid sem lt) (v.sched.ready_ne_sem sem lt) xs e in
          let k2 =
            (ready x (record (counted v sem lt) { queuetab = (getfirst q k.queuetab).1 })).1 in
          let m : KeepsOn k k2 = Readied-KeepsOn v sem lt on neg x xs e k2 r in
          let tab =
            semtab-ready x (record (counted v sem lt) { queuetab = (getfirst q k.queuetab).1 }) in
          let more : Enough (k2.semtab sem).scount rounds =
            rw tab (ground (arith, v.counts sem lt)) in
          let ih =
            semdelete_loop-KeepsOn rounds sem k2 m.0 m.1 m.2 lt more
              (rw tab (ground (arith, v.counts sem lt))) in
          rw (semdelete_loop_more rounds sem k x neg first) (
            (ih.0.0, ih.0.1, ih.0.2, ih.0.3 ∙ m.3),
            ih.1,
            λ s ne. ih.2 s ne ∙ (rw tab (ground arith)),
          )
    ]

-- The entry of the semaphore is released.
abbrev freed : ℕ → Kernel → Kernel
freed sem k = record k {
  semtab = update k.semtab sem (record (k.semtab sem) { sstate = SState.s_free });
}

freed-IsKernel :
    (sem : ℕ) (k : Kernel) (view : ℕ → List ℕ) → IsKernel k view → IsKernel (freed sem k) view
freed-IsKernel sem k view v =
    set_semtab-IsKernel k (freed sem k).semtab k.nextsem (λ s. ground arith) v.sched.sem_next v
      (λ s lt. ground (arith, v.counts s lt))

-- `semdelete` by a running process keeps the invariant of the kernel, whatever the semaphore, if its
-- count is not the largest int32, and a process runs afterwards. At most 2 ^ 31 - 2 deferrals are
-- outstanding.
pub semdelete-IsRunning :
    (n sem : ℕ) (k : Kernel)
    → n < 0x7fff_ffff
    → (k.semtab sem).scount ≢ 0x7fff_ffff
    → IsRunning n k
    → IsRunning n (semdelete sem k).1
unfolding semdelete
semdelete-IsRunning n sem k small below (view, v, same, on, unused) =
    elim (Bool-cases (isbadsem sem)) [
      | inl bad ↦ rw bad (view, v, same, on, unused)
      | inr good ↦ elim (Bool-cases (is_sfree (k.semtab sem).sstate)) [
        | inl gone ↦ rw (good, gone) (view, v, same, on, unused)
        | inr used ↦
            let lt = lt_of_good sem good in
            let k1 = freed sem k in
            let k2 = (resched_cntl Defer.start k1).1 in
            let tab : k2.semtab ≡ k1.semtab = semtab-start k1 in
            let c : (k2.semtab sem).scount ≡ (k.semtab sem).scount = rw tab (ground arith) in
            let v2 : IsKernel k2 view = start-IsKernel k1 (freed-IsKernel sem k view v) in
            let rounds = suc (0x1_0000_0000 - (k2.semtab sem).scount) in
            let d =
              semdelete_loop-KeepsOn rounds sem k2 view v2 (is_on-start k1 on) lt
                (rw c (ground (arith, v.counts sem lt))) (rw c below) in
            rw (good, used)
              (stop-IsRunning n (semdelete_loop rounds sem k2) small (
                d.0.0,
                d.0.1,
                d.0.3 ∙ ndefers-start k1 same small,
                d.0.2,
                λ s ls. elim (Bool-cases (sem == s)) [
                  | inl at ↦ let e : sem ≡ s = ground arith in rw (sym e) (λ h. d.1)
                  | inr other ↦ rw (d.2 s other, tab, other) (unused s ls)
                ],
              ))
      ]
    ]
