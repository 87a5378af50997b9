-- ===== src/Boot/Tables.antt =====
-- The loops of `sysinit`: a queue for each semaphore, empty.
use ece592_final_project.Base.{
  leb, sym, ◌∙◌, update, ℕ, zero, suc, ◌+◌, ◌*◌, ◌≤◌, ◌<◌, ◌≡◌, refl, inl, inr, false, arith, ◌==◌,
  Bool-cases,
}
use ece592_final_project.Boot.{SState, nsem, Kernel, newqueue, nproc, QTab, init_sems}
use ece592_final_project.Queue.{nqent, newqueue, minkey, maxkey}
use ece592_final_project.Queue.Table.{IsQid}

-- Queue `q` is empty.
abbrev pub IsEmpty : QTab → ℕ → Type 0
IsEmpty t q =
    (t.next q ≡ q + 1) × (t.prev (q + 1) ≡ q) × (t.key q ≡ maxkey) × (t.key (q + 1) ≡ minkey)

pub newqueue_lem :
    (t : QTab) (q : ℕ)
    → IsQid q
    → ((newqueue q t).0 ≡ q)
      × ((newqueue q t).1 ≡ q + 2)
      × IsEmpty (newqueue q t).2 q
      × ((r : ℕ) → IsQid r → IsEmpty t r → IsEmpty (newqueue q t).2 r)
unfolding newqueue
newqueue_lem t q iq =
    let room : leb nqent q ≡ false = ground arith in
    rw room (refl, refl, ground arith, λ r ir h. ground arith)

-- The queue that semaphore `s` gets.
abbrev pub queue_of : ℕ → ℕ
queue_of s = nproc + 2 * s

init_sems_more :
    (rounds i q : ℕ) (k : Kernel) {nextqid : ℕ}
    → (newqueue q k.queuetab).0 ≡ q
    → (newqueue q k.queuetab).1 ≡ nextqid
    → init_sems (suc rounds) i q k
      ≡ init_sems rounds (i + 1) nextqid (record k {
        queuetab = (newqueue q k.queuetab).2;
        semtab = update k.semtab i (record { sstate = SState.s_free; scount = 0; squeue = q });
      })
unfolding init_sems
init_sems_more rounds i q k first next = rw (init_sems, first, next)

pub init_sems_lem :
    (rounds i : ℕ) (k : Kernel)
    → i + rounds ≤ nsem
    → let (nextqid, k') = init_sems rounds i (queue_of i) k in
      (nextqid ≡ queue_of (i + rounds))
      × (k' ≡ record k { semtab = k'.semtab; queuetab = k'.queuetab })
      × ((s : ℕ) → s < i → k'.semtab s ≡ k.semtab s)
      × ((s : ℕ)
          → i ≤ s
          → s < i + rounds
          → k'.semtab s ≡ record { sstate = SState.s_free; scount = 0; squeue = queue_of s })
      × ((r : ℕ) → IsQid r → IsEmpty k.queuetab r → IsEmpty k'.queuetab r)
      × ((s : ℕ) → i ≤ s → s < i + rounds → IsEmpty k'.queuetab (queue_of s))
unfolding init_sems
init_sems_lem zero i k few = (
  ground arith,
  refl,
  λ s l. refl,
  λ s l h. absurd (omega arith),
  λ r ir e. e,
  λ s l h. absurd (omega arith),
)
init_sems_lem (suc rounds) i k few =
    let (first, next, new_empty, others) =
      newqueue_lem k.queuetab (queue_of i) (omega arith, omega arith, omega arith) in
    let k1 : Kernel = record k {
      queuetab = (newqueue (queue_of i) k.queuetab).2;
      semtab =
          update k.semtab i (record { sstate = SState.s_free; scount = 0; squeue = queue_of i });
    } in
    let step : init_sems (suc rounds) i (queue_of i) k
        ≡ init_sems rounds (i + 1) (queue_of (i + 1)) k1 =
      init_sems_more rounds i (queue_of i) k first (next ∙ (omega arith)) in
    let ih = init_sems_lem rounds (i + 1) k1 (omega arith) in
    rw step (
      ground (arith, ih.0),
      ih.1,
      λ s l. ih.2 s (omega arith) ∙ (ground arith),
      λ s l h. elim (Bool-cases (i == s)) [
        | inl same ↦ let at : i ≡ s = ground arith in ih.2 s (omega arith) ∙ (rw at (ground arith))
        | inr diff ↦ ih.3 s (ground arith) (omega arith)
      ],
      λ r ir e. ih.4 r ir (others r ir e),
      λ s l h. elim (Bool-cases (i == s)) [
        | inl same ↦
            let at : i ≡ s = ground arith in
            rw (sym at) (ih.4 (queue_of i) (omega arith, omega arith, omega arith) new_empty)
        | inr diff ↦ ih.5 s (ground arith) (omega arith)
      ],
    )
