-- ===== src/Semaphore/Create.antt =====
-- `newsem` and `semcreate`: a free entry of the semaphore table is found whenever there is one.
use ece592_final_project.Base.{
  ℕ, zero, suc, ◌+◌, ◌-◌, ◌%◌, ◌≤◌, ◌<◌, ◌≡◌, refl, ◌⊎◌, inl, inr, true, false, arith, ◌==◌, leb,
  if◌then◌else◌, Bool-cases, is_neg, syserr,
}
use ece592_final_project.Kernel.{Kernel, SState, nsem}
use ece592_final_project.Semaphore.{is_sfree, newsem_scan, newsem, semcreate}

-- The entry `r` was free, and is used in `k'`, which has the others as they were.
abbrev pub Taken : Kernel → ℕ → Kernel → Type 0
Taken k r k' =
    (r < nsem)
    × (is_sfree (k.semtab r).sstate ≡ true)
    × ((s : ℕ)
        → k'.semtab s
          ≡ (if r == s then record (k.semtab s) { sstate = SState.s_used } else k.semtab s))

-- The `n` entries from `first` on, around the end of the table, are in use.
abbrev pub InUse : Kernel → ℕ → ℕ → Type 0
InUse k first n =
    (s : ℕ) → s < nsem → (s + nsem - first) % nsem < n → is_sfree (k.semtab s).sstate ≡ false

newsem_scan_lem :
    (n : ℕ) (k : Kernel)
    → k.nextsem < nsem
    → n ≤ nsem
    → Taken k (newsem_scan n k).0 (newsem_scan n k).1
      ⊎ ((newsem_scan n k).0 ≡ syserr)
        × ((newsem_scan n k).1.semtab ≡ k.semtab)
        × InUse k k.nextsem n
unfolding newsem_scan
newsem_scan_lem zero k h le = inr (refl, refl, λ s l g. absurd (omega arith))
newsem_scan_lem (suc n) k h le = elim (Bool-cases (is_sfree (k.semtab k.nextsem).sstate)) [
  | inl vacant ↦ rw (vacant, newsem_scan) (inl (h, vacant, λ s. ground arith))
  | inr used ↦
      rw (used, newsem_scan)
        (elim (newsem_scan_lem n (step k) (ground arith) (omega arith)) [
          | inl found ↦ inl found
          | inr (r, same, rest) ↦ inr (
            r,
            same,
            λ s l g. elim (Bool-cases (k.nextsem == s)) [
              | inl here ↦ ground arith
              | inr past ↦ rest s l (ground arith)
            ],
          )
        ])
]
  where
    step : Kernel → Kernel
    step k = record k { nextsem = if leb nsem (k.nextsem + 1) then 0 else k.nextsem + 1 }

-- `semcreate` with a negative count returns SYSERR and changes nothing. Otherwise it takes a free entry
-- of the table, sets its count and leaves the other entries, or, where every entry is in use, returns
-- SYSERR and leaves the table.
pub semcreate_lem :
    (count : ℕ) (k : Kernel)
    → k.nextsem < nsem
    → (is_neg count ≡ true) × (semcreate count k ≡ (syserr, k))
      ⊎ (is_neg count ≡ false)
        × ((semcreate count k).0 < nsem)
        × (is_sfree (k.semtab (semcreate count k).0).sstate ≡ true)
        × ((s : ℕ)
            → (semcreate count k).1.semtab s ≡ (
                if (semcreate count k).0 == s
                then record (k.semtab s) { sstate = SState.s_used; scount = count }
                else k.semtab s))
      ⊎ (is_neg count ≡ false)
        × ((semcreate count k).0 ≡ syserr)
        × ((semcreate count k).1.semtab ≡ k.semtab)
        × ((s : ℕ) → s < nsem → is_sfree (k.semtab s).sstate ≡ false)
unfolding semcreate newsem
semcreate_lem count k h = elim (Bool-cases (is_neg count)) [
  | inl neg ↦ inl (neg, rw neg refl)
  | inr pos ↦ elim (newsem_scan_lem nsem k h (omega arith)) [
    | inl (small, vacant, entry) ↦
        let good : ((newsem_scan nsem k).0 == syserr) ≡ false = ground arith in
        inr (inl (rw (pos, good) (refl, small, vacant, λ s. ground (arith, entry s))))
    | inr (failed, same, rest) ↦
        let bad : ((newsem_scan nsem k).0 == syserr) ≡ true = ground arith in
        inr (inr (rw (pos, bad) (refl, refl, same, λ s l. rest s l (ground arith))))
  ]
]
