-- ===== src/Paging/Words.antt =====
-- The bit fields of an entry, and the loops over the entries of one directory or table.
use ece592_final_project.Base.{
  mul32, ℕ, zero, suc, ◌+◌, ◌*◌, ◌/◌, ◌≤◌, ◌<◌, ◌≡◌, refl, ◌∙◌, ap, ◌⊎◌, inl, inr, false, arith,
  ◌==◌, Bool-cases, modulus,
}
use ece592_final_project.Memory.{Mem}
use ece592_final_project.Paging.{
  entry_at, change, set_base, set_pres, base, set_write, set_valid, set_acc, pres, clear_directory,
  fill_table,
}

clear_fields : (w : ℕ) → pres (set_write 1 (set_pres 0 w)) ≡ 0
clear_fields w = omega arith

-- The stores of `fill_table`, with the valid bit set or not before the base.
fill_fields :
    (w v : ℕ)
    → v < 0x10_0000
    → let w1 = set_acc 0 (set_write 1 (set_pres 1 w)) in
      (pres (set_base v w1) ≡ 1)
      × (base (set_base v w1) ≡ v)
      × (pres (set_base v (set_valid 1 w1)) ≡ 1)
      × (base (set_base v (set_valid 1 w1)) ≡ v)
fill_fields w v lt = (omega arith, omega arith, omega arith, omega arith)

valid_fields : (w : ℕ) → (pres (set_valid 1 w) ≡ pres w) × (base (set_valid 1 w) ≡ base w)
valid_fields w = (omega arith, omega arith)

pub entry_at_lem :
    (table i : ℕ) → i < 1024 → table + 4096 ≤ modulus → entry_at table i ≡ table + 4 * i
entry_at_lem table i lt room = omega arith

-- Only words change.
abbrev pub OnlyWords : Mem → Mem → Type 0
OnlyWords m m' = m' ≡ record m { words = m'.words }

pub OnlyWords-trans : (m m1 m2 : Mem) → OnlyWords m m1 → OnlyWords m1 m2 → OnlyWords m m2
OnlyWords-trans m m1 m2 e f = f ∙ ap {A = Mem} (λ x. record x { words = m2.words }) e

-- The words outside the page at `table` are as before.
abbrev pub SameOutside : (table : ℕ) → Mem → Mem → Type 0
SameOutside table m m' = (a : ℕ) → (a < table) ⊎ (table + 4096 ≤ a) → m'.words a ≡ m.words a

-- Entry `j` of the table at `pt` is present and maps to frame `v`.
abbrev pub MapsTo : (pt j v : ℕ) → Mem → Type 0
MapsTo pt j v m = (pres (m.words (pt + 4 * j)) ≡ 1) × (base (m.words (pt + 4 * j)) ≡ v)

-- One round of `fill_table`
module _ (mark j v pt : ℕ) (m : Mem) (small : v < 0x10_0000) where
  abbrev filled : Mem
  filled = change (set_base v) (pt + 4 * j) (
      change (set_valid 1) (pt + 4 * mark)
        (change (λ w. set_acc 0 (set_write 1 (set_pres 1 w))) (pt + 4 * j) m))

  filled-MapsTo : MapsTo pt j v filled
  filled-MapsTo = elim (Bool-cases (mark == j)) [
    | inl same ↦
        let at : mark ≡ j = ground arith in
        ground (arith, fill_fields (m.words (pt + 4 * j)) v small)
    | inr diff ↦ ground (arith, fill_fields (m.words (pt + 4 * j)) v small)
  ]

  filled_keeps : (i u : ℕ) → (i == j) ≡ false → MapsTo pt i u m → MapsTo pt i u filled
  filled_keeps i u ne h = ground (arith, valid_fields (m.words (pt + 4 * i)))

  filled_outside : j < 1024 → mark < 1024 → SameOutside pt m filled
  filled_outside lj lm a out = ground arith

-- The frame that entry `j` of table `i` gets
abbrev pub page_of : (i j : ℕ) → ℕ
page_of i j = i * 1024 + j

fill_more :
    (mark : ℕ → ℕ) (rounds j i pt : ℕ) (m : Mem) (lj : j < 1024) (lm : mark j < 1024)
    (li : i < 1024)
    → pt + 4096 ≤ modulus
    → fill_table mark (suc rounds) j i pt m
      ≡ fill_table mark rounds (j + 1) i pt (filled (mark j) j (page_of i j) pt m (omega arith))
unfolding fill_table
fill_more mark rounds j i pt m lj lm li room =
    let frame : mul32 (i * 1024 + j) 4096 / 4096 ≡ page_of i j = omega arith in
    rw (fill_table, entry_at_lem pt j lj room, entry_at_lem pt (mark j) lm room, frame)

pub fill_table_lem :
    (mark : ℕ → ℕ) (rounds j i pt : ℕ) (m : Mem)
    → ((n : ℕ) → n < 1024 → mark n < 1024)
    → j + rounds ≤ 1024
    → i < 1024
    → pt + 4096 ≤ modulus
    → let m' = fill_table mark rounds j i pt m in
      OnlyWords m m'
      × SameOutside pt m m'
      × ((n : ℕ)
          → n < j + rounds
          → (n < j → MapsTo pt n (page_of i n) m)
          → MapsTo pt n (page_of i n) m')
unfolding fill_table
fill_table_lem mark zero j i pt m marks few li room =
    (refl, λ a out. refl, λ n lt h. h (omega arith))
fill_table_lem mark (suc rounds) j i pt m marks few li room =
    let lj : j < 1024 = omega arith in
    let lm = marks j lj in
    let small : page_of i j < 0x10_0000 = omega arith in
    let m1 = filled (mark j) j (page_of i j) pt m small in
    let ih = fill_table_lem mark rounds (j + 1) i pt m1 marks (omega arith) li room in
    rw (fill_more mark rounds j i pt m lj lm li room) (
      ih.0,
      λ a out. ih.1 a out ∙ filled_outside (mark j) j (page_of i j) pt m small lj lm a out,
      λ n lt h. ih.2 n (omega arith) (λ l. elim (Bool-cases (n == j)) [
        | inl same ↦
            let at : n ≡ j = ground arith in
            rw at (filled-MapsTo (mark j) j (page_of i j) pt m small)
        | inr diff ↦
            filled_keeps (mark j) j (page_of i j) pt m small n (page_of i n) diff (h (ground arith))
      ]),
    )

clear_more :
    (rounds i pd : ℕ) (m : Mem)
    → i < 1024
    → pd + 4096 ≤ modulus
    → clear_directory (suc rounds) i pd m
      ≡ clear_directory rounds (i + 1) pd (change (λ w. set_write 1 (set_pres 0 w)) (pd + 4 * i) m)
unfolding clear_directory
clear_more rounds i pd m li room = rw (clear_directory, entry_at_lem pd i li room)

pub clear_directory_lem :
    (rounds i pd : ℕ) (m : Mem)
    → i + rounds ≤ 1024
    → pd + 4096 ≤ modulus
    → let m' = clear_directory rounds i pd m in
      OnlyWords m m'
      × SameOutside pd m m'
      × ((n : ℕ)
          → n < i + rounds
          → (n < i → pres (m.words (pd + 4 * n)) ≡ 0)
          → pres (m'.words (pd + 4 * n)) ≡ 0)
unfolding clear_directory
clear_directory_lem zero i pd m few room = (refl, λ a out. refl, λ n lt h. h (omega arith))
clear_directory_lem (suc rounds) i pd m few room =
    let li : i < 1024 = omega arith in
    let m1 = change (λ w. set_write 1 (set_pres 0 w)) (pd + 4 * i) m in
    let ih = clear_directory_lem rounds (i + 1) pd m1 (omega arith) room in
    rw (clear_more rounds i pd m li room) (
      ih.0,
      λ a out. ih.1 a out ∙ (ground arith),
      λ n lt h. ih.2 n (omega arith) (λ l. elim (Bool-cases (n == i)) [
        | inl same ↦
            let at : n ≡ i = ground arith in
            rw at (ground (arith, clear_fields (m.words (pd + 4 * i))))
        | inr diff ↦ ground (arith, h)
      ]),
    )
