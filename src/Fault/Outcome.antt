-- ===== src/Fault/Outcome.antt =====
-- What the handler of page faults achieves.
use ece592_final_project.Base.{
  ap, ℕ, ◌+◌, ◌*◌, ◌/◌, ◌%◌, ◌≤◌, ◌<◌, ◌≡◌, refl, ◌∙◌, ◌⊎◌, inl, inr, true, false, arith, ◌==◌,
  Bool-cases, none, modulus,
}
use ece592_final_project.Kernel.{Kernel}
use ece592_final_project.Memory.{Mem, pt_start, getffsmem}
use ece592_final_project.Paging.{entry_at, pres, valid}
use ece592_final_project.Paging.Space.{translate}
use ece592_final_project.Lifetime.{kill_notify}
use ece592_final_project.Fault.{
  load, store, Handled, directory_entry, table_entry, pagefault_handler,
}

-- A store below `top` leaves the words from `top + 8` on.
store_high : (words : ℕ → ℕ) (a v x : ℕ) → a + 8 ≤ x → x < modulus → store words a v x ≡ words x
unfolding store
store_high words a v x far lt = ground arith

words-getffsmem : (n : ℕ) (m : Mem) → (getffsmem n m).1.words ≡ m.words
unfolding getffsmem
words-getffsmem n m = refl

-- The bit pt_valid is 0 or 1.
valid_cases : (w : ℕ) → ((valid w == 1) ≡ false) → ((valid w == 0) ≡ false) → ⊥
valid_cases w one zero_too = ground arith

module _ (cr2 : ℕ) (k : Kernel) (m : Mem) where
  abbrev pdbr : ℕ
  pdbr = (k.proctab k.currpid).pdbr

  module _ (small : cr2 < modulus) (aligned : pdbr % 4096 ≡ 0) (low : pt_start ≤ pdbr)
      (room : pdbr + 4096 ≤ modulus) where
    -- The entry that the hardware reads is the one that the handler reads.
    entry_read : entry_at pdbr (cr2 / 0x40_0000 % 1024) ≡ pdbr / 4096 * 4096 + 4 * (cr2 / 0x40_0000)
    entry_read = omega arith

    table_low : table_entry cr2 k m + 8 ≤ pt_start
    unfolding table_entry
    table_low = omega arith

    -- Stores to the entry of the table do not reach the directory.
    still_missing :
        (v w : ℕ) (m1 : Mem)
        → m1.words ≡ m.words
        → (pres (directory_entry cr2 k m) == 0) ≡ true
        → translate
            (store (store m1.words (table_entry cr2 k m) v) (table_entry cr2 k m) w)
            pdbr
            cr2
          ≡ none
    unfolding directory_entry
    still_missing v w m1 same missing =
        let x = pdbr / 4096 * 4096 + 4 * (cr2 / 0x40_0000) in
        let pt = table_entry cr2 k m in
        let far : pt + 8 ≤ x = omega (arith, table_low) in
        let lt : x < modulus = omega arith in
        let e =
          store_high (store m1.words pt v) pt w x far lt
          ∙ store_high m1.words pt v x far lt
          ∙ ap (λ f. f x) same in
        let gone : (pres (m.words x) == 0) ≡ true = rw (directory_entry, entry_read) at missing in
        rw (e, gone) refl

-- A page fault of a process whose directory is an aligned page from PT_START on: the handler kills
-- the process if the bit pt_valid of the entry that it reads is 0. Otherwise it returns, and the
-- address that was accessed is translated as little as before, since it maps a page only where the
-- entry of the directory is not present, and leaves that entry so.
pub pagefault_handler_lem :
    (cr2 : ℕ) (k : Kernel) (m : Mem)
    → let pdbr = (k.proctab k.currpid).pdbr in
      let entry = load m.words (table_entry cr2 k m) in
      cr2 < modulus
      → pdbr % 4096 ≡ 0
      → pt_start ≤ pdbr
      → pdbr + 4096 ≤ modulus
      → translate m.words pdbr cr2 ≡ none
      → (valid entry ≡ 0) × (pagefault_handler cr2 k m ≡ Handled.kills (kill_notify k.currpid k))
        ⊎ (valid entry ≡ 1)
          × ((k' : Kernel) × (m' : Mem) × (pagefault_handler cr2 k m ≡ Handled.returns k' m')
              × (translate m'.words pdbr cr2 ≡ none))
unfolding pagefault_handler
pagefault_handler_lem cr2 k m small aligned low room fault =
    let entry = load m.words (table_entry cr2 k m) in
    elim (Bool-cases (valid entry == 1)) [
      | inl one ↦ elim (Bool-cases (pres (directory_entry cr2 k m) == 0)) [
        | inl missing ↦
            rw (one, missing)
              (inr (
                ground arith,
                (
                  _,
                  _,
                  refl,
                  still_missing cr2 k m small aligned low room _ _ (getffsmem 4096 m).1
                      (words-getffsmem 4096 m) missing,
                ),
              ))
        | inr here ↦
            let nonzero : (valid entry == 0) ≡ false = ground arith in
            rw (one, here, nonzero) (inr (ground arith, (k, m, refl, fault)))
      ]
      | inr other ↦ elim (Bool-cases (valid entry == 0)) [
        | inl nothing ↦ rw (other, nothing) (inl (ground arith, refl))
        | inr something ↦ absurd (valid_cases entry other something)
      ]
    ]
