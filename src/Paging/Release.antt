-- ===== src/Paging/Release.antt =====
-- What becomes of the pages of a process: `vmalloc`, and `free_virtual_mem` when `kill` ends it.
use ece592_final_project.Base.{
  roundmb, add32, syserr, ap, ◌≢◌, ◌⊎◌, ℕ, zero, suc, ◌+◌, ◌*◌, ◌/◌, ◌≤◌, ◌<◌, ◌≡◌, refl, ◌∙◌, inl,
  inr, false, Bool-cases, arith, ◌==◌, ◌&&◌, ltb, if◌then◌else◌, none, some, modulus, mul32,
}
use ece592_final_project.Memory.{Mem, freeptmem}
use ece592_final_project.Kernel.{Kernel}
use ece592_final_project.Paging.{
  vmalloc, open_tables, set_write, entry_at, change, base, pres, set_pres, set_valid, release_table,
  release_tables, free_virtual_mem,
}
use ece592_final_project.Paging.Words.{OnlyWords-trans, entry_at_lem, SameOutside, OnlyWords}

-- The lists of the heap and of the FFS frames hold the blocks that they held.
record SameFrames (m m' : Mem) : Type 0 where
  ffs : m'.ffslist ≡ m.ffslist
  heap : m'.memlist.blocks ≡ m.memlist.blocks

SameFrames-refl : (m : Mem) → SameFrames m m
SameFrames-refl m = record { ffs = refl; heap = refl }

SameFrames-trans : {m m1 m2 : Mem} → SameFrames m m1 → SameFrames m1 m2 → SameFrames m m2
SameFrames-trans a b = record { ffs = b.ffs ∙ a.ffs; heap = b.heap ∙ a.heap }

freeptmem_frames : (a n : ℕ) (m : Mem) → SameFrames m (freeptmem a n m).1
unfolding freeptmem
freeptmem_frames a n m = record { ffs = ground arith; heap = ground arith }

absent : (w : ℕ) → (pres (set_pres 0 w) == 1) ≡ false
absent w = ground arith

release_table_more :
    (rounds j i pt : ℕ) (m : Mem)
    → release_table (suc rounds) j i pt m
      ≡ release_table rounds
          (j + 1)
          i
          pt
          (change (set_valid 0) (entry_at pt j) (change (set_pres 0) (entry_at pt j) m))
unfolding release_table
release_table_more rounds j i pt m =
    let never : (ltb 8 i
          && (pres ((change (set_pres 0) (entry_at pt j) m).words (entry_at pt j)) == 1))
        ≡ false =
      ground (arith, absent (m.words (entry_at pt j))) in
    rw never refl

release_table_frames : (rounds j i pt : ℕ) (m : Mem) → SameFrames m (release_table rounds j i pt m)
unfolding release_table
release_table_frames zero j i pt m = SameFrames-refl m
release_table_frames (suc rounds) j i pt m =
    let a = entry_at pt j in
    let r =
      release_table_frames rounds (j + 1) i pt (change (set_valid 0) a (change (set_pres 0) a m)) in
    rw (release_table_more rounds j i pt m) (record { ffs = r.ffs; heap = r.heap })

one_table_frames :
    (i w : ℕ) (m : Mem)
    → SameFrames m (
        if pres w == 1
        then (freeptmem
            (mul32 (base w) 4096)
            4096
            (release_table 1024 0 i (mul32 (base w) 4096) m)).1
        else m)
one_table_frames i w m = elim (Bool-cases (pres w == 1)) [
  | inl present ↦
      let pt = mul32 (base w) 4096 in
      rw present
        (SameFrames-trans (release_table_frames 1024 0 i pt m) (freeptmem_frames pt 4096 _))
  | inr missing ↦ rw missing (SameFrames-refl m)
]

release_tables_frames : (rounds i pd : ℕ) (m : Mem) → SameFrames m (release_tables rounds i pd m)
unfolding release_tables
release_tables_frames zero i pd m = SameFrames-refl m
release_tables_frames (suc rounds) i pd m =
    SameFrames-trans (one_table_frames i (m.words (entry_at pd i)) m)
      (release_tables_frames rounds (i + 1) pd _)

-- `free_virtual_mem` returns no frame: whatever the directory and its tables hold, the list of the FFS
-- space and the blocks of the heap are afterwards as before. (It clears the bit pt_pres of an entry
-- just before it tests that bit.)
pub free_virtual_mem_frames :
    (pdbr : ℕ) (m : Mem)
    → let m' = free_virtual_mem pdbr m in
      (m'.ffslist ≡ m.ffslist) × (m'.memlist.blocks ≡ m.memlist.blocks)
unfolding free_virtual_mem
free_virtual_mem_frames pdbr m =
    let both =
      SameFrames-trans (release_tables_frames 1024 0 (mul32 pdbr 4096) m)
        (freeptmem_frames (mul32 pdbr 4096) 4096 _) in
    (both.ffs, both.heap)

-- What the loop of `vmalloc` makes of an entry of the directory.
abbrev pub opened : ℕ → ℕ
opened w = if pres w == 0 then set_write 1 (set_pres 1 w) else w

opened_fields : (w : ℕ) → (pres (opened w) ≡ 1) × (base (opened w) ≡ base w)
opened_fields w = ground arith

-- One round of the loop, on the entry at `a`
abbrev open_entry : ℕ → Mem → Mem
open_entry a m = if pres (m.words a) == 0 then change (λ w. set_write 1 (set_pres 1 w)) a m else m

open_entry_lem :
    (a : ℕ) (m : Mem)
    → OnlyWords m (open_entry a m)
      × ((x : ℕ) → (open_entry a m).words x ≡ (if a == x then opened (m.words x) else m.words x))
open_entry_lem a m = elim (Bool-cases (pres (m.words a) == 0)) [
  | inl shut ↦ rw shut (refl, λ x. ground (arith, shut))
  | inr present ↦ rw present (refl, λ x. ground (arith, present))
]

open_tables_lem :
    (rounds i pd : ℕ) (m : Mem)
    → i + rounds ≤ 1024
    → pd + 4096 ≤ modulus
    → let m' = open_tables rounds i pd m in
      OnlyWords m m'
      × SameOutside pd m m'
      × ((n : ℕ) → n < i → m'.words (pd + 4 * n) ≡ m.words (pd + 4 * n))
      × ((n : ℕ) → i ≤ n → n < i + rounds → m'.words (pd + 4 * n) ≡ opened (m.words (pd + 4 * n)))
unfolding open_tables
open_tables_lem zero i pd m few room =
    (refl, λ a out. refl, λ n lt. refl, λ n ge lt. absurd (omega arith))
open_tables_lem (suc rounds) i pd m few room =
    let at = entry_at_lem pd i (omega arith) room in
    let one = open_entry_lem (pd + 4 * i) m in
    let ih = open_tables_lem rounds (i + 1) pd (open_entry (pd + 4 * i) m) (omega arith) room in
    rw (open_tables, at)
      (
        OnlyWords-trans m (open_entry (pd + 4 * i) m)
            (open_tables rounds (i + 1) pd (open_entry (pd + 4 * i) m)) one.0 ih.0,
        λ x out. ih.1 x out ∙ one.1 x ∙ rw (differ x out) refl,
        λ n lt. ih.2 n (omega arith) ∙ untouched n (omega arith),
        λ n ge lt. elim (Bool-cases (n == i)) [
          | inl same ↦
              let here : n ≡ i = ground arith in
              rw here (ih.2 i (omega arith) ∙ one.1 (pd + 4 * i) ∙ ground arith)
          | inr diff ↦ ih.3 n (ground arith) (omega arith) ∙ ap opened (untouched n (ground arith))
        ],
      )
  where
    differ : (x : ℕ) → (x < pd) ⊎ (pd + 4096 ≤ x) → ((pd + 4 * i) == x) ≡ false
    differ x out = ground arith

    untouched :
        (n : ℕ) → n ≢ i → (open_entry (pd + 4 * i) m).words (pd + 4 * n) ≡ m.words (pd + 4 * n)
    untouched n ne =
        let elsewhere : ((pd + 4 * i) == (pd + 4 * n)) ≡ false = ground arith in
        (open_entry_lem (pd + 4 * i) m).1 (pd + 4 * n) ∙ rw elsewhere refl

-- `vmalloc` of 0 bytes returns SYSERR and changes nothing. Of any other number of bytes, with a
-- directory in the memory, it returns no value and takes no frame from a list: it marks all 1024
-- entries of the directory as present, leaves where they lead, writes no other word, and counts the
-- bytes rounded up to 8 and then down to whole pages.
pub vmalloc_lem :
    (nbytes : ℕ) (k : Kernel) (m : Mem)
    → let p = k.proctab k.currpid in
      let (r, k', m') = vmalloc nbytes k m in
      p.pdbr + 4096 ≤ modulus
      → (nbytes ≡ 0) × (r ≡ some syserr) × (k' ≡ k) × (m' ≡ m)
        ⊎ (nbytes ≢ 0)
          × (r ≡ none)
          × ((k'.proctab k.currpid).pages_alloc ≡ add32 p.pages_alloc (roundmb nbytes / 4096))
          × ((t : ℕ)
              → t < 1024
              → (pres (m'.words (p.pdbr + 4 * t)) ≡ 1)
                × (base (m'.words (p.pdbr + 4 * t)) ≡ base (m.words (p.pdbr + 4 * t))))
          × SameOutside p.pdbr m m'
          × OnlyWords m m'
unfolding vmalloc
vmalloc_lem nbytes k m room = elim (Bool-cases (nbytes == 0)) [
  | inl nothing ↦ rw nothing (inl (ground arith, refl, refl, refl))
  | inr something ↦
      let pd = (k.proctab k.currpid).pdbr in
      let done = open_tables_lem 1024 0 pd m (omega arith) room in
      rw something (
        inr (
          ground arith,
          refl,
          ground arith,
          λ t lt.
              let fields = opened_fields (m.words (pd + 4 * t)) in
              rw (done.3 t (omega arith) (omega arith)) fields,
          done.1,
          done.0,
        ))
]
