-- ===== src/Memory/Alloc.antt =====
-- `getmem` and `getstk` give out free bytes, each once, and fail only where no block is large enough.
use ece592_final_project.Base.{
  ℕ, ◌+◌, ◌-◌, ◌%◌, ◌≤◌, ◌<◌, ◌≡◌, refl, inl, inr, true, false, not, ◌&&◌, Option, none, some, List,
  [], ◌∷◌, arith, ltb, ◌==◌, if◌then◌else◌, modulus, Bool-cases, All, roundmb, syserr, ◌⊎◌, sub32,
  add32,
}
use ece592_final_project.Memory.{
  Block, MemList, Mem, block, first_fit, take_block, last_fit, getmem, getptmem, getffsmem, getstk,
}
use ece592_final_project.Memory.Free.{IsFree, within, covers, bytes, IsFree-mono, not-covers_of_lt}

-- `n` bytes at `a` were free in `bs`, and `bs'` is what is left.
pub record Taken (lo n : ℕ) (bs : List Block) (a : ℕ) (bs' : List Block) : Type 0 where
  pub valid : IsFree lo bs'
  pub above : lo ≤ a
  pub aligned : a % 8 ≡ 0
  pub below : a + n < modulus
  pub bytes_left : bytes bs' + n ≡ bytes bs
  pub was_free : (x : ℕ) → within x a n ≡ true → covers x bs ≡ true
  pub left : (x : ℕ) → covers x bs' ≡ (covers x bs && not (within x a n))

-- Whatever the outcome, it is right: a failure means that every block is too small.
abbrev pub Fits : ℕ → ℕ → List Block → Option (ℕ × List Block) → Type 0
Fits lo n bs none = All (λ b. b.len < n) bs
Fits lo n bs (some (a, bs')) = Taken lo n bs a bs'

module _ (n : ℕ) where
  -- The first block is taken whole.
  Taken-whole :
      (lo : ℕ) (b : Block) (bs : List Block)
      → IsFree lo (b ∷ bs)
      → b.len ≡ n
      → Taken lo n (b ∷ bs) b.addr bs
  Taken-whole lo b bs f e = record {
    valid = IsFree-mono (b.addr + b.len + 1) lo bs (omega arith) f.5;
    above = omega arith;
    aligned = omega arith;
    below = omega arith;
    bytes_left = omega arith;
    was_free = λ x h. ground arith;
    left = λ x. ground (arith, not-covers_of_lt (b.addr + b.len + 1) x bs f.5);
  }

  -- It is cut from below, or from above.
  Taken-below :
      (lo : ℕ) (b : Block) (bs : List Block)
      → IsFree lo (b ∷ bs)
      → n < b.len
      → 0 < n
      → n % 8 ≡ 0
      → Taken lo n (b ∷ bs) b.addr (block (b.addr + n) (b.len - n) ∷ bs)
  Taken-below lo b bs f lt pos al = record {
    valid = (
      omega arith,
      omega arith,
      omega arith,
      omega arith,
      omega arith,
      IsFree-mono (b.addr + b.len + 1) (b.addr + n + (b.len - n) + 1) bs (omega arith) f.5,
    );
    above = omega arith;
    aligned = omega arith;
    below = omega arith;
    bytes_left = omega arith;
    was_free = λ x h. ground arith;
    left = λ x. ground (arith, not-covers_of_lt (b.addr + b.len + 1) x bs f.5);
  }

  Taken-above :
      (lo : ℕ) (b : Block) (bs : List Block)
      → IsFree lo (b ∷ bs)
      → n < b.len
      → 0 < n
      → n % 8 ≡ 0
      → Taken lo n (b ∷ bs) (b.addr + (b.len - n)) (block b.addr (b.len - n) ∷ bs)
  Taken-above lo b bs f lt pos al = record {
    valid = (
      omega arith,
      omega arith,
      omega arith,
      omega arith,
      omega arith,
      IsFree-mono (b.addr + b.len + 1) (b.addr + (b.len - n) + 1) bs (omega arith) f.5,
    );
    above = omega arith;
    aligned = omega arith;
    below = omega arith;
    bytes_left = omega arith;
    was_free = λ x h. ground arith;
    left = λ x. ground (arith, not-covers_of_lt (b.addr + b.len + 1) x bs f.5);
  }

  -- What is taken from the rest of a list is taken from the list.
  Taken-cons :
      (lo : ℕ) (b : Block) (bs : List Block) (a : ℕ) (bs' : List Block)
      → IsFree lo (b ∷ bs)
      → Taken (b.addr + b.len + 1) n bs a bs'
      → Taken lo n (b ∷ bs) a (b ∷ bs')
  Taken-cons lo b bs a bs' f t = record {
    valid = (f.0, f.1, f.2, f.3, f.4, t.valid);
    above = omega (arith, t.above);
    aligned = t.aligned;
    below = t.below;
    bytes_left = omega (arith, t.bytes_left);
    was_free = λ x h. ground (arith, t.was_free x);
    left = λ x. ground (arith, t.left x, t.above);
  }

  first_fit-Fits :
      (lo : ℕ) (bs : List Block) → IsFree lo bs → 0 < n → n % 8 ≡ 0 → Fits lo n bs (first_fit n bs)
  unfolding first_fit
  first_fit-Fits lo [] f pos al = tt
  first_fit-Fits lo (b ∷ bs) f pos al = elim (Bool-cases (b.len == n)) [
    | inl same ↦ rw same (Taken-whole lo b bs f (ground arith))
    | inr diff ↦ rw diff (elim (Bool-cases (ltb n b.len)) [
      | inl large ↦
          let fits : (b.addr + n) % modulus ≡ b.addr + n = ground arith in
          rw (large, fits) (Taken-below lo b bs f (ground arith) pos al)
      | inr small ↦ rw small (
          later (first_fit n bs) (first_fit-Fits (b.addr + b.len + 1) bs f.5 pos al) (ground arith))
    ])
  ]
    where
      later :
          (r : Option (ℕ × List Block))
          → Fits (b.addr + b.len + 1) n bs r
          → b.len < n
          → Fits lo n (b ∷ bs) (elim r [ none ↦ none | some (a, bs') ↦ some (a, b ∷ bs') ])
      later none h small = (small, h)
      later (some (a, bs')) h small = Taken-cons lo b bs a bs' f h

  last_fit-Fits :
      (lo : ℕ) (bs : List Block) → IsFree lo bs → 0 < n → n % 8 ≡ 0 → Fits lo n bs (last_fit n bs)
  unfolding last_fit
  last_fit-Fits lo [] f pos al = tt
  last_fit-Fits lo (b ∷ bs) f pos al =
      choose (last_fit n bs) (last_fit-Fits (b.addr + b.len + 1) bs f.5 pos al)
    where
      here :
          All (λ c. c.len < n) bs
          → Fits lo n (b ∷ bs) (
              if ltb b.len n
              then none
              else if n == b.len
              then some (b.addr, bs)
              else some (add32 b.addr (b.len - n), block b.addr (b.len - n) ∷ bs))
      here small = elim (Bool-cases (ltb b.len n)) [
        | inl less ↦ rw less (ground arith, small)
        | inr large ↦ rw large (elim (Bool-cases (n == b.len)) [
          | inl same ↦ rw same (Taken-whole lo b bs f (ground arith))
          | inr diff ↦
              let fits : (b.addr + (b.len - n)) % modulus ≡ b.addr + (b.len - n) = omega arith in
              rw (diff, fits) (Taken-above lo b bs f (ground arith) pos al)
        ])
      ]

      choose :
          (r : Option (ℕ × List Block))
          → Fits (b.addr + b.len + 1) n bs r
          → Fits lo n (b ∷ bs) (elim r [
            | some (a, bs') ↦ some (a, b ∷ bs')
            | none ↦
                if ltb b.len n
                then none
                else if n == b.len
                then some (b.addr, bs)
                else some (add32 b.addr (b.len - n), block b.addr (b.len - n) ∷ bs)
          ])
      choose none h = here h
      choose (some (a, bs')) h = Taken-cons lo b bs a bs' f h

-- What an allocation of `nbytes` bytes from the list `l` does: it gives the address `a` of a free
-- range and leaves the other free bytes, or fails, changes nothing, and every block is too small.
abbrev pub Allocated : ℕ → ℕ → MemList → ℕ → MemList → Type 0
Allocated lo nbytes l a l' =
    (Taken lo (roundmb nbytes) l.blocks a l'.blocks
      × (l'.mlength ≡ sub32 l.mlength (roundmb nbytes)))
    ⊎ ((a ≡ syserr) × (l' ≡ l) × All (λ b. b.len < roundmb nbytes) l.blocks)

-- A size that `roundmb` does not wrap.
abbrev pub IsSize : ℕ → Type 0
IsSize nbytes = (0 < nbytes) × (nbytes ≤ 0xffff_fff8)

take_block-Allocated :
    (lo nbytes : ℕ) (l : MemList)
    → IsFree lo l.blocks
    → IsSize nbytes
    → Allocated lo nbytes l (take_block nbytes l).0 (take_block nbytes l).1
unfolding take_block
take_block-Allocated lo nbytes l f size =
    let some_bytes : (nbytes == 0) ≡ false = ground arith in
    rw some_bytes (
      go (first_fit (roundmb nbytes) l.blocks)
        (first_fit-Fits (roundmb nbytes) lo l.blocks f (omega arith) (omega arith)))
  where
    go :
        (r : Option (ℕ × List Block))
        → Fits lo (roundmb nbytes) l.blocks r
        → let out = elim r as (λ _. ℕ × MemList) [
          | none ↦ (syserr, l)
          | some (a, bs) ↦ (a, record l { mlength = sub32 l.mlength (roundmb nbytes); blocks = bs })
        ] in
          Allocated lo nbytes l out.0 out.1
    go none h = inr (refl, refl, h)
    go (some (a, bs)) h = inl (h, refl)

-- `getmem` of a well-formed heap gives out a range of free bytes, a multiple of 8 at a multiple of 8,
-- keeps the list well-formed with exactly the other free bytes, and counts them; it fails only where
-- every block is too small, and then changes nothing. The other lists stay as they are. The size is
-- above 0 and at most 0xfffffff8.
pub getmem_lem :
    (lo nbytes : ℕ) (m : Mem)
    → IsFree lo m.memlist.blocks
    → IsSize nbytes
    → Allocated lo nbytes m.memlist (getmem nbytes m).0 (getmem nbytes m).1.memlist
      × ((getmem nbytes m).1.pdtlist ≡ m.pdtlist)
      × ((getmem nbytes m).1.ffslist ≡ m.ffslist)
unfolding getmem
getmem_lem lo nbytes m f size = (take_block-Allocated lo nbytes m.memlist f size, refl, refl)

-- `getptmem` and `getffsmem` give out a range of free bytes of `pdtlist` and `ffslist`, a multiple of 8
-- at a multiple of 8, keep that list well-formed with exactly the other free bytes, and count them;
-- they fail only where every block is too small, and then leave the list as it is.
pub getptmem-getffsmem_lem :
    (lo nbytes : ℕ) (m : Mem)
    → IsFree lo m.pdtlist.blocks
    → IsFree lo m.ffslist.blocks
    → IsSize nbytes
    → Allocated lo nbytes m.pdtlist (getptmem nbytes m).0 (getptmem nbytes m).1.pdtlist
      × Allocated lo nbytes m.ffslist (getffsmem nbytes m).0 (getffsmem nbytes m).1.ffslist
unfolding getptmem getffsmem
getptmem-getffsmem_lem lo nbytes m fp ff size = (
  take_block-Allocated lo nbytes m.pdtlist fp size,
  take_block-Allocated lo nbytes m.ffslist ff size,
)

-- `getstk` of a well-formed heap takes a range of free bytes and returns the address of its last
-- word, 4 below its end; it fails only where every block is too small, and then changes nothing. The
-- size is above 0 and at most 0xfffffff8.
pub getstk_lem :
    (lo nbytes : ℕ) (m : Mem)
    → IsFree lo m.memlist.blocks
    → IsSize nbytes
    → ((a : ℕ) × Taken lo (roundmb nbytes) m.memlist.blocks a (getstk nbytes m).1.memlist.blocks
        × ((getstk nbytes m).0 + 4 ≡ a + roundmb nbytes))
      ⊎ ((getstk nbytes m).0 ≡ syserr)
        × ((getstk nbytes m).1 ≡ m)
        × All (λ b. b.len < roundmb nbytes) m.memlist.blocks
unfolding getstk
getstk_lem lo nbytes m f size =
    let some_bytes : (nbytes == 0) ≡ false = ground arith in
    rw some_bytes (
      go (last_fit (roundmb nbytes) m.memlist.blocks)
        (last_fit-Fits (roundmb nbytes) lo m.memlist.blocks f (omega arith) (omega arith)))
  where
    go :
        (r : Option (ℕ × List Block))
        → Fits lo (roundmb nbytes) m.memlist.blocks r
        → let out = elim r as (λ _. ℕ × Mem) [
          | none ↦ (syserr, m)
          | some (a, bs) ↦ (
            sub32 (add32 a (roundmb nbytes)) 4,
            record m {
              memlist = record m.memlist {
                mlength = sub32 m.memlist.mlength (roundmb nbytes);
                blocks = bs;
              };
            },
          )
        ] in
          ((a : ℕ) × Taken lo (roundmb nbytes) m.memlist.blocks a out.1.memlist.blocks
            × (out.0 + 4 ≡ a + roundmb nbytes))
          ⊎ (out.0 ≡ syserr) × (out.1 ≡ m) × All (λ b. b.len < roundmb nbytes) m.memlist.blocks
    go none h = inr (refl, refl, h)
    go (some (a, bs)) h = inl (a, h, omega (arith, h.below, h.above))
