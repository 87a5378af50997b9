-- ===== src/Memory/Settle.antt =====
-- The two ends of the walk of `freemem`: what `settle` and `release_after` do to a free list.
use ece592_final_project.Base.{
  ℕ, ◌+◌, ◌%◌, ◌≤◌, ◌<◌, ◌≡◌, refl, inl, inr, true, false, ◌||◌, Option, none, some, List, [], ◌∷◌,
  arith, ltb, ◌==◌, modulus, Bool-cases, add32,
}
use ece592_final_project.Memory.{Block, block, join_next, runs_into, settle, release_after}
use ece592_final_project.Memory.Free.{IsFree, within, covers, bytes, IsFree-mono, not-covers_of_lt}

-- The range is a multiple of 8 at a multiple of 8, above 0 and `lo`, and ends below 2 ^ 32.
pub record IsRange (lo blk n : ℕ) : Type 0 where
  pub from : lo ≤ blk
  pub pos : 0 < blk
  pub size : 0 < n
  pub addr_aligned : blk % 8 ≡ 0
  pub size_aligned : n % 8 ≡ 0
  pub below : blk + n < modulus

-- `bs'` covers the range as well as what `bs` covers, and the range was not free.
pub record Freed (lo blk n : ℕ) (bs bs' : List Block) : Type 0 where
  pub valid : IsFree lo bs'
  pub bytes_back : bytes bs' ≡ bytes bs + n
  pub covered : (x : ℕ) → covers x bs' ≡ (covers x bs || within x blk n)
  pub was_used : (x : ℕ) → within x blk n ≡ true → covers x bs ≡ false

-- A refusal means that part of the range is free already.
abbrev pub Overlaps : ℕ → ℕ → List Block → Type 0
Overlaps blk n bs = (x : ℕ) × (within x blk n ≡ true) × (covers x bs ≡ true)

abbrev pub Released : ℕ → ℕ → ℕ → List Block → Option (List Block) → Type 0
Released lo blk n bs none = Overlaps blk n bs
Released lo blk n bs (some bs') = Freed lo blk n bs bs'

-- A block before a list that it may touch, coalesced with it.
pub record Joined (lo : ℕ) (b : Block) (bs : List Block) : Type 0 where
  pub valid : IsFree lo (join_next b bs)
  pub sum : bytes (join_next b bs) ≡ b.len + bytes bs
  pub covered : (x : ℕ) → covers x (join_next b bs) ≡ (within x b.addr b.len || covers x bs)

pub join_next-Joined :
    (lo : ℕ) (b : Block) (bs : List Block)
    → lo ≤ b.addr
    → 0 < b.len
    → b.addr % 8 ≡ 0
    → b.len % 8 ≡ 0
    → b.addr + b.len < modulus
    → IsFree (b.addr + b.len) bs
    → Joined lo b bs
join_next-Joined lo b [] h0 h1 h2 h3 h4 f = record {
  valid = (h0, h1, h2, h3, h4, tt);
  sum = refl;
  covered = λ x. refl;
}
join_next-Joined lo b (c ∷ cs) h0 h1 h2 h3 h4 f = elim (Bool-cases (add32 b.addr b.len == c.addr)) [
  | inl touch ↦
      let len : add32 b.len c.len ≡ b.len + c.len = ground arith in
      record {
        valid =
            rw (touch, len)
              (
                h0,
                omega arith,
                h2,
                omega arith,
                ground arith,
                IsFree-mono (c.addr + c.len + 1) (b.addr + (b.len + c.len) + 1) cs (ground arith)
                    f.5,
              );
        sum = rw (touch, len) (omega arith);
        covered = λ x. rw (touch, len) (ground arith);
      }
  | inr apart ↦ record {
    valid = rw apart (h0, h1, h2, h3, h4, (ground arith, f.1, f.2, f.3, f.4, f.5));
    sum = rw apart refl;
    covered = λ x. rw apart refl;
  }
]

module _ (blk n : ℕ) where
  pub room :
      (next : List Block)
      → IsFree blk next
      → blk + n < modulus
      → runs_into blk n next ≡ false
      → IsFree (blk + n) next
  room [] f h e = tt
  room (b ∷ bs) f h e = (ground arith, f.1, f.2, f.3, f.4, f.5)

  hit :
      (prev : Block) (next : List Block)
      → IsFree blk next
      → blk + n < modulus
      → runs_into blk n next ≡ true
      → Overlaps blk n (prev ∷ next)
  hit prev [] f h e = absurd (ground arith)
  hit prev (b ∷ bs) f h e = (b.addr, ground arith, ground arith)

  settle-Released :
      (lo : ℕ) (prev : Block) (next : List Block)
      → IsRange lo blk n
      → IsFree lo (prev ∷ next)
      → prev.addr < blk
      → IsFree blk next
      → Released lo blk n (prev ∷ next) (settle blk n prev next)
  unfolding settle
  settle-Released lo prev next r f before after =
      let top : add32 prev.addr prev.len ≡ prev.addr + prev.len = omega arith in
      rw top (elim (Bool-cases (ltb blk (prev.addr + prev.len))) [
        | inl low ↦ rw low (blk, ground arith, ground arith)
        | inr high ↦ rw high (elim (Bool-cases (runs_into blk n next)) [
          | inl over ↦ rw over (hit prev next after r.below over)
          | inr clear ↦
              let f' = room next after r.below clear in
              rw clear (elim (Bool-cases (prev.addr + prev.len == blk)) [
                | inl touch ↦ rw touch (joined f' (ground arith))
                | inr apart ↦ rw apart (linked f' (ground arith))
              ])
        ])
      ])
    where
      joined :
          IsFree (blk + n) next
          → prev.addr + prev.len ≡ blk
          → Freed lo blk n (prev ∷ next) (join_next (block prev.addr (add32 prev.len n)) next)
      joined f' touch =
          let len : add32 prev.len n ≡ prev.len + n = omega arith in
          let end : blk + n ≡ prev.addr + (prev.len + n) = omega arith in
          let j =
            join_next-Joined lo (block prev.addr (prev.len + n)) next (omega arith) (omega arith)
              (omega arith) (omega arith) (omega arith) (rw end at f') in
          rw len (record {
            valid = j.valid;
            bytes_back = omega (arith, j.sum);
            covered = λ x. ground (arith, j.covered x);
            was_used = λ x w. ground (arith, not-covers_of_lt (blk + n) x next f');
          })

      linked :
          IsFree (blk + n) next
          → prev.addr + prev.len < blk
          → Freed lo blk n (prev ∷ next) (prev ∷ join_next (block blk n) next)
      linked f' apart =
          let j =
            join_next-Joined (prev.addr + prev.len + 1) (block blk n) next (omega arith) r.size
              r.addr_aligned r.size_aligned r.below f' in
          record {
            valid = (f.0, f.1, f.2, f.3, f.4, j.valid);
            bytes_back = omega (arith, j.sum);
            covered = λ x. ground (arith, j.covered x);
            was_used = λ x w. ground (arith, not-covers_of_lt (blk + n) x next f');
          }

  pub next-before :
      (lo lo' : ℕ) (b : Block) (bs : List Block)
      → IsFree lo (b ∷ bs)
      → lo' ≤ b.addr
      → IsFree lo' (b ∷ bs)
  next-before lo lo' b bs f h = (h, f.1, f.2, f.3, f.4, f.5)

  pub release_after-Released :
      (lo : ℕ) (prev : Block) (bs : List Block)
      → IsRange lo blk n
      → IsFree lo (prev ∷ bs)
      → prev.addr < blk
      → Released lo blk n (prev ∷ bs) (release_after blk n prev bs)
  unfolding release_after
  release_after-Released lo prev [] r f before = settle-Released lo prev [] r f before tt
  release_after-Released lo prev (b ∷ bs) r f before = elim (Bool-cases (ltb b.addr blk)) [
    | inl go ↦
        rw (go, release_after)
          (later (release_after blk n b bs)
            (release_after-Released (prev.addr + prev.len + 1) b bs (later_range (ground arith)) f.5
              (ground arith))
            (ground arith))
    | inr stop ↦
        rw (stop, release_after)
          (settle-Released lo prev (b ∷ bs) r f before
            (next-before (prev.addr + prev.len + 1) blk b bs f.5 (ground arith)))
  ]
    where
      later_range : b.addr < blk → IsRange (prev.addr + prev.len + 1) blk n
      later_range h = record {
        from = omega arith;
        pos = r.pos;
        size = r.size;
        addr_aligned = r.addr_aligned;
        size_aligned = r.size_aligned;
        below = r.below;
      }

      later :
          (o : Option (List Block))
          → Released (prev.addr + prev.len + 1) blk n (b ∷ bs) o
          → b.addr < blk
          → Released lo blk n (prev ∷ b ∷ bs) (elim o [ none ↦ none | some cs ↦ some (prev ∷ cs) ])
      later none h lt = (h.0, h.1, ground (arith, h.2))
      later (some cs) h lt = record {
        valid = (f.0, f.1, f.2, f.3, f.4, h.valid);
        bytes_back = omega (arith, h.bytes_back);
        covered = λ x. ground (arith, h.covered x);
        was_used = λ x w. ground (arith, h.was_used x w);
      }
