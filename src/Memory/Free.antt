-- ===== src/Memory/Free.antt =====
-- Well-formed free lists, and the addresses that they cover.
use ece592_final_project.Base.{
  ℕ, ◌+◌, ◌%◌, ◌≤◌, ◌<◌, ◌≡◌, Bool, false, ◌&&◌, ◌||◌, List, [], ◌∷◌, arith, ltb, leb, modulus,
}
use ece592_final_project.Memory.{Block}

-- The blocks lie at or behind `lo` in order of address, no two touch, each is a multiple of 8 bytes
-- at a multiple of 8, and the last ends below 2 ^ 32.
abbrev pub IsFree : ℕ → List Block → Type 0
IsFree lo [] = Unit
IsFree lo (b ∷ bs) =
    (lo ≤ b.addr)
    × (0 < b.len)
    × (b.addr % 8 ≡ 0)
    × (b.len % 8 ≡ 0)
    × (b.addr + b.len < modulus)
    × IsFree (b.addr + b.len + 1) bs

-- Address `x` is one of the `n` from `a` on.
abbrev pub within : ℕ → ℕ → ℕ → Bool
within x a n = leb a x && ltb x (a + n)

abbrev pub covers : ℕ → List Block → Bool
covers x [] = false
covers x (b ∷ bs) = within x b.addr b.len || covers x bs

abbrev pub bytes : List Block → ℕ
bytes [] = 0
bytes (b ∷ bs) = b.len + bytes bs

pub IsFree-mono : (lo lo' : ℕ) (bs : List Block) → lo' ≤ lo → IsFree lo bs → IsFree lo' bs
IsFree-mono lo lo' [] h f = tt
IsFree-mono lo lo' (b ∷ bs) h f = (omega arith, f.1, f.2, f.3, f.4, f.5)

-- Below a list no address is covered.
pub not-covers_of_lt : (lo x : ℕ) (bs : List Block) → IsFree lo bs → x < lo → covers x bs ≡ false
not-covers_of_lt lo x [] f h = ground arith
not-covers_of_lt lo x (b ∷ bs) f h = ground (arith, not-covers_of_lt (b.addr + b.len + 1) x bs f.5)
