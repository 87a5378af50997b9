-- ===== src/Base/Words.antt =====
-- The 32-bit words of kernel.h. A word is its bit pattern, a number below 2 ^ 32; a signed type
-- narrower than 32 bits is kept sign-extended, as C promotes it before it computes.
use Prim.Native.Nat.{ℕ, ◌+◌, ◌-◌, ◌*◌, ◌/◌, ◌%◌}
use mathlib.Core.Bool.{Bool}
use ece592_final_project.Base.Tests.{ltb, leb}

-- 2 ^ 32
abbrev pub modulus : ℕ
modulus = 0x1_0000_0000

-- the pattern of -1, which is both SYSERR and EMPTY
abbrev pub syserr : ℕ
syserr = 0xffff_ffff

abbrev pub empty : ℕ
empty = 0xffff_ffff

abbrev pub timeout : ℕ
timeout = 0xffff_fffd

abbrev pub ok : ℕ
ok = 1

abbrev pub is_neg : ℕ → Bool
is_neg x = leb 0x8000_0000 x

-- The signed order of patterns is the order of the patterns moved by 2 ^ 31.
abbrev pub bias : ℕ → ℕ
bias x = (x + 0x8000_0000) % 0x1_0000_0000

abbrev pub signed_lt : ℕ → ℕ → Bool
signed_lt a b = ltb (bias a) (bias b)

abbrev pub signed_le : ℕ → ℕ → Bool
signed_le a b = leb (bias a) (bias b)

abbrev pub add32 : ℕ → ℕ → ℕ
add32 a b = (a + b) % 0x1_0000_0000

abbrev pub sub32 : ℕ → ℕ → ℕ
sub32 a b = (a + 0x1_0000_0000 - b) % 0x1_0000_0000

abbrev pub mul32 : ℕ → ℕ → ℕ
mul32 a b = (a * b) % 0x1_0000_0000

-- `(7 + x) & ~7` and `x & ~7` of memory.h
abbrev pub roundmb : ℕ → ℕ
roundmb x = (7 + x) % 0x1_0000_0000 / 8 * 8

abbrev pub truncmb : ℕ → ℕ
truncmb x = x / 8 * 8
