-- ===== src/Strings/Copy.antt =====
-- The routines that store bytes: `memset`, `bzero`, `memcpy`, `strcpy` and `strncpy`.
use ece592_final_project.Base.{
  ℕ, zero, suc, ◌+◌, ◌-◌, ◌%◌, ◌≤◌, ◌<◌, ◌≡◌, ◌⊎◌, arith, Bool, false, ◌&&◌, some, ltb, leb,
  if◌then◌else◌, is_neg,
}
use ece592_final_project.Strings.{
  Bytes, memset_loop, memset, bzero_loop, bzero, memcpy_loop, memcpy, strcpy, strncpy_loop, strncpy,
  rounds, store,
}
use ece592_final_project.Strings.Length.{IsString}

-- `x` is one of the `n` addresses from `a` on.
abbrev pub inside : ℕ → ℕ → ℕ → Bool
inside x a n = leb a x && ltb x (a + n)

memset_loop_lem :
    (n s c : ℕ) (mem : Bytes) (x : ℕ)
    → memset_loop n s c mem x ≡ (if inside x s n then c % 256 else mem x)
unfolding memset_loop
memset_loop_lem zero s c mem x = ground arith
memset_loop_lem (suc n) s c mem x =
    ground (arith, memset_loop_lem n (s + 1) c (store mem s (c % 256)) x)

bzero_loop_lem :
    (n s : ℕ) (mem : Bytes) (x : ℕ) → bzero_loop n s mem x ≡ (if inside x s n then 0 else mem x)
unfolding bzero_loop
bzero_loop_lem zero s mem x = ground arith
bzero_loop_lem (suc n) s mem x = ground (arith, bzero_loop_lem n (s + 1) (store mem s 0) x)

-- `memset` stores the low byte of `c` at the `n` addresses from `s` on and nowhere else, and `bzero`
-- stores what `memset` with 0 does; with a negative `n` neither stores anything.
memset-bzero_lem :
    (n s c : ℕ) (mem : Bytes) (x : ℕ)
    → (memset s c n mem x ≡ (if inside x s (rounds n) then c % 256 else mem x))
      × (bzero s n mem x ≡ memset s 0 n mem x)
unfolding memset bzero
memset-bzero_lem n s c mem x = ground (
  arith,
  memset_loop_lem (rounds n) s c mem x,
  memset_loop_lem (rounds n) s 0 mem x,
  bzero_loop_lem (rounds n) s mem x,
)

-- A copy upwards reads no byte that it has written.
abbrev pub Ahead : ℕ → ℕ → ℕ → Type 0
Ahead dst src n = (dst ≤ src) ⊎ (src + n ≤ dst)

memcpy_loop_lem :
    (n dst src : ℕ) (mem : Bytes) (x : ℕ)
    → Ahead dst src n
    → memcpy_loop n dst src mem x ≡ (if inside x dst n then mem (src + (x - dst)) else mem x)
unfolding memcpy_loop
memcpy_loop_lem zero dst src mem x h = ground arith
memcpy_loop_lem (suc n) dst src mem x h =
    ground (arith, memcpy_loop_lem n (dst + 1) (src + 1) (store mem dst (mem src)) x)

-- `memcpy` of `n` bytes leaves at the destination the bytes that the source held and changes nothing
-- else, where the destination starts at or below the source or behind its end.
pub memcpy_lem :
    (n dst src : ℕ) (mem : Bytes) (x : ℕ)
    → is_neg n ≡ false
    → Ahead dst src n
    → memcpy dst src n mem x ≡ (if inside x dst n then mem (src + (x - dst)) else mem x)
unfolding memcpy
memcpy_lem n dst src mem x pos h = rw pos (memcpy_loop_lem n dst src mem x h)

IsString-store :
    (n s a c : ℕ) (mem : Bytes)
    → IsString mem s n
    → (a < s) ⊎ (s + n < a)
    → IsString (store mem a c) s n
IsString-store zero s a c mem str out = ground arith
IsString-store (suc n) s a c mem str out =
    (ground arith, IsString-store n (s + 1) a c mem str.1 (ground arith))

-- `strcpy` of a string of `n` bytes ends within `n + 1` rounds, and has then copied these bytes and
-- the NUL as `memcpy` does, where the target starts below the source or behind its NUL.
pub strcpy_lem :
    (fuel n tar src : ℕ) (mem : Bytes)
    → IsString mem src n
    → n < fuel
    → (tar < src) ⊎ (src + n < tar)
    → strcpy fuel tar src mem ≡ some (memcpy_loop (n + 1) tar src mem)
unfolding strcpy memcpy_loop
strcpy_lem zero n tar src mem str f out = absurd (omega arith)
strcpy_lem (suc fuel) zero tar src mem str f out = ground arith
strcpy_lem (suc fuel) (suc n) tar src mem str f out = ground (
  arith,
  strcpy_lem fuel n (tar + 1) (src + 1) (store mem tar (mem src)),
  IsString-store n (src + 1) tar (mem src) mem,
)

strncpy_loop_lem :
    (n l s1 s2 : ℕ) (mem : Bytes) (x : ℕ)
    → IsString mem s2 l
    → (s1 < s2) ⊎ (s2 + l < s1)
    → strncpy_loop n s1 s2 mem x
      ≡ (if inside x s1 n then (if ltb (x - s1) l then mem (s2 + (x - s1)) else 0) else mem x)
unfolding strncpy_loop
strncpy_loop_lem zero l s1 s2 mem x str out = ground arith
strncpy_loop_lem (suc n) zero s1 s2 mem x str out =
    ground (arith, bzero_loop_lem n (s1 + 1) (store mem s1 (mem s2)) x)
strncpy_loop_lem (suc n) (suc l) s1 s2 mem x str out = ground (
  arith,
  strncpy_loop_lem n l (s1 + 1) (s2 + 1) (store mem s1 (mem s2)) x,
  IsString-store l (s2 + 1) s1 (mem s2) mem,
)

-- `strncpy` of a string of `l` bytes fills exactly `n` bytes of the target: with the bytes of the
-- string, and behind its end with zeroes. The target starts below the source or behind its NUL.
strncpy_lem :
    (n l s1 s2 : ℕ) (mem : Bytes) (x : ℕ)
    → is_neg n ≡ false
    → IsString mem s2 l
    → (s1 < s2) ⊎ (s2 + l < s1)
    → strncpy s1 s2 n mem x
      ≡ (if inside x s1 n then (if ltb (x - s1) l then mem (s2 + (x - s1)) else 0) else mem x)
unfolding strncpy
strncpy_lem n l s1 s2 mem x pos str out = rw pos (strncpy_loop_lem n l s1 s2 mem x str out)
