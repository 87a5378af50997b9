-- ===== src/Strings/Compare.antt =====
-- The routines that compare: `strcmp`, `strncmp` and `memcmp`.
use ece592_final_project.Base.{
  ℕ, zero, suc, ◌+◌, ◌<◌, ◌≡◌, ◌⊎◌, ◌↔◌, arith, Bool, true, false, ◌&&◌, Option, some, ◌==◌, is_neg,
  sub32,
}
use ece592_final_project.Strings.{Bytes, strcmp, strncmp_loop, strncmp, memcmp_loop, memcmp}
use ece592_final_project.Strings.Length.{IsString}

-- The `n` bytes at `a` are those at `b`.
abbrev pub agree : Bytes → ℕ → ℕ → ℕ → Bool
agree mem a b zero = true
agree mem a b (suc n) = (mem a == mem b) && agree mem (a + 1) (b + 1) n

-- `strcmp` of two strings ends within as many rounds as the first is long, its NUL included. It returns
-- 0 where these bytes agree, whichever string is first; else 1 or -1, and the opposite with the
-- strings exchanged.
pub strcmp_lem :
    (fuel n1 n2 s1 s2 : ℕ) (mem : Bytes)
    → ((x : ℕ) → mem x < 256)
    → IsString mem s1 n1
    → IsString mem s2 n2
    → n1 < fuel
    → (agree mem s1 s2 (n1 + 1) ≡ true)
        × (strcmp fuel mem s1 s2 ≡ some 0)
        × (strcmp fuel mem s2 s1 ≡ some 0)
      ⊎ (agree mem s1 s2 (n1 + 1) ≡ false)
        × (strcmp fuel mem s1 s2 ≡ some 1)
        × (strcmp fuel mem s2 s1 ≡ some 0xffff_ffff)
      ⊎ (agree mem s1 s2 (n1 + 1) ≡ false)
        × (strcmp fuel mem s1 s2 ≡ some 0xffff_ffff)
        × (strcmp fuel mem s2 s1 ≡ some 1)
unfolding strcmp
strcmp_lem zero n1 n2 s1 s2 mem b p q f = absurd (omega arith)
strcmp_lem (suc fuel) zero zero s1 s2 mem b p q f = ground arith
strcmp_lem (suc fuel) zero (suc n2) s1 s2 mem b p q f = ground (arith, b s1, b s2)
strcmp_lem (suc fuel) (suc n1) zero s1 s2 mem b p q f = ground (arith, b s1, b s2)
strcmp_lem (suc fuel) (suc n1) (suc n2) s1 s2 mem b p q f =
    ground (arith, b s1, b s2, strcmp_lem fuel n1 n2 (s1 + 1) (s2 + 1) mem b)

memcmp_loop_lem :
    (n s1 s2 : ℕ) (mem : Bytes)
    → ((x : ℕ) → mem x < 256)
    → ((memcmp_loop n mem s1 s2 ≡ 0) ↔ (agree mem s1 s2 n ≡ true))
      × (memcmp_loop n mem s2 s1 ≡ sub32 0 (memcmp_loop n mem s1 s2))
unfolding memcmp_loop
memcmp_loop_lem zero s1 s2 mem b = ground arith
memcmp_loop_lem (suc n) s1 s2 mem b =
    ground (arith, memcmp_loop_lem n (s1 + 1) (s2 + 1) mem, b s1, b s2)

-- `memcmp` of `n` bytes returns 0 just where they are the same, and the opposite int32 with its
-- arguments exchanged.
memcmp_lem :
    (n s1 s2 : ℕ) (mem : Bytes)
    → ((x : ℕ) → mem x < 256)
    → is_neg n ≡ false
    → ((memcmp mem s1 s2 n ≡ 0) ↔ (agree mem s1 s2 n ≡ true))
      × (memcmp mem s2 s1 n ≡ sub32 0 (memcmp mem s1 s2 n))
unfolding memcmp
memcmp_lem n s1 s2 mem b pos = rw pos (memcmp_loop_lem n s1 s2 mem b)

-- The result of `strcmp` and that of `strncmp` are both 0, both positive or both negative.
abbrev pub SameSign : Option ℕ → ℕ → Type 0
SameSign c d =
    (c ≡ some 0) × (d ≡ 0)
    ⊎ (c ≡ some 1) × (0 < d) × (is_neg d ≡ false)
    ⊎ (c ≡ some 0xffff_ffff) × (is_neg d ≡ true)

strncmp_loop-strcmp :
    (n l s1 s2 : ℕ) (mem : Bytes)
    → ((x : ℕ) → mem x < 256)
    → IsString mem s1 l
    → l < n
    → SameSign (strcmp n mem s1 s2) (strncmp_loop n mem s1 s2)
unfolding strcmp strncmp_loop
strncmp_loop-strcmp zero l s1 s2 mem b p lt = absurd (omega arith)
strncmp_loop-strcmp (suc n) zero s1 s2 mem b p lt = ground (arith, b s1, b s2)
strncmp_loop-strcmp (suc n) (suc l) s1 s2 mem b p lt =
    ground (arith, b s1, b s2, strncmp_loop-strcmp n l (s1 + 1) (s2 + 1) mem b)

-- Where the bound `n` is beyond the end of the first string, `strncmp` returns 0, a positive or a
-- negative int32 just where `strcmp` does.
pub strncmp-strcmp_lem :
    (n l s1 s2 : ℕ) (mem : Bytes)
    → ((x : ℕ) → mem x < 256)
    → IsString mem s1 l
    → l < n
    → is_neg n ≡ false
    → SameSign (strcmp n mem s1 s2) (strncmp mem s1 s2 n)
unfolding strncmp
strncmp-strcmp_lem n l s1 s2 mem b p lt pos = rw pos (strncmp_loop-strcmp n l s1 s2 mem b p lt)
