-- ===== src/Strings/Number.antt =====
-- `atoi`, `atol`, `abs` and `labs`. An int and a long are both 32 bits wide.
use ece592_final_project.Base.{
  ℕ, zero, suc, ◌+◌, ◌*◌, ◌-◌, ◌≤◌, ◌<◌, ◌≡◌, arith, Bool, true, false, ◌&&◌, ◌||◌, Option, none,
  some, ◌==◌, leb, if◌then◌else◌, List, [], ◌∷◌, length, is_neg, add32, sub32, mul32, modulus,
}
use ece592_final_project.Strings.{Bytes}

abbrev is_digit : ℕ → Bool
is_digit c = leb 48 c && leb c 57

-- `while (*p >= '0' && *p <= '9') n = n * 10 + *p++ - '0'`
unfoldable pub digits_loop : ℕ → Bytes → ℕ → ℕ → Option ℕ
digits_loop zero mem p n = none
digits_loop (suc fuel) mem p n =
    let rest = digits_loop fuel mem (p + 1) (sub32 (add32 (mul32 n 10) (mem p)) 48) in
    if is_digit (mem p) then rest else some n

-- Blanks and tabs are skipped, and one sign: the flag `f`, and where the digits start.
unfoldable pub sign_loop : ℕ → Bytes → ℕ → Option (Bool × ℕ)
sign_loop zero mem p = none
sign_loop (suc fuel) mem p =
    let rest = sign_loop fuel mem (p + 1) in
    if (mem p == 32) || (mem p == 9)
    then rest
    else if mem p == 45
    then some (true, p + 1)
    else if mem p == 43
    then some (false, p + 1)
    else some (false, p)

unfoldable pub atoi : ℕ → Bytes → ℕ → Option ℕ
atoi fuel mem p = elim (sign_loop fuel mem p) [
  | none ↦ none
  | some (f, q) ↦ elim (digits_loop fuel mem q 0) [
    | none ↦ none
    | some n ↦ some (if f then sub32 0 n else n)
  ]
]

unfoldable pub atol : ℕ → Bytes → ℕ → Option ℕ
atol fuel mem p = elim (sign_loop fuel mem p) [
  | none ↦ none
  | some (f, q) ↦ elim (digits_loop fuel mem q 0) [
    | none ↦ none
    | some n ↦ some (if f then sub32 0 n else n)
  ]
]

unfoldable pub abs : ℕ → ℕ
abs arg = if is_neg arg then sub32 0 arg else arg

unfoldable pub labs : ℕ → ℕ
labs arg = if is_neg arg then sub32 0 arg else arg

-- The number that decimal digits denote, behind those that denote `n`.
abbrev pub decimal : ℕ → List ℕ → ℕ
decimal n [] = n
decimal n (d ∷ ds) = decimal (n * 10 + d) ds

-- At `p` stand the digits `ds` in ASCII, and then a byte that is no digit.
abbrev pub IsDecimal : Bytes → ℕ → List ℕ → Type 0
IsDecimal mem p [] = is_digit (mem p) ≡ false
IsDecimal mem p (d ∷ ds) = (d < 10) × (mem p ≡ d + 48) × IsDecimal mem (p + 1) ds

-- At `p` stand `n` blanks.
abbrev pub IsBlank : Bytes → ℕ → ℕ → Type 0
IsBlank mem p zero = Unit
IsBlank mem p (suc n) = (mem p ≡ 32) × IsBlank mem (p + 1) n

le-decimal : (n : ℕ) (ds : List ℕ) → n ≤ decimal n ds
le-decimal n [] = omega arith
le-decimal n (d ∷ ds) = omega (arith, le-decimal (n * 10 + d) ds)

digits_loop-decimal :
    (fuel p n : ℕ) (ds : List ℕ) (mem : Bytes)
    → IsDecimal mem p ds
    → length ds < fuel
    → decimal n ds < modulus
    → digits_loop fuel mem p n ≡ some (decimal n ds)
unfolding digits_loop
digits_loop-decimal zero p n ds mem h f small = absurd (omega arith)
digits_loop-decimal (suc fuel) p n [] mem h f small = ground arith
digits_loop-decimal (suc fuel) p n (d ∷ ds) mem h f small =
    ground (arith, digits_loop-decimal fuel (p + 1) (n * 10 + d) ds mem, le-decimal (n * 10 + d) ds)

sign_loop-minus :
    (fuel blanks p : ℕ) (mem : Bytes)
    → IsBlank mem p blanks
    → mem (p + blanks) ≡ 45
    → blanks < fuel
    → sign_loop fuel mem p ≡ some (true, p + blanks + 1)
unfolding sign_loop
sign_loop-minus zero blanks p mem b h f = absurd (omega arith)
sign_loop-minus (suc fuel) zero p mem b h f = ground arith
sign_loop-minus (suc fuel) (suc blanks) p mem b h f =
    ground (arith, sign_loop-minus fuel blanks (p + 1) mem)

sign_loop-digit :
    (fuel blanks p d : ℕ) (ds : List ℕ) (mem : Bytes)
    → IsBlank mem p blanks
    → IsDecimal mem (p + blanks) (d ∷ ds)
    → blanks < fuel
    → sign_loop fuel mem p ≡ some (false, p + blanks)
unfolding sign_loop
sign_loop-digit zero blanks p d ds mem b h f = absurd (omega arith)
sign_loop-digit (suc fuel) zero p d ds mem b h f = ground arith
sign_loop-digit (suc fuel) (suc blanks) p d ds mem b h f =
    ground (arith, sign_loop-digit fuel blanks (p + 1) d ds mem)

-- `atoi` and `atol` of blanks and at least one decimal digit, up to a byte that is no digit, return the
-- number that the digits denote, if it is below 2 ^ 32.
pub atoi-decimal_lem :
    (fuel blanks p d : ℕ) (ds : List ℕ) (mem : Bytes)
    → IsBlank mem p blanks
    → IsDecimal mem (p + blanks) (d ∷ ds)
    → blanks < fuel
    → length (d ∷ ds) < fuel
    → decimal 0 (d ∷ ds) < modulus
    → (atoi fuel mem p ≡ some (decimal 0 (d ∷ ds))) × (atol fuel mem p ≡ some (decimal 0 (d ∷ ds)))
unfolding atoi atol
atoi-decimal_lem fuel blanks p d ds mem b h f g small = ground (
  arith,
  sign_loop-digit fuel blanks p d ds mem b h f,
  digits_loop-decimal fuel (p + blanks) 0 (d ∷ ds) mem h g small,
)

-- With a minus sign before the digits `atoi` and `atol` return the int32 that is the negative of that
-- number.
atoi-minus_lem :
    (fuel blanks p : ℕ) (ds : List ℕ) (mem : Bytes)
    → IsBlank mem p blanks
    → mem (p + blanks) ≡ 45
    → IsDecimal mem (p + blanks + 1) ds
    → blanks < fuel
    → length ds < fuel
    → decimal 0 ds < modulus
    → (atoi fuel mem p ≡ some (sub32 0 (decimal 0 ds)))
      × (atol fuel mem p ≡ some (sub32 0 (decimal 0 ds)))
unfolding atoi atol
atoi-minus_lem fuel blanks p ds mem b m h f g small = ground (
  arith,
  sign_loop-minus fuel blanks p mem b m f,
  digits_loop-decimal fuel (p + blanks + 1) 0 ds mem h g small,
)

-- `abs` and `labs` of an int32 that is not the least one return its distance from 0, which is not
-- negative; the least one they return as it is.
abs_lem :
    (x : ℕ)
    → x < modulus
    → (abs x ≡ labs x)
      × (abs x ≡ (if is_neg x then modulus - x else x))
      × ((is_neg (abs x)) ≡ (x == 0x8000_0000))
unfolding abs labs
abs_lem x word = ground arith
