-- ===== src/Strings/Search.antt =====
-- `strchr`, `strrchr` and `strstr`: searching a string.
use ece592_final_project.Base.{
  ℕ, zero, suc, ◌+◌, ◌%◌, ◌≤◌, ◌<◌, ◌≡◌, ◌≢◌, ◌⊎◌, inl, inr, arith, Bool, true, false, Option, none,
  some, ◌==◌, if◌then◌else◌, Bool-cases,
}
use ece592_final_project.Strings.{Bytes}
use ece592_final_project.Strings.Length.{IsString}
use ece592_final_project.Strings.Compare.{agree}

-- 0 is NULL.
unfoldable pub strchr : ℕ → Bytes → ℕ → ℕ → Option ℕ
strchr zero mem s c = none
strchr (suc fuel) mem s c =
    let rest = strchr fuel mem (s + 1) c in
    if mem s == 0
    then (if (c % 256) == mem s then some s else some 0)
    else (if mem s == (c % 256) then some s else rest)

unfoldable pub strrchr_loop : ℕ → Bytes → ℕ → ℕ → ℕ → Option ℕ
strrchr_loop zero mem s c r = none
strrchr_loop (suc fuel) mem s c r =
    let rest = strrchr_loop fuel mem (s + 1) c (if mem s == (c % 256) then s else r) in
    if mem s == 0 then (if (c % 256) == mem s then some s else some r) else rest

unfoldable pub strrchr : ℕ → Bytes → ℕ → ℕ → Option ℕ
strrchr fuel mem s c = strrchr_loop fuel mem s c 0

-- The inner loop of `strstr`, and the test behind it: whether `ct` is used up.
unfoldable pub matches : ℕ → Bytes → ℕ → ℕ → Option Bool
matches zero mem cq cr = none
matches (suc fuel) mem cq cr =
    let rest = matches fuel mem (cq + 1) (cr + 1) in
    if mem cq == 0
    then some (mem cr == 0)
    else if mem cr == 0
    then some true
    else if mem cq == mem cr
    then rest
    else some false

unfoldable pub strstr : ℕ → Bytes → ℕ → ℕ → Option ℕ
strstr zero mem cs ct = none
strstr (suc fuel) mem cs ct =
    let rest = strstr fuel mem (cs + 1) ct in
    if mem cs == 0
    then some 0
    else if mem cs == mem ct
    then elim (matches (suc fuel) mem cs ct) [
      | none ↦ none
      | some true ↦ some cs
      | some false ↦ rest
    ]
    else rest

-- No byte from `a` up to `b` is `c`.
abbrev pub Without : Bytes → ℕ → ℕ → ℕ → Type 0
Without mem c a b = (x : ℕ) → a ≤ x → x < b → mem x ≢ c

-- `strchr` on a string of `n` bytes ends within `n + 1` rounds. It returns the address of the first byte
-- that is the low byte of `c`, the NUL included, or NULL where there is none.
strchr_lem :
    (fuel n s c : ℕ) (mem : Bytes)
    → IsString mem s n
    → n < fuel
    → ((a : ℕ) × (strchr fuel mem s c ≡ some a)
        × (s ≤ a)
        × (a ≤ s + n)
        × (mem a ≡ c % 256)
        × Without mem (c % 256) s a)
      ⊎ (strchr fuel mem s c ≡ some 0) × Without mem (c % 256) s (s + n + 1)
unfolding strchr
strchr_lem zero n s c mem str f = absurd (omega arith)
strchr_lem (suc fuel) zero s c mem str f = elim (Bool-cases ((c % 256) == 0)) [
  | inl e ↦
      inl (s, ground arith, omega arith, omega arith, ground arith, λ x l h. absurd (omega arith))
  | inr e ↦ inr (ground arith, λ x l h. let at : x ≡ s = omega arith in rw at (ground arith))
]
strchr_lem (suc fuel) (suc n) s c mem str f = elim (Bool-cases (mem s == (c % 256))) [
  | inl e ↦
      inl (s, ground arith, omega arith, omega arith, ground arith, λ x l h. absurd (omega arith))
  | inr e ↦ elim (strchr_lem fuel n (s + 1) c mem str.1 (omega arith)) [
    | inl (a, r, lo, hi, at, before) ↦
        inl (a, ground arith, omega arith, omega arith, at, longer c s a mem e before)
    | inr (r, before) ↦
        inr (ground arith, longer c s (s + suc n + 1) mem e (λ x l h. before x l (omega arith)))
  ]
]
  where
    longer :
        (c s b : ℕ) (mem : Bytes)
        → (mem s == (c % 256)) ≡ false
        → Without mem (c % 256) (s + 1) b
        → Without mem (c % 256) s b
    longer c s b mem ne before x l h = elim (Bool-cases (x == s)) [
      | inl e ↦ let at : x ≡ s = ground arith in rw at (ground arith)
      | inr e ↦ before x (ground arith) h
    ]

matches-agree :
    (fuel n m cq cr : ℕ) (mem : Bytes)
    → IsString mem cq n
    → IsString mem cr m
    → n < fuel
    → matches fuel mem cq cr ≡ some (agree mem cq cr m)
unfolding matches
matches-agree zero n m cq cr mem p q f = absurd (omega arith)
matches-agree (suc fuel) zero zero cq cr mem p q f = ground arith
matches-agree (suc fuel) zero (suc m) cq cr mem p q f = ground arith
matches-agree (suc fuel) (suc n) zero cq cr mem p q f = ground arith
matches-agree (suc fuel) (suc n) (suc m) cq cr mem p q f =
    ground (arith, matches-agree fuel n m (cq + 1) (cr + 1) mem)

-- The `m` bytes of `ct` do not stand at any address from `a` up to `b`.
abbrev pub Nowhere : Bytes → ℕ → ℕ → ℕ → ℕ → Type 0
Nowhere mem ct m a b = (x : ℕ) → a ≤ x → x < b → agree mem x ct m ≡ false

Nowhere-cons :
    (mem : Bytes) (ct m a b : ℕ)
    → agree mem a ct m ≡ false
    → Nowhere mem ct m (a + 1) b
    → Nowhere mem ct m a b
Nowhere-cons mem ct m a b ne rest x l h = elim (Bool-cases (x == a)) [
  | inl e ↦ let at : x ≡ a = ground arith in rw at ne
  | inr e ↦ rest x (ground arith) h
]

-- `strstr` of a string of `n` bytes and another of at least one byte ends within `n + 1` rounds. It
-- returns the first address in the one at which the bytes of the other stand, or NULL where there is
-- none.
pub strstr_lem :
    (fuel n m cs ct : ℕ) (mem : Bytes)
    → IsString mem cs n
    → IsString mem ct (suc m)
    → n < fuel
    → ((a : ℕ) × (strstr fuel mem cs ct ≡ some a)
        × (cs ≤ a)
        × (a < cs + n)
        × (agree mem a ct (suc m) ≡ true)
        × Nowhere mem ct (suc m) cs a)
      ⊎ (strstr fuel mem cs ct ≡ some 0) × Nowhere mem ct (suc m) cs (cs + n)
unfolding strstr
strstr_lem zero n m cs ct mem p q f = absurd (omega arith)
strstr_lem (suc fuel) zero m cs ct mem p q f = inr (ground arith, λ x l h. absurd (omega arith))
strstr_lem (suc fuel) (suc n) m cs ct mem p q f = elim (Bool-cases (agree mem cs ct (suc m))) [
  | inl e ↦
      inl (cs, ground (arith, inner), omega arith, omega arith, e, λ x l h. absurd (omega arith))
  | inr e ↦ elim (strstr_lem fuel n m (cs + 1) ct mem p.1 q (omega arith)) [
    | inl (a, r, lo, hi, at, before) ↦ inl (
      a,
      ground (arith, inner),
      omega arith,
      omega arith,
      at,
      Nowhere-cons mem ct (suc m) cs a e before,
    )
    | inr (r, before) ↦ inr (
      ground (arith, inner),
      Nowhere-cons mem ct (suc m) cs (cs + suc n) e (λ x l h. before x l (omega arith)),
    )
  ]
]
  where
    inner : matches (suc fuel) mem cs ct ≡ some (agree mem cs ct (suc m))
    inner = matches-agree (suc fuel) (suc n) (suc m) cs ct mem p q (omega arith)
