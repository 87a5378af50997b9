-- ===== src/Base/Lists.antt =====
-- Lists measured and searched by native numbers.
use Prim.Native.Nat.{ℕ, zero, suc, ◌+◌, ◌≤◌, ◌<◌}
use mathlib.Core.Path.{ap, ◌≡◌, refl, sym, subst}
use mathlib.Core.Logic.{◌⊎◌, inl, inr}
use mathlib.Core.Bool.{Bool, true, false, ◌||◌}
use mathlib.Core.List.{List, [], ◌∷◌, ◌++◌}
use mathlib.Core.Option.{Option, none, some}
use native.Mathlib.Omega.{arith}
use ece592_final_project.Base.Tests.{◌==◌, if◌then◌else◌, Bool-cases, ==_iff}

module _ {ℓ} {A : Type ℓ} where
  abbrev pub length : List A → ℕ
  length [] = 0
  length (x ∷ xs) = suc (length xs)

  abbrev pub get_elem? : List A → ℕ → Option A
  get_elem? [] i = none
  get_elem? (x ∷ xs) zero = some x
  get_elem? (x ∷ xs) (suc i) = get_elem? xs i

  abbrev pub get_or : List A → ℕ → A → A
  get_or [] i d = d
  get_or (x ∷ xs) zero d = x
  get_or (x ∷ xs) (suc i) d = get_or xs i d

  pub length-append : (xs ys : List A) → length (xs ++ ys) ≡ length xs + length ys
  length-append [] ys = omega arith
  length-append (x ∷ xs) ys = omega (arith, length-append xs ys)

-- A predicate on every element.
abbrev pub All {ℓ κ} : {A : Type ℓ} → (A → Type κ) → List A → Type κ
All P [] = Unit
All P (x ∷ xs) = P x × All P xs

-- Membership as a test, and lists without repetition.
abbrev pub has : ℕ → List ℕ → Bool
has a [] = false
has a (x ∷ xs) = (a == x) || has a xs

abbrev pub Distinct : List ℕ → Type 0
Distinct [] = Unit
Distinct (x ∷ xs) = (has x xs ≡ false) × Distinct xs

abbrev pub remove : ℕ → List ℕ → List ℕ
remove a [] = []
remove a (x ∷ xs) = if a == x then xs else x ∷ remove a xs

pub has-append : (a : ℕ) (xs ys : List ℕ) → has a (xs ++ ys) ≡ (has a xs || has a ys)
has-append a [] ys = refl
has-append a (x ∷ xs) ys = ground (arith, has-append a xs ys)

pub has-remove-false : (a b : ℕ) (xs : List ℕ) → has a xs ≡ false → has a (remove b xs) ≡ false
has-remove-false a b [] h = refl
has-remove-false a b (x ∷ xs) h = ground (arith, has-remove-false a b xs)

pub has-remove_self : (a : ℕ) (xs : List ℕ) → Distinct xs → has a (remove a xs) ≡ false
has-remove_self a [] d = refl
has-remove_self a (x ∷ xs) d = ground (arith, has-remove_self a xs)

pub remove-Distinct : (a : ℕ) (xs : List ℕ) → Distinct xs → Distinct (remove a xs)
remove-Distinct a [] d = tt
remove-Distinct a (x ∷ xs) d = elim (Bool-cases (a == x)) [
  | inl e ↦ ground arith
  | inr e ↦ ground (arith, remove-Distinct a xs d.1, has-remove-false x a xs d.0)
]

length-remove : (a : ℕ) (xs : List ℕ) → length xs ≤ suc (length (remove a xs))
length-remove a [] = omega arith
length-remove a (x ∷ xs) = ground (arith, length-remove a xs)

remove-below :
    (n : ℕ) (xs : List ℕ) → All (λ x. x < suc n) xs → has n xs ≡ false → All (λ x. x < n) xs
remove-below n [] h out = tt
remove-below n (x ∷ xs) h out = ground (arith, remove-below n xs h.1)

remove-All {ℓ} : (P : ℕ → Type ℓ) (a : ℕ) (xs : List ℕ) → All P xs → All P (remove a xs)
remove-All P a [] h = h
remove-All P a (x ∷ xs) h = elim (Bool-cases (a == x)) [
  | inl e ↦ rw e h.1
  | inr e ↦ rw e (h.0, remove-All P a xs h.1)
]

-- The pigeonhole principle.
pub length-le_of_Distinct :
    (n : ℕ) (xs : List ℕ) → Distinct xs → All (λ x. x < n) xs → length xs ≤ n
length-le_of_Distinct zero [] d h = omega arith
length-le_of_Distinct zero (x ∷ xs) d h = absurd (omega arith)
length-le_of_Distinct (suc n) xs d h = omega (
  arith,
  length-remove n xs,
  length-le_of_Distinct n (remove n xs) (remove-Distinct n xs d)
      (remove-below n (remove n xs) (remove-All (λ x. x < suc n) n xs h) (has-remove_self n xs d)),
)

pub List-cases {ℓ} :
    {A : Type ℓ} (xs : List A) → (xs ≡ []) ⊎ ((y : A) × (ys : List A) × (xs ≡ y ∷ ys))
List-cases [] = inl refl
List-cases (x ∷ xs) = inr (x, xs, refl)

pub All-imp {ℓ κ} :
    (P : ℕ → Type ℓ) (Q : ℕ → Type κ) (xs : List ℕ)
    → ((a : ℕ) → has a xs ≡ true → P a → Q a)
    → All P xs
    → All Q xs
All-imp P Q [] f h = tt
All-imp P Q (x ∷ xs) f h = (f x (ground arith) h.0, All-imp P Q xs (λ a m. f a (ground arith)) h.1)

pub All-get {ℓ} : (P : ℕ → Type ℓ) (xs : List ℕ) (a : ℕ) → All P xs → has a xs ≡ true → P a
All-get P [] a h m = absurd (ground arith)
All-get P (x ∷ xs) a h m = elim (Bool-cases (a == x)) [
  | inl e ↦ subst P (sym ((==_iff a x).0 e)) h.0
  | inr e ↦ All-get P xs a h.1 (rw e at m)
]

pub split_of_has :
    (a : ℕ) (xs : List ℕ) → has a xs ≡ true → (ys : List ℕ) × (zs : List ℕ) × (xs ≡ ys ++ (a ∷ zs))
split_of_has a [] h = absurd (ground arith)
split_of_has a (x ∷ xs) h = elim (Bool-cases (a == x)) [
  | inl here ↦ let same : a ≡ x = ground arith in rw same ([], xs, refl)
  | inr later ↦ let r = split_of_has a xs (ground arith) in (x ∷ r.0, r.1, ap (◌∷◌ x) r.2)
]
