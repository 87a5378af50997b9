-- ===== src/Queue/Links.antt =====
-- Doubly linked segments of the queue table, and what a store does to them.
use ece592_final_project.Base.{
  ℕ, ◌≡◌, ◌≢◌, true, false, List, [], ◌∷◌, ◌++◌, arith, update, has, has-append, Distinct,
}

-- From `p` the links lead through `xs` to `n`, and back.
abbrev pub Links : (ℕ → ℕ) → (ℕ → ℕ) → ℕ → List ℕ → ℕ → Type 0
Links nx pv p [] n = (nx p ≡ n) × (pv n ≡ p)
Links nx pv p (x ∷ xs) n = (nx p ≡ x) × (pv x ≡ p) × Links nx pv x xs n

abbrev pub head_or : ℕ → List ℕ → ℕ
head_or n [] = n
head_or n (x ∷ xs) = x

abbrev pub last_or : ℕ → List ℕ → ℕ
last_or p [] = p
last_or p (x ∷ xs) = last_or x xs

pub has-last_or : (p : ℕ) (xs : List ℕ) → has (last_or p xs) (p ∷ xs) ≡ true
has-last_or p [] = ground arith
has-last_or p (x ∷ xs) = ground (arith, has-last_or x xs)

pub has-head_or : (n : ℕ) (xs : List ℕ) → has (head_or n xs) (n ∷ xs) ≡ true
has-head_or n [] = ground arith
has-head_or n (x ∷ xs) = ground arith

module _ (nx pv : ℕ → ℕ) where
  pub next_of_Links : (p : ℕ) (xs : List ℕ) (n : ℕ) → Links nx pv p xs n → nx p ≡ head_or n xs
  next_of_Links p [] n l = l.0
  next_of_Links p (x ∷ xs) n l = l.0

  pub prev_of_Links :
      (p : ℕ) (xs ys : List ℕ) (n : ℕ)
      → Links nx pv p (xs ++ ys) n
      → pv (head_or n ys) ≡ last_or p xs
  prev_of_Links p [] [] n l = l.1
  prev_of_Links p [] (y ∷ ys) n l = l.1
  prev_of_Links p (x ∷ xs) ys n l = prev_of_Links x xs ys n l.2

  pub Links-tail :
      (p : ℕ) (xs : List ℕ) (y : ℕ) (ys : List ℕ) (n : ℕ)
      → Links nx pv p (xs ++ (y ∷ ys)) n
      → Links nx pv y ys n
  Links-tail p [] y ys n l = l.2
  Links-tail p (x ∷ xs) y ys n l = Links-tail x xs y ys n l.2

  -- A segment survives any change that spares its links.
  pub Links-frame :
      (nx' pv' : ℕ → ℕ) (p : ℕ) (xs : List ℕ) (n : ℕ)
      → ((a : ℕ) → has a (p ∷ xs) ≡ true → nx' a ≡ nx a)
      → ((a : ℕ) → has a (n ∷ xs) ≡ true → pv' a ≡ pv a)
      → Links nx pv p xs n
      → Links nx' pv' p xs n
  Links-frame nx' pv' p [] n fn fp l = ground (arith, fn p, fp n)
  Links-frame nx' pv' p (x ∷ xs) n fn fp l = (
    ground (arith, fn p),
    ground (arith, fp x),
    Links-frame nx' pv' x xs n (λ a h. fn a (ground arith)) (λ a h. fp a (ground arith)) l.2,
  )

  -- `y` goes in between `xs` and `ys`, where `u` and `c` are the neighbours.
  pub Links-insert :
      (p : ℕ) (xs ys : List ℕ) (n y u c : ℕ)
      → Links nx pv p (xs ++ ys) n
      → u ≡ last_or p xs
      → c ≡ head_or n ys
      → Distinct (p ∷ (xs ++ ys))
      → has n (p ∷ (xs ++ ys)) ≡ false
      → has y (p ∷ (xs ++ ys)) ≡ false
      → y ≢ n
      → Links (update (update nx y c) u y) (update (update pv y u) c y) p (xs ++ (y ∷ ys)) n
  Links-insert p [] [] n y u c l hu hc d hn hy ne = ground arith
  Links-insert p [] (b ∷ bs) n y u c l hu hc d hn hy ne = (
    ground arith,
    ground arith,
    (
      ground arith,
      ground arith,
      Links-frame _ _ b bs n (λ a h. ground arith) (λ a h. ground arith) l.2,
    ),
  )
  Links-insert p (x ∷ xs) ys n y u c l hu hc d hn hy ne = (
    ground (arith, has-last_or x xs, has-append p xs ys),
    ground (arith, has-head_or n ys, has-append x xs ys),
    Links-insert x xs ys n y u c l.2 hu hc d.1 (ground arith) (ground arith) ne,
  )

  -- `y` is taken out from between `xs` and `ys`.
  pub Links-remove :
      (p : ℕ) (xs : List ℕ) (y : ℕ) (ys : List ℕ) (n u c : ℕ)
      → Links nx pv p (xs ++ (y ∷ ys)) n
      → u ≡ last_or p xs
      → c ≡ head_or n ys
      → Distinct (p ∷ (xs ++ (y ∷ ys)))
      → has n (p ∷ (xs ++ (y ∷ ys))) ≡ false
      → Links (update nx u c) (update pv c u) p (xs ++ ys) n
  Links-remove p [] y [] n u c l hu hc d hn = ground arith
  Links-remove p [] y (b ∷ bs) n u c l hu hc d hn = (
    ground arith,
    ground arith,
    Links-frame _ _ b bs n (λ a h. ground arith) (λ a h. ground arith) l.2.2,
  )
  Links-remove p (x ∷ xs) y ys n u c l hu hc d hn = (
    ground (arith, has-last_or x xs, has-append p xs (y ∷ ys)),
    ground (arith, has-head_or n ys, has-append x xs (y ∷ ys)),
    Links-remove x xs y ys n u c l.2 hu hc d.1 (ground arith),
  )
