-- ===== src/Port/Nodes.antt =====
-- Linked lists of nodes, and what a port table with a free list holds.
use ece592_final_project.Base.{
  ℕ, ◌<◌, ◌≡◌, inl, inr, true, false, List, [], ◌∷◌, ◌++◌, arith, ◌==◌, Bool-cases, update, has,
  Distinct,
}
use ece592_final_project.Queue.Links.{has-last_or, last_or}
use ece592_final_project.Port.{is_alloc, nports, Ports}

abbrev pub Chain : (ℕ → ℕ) → ℕ → List ℕ → Type 0
Chain nx p [] = p ≡ 0
Chain nx p (x ∷ xs) = (p ≡ x) × ((x == 0) ≡ false) × Chain nx (nx x) xs

pub Chain-agree :
    (nx nx' : ℕ → ℕ) (p : ℕ) (xs : List ℕ)
    → ((a : ℕ) → has a xs ≡ true → nx' a ≡ nx a)
    → Chain nx p xs
    → Chain nx' p xs
Chain-agree nx nx' p [] f c = c
Chain-agree nx nx' p (x ∷ xs) f (at, real, c) =
    (at, real, rw (f x (ground arith)) (Chain-agree nx nx' (nx x) xs (λ a h. f a (ground arith)) c))

-- A node joins the end of a list that is not empty.
pub Chain-join :
    (nx : ℕ → ℕ) (p n x : ℕ) (xs : List ℕ)
    → Chain nx p (x ∷ xs)
    → Distinct (x ∷ xs)
    → has n (x ∷ xs) ≡ false
    → (n == 0) ≡ false
    → Chain (update (update nx n 0) (last_or x xs) n) p (x ∷ (xs ++ (n ∷ [])))
Chain-join nx p n x [] (at, real, c) d out ne = ground arith
Chain-join nx p n x (y ∷ ys) (at, real, c) d out ne =
    let ih = Chain-join nx (nx x) n y ys c d.1 (ground arith) ne in
    let here : update (update nx n 0) (last_or y ys) n x ≡ nx x =
      ground (arith, has-last_or y ys) in
    (at, real, rw here ih)

-- The port table, with the nodes of the free list and those of each port that is allocated.
pub record IsPorts (p : Ports) (spare : List ℕ) (hold : ℕ → List ℕ) : Type 0 where
  pub spare_list : Chain p.ptnext p.ptfree spare
  pub lists :
      (i : ℕ)
      → i < nports
      → is_alloc (p.porttab i).ptstate ≡ true
      → Chain p.ptnext (p.porttab i).pthead (hold i)
  pub tails :
      (i : ℕ)
      → i < nports
      → is_alloc (p.porttab i).ptstate ≡ true
      → (p.porttab i).pttail ≡ last_or 0 (hold i)
  pub spare_distinct : Distinct spare
  pub distinct : (i : ℕ) → Distinct (hold i)
  pub spare_apart : (i a : ℕ) → has a (hold i) ≡ true → has a spare ≡ false
  pub apart : (i j a : ℕ) → (i == j) ≡ false → has a (hold i) ≡ true → has a (hold j) ≡ false

pub Chain-nonzero :
    (nx : ℕ → ℕ) (p a : ℕ) (xs : List ℕ) → Chain nx p xs → has a xs ≡ true → (a == 0) ≡ false
Chain-nonzero nx p a [] c h = absurd (ground arith)
Chain-nonzero nx p a (x ∷ xs) (at, real, c) h = elim (Bool-cases (a == x)) [
  | inl same ↦ ground arith
  | inr diff ↦ Chain-nonzero nx (nx x) a xs c (ground arith)
]
