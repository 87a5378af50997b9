-- ===== src/Pool/Make.antt =====
-- `mkbufpool` makes a pool of buffers from one block of the heap.
use native.Mathlib.Nat.{suc-mul}
use ece592_final_project.Base.{
  ℕ, zero, suc, ◌+◌, ◌*◌, ◌≤◌, ◌<◌, ◌≡◌, refl, sym, subst, ap, ◌∙◌, ◌⊎◌, inl, inr, true, false,
  List, [], ◌∷◌, arith, ◌==◌, Bool-cases, update, has, Distinct, length, modulus, add32,
}
use ece592_final_project.Port.Nodes.{Chain}
use ece592_final_project.Pool.{link_buffers}

-- `n` buffers of `step` bytes from `base` on
abbrev pub buffers : (base step n : ℕ) → List ℕ
buffers base step zero = []
buffers base step (suc n) = base ∷ buffers (base + step) step n

pub length-buffers : (base step n : ℕ) → length (buffers base step n) ≡ n
length-buffers base step zero = refl
length-buffers base step (suc n) = ap suc (length-buffers (base + step) step n)

not-has-buffers : (a base step n : ℕ) → a < base → has a (buffers base step n) ≡ false
not-has-buffers a base step zero lt = refl
not-has-buffers a base step (suc n) lt = ground (arith, not-has-buffers a (base + step) step n)

pub buffers-Distinct : (base step n : ℕ) → 0 < step → Distinct (buffers base step n)
buffers-Distinct base step zero pos = tt
buffers-Distinct base step (suc n) pos = (
  not-has-buffers base (base + step) step n (omega arith),
  buffers-Distinct (base + step) step n pos,
)

-- Every buffer lies within the bytes that they take together.
pub has-buffers :
    (a base step n : ℕ)
    → has a (buffers base step n) ≡ true
    → (base ≤ a) × (a + step ≤ base + n * step)
has-buffers a base step zero h = absurd (ground arith)
has-buffers a base step (suc n) h = elim (Bool-cases (a == base)) [
  | inl same ↦ let at : a ≡ base = ground arith in omega (arith, at, suc-mul n step)
  | inr diff ↦
      let ih = has-buffers a (base + step) step n (ground arith) in
      omega (arith, ih, suc-mul n step)
]

link_buffers_more :
    (rounds step buf : ℕ) (words : ℕ → ℕ)
    → add32 buf step ≡ buf + step
    → link_buffers (suc rounds) step buf words
      ≡ link_buffers rounds step (buf + step) (update words buf (buf + step))
unfolding link_buffers
link_buffers_more rounds step buf words up = rw (link_buffers, up)

link_buffers_last :
    (step buf : ℕ) (words : ℕ → ℕ)
    → 0 < buf
    → Chain (link_buffers 0 step buf words) buf (buf ∷ [])
      × ((a : ℕ) → (a < buf) ⊎ (buf < a) → link_buffers 0 step buf words a ≡ words a)
unfolding link_buffers
link_buffers_last step buf words pos = ground arith

pub link_buffers_lem :
    (rounds step buf : ℕ) (words : ℕ → ℕ)
    → 0 < buf
    → 0 < step
    → buf + rounds * step < modulus
    → Chain (link_buffers rounds step buf words) buf (buffers buf step (suc rounds))
      × ((a : ℕ)
          → (a < buf) ⊎ (buf + rounds * step < a)
          → link_buffers rounds step buf words a ≡ words a)
link_buffers_lem zero step buf words pos some_bytes room = (
  (link_buffers_last step buf words pos).0,
  λ a out. (link_buffers_last step buf words pos).1 a (ground arith),
)
link_buffers_lem (suc rounds) step buf words pos some_bytes room =
    let more = suc-mul rounds step in
    let up : add32 buf step ≡ buf + step = omega arith in
    let ih =
      link_buffers_lem rounds step (buf + step) (update words buf (buf + step)) (omega arith)
        some_bytes (omega arith) in
    let here : link_buffers rounds step (buf + step) (update words buf (buf + step)) buf
        ≡ buf + step =
      ih.1 buf (inl (omega arith)) ∙ (ground arith) in
    subst
      (λ w.
        Chain w buf (buffers buf step (suc (suc rounds)))
        × ((a : ℕ) → (a < buf) ⊎ (buf + suc rounds * step < a) → w a ≡ words a))
      (sym (link_buffers_more rounds step buf words up))
      (
        (
          refl,
          ground arith,
          subst
              (λ q.
                Chain (link_buffers rounds step (buf + step) (update words buf (buf + step))) q
                  (buffers (buf + step) step (suc rounds)))
              (sym here) ih.0,
        ),
        λ a out. ih.1 a (ground arith) ∙ (ground arith),
      )
