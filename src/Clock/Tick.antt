-- ===== src/Clock/Tick.antt =====
-- A clock interrupt brings every sleeping process one tick nearer to its end.
use ece592_final_project.Base.{
  ℕ, ◌+◌, ◌-◌, ◌<◌, ◌≡◌, refl, ◌∙◌, ap, false, List, ◌∷◌, arith, update, Distinct, sub32, signed_le,
}
use ece592_final_project.Clock.{nproc, firstid, Kernel, tick_sleep}
use ece592_final_project.Queue.Delta.{delay, delay-agree}
use ece592_final_project.Queue.Table.{IsTable-key, IsQid, IsTable}
use ece592_final_project.Queue.Refine.{isempty-cons, first-view}
use ece592_final_project.Queue.Links.{head_or}

delay-tick :
    (key : ℕ → ℕ) (x a : ℕ) (xs : List ℕ)
    → Distinct (x ∷ xs)
    → 0 < key x
    → delay (update key x (key x - 1)) a (x ∷ xs) + 1 ≡ delay key a (x ∷ xs)
delay-tick key x a xs d pos =
    let here : update key x (key x - 1) x ≡ key x - 1 = ground arith in
    let rest : delay (update key x (key x - 1)) a xs ≡ delay key a xs =
      delay-agree key (update key x (key x - 1)) a xs (λ b h. ground arith) in
    rw (here, rest) (omega arith)

-- Where the first key of the sleep queue is above 1, the part of the clock interrupt that is about the
-- sleep queue wakes nobody, leaves every queue as it is, and every process of the sleep queue has one
-- tick less to wait.
pub tick_sleep_lem :
    (k : Kernel) {view : ℕ → List ℕ}
    → IsTable k.queuetab view
    → IsQid k.sleepq
    → (x : ℕ) (xs : List ℕ) → view k.sleepq ≡ x ∷ xs
    → 1 < k.queuetab.key x
    → k.queuetab.key x < 0x8000_0000
    → let k' = tick_sleep k in
      (k' ≡ record k { queuetab = record k.queuetab { key = k'.queuetab.key } })
      × IsTable k'.queuetab view
      × ((a : ℕ)
          → delay k'.queuetab.key a (view k.sleepq) + 1 ≡ delay k.queuetab.key a (view k.sleepq))
unfolding tick_sleep
tick_sleep_lem k {view} w iq x xs e low high =
    let first : firstid k.queuetab k.sleepq ≡ x =
      first-view w k.sleepq iq ∙ ap (head_or (k.sleepq + 1)) e in
    let down : sub32 (k.queuetab.key x) 1 ≡ k.queuetab.key x - 1 = omega arith in
    let at : update k.queuetab.key x (k.queuetab.key x - 1) x ≡ k.queuetab.key x - 1 =
      ground arith in
    let later : signed_le (k.queuetab.key x - 1) 0 ≡ false = ground arith in
    let member : x < nproc = ground (arith, w.members k.sleepq iq, e) in
    rw (isempty-cons w k.sleepq iq x xs e, first, down, at, later, e)
      (
        refl,
        IsTable-key w (update k.queuetab.key x (k.queuetab.key x - 1)) (λ a h. ground arith),
        λ a. delay-tick k.queuetab.key x a xs (rw e at (w.distinct k.sleepq iq)) (omega arith),
      )
