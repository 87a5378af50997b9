-- ===== src/Queue/Order.antt =====
-- `insert` keeps a queue in descending order of its keys.
use ece592_final_project.Base.{
  ℕ, ◌≡◌, inl, inr, true, false, List, [], ◌∷◌, ◌++◌, arith, update, has, All, All-imp, Bool-cases,
  signed_le, signed_lt,
}
use ece592_final_project.Process.{Proc, isbadpid}
use ece592_final_project.Queue.{QTab, minkey, insert}
use ece592_final_project.Queue.Table.{IsQid, IsTable, IsLoose}
use ece592_final_project.Queue.Refine.{front, back, insert_refines}

abbrev pub Descending : (ℕ → ℕ) → List ℕ → Type 0
Descending k [] = Unit
Descending k (x ∷ xs) = All (λ y. signed_le (k y) (k x) ≡ true) xs × Descending k xs

All-place {ℓ} :
    (P : ℕ → Type ℓ) (k : ℕ → ℕ) (key pid : ℕ) (xs : List ℕ)
    → P pid
    → All P xs
    → All P (front k key xs ++ (pid ∷ back k key xs))
All-place P k key pid [] p h = (p, tt)
All-place P k key pid (x ∷ xs) p h = elim (Bool-cases (signed_le key (k x))) [
  | inl go ↦ rw go (h.0, All-place P k key pid xs p h.1)
  | inr stop ↦ rw stop (p, h)
]

Descending-update :
    (k : ℕ → ℕ) (key pid : ℕ) (xs : List ℕ)
    → has pid xs ≡ false
    → Descending k xs
    → Descending (update k pid key) xs
Descending-update k key pid [] out d = tt
Descending-update k key pid (x ∷ xs) out d = (
  All-imp (λ y. signed_le (k y) (k x) ≡ true) _ xs (λ a m h. ground arith) d.0,
  Descending-update k key pid xs (ground arith) d.1,
)

pub Descending-place :
    (k : ℕ → ℕ) (key pid : ℕ) (xs : List ℕ)
    → has pid xs ≡ false
    → Descending k xs
    → Descending (update k pid key) (front k key xs ++ (pid ∷ back k key xs))
Descending-place k key pid [] out d = (tt, tt)
Descending-place k key pid (x ∷ xs) out d = elim (Bool-cases (signed_le key (k x))) [
  | inl go ↦ rw go (
    All-place (λ y. signed_le (update k pid key y) (update k pid key x) ≡ true) k key pid xs
        (ground arith)
        (All-imp (λ y. signed_le (k y) (k x) ≡ true) _ xs (λ a m h. ground arith) d.0),
    Descending-place k key pid xs (ground arith) d.1,
  )
  | inr stop ↦ rw stop (
    (ground arith, All-imp (λ y. signed_le (k y) (k x) ≡ true) _ xs (λ a m h. ground arith) d.0),
    Descending-update k key pid (x ∷ xs) out d,
  )
]

-- Inserting a live process that is in no queue into a queue in descending order leaves that queue in
-- descending order of the keys then stored.
pub insert-Descending :
    {t : QTab} {view : ℕ → List ℕ}
    → IsTable t view
    → (proctab : ℕ → Proc) (pid q key : ℕ) → IsQid q
    → isbadpid proctab pid ≡ false
    → IsLoose pid view
    → signed_lt minkey key ≡ true
    → Descending t.key (view q)
    → Descending
        (insert proctab pid q key t).1.key
        (front t.key key (view q) ++ (pid ∷ back t.key key (view q)))
insert-Descending {t} {view} w proctab pid q key iq good loose high d =
    rw ((insert_refines w proctab pid q key iq good loose high).2)
      (Descending-place t.key key pid (view q) (loose q iq) d)
