-- ===== src/Base/Table.antt =====
-- A C table indexed by number, as a function, and the store of one entry.
use Prim.Native.Nat.{ℕ}
use ece592_final_project.Base.Tests.{◌==◌, if◌then◌else◌}

abbrev pub update {ℓ} : {A : Type ℓ} → (ℕ → A) → ℕ → A → ℕ → A
update f i v j = if i == j then v else f j
