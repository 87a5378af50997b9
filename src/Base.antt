-- ===== src/Base.antt =====
-- Names, tests and lemmas that the modules share: the library's names passed on, Boolean tests and
-- the conditional (Base/Tests), functions as tables (Base/Table), lists (Base/Lists) and the 32-bit
-- words of kernel.h (Base/Words).
mod Tests
mod Table
mod Lists
mod Words
pub use Tests.*
pub use Table.*
pub use Lists.*
pub use Words.*
pub use Prim.Native.Nat.{ℕ, zero, suc, ◌+◌, ◌-◌, ◌*◌, ◌/◌, ◌%◌, ◌^◌, ◌≤◌, ◌<◌}
pub use mathlib.Core.Path.{◌≡◌, refl, sym, ap, subst, ◌∙◌}
pub use mathlib.Core.Logic.{◌≢◌, ◌⊎◌, inl, inr, ◌↔◌}
pub use mathlib.Core.Bool.{Bool, true, false, not, ◌&&◌, ◌||◌}
pub use mathlib.Core.Option.{Option, none, some}
pub use mathlib.Core.List.{List, [], ◌∷◌, ◌++◌}
pub use native.Mathlib.Omega.{arith}
