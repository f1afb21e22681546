-- ===== src/Base.antt =====
-- What all parts share: library names passed on, Boolean tests, lists over the native numbers,
-- machine memory as functions from offsets, and the result of a computation that may fault.
mod Tests
mod Lists
mod Memory
mod Faults
mod Text
pub mod Int
pub use Tests.*
pub use Lists.*
unfoldable pub use Memory.*
pub use Text.*
pub use Faults.*
pub use Prim.Native.Nat.{ℕ, zero, suc, ◌+◌, ◌-◌, ◌*◌, ◌/◌, ◌%◌, ◌^◌, ◌≤◌, ◌<◌, min, max}
pub use mathlib.Core.Path.{◌≡◌, refl, sym, ap, ◌∙◌, subst, fun_ext}
pub use mathlib.Core.Logic.{◌≢◌, ◌↔◌, ◌⊎◌, inl, inr}
pub use mathlib.Core.Bool.{Bool, true, false, ◌&&◌, ◌||◌, not}
pub use mathlib.Core.Option.{Option, none, some}
pub use mathlib.Core.List.{List, [], ◌∷◌, ◌++◌, append-nil, append_assoc}
pub use native.Mathlib.Omega.{arith}
