-- ===== src/Prelude.antt =====
-- The names that the other modules share: the libraries', and those of the children, which have
-- the tests, lists, casts, memory and bit laws of C that the components use.
pub mod Tests
pub mod Lists
pub mod Int
pub mod Memory
pub mod Outcomes
pub mod Digits
pub mod Bits
pub use Tests.*
pub use Lists.*
pub use Int.*
pub use Memory.*
pub use Outcomes.*
pub use Prim.Native.Nat.{ℕ, zero, suc, ◌+◌, ◌-◌, ◌*◌, ◌/◌, ◌%◌, ◌^◌, ◌≤◌, ◌<◌, min}
pub use Prim.Native.Nat.{bit_and, bit_or, bit_xor}
pub use mathlib.Core.Path.{◌≡◌, refl, sym, ap, ap₂, ◌∙◌}
pub use mathlib.Core.Logic.{◌≢◌, ◌↔◌, ◌⊎◌, inl, inr}
pub use mathlib.Core.Bool.{Bool, true, false, ◌&&◌, ◌||◌, not}
pub use mathlib.Core.Option.{Option, none, some}
pub use mathlib.Core.List.{List, [], ◌∷◌, ◌++◌, map, append-nil, append_assoc}
pub use native.Mathlib.Omega.{arith}
