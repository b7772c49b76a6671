-- ===== src/Prelude.antt =====
-- Names that every part shares: the libraries' passed on, and those of three children.
mod Tests
mod Lists
mod Words
pub use Lists.*
pub use Words.*
pub use Tests.{ltb, leb, ◌==◌, if◌then◌else◌, truth, ltb→lt, lt→ltb, le→ltb, ==_iff, ne→==}
pub use Tests.{Bool-cases, Option-cases, passes_sound}
unfoldable pub use Tests.{passes}
pub use Prim.Native.Nat.{ℕ, zero, suc, ◌+◌, ◌-◌, ◌*◌, ◌/◌, ◌%◌, ◌^◌, ◌≤◌, ◌<◌, min, max}
pub use Prim.Native.Nat.{bit_and, bit_or, bit_xor}
pub use mathlib.Core.Path.{◌≡◌, refl, sym, ap, ap₂, ◌∙◌}
pub use mathlib.Core.Logic.{◌≢◌, ◌↔◌, ◌⊎◌, inl, inr}
pub use mathlib.Core.Bool.{Bool, true, false, ◌&&◌, ◌||◌, not}
pub use mathlib.Core.Option.{Option, none, some}
pub use mathlib.Core.List.{List, [], ◌∷◌, ◌++◌, map}
pub use native.Mathlib.Omega.{arith}
