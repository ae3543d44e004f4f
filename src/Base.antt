-- ===== src/Base.antt =====
-- Names that every part of the development shares: the libraries', passed on, and the helpers of
-- the child modules (Boolean tests, lists, texts, byte memory, little-endian words).
mod Tests
mod Lists
mod RawMemory
mod Words
mod Text
pub mod Int
pub use Tests.*
pub use Lists.*
pub use Text.*
unfoldable pub use RawMemory.*
unfoldable pub use Words.*
pub use Prim.Native.Nat.{ℕ, zero, suc, ◌+◌, ◌-◌, ◌*◌, ◌/◌, ◌%◌, ◌^◌, ◌≤◌, ◌<◌, min, max}
pub use mathlib.Core.Path.{◌≡◌, refl, sym, ap, ◌∙◌, fun_ext, subst}
pub use mathlib.Core.Logic.{◌≢◌, ◌↔◌, ◌⊎◌, inl, inr}
pub use mathlib.Core.Bool.{Bool, true, false, not, ◌&&◌, ◌||◌}
pub use mathlib.Core.Option.{Option, none, some}
pub use mathlib.Core.List.{List, [], ◌∷◌, ◌++◌, map, append-nil, append_assoc}
pub use native.Mathlib.Omega.{arith}
