-- ===== src/Base.antt =====
-- Names that every module shares: those of the libraries, Boolean tests on native numbers, Rust
-- vectors and slices as lists, 64-bit arithmetic, and results that may be a panic.
mod Tests
mod Lists
mod Count
mod Panic
mod Gather
pub mod Word
pub use Tests.*
pub use Lists.*
pub use Count.*
pub use Panic.*
pub use Gather.*
pub use Prim.Native.Nat.{ℕ, zero, suc, ◌+◌, ◌-◌, ◌*◌, ◌/◌, ◌%◌, ◌^◌, ◌≤◌, ◌<◌, min, max}
pub use mathlib.Core.Path.{◌≡◌, refl, sym, ap, ap₂, ◌∙◌, subst, fun_ext}
pub use mathlib.Core.Logic.{◌≢◌, ◌↔◌, ◌⊎◌, inl, inr}
pub use mathlib.Core.Bool.{Bool, true, false, not, ◌&&◌, ◌||◌}
pub use mathlib.Core.Option.{Option, none, some}
pub use mathlib.Core.List.{List, [], ◌∷◌, ◌++◌, map, append-nil, append_assoc}
pub use native.Mathlib.Omega.{arith}
