-- ===== src/Base.antt =====
-- What the other modules share: names of the libraries, Boolean tests, words, lists and maps.
mod Tests
mod Words
mod Lists
mod Count
pub mod Map
pub mod Values
pub mod Keys
pub mod Copy
pub mod Outcome
pub mod Reach
pub mod Overlap
pub mod Chan
pub use Tests.*
pub use Words.*
pub use Lists.*
pub use Count.*
pub use Prim.Native.Nat.{ℕ, zero, suc, ◌+◌, ◌-◌, ◌*◌, ◌/◌, ◌%◌, ◌^◌, ◌≤◌, ◌<◌}
pub use Prim.Native.String.{String}
pub use mathlib.Core.Path.{◌≡◌, refl, sym, ap, ◌∙◌}
pub use mathlib.Core.Logic.{◌≢◌, ◌↔◌, ◌⊎◌, inl, inr}
pub use mathlib.Core.Bool.{Bool, true, false, not, ◌&&◌, ◌||◌}
pub use mathlib.Core.Option.{Option, none, some}
pub use mathlib.Core.List.{List, [], ◌∷◌, ◌++◌, map}
pub use native.Mathlib.Omega.{arith}
