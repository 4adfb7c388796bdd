-- ===== src/Common.antt =====
-- The names that the other modules share: the libraries', passed on, and those of the children:
-- tests on numbers, lists over the native numbers, decidable equality, Python's dictionaries and
-- the string methods that the source calls.
mod Tests
mod Lists
mod Keys
mod Mapping
mod Sorting
mod Chars
unfoldable pub use Tests.*
unfoldable pub use Lists.*
unfoldable pub use Keys.*
unfoldable pub use Mapping.*
unfoldable pub use Sorting.*
unfoldable pub use Chars.*
pub use Prim.Native.Nat.{ℕ, zero, suc, ◌+◌, ◌-◌, ◌*◌, ◌/◌, ◌%◌, ◌≤◌, ◌<◌, min, max}
pub use Prim.Native.String.{String}
pub use mathlib.Core.Path.{◌≡◌, refl, subst, sym, ap, ap₂, ◌∙◌, ◌≡⟨◌⟩◌, ◌∎}
pub use mathlib.Core.Logic.{◌≢◌, ◌↔◌, ◌⊎◌, inl, inr}
pub use mathlib.Core.Bool.{Bool, true, false, not, ◌&&◌, ◌||◌}
pub use mathlib.Core.Option.{Option, none, some, some-injective}
pub use mathlib.Core.List.{List, [], ◌∷◌, ◌++◌, map, append-nil, append_assoc}
pub use native.Mathlib.Omega.{arith}
