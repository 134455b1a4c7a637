-- ===== src/Prelude.antt =====
-- The names that the other modules share: the libraries', passed on, and those of the children.
mod Tests
mod Equality
mod Lists
mod Results
pub mod Dict
pub mod Integer
pub mod Json
pub mod Order
pub mod Sort
pub mod Sets
mod Text
pub use Tests.*
unfoldable pub use Equality.{contains, all_distinct}
pub use Equality.{Eq, ◌==◌, nat_eq, string_eq, eq_refl, eq→path, contains-append, all_distinct-snoc}
pub use Lists.*
unfoldable pub use Text.{has_space, is_ascii, is_blank, is_space, strip}
pub use Results.*
pub use Prim.Native.Nat.{ℕ, zero, suc, ◌+◌, ◌-◌, ◌*◌, ◌≤◌, ◌<◌}
pub use Prim.Native.String.{String}
pub use mathlib.Core.Path.{◌≡◌, refl, sym, ap, ◌∙◌}
pub use mathlib.Core.Logic.{◌≢◌, ◌↔◌, ◌⊎◌, inl, inr}
pub use mathlib.Core.Bool.{Bool, true, false, not, ◌&&◌, ◌||◌}
pub use mathlib.Core.Option.{Option, none, some}
pub use mathlib.Core.List.{List, [], ◌∷◌, ◌++◌, map}
pub use native.Mathlib.Omega.{arith}
pub use text.Mathlib.TextEquality.{eq_iff}
