-- ===== src/Base.antt =====
-- The names that the other modules share: the libraries', passed on, and those of the children.
mod Tests
mod Strings
mod Lists
mod Int
mod Results
mod Maps
pub use Tests.*
pub use Lists.*
pub use Results.*
pub use Int.*
pub use Strings.*
pub use Maps.*
unfoldable pub use Strings.{text_eq, has_prefix, has_suffix, contains, drop}
unfoldable pub use Maps.{lookup, insert, erase}
pub use Prim.Native.Nat.{ℕ, zero, suc, ◌+◌, ◌-◌, ◌*◌, ◌≤◌, ◌<◌}
pub use mathlib.Core.Path.{◌≡◌, refl, sym, ap, ◌∙◌, subst}
pub use mathlib.Core.Logic.{◌≢◌, ◌↔◌, ◌⊎◌, inl, inr, ∥∥₁_elim}
pub use mathlib.Core.Bool.{Bool, true, false, not, ◌&&◌, ◌||◌}
pub use mathlib.Core.Option.{Option, none, some}
pub use mathlib.Core.List.{List, [], ◌∷◌, ◌++◌, map, Mem, Nodup, Perm}
pub use native.Mathlib.Omega.{arith}
