-- ===== src/Prelude.antt =====
-- Names and helpers that every part shares: the libraries' names, passed on, and those of the
-- children. It models no code of the repository itself.
mod Tests
mod Effects
mod Dicts
mod Text
mod Lists
mod Int
mod Keeping
mod Loops
pub use Tests.*
unfoldable pub use Effects.*
pub use Keeping.*
unfoldable pub use Loops.*
unfoldable pub use Dicts.*
unfoldable pub use Text.*
pub use Lists.*
pub use Int.*
pub use Prim.Native.Nat.{ℕ, zero, suc, ◌+◌, ◌-◌, ◌*◌, ◌/◌, ◌%◌, ◌≤◌, ◌<◌}
pub use Prim.Native.String.{String}
pub use mathlib.Core.Path.{◌≡◌, refl, sym, ap, subst, ◌∙◌}
pub use mathlib.Core.Logic.{◌≢◌, ◌⊎◌, inl, inr}
pub use mathlib.Core.Bool.{Bool, true, false, not, ◌&&◌, ◌||◌}
pub use mathlib.Core.Option.{Option, none, some}
pub use mathlib.Core.List.{List, [], ◌∷◌, ◌++◌, map}
pub use native.Mathlib.Omega.{arith}
pub use text.Mathlib.Text.{◌==◌}
pub use text.Mathlib.TextEquality.{eq_iff}
pub use text.Mathlib.TextPositions.{eq_refl}
