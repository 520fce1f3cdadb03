-- ===== src/Base.antt =====
-- The names that the other modules share, and Go's strings, errors and fallible calls.
mod Tests
mod Strings
mod Errors
mod Int
mod Effect
mod Emission
mod Cost
mod Protocol
mod Checks
pub use Tests.*
unfoldable pub use Strings.*
unfoldable pub use Int.*
unfoldable pub use Errors.*
unfoldable pub use Effect.*
pub use Checks.*
pub use Protocol.*
pub use Emission.*
unfoldable pub use Cost.*
pub use Prim.Native.Nat.{ℕ, zero, suc, ◌+◌, ◌-◌, ◌*◌, ◌/◌, ◌%◌, ◌^◌, ◌≤◌, ◌<◌}
pub use Prim.Native.String.{String}
pub use mathlib.Core.Path.{◌≡◌, refl, sym, ap, ◌∙◌}
pub use mathlib.Core.Logic.{◌≢◌, ◌↔◌, ◌⊎◌, inl, inr}
pub use mathlib.Core.Bool.{Bool, true, false, not, ◌&&◌, ◌||◌}
pub use mathlib.Core.Option.{Option, none, some}
pub use mathlib.Core.List.{List, [], ◌∷◌, ◌++◌, append_assoc, append-nil}
pub use native.Mathlib.Omega.{arith}
