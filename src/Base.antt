-- ===== src/Base.antt =====
-- The names that the other modules share: the libraries', passed on, and those of the children.
-- Text, Segments, Space and Scanner are what the program uses of Go's strings, bytes, bufio and
-- strconv packages, over bytes.
mod Tests
mod Lists
mod Text
mod Segments
mod Int
mod Space
mod Scanner
mod Counted
pub use Tests.*
pub use Lists.*
unfoldable pub use Text.*
unfoldable pub use Segments.*
pub use Int.*
unfoldable pub use Space.*
unfoldable pub use Scanner.*
unfoldable pub use Counted.*
pub use Prim.Native.Nat.{ℕ, zero, suc, ◌+◌, ◌-◌, ◌*◌, ◌/◌, ◌%◌, ◌^◌, ◌≤◌, ◌<◌, min, max}
pub use mathlib.Core.Path.{◌≡◌, refl, sym, ap, ◌∙◌, subst}
pub use mathlib.Core.Logic.{◌≢◌, ◌↔◌, ◌⊎◌, inl, inr}
pub use mathlib.Core.Bool.{Bool, true, false, not, ◌&&◌, ◌||◌}
pub use mathlib.Core.Option.{Option, none, some}
pub use mathlib.Core.List.{List, [], ◌∷◌, ◌++◌, map, append-nil, append_assoc}
pub use native.Mathlib.Omega.{arith}
unfoldable pub use native.Mathlib.Decide.{ℕ_discrete}
