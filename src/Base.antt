-- ===== src/Base.antt =====
-- What every module shares: the libraries' names, passed on, and those of the children below.
mod Tests
mod Lists
mod Maps
mod Text
mod Int
mod Order
pub use Tests.*
pub use Lists.*
unfoldable pub use Maps.*
unfoldable pub use Text.*
unfoldable pub use Int.*
pub use Order.*
pub use Prim.Native.Nat.{ℕ, zero, suc, ◌+◌, ◌-◌, ◌*◌, ◌/◌, ◌%◌, ◌^◌, ◌≤◌, ◌<◌}
pub use Prim.Native.String.{String, compare as compare_text}
pub use text.Mathlib.Text.{◌==◌ as text_eq, is_le}
pub use text.Mathlib.TextEquality.{eq_iff as text_eq_iff}
pub use text.Mathlib.TextLemmas.{append_cancel_left as concat_cancel_left}
pub use mathlib.Core.Path.{◌≡◌, refl, sym, ap, ◌∙◌, subst}
pub use mathlib.Core.Logic.{◌≢◌, ◌↔◌, ◌⊎◌, inl, inr}
pub use mathlib.Core.Bool.{Bool, true, false, not, ◌&&◌, ◌||◌}
pub use mathlib.Core.Option.{Option, none, some}
pub use mathlib.Core.List.{List, [], ◌∷◌, ◌++◌, append-nil, append_assoc}
pub use native.Mathlib.Omega.{arith}
