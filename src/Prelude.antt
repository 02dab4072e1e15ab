-- ===== src/Prelude.antt =====
-- The names that the other modules share: the libraries', passed on, and those of the children.
mod Tests
mod Lists
mod Strings
mod Splitting
mod Results
mod Methods
mod Keeping
mod Decimal
mod Tables
pub use Tests.*
pub use Lists.*
pub use Strings.*
pub use Splitting.*
pub use Results.*
pub use Keeping.{Keeps, Keeps-pure, Keeps-change, Keeps-answer, Keeps->>=, Keeps->>, Keeps-if}
pub use Methods.{Method, follow}
unfoldable pub use Methods.{pure, raise_error, ◌>>=◌, ◌>>◌, change, answer, gets}
pub use Tables.{Unicode, is_plain, ascii, lower_ascii}
pub use Decimal.{decimal_injective, decimal-digits}
unfoldable pub use Decimal.{decimal}
pub use Prim.Native.Nat.{ℕ, zero, suc, ◌+◌, ◌-◌, ◌*◌, ◌/◌, ◌%◌, ◌^◌, ◌≤◌, ◌<◌, min, max}
pub use Prim.Native.String.{String}
pub use mathlib.Core.Path.{◌≡◌, refl, sym, ap, ◌∙◌, subst, ◌≡⟨◌⟩◌, ◌∎}
pub use mathlib.Core.Logic.{◌≢◌, ◌↔◌, ◌⊎◌, inl, inr}
pub use mathlib.Core.Bool.{Bool, true, false, not, ◌&&◌, ◌||◌, false≢true}
pub use mathlib.Core.Option.{Option, none, some, some-injective, none-ne-some}
pub use mathlib.Core.List.{
  List, [], ◌∷◌, ◌++◌, map, reverse, append-nil, append_assoc, map-append, reverse-append,
  reverse-reverse, flat_map,
}
pub use native.Mathlib.Omega.{arith}
