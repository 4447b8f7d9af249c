-- ===== src/Base.antt =====
-- Names that the other modules share: the libraries', passed on, and those of the children.
-- It models no code of the repository; the children hold tests on numbers, lists, byte texts,
-- signed integers and the row operations that the SQL statements are made of.
mod Tests
mod Lists
mod Bytes
mod Int
mod Table
mod Keys
mod Order
mod Scalars
mod Value
mod Decimal
pub use Tests.*
pub use Lists.*
unfoldable pub use Bytes.*
pub use Int.*
unfoldable pub use Table.*
pub use Keys.*
unfoldable pub use Order.*
pub use Scalars.*
unfoldable pub use Decimal.*
unfoldable pub use Value.{holds_nul, items_hold_nul, members_hold_nul}
pub use Value.{
  has_nul, Json, Items, Members, null, bool, num, str, arr, obj, nil, cons, end, member,
}
pub use Prim.Native.Nat.{ℕ, zero, suc, ◌+◌, ◌-◌, ◌*◌, ◌/◌, ◌%◌, ◌^◌, ◌≤◌, ◌<◌}
pub use mathlib.Core.Path.{◌≡◌, refl, sym, ap, ◌∙◌}
pub use mathlib.Core.Logic.{◌≢◌, ◌↔◌, ◌⊎◌, inl, inr}
pub use mathlib.Core.Bool.{Bool, true, false, not, ◌&&◌, ◌||◌}
pub use mathlib.Core.Option.{Option, none, some}
pub use mathlib.Core.List.{List, [], ◌∷◌, ◌++◌, map}
pub use native.Mathlib.Omega.{arith}
