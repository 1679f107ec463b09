-- ===== src/Base.antt =====
-- The names that the other modules share: the libraries', passed on, and those of the children.
mod Tests
mod Lists
mod Maps
mod Text
mod Int
mod Totals
mod Places
pub use Tests.*
pub use Lists.*
unfoldable pub use Totals.{pick}
pub use Totals.{bit, total, total-append, total-zero, total-pick, occurrences}
pub use Places.{Occurs, Occurs-append, All-get_elem, All-pick, total-one, total-two}
pub use Int.{ℤ, pos, negsuc, lt_int}
unfoldable pub use Maps.{get, put, delete, get_nested}
pub use Maps.{
  Key, key, Map, Absent, IsMap, get-put, get-put_self, get-put_ne, put-IsMap, delete-IsMap,
  get-delete_self, get-delete_ne, length-put_new, All-of_get, All-get, All-put, All-delete,
  length-put_old, length-put-le, length-le-put,
}
unfoldable pub use Text.{
  bytes_discrete, encode_to_string, decode_string, value, hex_digit, digits, digits_loop, itoa,
}
pub use Text.{
  Slice, GoString, codes, elems, decode_string-encode_to_string, value-digits, nat_key, string_key,
}
pub use Prim.Native.Nat.{ℕ, zero, suc, ◌+◌, ◌-◌, ◌*◌, ◌/◌, ◌%◌, ◌^◌, ◌≤◌, ◌<◌}
pub use mathlib.Core.Path.{◌≡◌, refl, sym, ap, subst, ◌∙◌}
pub use mathlib.Core.Logic.{◌≢◌, ◌↔◌, ◌⊎◌, inl, inr, ite, dite, if_pos, if_neg}
pub use mathlib.Core.Bool.{Bool, true, false, not, ◌&&◌, ◌||◌}
pub use mathlib.Core.Option.{Option, none, some}
pub use mathlib.Core.List.{List, [], ◌∷◌, ◌++◌, map, append-nil, append_assoc}
pub use native.Mathlib.Omega.{arith}
unfoldable pub use native.Mathlib.Decide.{dec_lt, dec_le, ℕ_discrete}
