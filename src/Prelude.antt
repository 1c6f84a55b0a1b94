-- ===== src/Prelude.antt =====
-- The names that the other modules share: the libraries' names passed on, Boolean tests and lists
-- over the native numbers, and the results of code that may raise.
mod Tests
mod Lists
mod Results
mod Dicts
mod Int
mod Texts
pub use Tests.*
unfoldable pub use Lists.*
pub use Results.*
unfoldable pub use Dicts.{same_codes, lookup, insert, erase, update_all, names, has, listed}
pub use Dicts.{
  Key, string_key, same_codes_iff, codes_key, Dict, NodupKeys, lookup-insert, insert-new,
  NodupKeys-insert, has-insert, listed-keys, listed-append,
}
unfoldable pub use Int.{◌+ℤ◌, ◌-ℤ◌}
unfoldable pub use Texts.{show_nat, show_path, split_nul, put_before, int_from, int, show_int, line}
pub use Texts.Numbers.{int-show_nat}
unfoldable pub use Texts.Words.{words, is_space, no_blank}
pub use Texts.Words.{IsWord, words-line, show_nat-IsWord, signed-IsWord}
pub use Texts.{is_empty}
pub use Int.{ℤ, pos, negsuc, pos_part, neg_part, sub_ℕ, above}
pub use Prim.Native.Nat.{ℕ, zero, suc, ◌+◌, ◌-◌, ◌*◌, ◌/◌, ◌%◌, ◌^◌, ◌≤◌, ◌<◌}
pub use Prim.Native.String.{String}
pub use mathlib.Core.Path.{◌≡◌, refl, sym, ap, subst, ◌∙◌, fun_ext}
pub use mathlib.Core.Logic.{◌≢◌, ◌↔◌, ◌⊎◌, inl, inr}
pub use mathlib.Core.Bool.{Bool, true, false, ◌&&◌, ◌||◌, not}
pub use mathlib.Core.Option.{Option, none, some}
pub use mathlib.Core.List.{
  List, [], ◌∷◌, ◌++◌, map, reverse, append-nil, append_assoc, reverse-append, reverse-reverse,
  Memᴰ,
}
pub use native.Mathlib.Omega.{arith}
