-- ===== src/Config/Extension.antt =====
-- `extend` (server/config/__init__.py): the names of a configuration file put into the settings. What
-- the file defines is an argument, by the order of `dir`, with the directory that it stands in.
pub mod Merged
pub mod Paths
use Prim.Native.Char.{code}
use package.text.Mathlib.Text.{◌==◌ as str_eq}
use smts.Prelude.{
  ℕ, String, Bool, true, false, not, ◌&&◌, ◌==◌, Option, none, some, List, [], ◌∷◌, if◌then◌else◌,
  Result, ok, err, key_error, attribute_error, Dict, lookup, insert, update_all, string_key,
  is_empty, put_before, filter_by,
}
use smts.Instances.{ends_with}

-- A value: a text, a list of texts, a dict, or any other one
pub data Setting (A : Type 0) : Type 0 where
  a_text : String → Setting A
  some_texts : List String → Setting A
  a_dict : Dict String A → Setting A
  another : A → Setting A

abbrev pub begins_with : ℕ → String → Bool
begins_with n String.[] = false
begins_with n (String.◌∷◌ c s) = code c == n

-- Puts a character in front of the first part.
abbrev pub put_head : String → List String → List String
put_head c [] = c ∷ []
put_head c (p ∷ ps) = put_before c p ∷ ps

-- The texts between the slashes
unfoldable pub split_slash : String → List String
split_slash String.[] = "" ∷ []
split_slash (String.◌∷◌ c s) =
    let rest = split_slash s in
    if code c == b'/' then "" ∷ rest else put_head (String.◌∷◌ c String.[]) rest

-- Those that count in a path
abbrev pub is_part : String → Bool
is_part p = not (is_empty p) && not (str_eq p ".")

unfoldable pub path_parts : String → List String
unfolding split_slash
path_parts s = filter_by is_part (split_slash s)

-- `str(directory / part)`
unfoldable pub below : String → String → String
below dir p = if str_eq dir "/" then put_before "/" p else put_before dir (put_before "/" p)

unfoldable pub below_all : String → List String → String
unfolding below
below_all dir [] = dir
below_all dir (p ∷ ps) = below_all (below dir p) ps

-- `str(path.parent / name)` for a relative name, where the parent, a resolved path, is `dir`
unfoldable pub in_directory : String → String → String
unfolding below_all path_parts
in_directory dir name = below_all dir (path_parts name)

unfoldable pub from_directory : String → String → String
unfolding in_directory
from_directory dir name = if begins_with b'/' name then name else in_directory dir name

unfoldable pub all_from : String → List String → List String
unfolding from_directory
all_from dir [] = []
all_from dir (name ∷ names) = from_directory dir name ∷ all_from dir names

module _ {A : Type 0} where
  -- What a name that ends in `_path` is set to
  unfoldable pub placed : String → String → Setting A → Setting A
  unfolding from_directory all_from ends_with
  placed dir name (a_text s) = a_text (if ends_with "_path" name then from_directory dir s else s)
  placed dir name (some_texts l) = some_texts (if ends_with "_path" name then all_from dir l else l)
  placed dir name (a_dict d) = a_dict d
  placed dir name (another a) = another a

  -- The value of a name behind `extend`, with the value that it had
  unfoldable pub merge : String → String → Setting A → Option (Setting A) → Result (Setting A)
  unfolding placed update_all
  merge dir name (a_dict d) none = err key_error
  merge dir name (a_dict d) (some (a_dict old)) = ok (a_dict (update_all old d))
  merge dir name (a_dict d) (some _) = err attribute_error
  merge dir name v old = ok (placed dir name v)

  unfoldable pub extend :
      String → Dict String (Setting A) → Dict String (Setting A) → Result (Dict String (Setting A))
  unfolding merge lookup insert
  extend dir [] globals = ok globals
  extend dir ((name, v) ∷ module_names) globals = elim (begins_with b'_' name) [
    | true ↦ extend dir module_names globals
    | false ↦ elim (merge dir name v (lookup name globals)) [
      | err e ↦ err e
      | ok new ↦ extend dir module_names (insert name new globals)
    ]
  ]
