-- ===== src/Config/Extension/Paths.antt =====
-- Where the relative paths of a configuration file lead.
use Prim.Native.Char.{Char, code}
use package.text.Mathlib.Text.{◌==◌ as str_eq}
use package.text.Mathlib.TextEquality.{eq_iff}
use smts.Prelude.{
  String, Bool, true, false, ◌==◌, some, List, [], ◌∷◌, ◌++◌, ok, err, Error, Dict, NodupKeys,
  lookup, string_key, put_before, filter_by, nonempty, ◌≡◌, refl, sym, ◌∙◌, subst, ap, arith,
  Bool-cases, inl, inr,
}
use smts.Instances.{ends_with}
use smts.Config.Extension.{
  Setting, a_text, placed, begins_with, put_head, split_slash, is_part, path_parts, below,
  below_all, from_directory, in_directory, extend,
}
use smts.Config.Extension.Merged.{all_merge, merged, chosen, new_value, extend-merged}

split_slash-nonempty : (s : String) → nonempty (split_slash s) ≡ true
unfolding split_slash
split_slash-nonempty String.[] = refl
split_slash-nonempty (String.◌∷◌ c s) = ground (arith, split_slash-nonempty s)

put_head-append :
    (c : String) (l m : List String) → nonempty l ≡ true → put_head c (l ++ m) ≡ put_head c l ++ m
put_head-append c [] m h = absurd (cc)
put_head-append c (p ∷ l) m h = refl

-- A slash splits.
split_slash-join :
    (a b : String) → split_slash (put_before a (put_before "/" b)) ≡ split_slash a ++ split_slash b
unfolding split_slash
split_slash-join String.[] b = refl
split_slash-join (String.◌∷◌ c s) b = elim (Bool-cases (code c == b'/')) [
  | inl slash ↦ rw (slash, split_slash) (ap (λ l. "" ∷ l) (split_slash-join s b))
  | inr other ↦
      rw (other, split_slash)
        (ap (put_head (String.◌∷◌ c String.[])) (split_slash-join s b)
          ∙ put_head-append (String.◌∷◌ c String.[]) (split_slash s) (split_slash b)
              (split_slash-nonempty s))
]

filter_by-append :
    (keep : String → Bool) (l m : List String)
    → filter_by keep (l ++ m) ≡ filter_by keep l ++ filter_by keep m
unfolding filter_by
filter_by-append keep [] m = refl
filter_by-append keep (p ∷ l) m = elim (Bool-cases (keep p)) [
  | inl kept ↦ rw kept (ap (λ r. p ∷ r) (filter_by-append keep l m))
  | inr left ↦ rw left (filter_by-append keep l m)
]

-- A directory and a name below it
path_parts-below : (dir p : String) → path_parts (below dir p) ≡ path_parts dir ++ path_parts p
unfolding path_parts below split_slash filter_by
path_parts-below dir p = elim (Bool-cases (str_eq dir "/")) [
  | inl top ↦
      rw (top, below)
        (subst (λ d. path_parts (put_before "/" p) ≡ path_parts d ++ path_parts p)
          (sym ((eq_iff dir "/").0 top)) refl)
  | inr other ↦
      rw (other, below)
        (ap (filter_by is_part) (split_slash-join dir p)
          ∙ filter_by-append is_part (split_slash dir) (split_slash p))
]

-- Texts without a slash
AllWhole : List String → Type 0
AllWhole [] = Unit {0}
AllWhole (p ∷ ps) = (split_slash p ≡ p ∷ []) × AllWhole ps

put_head-AllWhole :
    (c : Char) (l : List String)
    → (code c == b'/') ≡ false
    → AllWhole l
    → AllWhole (put_head (String.◌∷◌ c String.[]) l)
unfolding AllWhole split_slash
put_head-AllWhole c [] other whole = (rw (other, split_slash) refl, tt)
put_head-AllWhole c (p ∷ ps) other (is_whole, rest) = (rw (other, is_whole, split_slash) refl, rest)

split_slash-AllWhole : (s : String) → AllWhole (split_slash s)
unfolding split_slash AllWhole
split_slash-AllWhole String.[] = (refl, tt)
split_slash-AllWhole (String.◌∷◌ c s) = elim (Bool-cases (code c == b'/')) [
  | inl slash ↦ rw (slash, split_slash) (refl, split_slash-AllWhole s)
  | inr other ↦
      rw (other, split_slash) (put_head-AllWhole c (split_slash s) other (split_slash-AllWhole s))
]

append_assoc : (xs ys zs : List String) → (xs ++ ys) ++ zs ≡ xs ++ (ys ++ zs)
append_assoc [] ys zs = refl
append_assoc (x ∷ xs) ys zs = ap (λ l. x ∷ l) (append_assoc xs ys zs)

append_nil : (xs : List String) → xs ≡ xs ++ []
append_nil [] = refl
append_nil (x ∷ xs) = ap (λ l. x ∷ l) (append_nil xs)

whole_part : (p : String) → split_slash p ≡ p ∷ [] → is_part p ≡ true → path_parts p ≡ p ∷ []
unfolding path_parts filter_by
whole_part p whole kept = rw whole (rw kept refl)

path_parts-below_all :
    (dir : String) (l : List String)
    → AllWhole l
    → path_parts (below_all dir (filter_by is_part l)) ≡ path_parts dir ++ filter_by is_part l
unfolding below_all filter_by AllWhole
path_parts-below_all dir [] whole = append_nil (path_parts dir)
path_parts-below_all dir (p ∷ l) (is_whole, whole) = elim (Bool-cases (is_part p)) [
  | inr left ↦ rw left (path_parts-below_all dir l whole)
  | inl kept ↦ rw kept (
      path_parts-below_all (below dir p) l whole
      ∙ ap (λ m. m ++ filter_by is_part l)
          (path_parts-below dir p ∙ ap (λ m. path_parts dir ++ m) (whole_part p is_whole kept))
      ∙ append_assoc (path_parts dir) (p ∷ []) (filter_by is_part l))
]

path_parts-in_directory :
    (dir name : String) → path_parts (in_directory dir name) ≡ path_parts dir ++ path_parts name
unfolding in_directory path_parts
path_parts-in_directory dir name =
    path_parts-below_all dir (split_slash name) (split_slash-AllWhole name)

-- For a file with distinct names, `extend` returns if every dict of the file whose name does not begin
-- with `_` meets a dict of that name in the settings, and raises otherwise. If it returns, a name that
-- begins with `_`, or is not in the file, has its old value; any other one has the value of the file,
-- merged into the old one if it is a dict. The text of a name that ends in `_path` is kept if it
-- begins with a slash, and otherwise it becomes a path with the parts of the file's directory and then
-- its own; the parts of a path are what stands between slashes, without the empty ones and the dots.
pub extend-placed :
    {A : Type 0} (dir : String) (file before : Dict String (Setting A))
    → NodupKeys file
    → (all_merge dir file before ≡ true
        → (after : Dict String (Setting A)) × (extend dir file before ≡ ok after)
          × ((k : String) → lookup k after ≡ merged dir file before k)
          × ((k s : String)
              → lookup k file ≡ some (a_text s)
              → begins_with b'_' k ≡ false
              → ends_with "_path" k ≡ true
              → (t : String) × (lookup k after ≡ some (a_text t))
                × ((begins_with b'/' s ≡ true → t ≡ s)
                    × (begins_with b'/' s ≡ false
                        → path_parts t ≡ path_parts dir ++ path_parts s))))
      × (all_merge dir file before ≡ false → (e : Error) × (extend dir file before ≡ err e))
unfolding merged chosen new_value placed from_directory
extend-placed dir file before nodup =
    let (runs, fails) = extend-merged dir file before nodup in
    (
      λ h.
          let (after, done, values) = runs h in
          (
            after,
            done,
            values,
            λ k s there public is_path. (
              from_directory dir s,
              values k ∙ rw (there, merged) (rw (public, is_path, chosen) refl),
              (
                λ absolute. rw (absolute, from_directory) refl,
                λ relative. rw (relative, from_directory) (path_parts-in_directory dir s),
              ),
            ),
          ),
      fails,
    )
