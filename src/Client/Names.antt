-- ===== src/Client/Names.antt =====
-- The names of compressed files.
use Prim.Native.Char.{code}
use package.text.Mathlib.Text.{◌==◌ as str_eq}
use package.text.Mathlib.TextEquality.{eq_iff}
use smts.Prelude.{
  put_before, ℕ, ◌≡◌, refl, ap, ◌∙◌, String, Bool, true, false, not, ◌&&◌, some, [], ◌∷◌, ◌==◌,
  if◌then◌else◌, Result, ok, is_empty, arith, Bool-cases, inl, inr,
}
use smts.World.Objects.{text}
use smts.Config.Constant
use smts.Instances.{ends_with}
use smts.Client.{has_slash, base_name, last_dot, split_suffix, sent_name, send_file, stem, suffix}

-- A text without dots and slashes
unfoldable pub is_word : String → Bool
is_word String.[] = true
is_word (String.◌∷◌ c s) = not (code c == b'.') && not (code c == b'/') && is_word s

last_dot-word :
    (a s front end : String)
    → is_word a ≡ true
    → last_dot s ≡ some (front, end)
    → last_dot (put_before a s) ≡ some (put_before a front, end)
unfolding last_dot is_word
last_dot-word String.[] s front end word h = h
last_dot-word (String.◌∷◌ c a) s front end word h =
    rw (last_dot-word a s front end (ground (arith, word)) h, last_dot) refl

put_before-nil : (a : String) → put_before a "" ≡ a
put_before-nil String.[] = refl
put_before-nil (String.◌∷◌ c a) = ap (λ s. String.◌∷◌ c s) (put_before-nil a)

has_slash-word : (a s : String) → is_word a ≡ true → has_slash (put_before a s) ≡ has_slash s
unfolding has_slash is_word
has_slash-word String.[] s word = refl
has_slash-word (String.◌∷◌ c a) s word =
    ground (arith, word, has_slash-word a s (ground (arith, word)))

-- A path without slashes is its name.
base_name_self : (s : String) → has_slash s ≡ false → base_name s ≡ s
unfolding base_name has_slash
base_name_self String.[] h = refl
base_name_self (String.◌∷◌ c s) h = ground (arith, h)

abbrev pub head_code : String → ℕ
head_code String.[] = 0
head_code (String.◌∷◌ c s) = code c

ends_with-word : (a : String) → is_word a ≡ true → ends_with ".mcmt" a ≡ false
unfolding ends_with is_word
ends_with-word String.[] word = refl
ends_with-word (String.◌∷◌ c a) word = elim (Bool-cases (str_eq ".mcmt" (String.◌∷◌ c a))) [
  | inl same ↦
      let head = ap head_code ((eq_iff ".mcmt" (String.◌∷◌ c a)).0 same) in
      absurd (ground (arith, word, head))
  | inr other ↦ rw (other, ends_with) (ends_with-word a (ground (arith, word)))
]

split-word :
    (a s front end : String)
    → is_word a ≡ true
    → is_empty a ≡ false
    → has_slash s ≡ false
    → last_dot s ≡ some (front, end)
    → str_eq end "." ≡ false
    → split_suffix (base_name (put_before a s)) ≡ (put_before a front, end)
unfolding split_suffix
split-word String.[] s front end word filled flat dots ends = absurd (cc)
split-word (String.◌∷◌ c a) s front end word filled flat dots ends =
    let whole = String.◌∷◌ c a in
    let path_is = base_name_self (put_before whole s) (has_slash-word whole s word ∙ flat) in
    ap split_suffix path_is ∙ simp (last_dot-word whole s front end word dots, ends, split_suffix)

sent_name-word :
    (a : String) → is_word a ≡ true → is_empty a ≡ false → sent_name (put_before a ".mcmt.bz2") ≡ a
unfolding sent_name has_slash last_dot
sent_name-word a word filled =
    let outer = split-word a ".mcmt.bz2" ".mcmt" ".bz2" word filled refl refl refl in
    let inner = split-word a ".mcmt" "" ".mcmt" word filled refl refl refl in
    ap (λ x. if str_eq x.1 ".bz2" then stem x.0 else base_name (put_before a ".mcmt.bz2")) outer
    ∙ ap (λ x. x.0) inner
    ∙ put_before-nil a

sent_as :
    (read : Bool → String → Result String) (path content name : String)
    → str_eq (suffix path) ".bz2" ≡ true
    → read true path ≡ ok content
    → sent_name path ≡ name
    → send_file read path
      ≡ ok ((Constant.command, text Constant.solve) ∷ (Constant.name, text name) ∷ [], content)
unfolding send_file
sent_as read path content name packed there is_name = rw (packed, there, is_name, send_file) refl

-- A compressed problem of the MCMT kind, `name.mcmt.bz2` for a name that has no dot and no slash, is
-- sent under a name without `.mcmt`, so that the server's test for the kind fails, although the same
-- file is sent as `name.mcmt` when it is not compressed.
pub send_file-loses_suffix :
    (read : Bool → String → Result String) (a content : String)
    → is_word a ≡ true
    → is_empty a ≡ false
    → read true (put_before a ".mcmt.bz2") ≡ ok content
    → (name : String) × (send_file read (put_before a ".mcmt.bz2")
        ≡ ok ((Constant.command, text Constant.solve) ∷ (Constant.name, text name) ∷ [], content))
      × (ends_with ".mcmt" name ≡ false)
      × (sent_name (put_before a ".mcmt") ≡ put_before a ".mcmt")
unfolding send_file sent_name has_slash last_dot
send_file-loses_suffix read a content word filled there =
    let outer = split-word a ".mcmt.bz2" ".mcmt" ".bz2" word filled refl refl refl in
    let inner = split-word a ".mcmt" "" ".mcmt" word filled refl refl refl in
    let flat = base_name_self (put_before a ".mcmt") (has_slash-word a ".mcmt" word) in
    let name_is = sent_name-word a word filled in
    (
      a,
      sent_as read (put_before a ".mcmt.bz2") content a (ap (λ x. str_eq x.1 ".bz2") outer) there
          name_is,
      ends_with-word a word,
      ap (λ x. if str_eq x.1 ".bz2" then stem x.0 else base_name (put_before a ".mcmt")) inner
          ∙ flat,
    )
