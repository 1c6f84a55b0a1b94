-- ===== src/Prelude/Texts/Words.antt =====
-- Words, as `split()` finds them, and lines of words.
use Prim.Native.Nat.{ℕ, zero, suc, ◌/◌, ◌%◌}
use Prim.Native.Char.{code}
use Prim.Native.String.{String, ◌++◌ as join}
use Prim.Native.String.append
use mathlib.Core.Path.{◌≡◌, refl, ap, ◌∙◌}
use mathlib.Core.Logic.{inl, inr}
use mathlib.Core.Bool.{Bool, true, false, ◌&&◌, ◌||◌, not}
use mathlib.Core.List.{List, [], ◌∷◌}
use native.Mathlib.Omega.{arith}
use smts.Prelude.Tests.{◌==◌, leb, ltb, if◌then◌else◌, Bool-cases}
use smts.Prelude.Texts.{digit, show_within, show_nat, is_empty}
use smts.Prelude.Texts.Numbers.{is_empty-show_nat}

-- `str.isspace` of a character
unfoldable pub is_space : ℕ → Bool
is_space c =
    (leb 9 c && leb c 13)
    || (leb 28 c && leb c 32)
    || (c == 133)
    || (c == 160)
    || (c == 5760)
    || (leb 8192 c && leb c 8202)
    || (c == 8232)
    || (c == 8233)
    || (c == 8239)
    || (c == 8287)
    || (c == 12288)

-- The text is at an end, or at a blank.
unfoldable pub at_gap : String → Bool
unfolding is_space
at_gap String.[] = true
at_gap (String.◌∷◌ c s) = is_space (code c)

-- A character in front of the first word
unfoldable pub put_word : String → List String → List String
put_word c [] = c ∷ []
put_word c (w ∷ ws) = join c w ∷ ws

-- `text.split()`
unfoldable pub words : String → List String
unfolding at_gap put_word is_space
words String.[] = []
words (String.◌∷◌ c s) =
    let rest = words s in
    if is_space (code c)
    then rest
    else if at_gap s
    then String.◌∷◌ c String.[] ∷ rest
    else put_word (String.◌∷◌ c String.[]) rest

-- No character is a blank.
unfoldable pub no_blank : String → Bool
unfolding is_space
no_blank String.[] = true
no_blank (String.◌∷◌ c s) = not (is_space (code c)) && no_blank s

-- A word
abbrev pub IsWord : String → Type 0
IsWord s = (is_empty s ≡ false) × (no_blank s ≡ true)

words-append : (w t : String) → IsWord w → at_gap t ≡ true → words (join w t) ≡ w ∷ words t
unfolding words at_gap put_word no_blank
words-append String.[] t (full, solid) gap = absurd (cc)
words-append (String.◌∷◌ c String.[]) t (full, solid) gap =
    ap words (append.cons c String.[] t)
    ∙ ap (λ s. words (String.◌∷◌ c s)) (append.nil t)
    ∙ one_letter
  where
    one_letter : words (String.◌∷◌ c t) ≡ String.◌∷◌ c String.[] ∷ words t
    one_letter = elim (Bool-cases (is_space (code c))) [
      | inl e ↦ absurd (ground (arith, e, solid))
      | inr e ↦ rw e (rw gap refl)
    ]
words-append (String.◌∷◌ c (String.◌∷◌ d w)) t (full, solid) gap =
    let c_solid : is_space (code c) ≡ false = ground (arith, solid) in
    let d_solid : is_space (code d) ≡ false = ground (arith, solid) in
    let rest = words-append (String.◌∷◌ d w) t (refl, ground (arith, solid)) gap in
    let no_gap : at_gap (join (String.◌∷◌ d w) t) ≡ false =
      ap at_gap (append.cons d w t) ∙ d_solid in
    ap words (append.cons c (String.◌∷◌ d w) t)
    ∙ rw (c_solid, no_gap, rest, words)
        (ap (λ u. u ∷ words t)
          (append.cons c String.[] (String.◌∷◌ d w)
            ∙ ap (λ u. String.◌∷◌ c u) (append.nil (String.◌∷◌ d w))))

blank-words : (t : String) → words (join " " t) ≡ words t
unfolding words is_space
blank-words t = ap words (append.cons " " String.[] t ∙ ap (λ u. String.◌∷◌ " " u) (append.nil t))

blank-at_gap : (t : String) → at_gap (join " " t) ≡ true
unfolding at_gap is_space
blank-at_gap t = ap at_gap (append.cons " " String.[] t)

-- The columns of a line that was written
pub words-line :
    (name status column : String)
    → IsWord name
    → IsWord status
    → IsWord column
    → words (join name (join " " (join status (join " " (join column "\n")))))
      ≡ name ∷ status ∷ column ∷ []
unfolding words is_space
words-line name status column is_name is_status is_column =
    let end = join column "\n" in
    let tail = join status (join " " end) in
    words-append name (join " " tail) is_name (blank-at_gap tail)
    ∙ ap (λ ws. name ∷ ws)
        (blank-words tail
          ∙ words-append status (join " " end) is_status (blank-at_gap end)
          ∙ ap (λ ws. status ∷ ws) (blank-words end ∙ words-append column "\n" is_column refl))

no_blank-append : (s t : String) → no_blank (join s t) ≡ (no_blank s && no_blank t)
unfolding no_blank
no_blank-append String.[] t = ap no_blank (append.nil t)
no_blank-append (String.◌∷◌ c s) t =
    ap no_blank (append.cons c s t) ∙ rw (no_blank-append s t) (ground arith)

either :
    (b : Bool) (s t : String)
    → no_blank s ≡ true
    → no_blank t ≡ true
    → no_blank (if b then s else t) ≡ true
either true s t h k = h
either false s t h k = k

no_blank-digit : (n : ℕ) → no_blank (digit n) ≡ true
unfolding digit no_blank is_space
no_blank-digit n = either (n == 0) _ _ refl (
    either (n == 1) _ _ refl (
      either (n == 2) _ _ refl (
        either (n == 3) _ _ refl (
          either (n == 4) _ _ refl (
            either (n == 5) _ _ refl (
              either (n == 6) _ _ refl
                (either (n == 7) _ _ refl (either (n == 8) _ _ refl refl))))))))

no_blank-show_within : (f n : ℕ) → no_blank (show_within f n) ≡ true
unfolding show_within no_blank
no_blank-show_within zero n = refl
no_blank-show_within (suc f) n =
    either (ltb n 10) (digit n) (join (show_within f (n / 10)) (digit (n % 10))) (no_blank-digit n)
      (no_blank-append (show_within f (n / 10)) (digit (n % 10))
        ∙ rw (no_blank-show_within f (n / 10)) (no_blank-digit (n % 10)))

-- A number is a word.
pub show_nat-IsWord : (n : ℕ) → IsWord (show_nat n)
unfolding show_nat
show_nat-IsWord n = (is_empty-show_nat n, no_blank-show_within (suc n) n)

-- So is a number with its sign.
pub signed-IsWord : (n : ℕ) → IsWord (join "-" (show_nat n))
unfolding no_blank is_space
signed-IsWord n =
    let (full, solid) = show_nat-IsWord n in
    (ap is_empty (append.cons "-" String.[] (show_nat n)), no_blank-append "-" (show_nat n) ∙ solid)
