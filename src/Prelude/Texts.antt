-- ===== src/Prelude/Texts.antt =====
-- Texts as Python writes them: numbers, lists of numbers, `split` and `join`.
pub mod Numbers
pub mod Words
use Prim.Native.Nat.{ℕ, zero, suc, ◌+◌, ◌-◌, ◌*◌, ◌/◌, ◌%◌}
use Prim.Native.Char.{code}
use Prim.Native.String.{String, ◌++◌}
use mathlib.Core.Bool.{Bool, true, false, ◌&&◌}
use mathlib.Core.List.{List, [], ◌∷◌}
use smts.Prelude.Tests.{◌==◌, ltb, leb, if◌then◌else◌}
use smts.Prelude.Int.{ℤ, pos, negsuc}
use smts.Prelude.Results.{Result, ok, err, value_error}

digit : ℕ → String
digit n =
    if n == 0
    then "0"
    else if n == 1
    then "1"
    else if n == 2
    then "2"
    else if n == 3
    then "3"
    else if n == 4
    then "4"
    else if n == 5
    then "5"
    else if n == 6
    then "6"
    else if n == 7
    then "7"
    else if n == 8
    then "8"
    else "9"

show_within : ℕ → ℕ → String
unfolding digit
show_within zero n = ""
show_within (suc f) n =
    let front = show_within f (n / 10) in if ltb n 10 then digit n else front ++ digit (n % 10)

-- `str(n)`
unfoldable pub show_nat : ℕ → String
unfolding show_within
show_nat n = show_within (suc n) n

show_rest : List ℕ → String
unfolding show_nat
show_rest [] = "]"
show_rest (n ∷ ns) = ", " ++ (show_nat n ++ show_rest ns)

-- `str(path)` of a list of numbers
unfoldable pub show_path : List ℕ → String
unfolding show_rest
show_path [] = "[]"
show_path (n ∷ ns) = "[" ++ (show_nat n ++ show_rest ns)

abbrev pub is_empty : String → Bool
is_empty String.[] = true
is_empty (String.◌∷◌ c s) = false

-- Puts a character in front of the first part.
put_first : String → List String → List String
put_first c [] = c ∷ []
put_first c (p ∷ ps) = (c ++ p) ∷ ps

-- `text.split('\0')`
unfoldable pub split_nul : String → List String
unfolding put_first
split_nul String.[] = "" ∷ []
split_nul (String.◌∷◌ c s) =
    if code c == 0 then "" ∷ split_nul s else put_first (String.◌∷◌ c String.[]) (split_nul s)

-- A text in front of another one
abbrev pub put_before : String → String → String
put_before String.[] t = t
put_before (String.◌∷◌ c s) t = String.◌∷◌ c (put_before s t)

-- The digits of `int(text)`, behind those with the value `n`; signs and blanks are not sent.
unfoldable pub int_from : ℕ → String → Result ℕ
int_from n String.[] = ok n
int_from n (String.◌∷◌ c s) =
    let rest = int_from (n * 10 + (code c - 48)) s in
    if leb b'0' (code c) && leb (code c) b'9' then rest else err value_error

unfoldable pub int : String → Result ℕ
unfolding int_from
int s = if is_empty s then err value_error else int_from 0 s

-- `str(z)`
unfoldable pub show_int : ℤ → String
unfolding show_nat
show_int (pos n) = show_nat n
show_int (negsuc n) = "-" ++ show_nat (suc n)

-- Texts one behind the other
unfoldable pub line : List String → String
line [] = ""
line (s ∷ ss) = s ++ line ss
