-- ===== src/Server/Chart/Reading.antt =====
-- What `collectData_vTree` reads in the text of a message: the path in it, and the number of partitions.
use Prim.Native.Char.{code}
use smts.Prelude.{
  ℕ, ◌+◌, ◌-◌, ◌*◌, String, Bool, true, false, ◌&&◌, Option, none, some, ◌==◌, leb, if◌then◌else◌,
}

-- The longest front of the line that ends with `]`
unfoldable pub to_last_bracket : String → Option String
to_last_bracket String.[] = none
to_last_bracket (String.◌∷◌ c s) =
    let rest = to_last_bracket s in
    let here = if code c == b']' then some (String.◌∷◌ c String.[]) else none in
    if code c == 10
    then none
    else elim rest [ none ↦ here | some front ↦ some (String.◌∷◌ c front) ]

-- `re.search(r"\[(.*)\]", message)`, the whole match
unfoldable pub brackets : String → Option String
unfolding to_last_bracket
brackets String.[] = none
brackets (String.◌∷◌ c s) =
    let later = brackets s in
    if code c == b'['
    then elim (to_last_bracket s) [ none ↦ later | some rest ↦ some (String.◌∷◌ c rest) ]
    else later

-- What follows the text `start`
unfoldable pub behind : String → String → Option String
behind String.[] s = some s
behind (String.◌∷◌ a start) String.[] = none
behind (String.◌∷◌ a start) (String.◌∷◌ c s) =
    let rest = behind start s in if code a == code c then rest else none

-- `[0-9]+`, with its value, behind digits of the value `n`
unfoldable pub digits : Bool → ℕ → String → Option (ℕ × String)
digits seen n String.[] = if seen then some (n, "") else none
digits seen n (String.◌∷◌ c s) =
    let more = digits true (n * 10 + (code c - 48)) s in
    if leb b'0' (code c) && leb (code c) b'9'
    then more
    else if seen
    then some (n, String.◌∷◌ c s)
    else none

-- `received [0-9]+ partitions` at the beginning of a text, with the number
unfoldable pub count_here : String → Option ℕ
unfolding behind digits
count_here s = elim (behind "received " s) [
  | none ↦ none
  | some rest ↦ elim (digits false 0 rest) [
    | none ↦ none
    | some (n, after) ↦ elim (behind " partitions" after) [ none ↦ none | some _ ↦ some n ]
  ]
]

-- The number in the first `received [0-9]+ partitions` of a text
unfoldable pub received_count : String → Option ℕ
unfolding count_here
received_count String.[] = none
received_count (String.◌∷◌ c s) = elim (count_here (String.◌∷◌ c s)) [
  | none ↦ received_count s
  | some n ↦ some n
]
