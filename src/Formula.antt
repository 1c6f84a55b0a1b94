-- ===== src/Formula.antt =====
-- The solver input for a node (server/framework.py, the `to_string` methods and `parse`).
pub mod Stack
pub mod Incremental
use Prim.Native.String.{◌++◌ as str_append}
use smts.Prelude.{
  ℕ, zero, suc, String, Bool, true, false, Option, none, some, List, [], ◌∷◌, ◌++◌, map, reverse,
  ◌==◌, if◌then◌else◌, Result, ok, err, ◌>>=◌, attribute_error, value_error, type_error,
  out_of_fuel,
}
use smts.Json.{Json, str, array}
use smts.Tree.Defs.{
  Tree, Class, Format, smt_lib, fixedpoint, mcmt, and_node, or_node, root_node, is_and,
}
use smts.Tree.Walk.{is_ancestor}

-- The entries of the list `smt` in `SMT.to_string`: a node's own text, or one of the two commands.
pub data Line : Type 0 where
  text : String → Line
  push pop : Line

unfoldable pub render : Line → String
render (text s) = s
render push = "(push 1)"
render pop = "(pop 1)"

-- `while not start.is_ancestor(node)`: the ancestor that is reached and `n_pop`.
unfoldable pub climb : ℕ → Tree → ℕ → ℕ → ℕ → Result (ℕ × ℕ)
climb zero t s n n_pop = err out_of_fuel
climb (suc f) t s n n_pop = do
  b ← is_ancestor t s n
  elim b [
    | true ↦ ok (s, n_pop)
    | false ↦ elim (t.parent s) [
      | none ↦ err attribute_error
      | some p ↦ climb f t p n (if is_and (t.class s) then suc n_pop else n_pop)
    ]
  ]

-- `node is start`
abbrev pub is_stop : Option ℕ → ℕ → Bool
is_stop none n = false
is_stop (some c) n = c == n

-- What one round of the second loop appends for `n`, where `root` is `self.root`.
abbrev pub entries : Tree → ℕ → ℕ → List Line
entries t root n =
    if is_and (t.class n) then text (t.smt n) ∷ (if n == root then [] else push ∷ []) else []

-- `while node is not start`, up to None if there is no start.
unfoldable pub gather : ℕ → Tree → ℕ → Option ℕ → Option ℕ → Result (List Line)
gather f t root none none = ok []
gather f t root (some c) none = err attribute_error
gather zero t root stop (some n) = err out_of_fuel
gather (suc f) t root stop (some n) =
    if is_stop stop n
    then ok []
    else (do rest ← gather f t root stop (t.parent n); ok (entries t root n ++ rest))

abbrev pub repeat_pop : ℕ → List Line
repeat_pop zero = []
repeat_pop (suc k) = pop ∷ repeat_pop k

-- The list `smt` of `SMT.to_string(node, start)` when it is joined.
unfoldable pub smt_lines : Tree → ℕ → ℕ → Option ℕ → Result (List Line)
unfolding climb gather
smt_lines t root n none = do g ← gather (suc n) t root none (some n); ok (reverse g)
smt_lines t root n (some s) = do
  r ← climb (suc s) t s n 0
  g ← gather (suc n) t root (some r.0) (some n)
  ok (reverse (g ++ repeat_pop r.1))

-- `'\n'.join(lines)`
unfoldable pub join : List String → String
join [] = ""
join (s ∷ []) = s
join (s ∷ rest) = str_append s (str_append "\n" (join rest))

-- `Fixedpoint.to_string`
unfoldable pub fixedpoint_string : Tree → ℕ → Json → ℕ → Option ℕ → Result (String × String)
fixedpoint_string t root query n start = do
  b ← is_ancestor t root n
  elim start [
    | some s ↦ err value_error
    | none ↦
        if n == root
        then elim query [
          | str q ↦ ok (t.smt root, str_append "(query " (str_append q ")"))
          | array _ ↦ err type_error
        ]
        else elim (t.parent n) [
          | some p ↦ if is_and (t.class n) then ok (t.smt p, t.smt n) else err type_error
          | none ↦ err type_error
        ]
  ]

-- `root.to_string(node, start)`: the input and the query, by the class of the root.
unfoldable pub to_string : Tree → ℕ → ℕ → Option ℕ → Result (String × String)
unfolding smt_lines render join fixedpoint_string
to_string t root n start = elim (t.class root) [
  | root_node smt_lib name ↦ do
    ls ← smt_lines t root n start
    ok (join (map render ls), "(check-sat)")
  | root_node (fixedpoint query) name ↦ fixedpoint_string t root query n start
  | root_node mcmt name ↦ ok (t.smt root, "")
  | _ ↦ err attribute_error
]
