-- ===== src/Instances/Fixedpoint.antt =====
-- `Fixedpoint.__init__` and `Fixedpoint.partition`. The event database is off.
pub mod Rules
pub mod Children
use Prim.Native.String.{◌++◌ as str_append}
use package.text.Mathlib.Text.{◌==◌ as str_eq}
use smts.Prelude.{
  ℕ, suc, String, Bool, true, false, ◌&&◌, Option, none, some, List, [], ◌∷◌, if◌then◌else◌, Result,
  ok, err, value_error, index_error, show_nat,
}
use smts.Json.{Json, str, array, Items, nil, cons, smt_lines_of}
use smts.Tree.Defs.{new_or, new_and, init_marks}
use smts.World.Effects.{Exec, reads, ◌>>=◌}
use smts.World.Objects.{World}

-- The attributes `json` and `query`.
pub record Problem : Type 0 where
  pub json : Items
  pub query : Json

-- `==` on JSON values
unfoldable mutual
  pub same_json : Json → Json → Bool
  same_json (str a) (str b) = str_eq a b
  same_json (array a) (array b) = same_items a b
  same_json _ _ = false

  pub same_items : Items → Items → Bool
  same_items nil nil = true
  same_items (cons a as') (cons b bs) = same_json a b && same_items as' bs
  same_items _ _ = false

-- `item[0] == word`, for a word of more than one character
abbrev pub starts : String → Json → Result Bool
starts word (str String.[]) = err index_error
starts word (str (String.◌∷◌ c s)) = ok false
starts word (array nil) = err index_error
starts word (array (cons (str s) _)) = ok (str_eq s word)
starts word (array (cons (array _) _)) = ok false

-- `item[1]` of an array
abbrev pub second : Json → Result Json
second (array (cons a (cons b _))) = ok b
second _ = err index_error

-- The items before the first query, and the query.
unfoldable pub until_query : Items → Result Problem
until_query nil = err value_error
until_query (cons i l) = elim (starts "query" i) [
  | err e ↦ err e
  | ok true ↦ elim (second i) [ err e ↦ err e | ok q ↦ ok (record { json = nil; query = q }) ]
  | ok false ↦ elim (until_query l) [
    | err e ↦ err e
    | ok p ↦ ok (record p { json = cons i p.json })
  ]
]

unfoldable pub read_problem : (String → Result Items) → String → Result Problem
unfolding until_query
read_problem smt2json smt = elim (smt2json smt) [ err e ↦ err e | ok l ↦ until_query l ]

-- The body of a rule below its lets, with the query in the head replaced; none if it is not there.
unfoldable pub replace_head : Json → String → Json → Option Json
unfolding same_json
replace_head query name (array (cons (str head) (cons a (cons b rest)))) =
    let below = replace_head query name b in
    if str_eq head "let"
    then elim below [
      | none ↦ none
      | some b' ↦ some (array (cons (str head) (cons a (cons b' rest))))
    ]
    else if str_eq head "=>" && same_json b query
    then some (array (cons (str head) (cons a (cons (str name) rest))))
    else none
replace_head query name _ = none

-- The loop over the rules: each rule for the query gets a query of its own, `query0`, `query1`, …
unfoldable pub split_rules : (Json → String) → Json → ℕ → Items → Items × List String
unfolding replace_head show_nat
split_rules format query n nil = (nil, [])
split_rules format query n (cons (array (cons (str word) (cons body rest))) l) =
    let name = str_append (format query) (show_nat n) in
    let kept = split_rules format query n l in
    let split = split_rules format query (suc n) l in
    elim (if str_eq word "rule" then replace_head query name body else none) [
      | none ↦ (cons (array (cons (str word) (cons body rest))) kept.0, kept.1)
      | some body' ↦ (cons (array (cons (str word) (cons body' rest))) split.0, name ∷ split.1)
    ]
split_rules format query n (cons i l) =
    let kept = split_rules format query n l in (cons i kept.0, kept.1)

-- `obj.insert(i, ['declare-rel', query, []])` for each query: the last one comes first.
unfoldable pub declare_queries : List String → Items → Items
declare_queries [] l = l
declare_queries (q ∷ qs) l =
    declare_queries qs
      (cons (array (cons (str "declare-rel") (cons (str q) (cons (array nil) nil)))) l)

-- The new relations are declared before the first declared relation.
unfoldable pub declare_all : List String → Items → Result Items
unfolding declare_queries
declare_all qs nil = ok nil
declare_all qs (cons i l) = elim (starts "declare-rel" i) [
  | err e ↦ err e
  | ok true ↦ ok (declare_queries qs (cons i l))
  | ok false ↦ elim (declare_all qs l) [ err e ↦ err e | ok l' ↦ ok (cons i l') ]
]

-- `OrNode(self, smt)` and `AndNode(parent, smt)`
unfoldable pub add_or : ℕ → String → Exec World ℕ
unfolding new_or init_marks
add_or p smt w = elim (new_or w.tree p smt) [
  | ok t ↦ (ok w.tree.next, record w { tree = t; marks = init_marks w.marks w.tree.next })
  | err e ↦ (err e, w)
]

unfoldable pub add_queries : ℕ → List String → Exec World (Unit {0})
unfolding new_and init_marks
add_queries o [] w = (ok tt, w)
add_queries o (q ∷ qs) w =
    elim (new_and w.tree (some o) (str_append "(query " (str_append q ")"))) [
      | err e ↦ (err e, w)
      | ok t ↦ add_queries o qs (record w { tree = t; marks = init_marks w.marks w.tree.next })
    ]

-- `partition()` of the root `n`. `format` is what `'{}'.format` makes of the query.
unfoldable pub partition : (Json → String) → Problem → ℕ → Exec World (Unit {0})
unfolding split_rules declare_all add_or add_queries smt_lines_of
partition format problem n = do
  let split = split_rules format problem.query 0 problem.json
  obj ← reads λ w. declare_all split.1 split.0
  o ← add_or n (smt_lines_of obj)
  add_queries o split.1
