-- ===== src/Instances.antt =====
-- `framework.parse` and the constructors of the three classes of roots.
pub mod Fixedpoint
pub mod Keeps
use Prim.Native.String.{◌++◌ as str_append}
use package.text.Mathlib.Text.{◌==◌ as str_eq}
use smts.Prelude.{
  ℕ, zero, suc, String, Bool, true, false, Option, none, some, List, if◌then◌else◌, Result, ok, err,
  value_error, ◌==◌, is_none,
}
use smts.Json.{Json, Items}
use smts.Tree.Defs.{Tree, Format, smt_lib, mcmt, fixedpoint, new_root, init_marks}
use smts.World.Effects.{Exec, reads, pure, ◌>>=◌}
use smts.World.Objects.{World}
use Fixedpoint.{Problem, read_problem}

-- `s.startswith(start)`
unfoldable pub starts_with : String → String → Bool
starts_with String.[] s = true
starts_with (String.◌∷◌ a start) String.[] = false
starts_with (String.◌∷◌ a start) (String.◌∷◌ b s) =
    let rest = starts_with start s in
    if str_eq (String.◌∷◌ a String.[]) (String.◌∷◌ b String.[]) then rest else false

-- `s.endswith(end)`
unfoldable pub ends_with : String → String → Bool
ends_with end String.[] = str_eq end ""
ends_with end (String.◌∷◌ c s) =
    let rest = ends_with end s in if str_eq end (String.◌∷◌ c s) then true else rest

-- What stands before the first `part` in the text, if there is one.
unfoldable pub before : String → String → Option String
unfolding starts_with
before part String.[] = if starts_with part "" then some "" else none
before part (String.◌∷◌ c s) =
    let rest = before part s in
    if starts_with part (String.◌∷◌ c s)
    then some ""
    else elim rest [ none ↦ none | some front ↦ some (String.◌∷◌ c front) ]

-- `smt.find('(query ') > 0`: not at the very beginning
unfoldable pub has_query : String → Bool
unfolding before
has_query smt = elim (before "(query " smt) [
  | none ↦ false
  | some front ↦ if str_eq front "" then false else true
]

-- `Root.__init__`: the root is the next free cell.
unfoldable pub add_root : Format → String → String → Exec World ℕ
unfolding new_root init_marks
add_root f name smt w = (
  ok w.tree.next,
  record w { tree = new_root w.tree f name smt; marks = init_marks w.marks w.tree.next },
)

-- `parse(name, smt)`, with what a fixedpoint problem keeps beside its node. `smt2json` reads
-- S-expressions.
unfoldable pub parse : (String → Result Items) → String → String → Exec World (ℕ × Option Problem)
unfolding ends_with has_query before add_root read_problem
parse smt2json name smt =
    if ends_with ".mcmt" name
    then (do n ← add_root mcmt name smt; pure (n, none))
    else if has_query smt
    then (do
      problem ← reads λ w. read_problem smt2json smt
      n ←
          add_root (fixedpoint problem.query) name
            (elim (before "(query" smt) [ none ↦ smt | some front ↦ front ])
      pure (n, some problem))
    else (do n ← add_root smt_lib name smt; pure (n, none))
