-- ===== src/Config/Parameters.antt =====
-- `config.entrust`: the parameters that a solver gets for an instance.
pub mod Portfolio
use Prim.Native.Char.{code}
use Prim.Native.String.{◌++◌ as str_append}
use package.text.Mathlib.Text.{◌==◌ as str_eq}
use smts.Prelude.{
  ℕ, ◌%◌, String, Bool, true, false, Option, none, some, List, [], ◌∷◌, ◌==◌, if◌then◌else◌, Dict,
  insert, string_key,
}
use smts.World.Objects.{Value, text, number, Header}

-- A value of `config.parameters`: a constant, or a callable that draws a value at each use.
pub data Parameter : Type 0 where
  constant : Value → Parameter
  drawn : Parameter

-- `key.split('.', 1)`, if there is a dot
unfoldable pub split_dot : String → Option (String × String)
split_dot String.[] = none
split_dot (String.◌∷◌ c s) =
    if code c == b'.'
    then some ("", s)
    else elim (split_dot s) [ none ↦ none | some (front, back) ↦ some (String.◌∷◌ c front, back) ]

-- The loop over `parameters`; `draw` is what a callable returns, by its key.
unfoldable pub own_parameters : (String → Value) → String → Dict String Parameter → Header → Header
own_parameters draw name [] h = h
own_parameters draw name ((key, p) ∷ rest) h = own_parameters draw name rest (elim (split_dot key) [
  | none ↦ h
  | some (solver, parameter) ↦
      if str_eq solver name
      then insert (str_append "parameter." parameter) (elim p [ constant v ↦ v | drawn ↦ draw key ])
          h
      else h
])

-- The portfolio of Spacer, by the number of solvers that work on the root already.
unfoldable pub spacer_options : ℕ → Header → Header
spacer_options count h =
    if count % 4 == 0
    then insert "parameter.fp.spacer.reset_pob_queue" (text "false")
        (insert "parameter.fp.spacer.push_pob" (text "true") (insert "-p" (text "def") h))
    else if count % 4 == 1
    then insert "parameter.fp.spacer.push_pob" (text "true") (insert "-p" (text "ic3") h)
    else if count % 4 == 2
    then insert "-p" (text "newgpdr") (insert "parameter.fp.spacer.gpdr" (text "true") h)
    else insert "-p" (text "gpdr") h

unfoldable pub itp_lra : ℕ → String
itp_lra count = if count % 3 == 0 then "0" else if count % 3 == 1 then "2" else "4"

unfoldable pub itp_bool : ℕ → String
itp_bool count = if count % 2 == 0 then "0" else "1"

-- The portfolio of SALLY.
unfoldable pub sally_options : ℕ → Header → Header
unfolding itp_lra itp_bool
sally_options count h =
    insert "parameter.opensmt2-itp-bool" (text (itp_bool count))
      (insert "parameter.opensmt2-itp-lra" (text (itp_lra count)) h)

-- `config.entrust(node, header, solver_name, solvers)`, with the number of `solvers`.
unfoldable pub entrust : Dict String Parameter → (String → Value) → String → ℕ → Header → Header
unfolding own_parameters spacer_options sally_options
entrust parameters draw name count h =
    let own = own_parameters draw name parameters h in
    let spacer = if str_eq name "Spacer" then spacer_options count own else own in
    if str_eq name "SALLY" then sally_options count spacer else spacer

-- `parameters` of server/config/default.py
abbrev pub default_parameters : Dict String Parameter
default_parameters =
    ("OpenSMT2.seed", drawn)
    ∷ ("OpenSMT2.split-type", constant (text ":scatter-split"))
    ∷ ("Spacer.fp.spacer.random_seed", drawn)
    ∷ ("Spacer.fp.spacer.restarts", constant (text "false"))
    ∷ ("Spacer.fp.spacer.p3.share_lemmas", constant (text "true"))
    ∷ ("Spacer.fp.spacer.p3.share_invariants", constant (text "true"))
    ∷ ("Spacer.fp.xform.slice", constant (text "false"))
    ∷ ("Spacer.fp.xform.inline_linear", constant (text "false"))
    ∷ ("Spacer.fp.xform.inline_eager", constant (text "false"))
    ∷ ("Spacer.fp.xform.tail_simplifier_pve", constant (text "false"))
    ∷ ("Spacer.fp.spacer.elim_aux", constant (text "false"))
    ∷ ("Spacer.fp.spacer.reach_dnf", constant (text "false"))
    ∷ ("SALLY.opensmt2-random_seed", drawn)
    ∷ ("SALLY.pdkind-minimize-frames", constant (text "true"))
    ∷ ("SALLY.pdkind-minimize-interpolants", constant (text "true"))
    ∷ ("SALLY.opensmt2-simplify_itp", constant (text "2"))
    ∷ ("SALLY.opensmt2-itp-lra", constant (text "0"))
    ∷ ("SALLY.opensmt2-itp-bool", constant (text "0"))
    ∷ ("SALLY.pdkind-induction-max", constant (text "0"))
    ∷ ("SALLY.share-reachability-lemmas", constant (text "true"))
    ∷ ("SALLY.share-induction-lemmas", constant (text "true"))
    ∷ []
