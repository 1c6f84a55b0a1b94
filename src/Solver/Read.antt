-- ===== src/Solver/Read.antt =====
-- `Solver.read`: what the server does with a message from a solver, before it is dispatched.
pub mod Keeps
pub mod Partitions
use Prim.Native.String.{◌++◌ as str_append}
use package.text.Mathlib.Text.{◌==◌ as str_eq}
use smts.Prelude.{
  ℕ, suc, zero, String, Bool, true, false, not, ◌&&◌, Option, none, some, List, [], ◌∷◌, ◌++◌, ◌==◌,
  if◌then◌else◌, ok, err, index_error, attribute_error, Dict, lookup, insert, erase, or_raise,
  Result, nonempty, pos, ◌+ℤ◌, ◌-ℤ◌, string_key, length, get_elem?, pop_last, show_nat, show_path,
  split_nul, is_empty, unicode_error,
}
use smts.Tree.Defs.{
  Tree, Marks, SolveStatus, unknown, sat, unsat, Class, update, new_and, clear, init_marks,
}
use smts.Tree.Walk
use smts.Tree.Status.{same_status, report}
use smts.Config.{Config}
use smts.Config.Constant
use smts.World.Effects.{Exec, pure, reads, modify, ◌>>=◌, ◌>>◌, when}
use smts.World.Objects.{Value, text, number, path, node, Header, Message, Solver, World, root_name}
use smts.Solver.{set_solver}

-- `header[key] == s`; a missing key has no value.
abbrev pub has_text : Option Value → String → Bool
has_text (some (text v)) s = str_eq v s
has_text _ s = false

-- `key in header`
abbrev pub has_key : String → Header → Bool
has_key k h = elim (lookup k h) [ none ↦ false | some _ ↦ true ]

-- `framework.SolveStatus.__members__`
unfoldable pub status_named : Option Value → Option SolveStatus
status_named v =
    if has_text v "unknown"
    then some unknown
    else if has_text v "sat"
    then some sat
    else if has_text v "unsat"
    then some unsat
    else none

-- Whether the message is about the solver's node: same name, and the path written the same way.
unfoldable pub is_current : Tree → ℕ → Header → Result Bool
unfolding root_name Walk.path show_path
is_current t n h = elim (root_name t n) [
  | err e ↦ err e
  | ok name ↦
      if has_text (lookup Constant.name h) name
      then elim (Walk.path t n) [
        | err e ↦ err e
        | ok at ↦ ok (has_text (lookup Constant.node h) (show_path at))
      ]
      else ok false
]

-- `for partition in payload.decode().split('\0')`: a child for each part that is not empty. The
-- loop ends at the first exception; what was added stays.
unfoldable pub add_partitions : Tree → Marks → ℕ → List String → Tree × Marks × Bool
unfolding new_and init_marks
add_partitions t m o [] = (t, m, true)
add_partitions t m o (p ∷ ps) =
    if is_empty p
    then add_partitions t m o ps
    else elim (new_and t (some o) (str_append "(assert " (str_append p ")"))) [
      | err e ↦ (t, m, false)
      | ok t' ↦ add_partitions t' (init_marks m t.next) o ps
    ]

-- `payload.decode().split('\0')`; no payload text stands for bytes that are not UTF-8.
abbrev pub parts : Option String → List String
parts none = []
parts (some s) = split_nul s

abbrev pub is_text : Option String → Bool
is_text none = false
is_text (some s) = true

-- `node.parent.status != SolveStatus.unknown`
unfoldable pub is_solved : Tree → Marks → ℕ → Bool
is_solved t m o = elim (t.parent o) [
  | none ↦ false
  | some p ↦ not (same_status (m.status p) unknown)
]

-- `header['partition_recieved'] = node.parent`
unfoldable pub add_received : Tree → ℕ → Header → Header
add_received t o h = elim (t.parent o) [
  | none ↦ h
  | some p ↦ insert "partition_recieved" (node p) h
]

-- The `except` and `else` branches: an OR node that cannot be filled, or whose parent is solved
-- already, loses its children; the number of partitions that are booked is corrected. The text of the
-- traceback is left out of the report.
unfoldable pub settle_partitions : ℕ → Bool → Header → Exec World Header
unfolding clear show_nat is_solved
settle_partitions o false h w = (
  ok (insert Constant.report (text "error:(server) error reading partitions: ") h),
  record w { tree = clear w.tree o },
)
settle_partitions o true h w =
    let count : ℕ = length (w.tree.children o) in
    let t = if is_solved w.tree w.marks o then clear w.tree o else w.tree in
    let kept : ℕ = length (t.children o) in
    let h' =
      insert Constant.report
        (text (str_append "info:(server) received " (str_append (show_nat count) " partitions")))
        h in
    elim (get_elem? w.config.partition_policy 1) [
      | none ↦ (err index_error, record w { tree = t })
      | some per_node ↦ (
        ok h',
        record w {
          tree = t;
          config = record w.config {
            partition_count =
                if kept == per_node
                then w.config.partition_count
                else w.config.partition_count -ℤ pos per_node +ℤ pos kept;
          };
        },
      )
    ]

-- A `partitions` report, for the OR node that was asked for last.
unfoldable pub receive_partitions : ℕ → Header → Option String → Exec World Header
unfolding add_partitions settle_partitions add_received
receive_partitions o h payload w =
    let (t, m, filled) = add_partitions w.tree w.marks o (parts payload) in
    let done = is_text payload && filled in
    settle_partitions o done (if done then add_received t o h else h)
      (record w { tree = t; marks = m })

-- A result: the OR node that was asked for last is given up, and the status is recorded.
unfoldable pub receive_status : ℕ → ℕ → SolveStatus → World → World
unfolding report
receive_status i n s w = record w {
  solvers = elim (pop_last (w.solvers i).or_waiting) [
    | none ↦ w.solvers
    | some (rest, o) ↦ update w.solvers i (record (w.solvers i) { or_waiting = rest })
  ];
  marks = record w.marks { status = report w.tree w.marks.status n s };
}

-- A message that is about the solver's node, with the name taken out of the header.
unfoldable pub receive : ℕ → ℕ → Header → Option String → Exec World Header
unfolding receive_partitions receive_status set_solver status_named
receive i n h payload w =
    let as_status : Result Header × World = elim (status_named (lookup Constant.report h)) [
      | none ↦ (ok h, w)
      | some s ↦ (ok h, receive_status i n s w)
    ] in
    if has_text (lookup Constant.report h) Constant.partitions
    then elim (pop_last (w.solvers i).or_waiting) [
      | none ↦ as_status
      | some (rest, o) ↦
          (do set_solver i λ s. record s { or_waiting = rest }; receive_partitions o h payload) w
    ]
    else as_status

-- `read` behind `super().read()`: the header that the dispatcher gets, empty if the message is
-- dropped. `config.debug` is off, as in the default settings.
unfoldable pub read : ℕ → Header → Option String → Exec World Header
unfolding receive is_current erase
read i h payload w =
    if not (has_key Constant.report h) then (ok [], w) else elim (w.solvers i).node [
      | none ↦ (ok h, w)
      | some n ↦
          if not (has_key Constant.name h && has_key Constant.node h)
          then (ok h, w)
          else elim (is_current w.tree n h) [
            | err e ↦ (err e, w)
            | ok false ↦ (ok [], w)
            | ok true ↦ receive i n (erase Constant.name h) payload w
          ]
    ]
