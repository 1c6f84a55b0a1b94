-- ===== src/Solver.antt =====
-- The methods of `Solver` (server/schedular.py). `i` is the solver, `now` is `time.time()`.
pub mod Read
pub mod Keeps
pub mod Quiet
use Prim.Native.String.{◌++◌ as str_append}
use smts.Prelude.{
  ℕ, String, Bool, true, false, Option, none, some, List, [], ◌∷◌, ◌++◌, ◌==◌, if◌then◌else◌, ok,
  err, value_error, attribute_error, Dict, update_all, or_raise, Result, nonempty, pos, ◌+ℤ◌,
  string_key,
}
use smts.Tree.Defs.{Tree, Marks, Class, update, new_or, init_marks}
use smts.Tree.Walk
use smts.Formula.{to_string}
use smts.Config.{Config}
use smts.Config.Constant
use smts.World.Effects.{Exec, pure, reads, modify, ◌>>=◌, ◌>>◌, when}
use smts.World.Objects.{Value, text, number, path, Header, Message, Solver, World, root_name}

-- `self.write(header, payload)`
unfoldable pub send : ℕ → Header → String → Exec World (Unit {0})
send i h p =
    modify λ w. record w { sent = w.sent ++ record { receiver = i; header = h; payload = p } ∷ [] }

unfoldable pub set_solver : ℕ → (Solver → Solver) → Exec World (Unit {0})
set_solver i f = modify λ w. record w { solvers = update w.solvers i (f (w.solvers i)) }

-- The node that the solver works on, or the exception that its use raises without one.
abbrev current_node : ℕ → Exec World ℕ
current_node i = reads λ w. or_raise value_error (w.solvers i).node

-- `_reset`
unfoldable pub reset : ℕ → Exec World (Unit {0})
unfolding set_solver
reset i =
    set_solver i λ s. record s { node = none; started = none; or_waiting = []; parameters = [] }

-- `if node.started is None: node.started = now`
unfoldable pub mark_started : ℕ → ℕ → Exec World (Unit {0})
mark_started n now = modify λ w. record w {
  marks = record w.marks {
    started = elim (w.marks.started n) [
      | none ↦ update w.marks.started n (some now)
      | some _ ↦ w.marks.started
    ];
  };
}

-- `__init__` and `initialize` of a solver that introduces itself by a name.
unfoldable pub init : ℕ → String → Exec World (Unit {0})
unfolding set_solver reset send
init i name = do
  set_solver i λ s. record s { name = name }
  reset i
  log ← reads λ w. ok w.config.enable_log
  when log (send i ((Constant.log_mode, number 1) ∷ []) "")

-- `stop`: the state is reset before the message is sent.
unfoldable pub stop : ℕ → Exec World (Unit {0})
unfolding send reset root_name Walk.path
stop i = do
  n ← current_node i
  name ← reads λ w. root_name w.tree n
  at ← reads λ w. Walk.path w.tree n
  reset i
  send i
      ((Constant.command, text Constant.stop)
        ∷ (Constant.name, text name)
        ∷ (Constant.node, path at)
        ∷ [])
      ""

-- `terminate`
unfoldable pub terminate : ℕ → Exec World (Unit {0})
unfolding send root_name Walk.path
terminate i = do
  n ← current_node i
  name ← reads λ w. root_name w.tree n
  at ← reads λ w. Walk.path w.tree n
  send i
      ((Constant.command, text Constant.terminate)
        ∷ (Constant.name, text name)
        ∷ (Constant.node, path at)
        ∷ [])
      ""

-- `solve`: a solver that works on a node is stopped first.
unfoldable pub solve : ℕ → ℕ → Header → ℕ → Exec World (Unit {0})
unfolding stop mark_started to_string
solve i n parameters now = do
  busy ← reads λ w. ok (w.solvers i).node
  elim busy [ none ↦ pure tt | some _ ↦ stop i ]
  set_solver i λ s. record s { node = some n; parameters = parameters }
  input ← reads λ w. to_string w.tree (w.tree.root n) n none
  name ← reads λ w. root_name w.tree n
  at ← reads λ w. Walk.path w.tree n
  memory ← reads λ w. ok w.config.max_memory
  send i
      (update_all parameters (
        (Constant.command, text Constant.solve)
        ∷ (Constant.name, text name)
        ∷ (Constant.node, path at)
        ∷ (Constant.query, text input.1)
        ∷ (Constant.max_memory, number memory)
        ∷ []))
      input.0
  set_solver i λ s. record s { started = some now }
  mark_started n now

-- `incremental`: from the node of the solver to the node `n`.
unfoldable pub incremental : ℕ → ℕ → ℕ → Exec World (Unit {0})
unfolding send set_solver mark_started to_string root_name Walk.path
incremental i n now = do
  from ← reads λ w. or_raise attribute_error (w.solvers i).node
  input ← reads λ w. to_string w.tree (w.tree.root from) n (some from)
  name ← reads λ w. root_name w.tree from
  at ← reads λ w. Walk.path w.tree from
  to ← reads λ w. Walk.path w.tree n
  send i
      ((Constant.command, text Constant.incremental)
        ∷ (Constant.name, text name)
        ∷ (Constant.node, path at)
        ∷ (Constant.node_, path to)
        ∷ (Constant.query, text input.1)
        ∷ [])
      input.0
  set_solver i λ s. record s { or_waiting = []; started = some now }
  mark_started n now
  set_solver i λ s. record s { node = some n }

-- `set_lemma_server`, with the address that the lemma server listens at.
unfoldable pub set_lemma_server : ℕ → Option String → Exec World (Unit {0})
unfolding send
set_lemma_server i listening = do
  c ← reads λ w. ok w.config
  send i
      ((Constant.command, text Constant.lemmas)
        ∷ (
          Constant.lemma_amount,
          (if c.lemma_amount == 0 then text "1000" else number c.lemma_amount),
        )
        ∷ (Constant.lemmas, text (elim listening [ none ↦ "" | some a ↦ a ]))
        ∷ (Constant.lemma_push_min, number c.lemma_push_timeout_min)
        ∷ (Constant.lemma_pull_min, number c.lemma_pull_timeout_min)
        ∷ (Constant.lemma_push_max, number c.lemma_push_timeout_max)
        ∷ (Constant.lemma_pull_max, number c.lemma_pull_timeout_max)
        ∷ [])
      ""

-- `framework.OrNode(self.node)`: the new node is the next free cell.
unfoldable pub add_or_node : ℕ → Exec World ℕ
unfolding init_marks
add_or_node p w = elim (new_or w.tree p "") [
  | ok t ↦ (ok w.tree.next, record w { tree = t; marks = init_marks w.marks w.tree.next })
  | err e ↦ (err e, w)
]

-- The node that `ask_partitions` puts the partitions under: `node` if it is truthy, else a new one.
unfoldable pub partition_target : ℕ → Option ℕ → Exec World ℕ
unfolding add_or_node
partition_target n none = add_or_node n
partition_target n (some o) = do
  t ← reads λ w. ok w.tree
  if nonempty (t.children o) then pure o else add_or_node n

-- `ask_partitions(count, node)`: the count is booked before the check that can raise.
unfoldable pub ask_partitions : ℕ → ℕ → Option ℕ → Exec World (Unit {0})
unfolding send set_solver partition_target root_name Walk.path
ask_partitions i count node = do
  modify λ w. record w {
    config = record w.config { partition_count = w.config.partition_count +ℤ pos count };
  }
  n ← current_node i
  name ← reads λ w. root_name w.tree n
  at ← reads λ w. Walk.path w.tree n
  send i
      ((Constant.command, text Constant.partition)
        ∷ (Constant.name, text name)
        ∷ (Constant.node, path at)
        ∷ (Constant.query, text Constant.check_sat)
        ∷ (Constant.partitions, number count)
        ∷ [])
      ""
  o ← partition_target n node
  modify
      λ w. record w { marks = record w.marks { partitioning = update w.marks.partitioning n true } }
  set_solver i λ s. record s { or_waiting = s.or_waiting ++ o ∷ [] }
