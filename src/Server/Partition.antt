-- ===== src/Server/Partition.antt =====
-- `ParallelizationServer.partition`.
pub mod Outcome
use smts.Prelude.{
  ℕ, zero, suc, ◌+◌, ◌-◌, Bool, true, false, Option, none, some, List, [], ◌∷◌, leb, if◌then◌else◌,
  ok, err, type_error, Result, length,
}
use smts.Tree.Walk
use smts.World.Effects.{Exec, pure, reads, ◌>>=◌, ◌>>◌}
use smts.World.Objects.{Solver, World}
use smts.Solver.{ask_partitions}
use smts.Server.{Connection, solvers, with_node, level_children}

-- `solver.started + self.config.partition_timeout <= time.time()`
unfoldable pub is_due : Option ℕ → Option ℕ → ℕ → Result Bool
is_due (some started) (some timeout) now = ok (leb (started + timeout) now)
is_due _ _ now = err type_error

-- The inner loop, over the solvers of the node: the first one that is due is asked.
unfoldable pub ask_first : Bool → ℕ → List ℕ → ℕ → Exec World Bool
unfolding is_due
ask_first force level [] now = pure false
ask_first force level (i ∷ is) now = do
  due ←
      reads
        λ w. if force then ok true else is_due (w.solvers i).started w.config.partition_timeout now
  elim due [
    | false ↦ ask_first force level is now
    | true ↦ (do
      count ← reads λ w. level_children w.config.partition_policy (suc level)
      ask_partitions i count none
      pure true)
  ]

-- The outer loop, over `range(max_children - len(node))`.
unfoldable pub ask_rounds : ℕ → List Connection → ℕ → Bool → ℕ → ℕ → Exec World Bool
unfolding ask_first solvers
ask_rounds zero rlist n force level now = pure false
ask_rounds (suc k) rlist n force level now = do
  at_node ← reads λ w. ok (solvers rlist w.solvers (with_node (some n)))
  asked ← ask_first force level at_node now
  elim asked [ true ↦ pure true | false ↦ ask_rounds k rlist n force level now ]

-- `partition(node, force)`
unfoldable pub partition : List Connection → ℕ → Bool → ℕ → Exec World Bool
unfolding ask_rounds level_children Walk.level
partition rlist n force now = do
  level ← reads λ w. Walk.level w.tree n
  max_children ← reads λ w. level_children w.config.partition_policy level
  taken ← reads λ w. ok (length (w.tree.children n))
  ask_rounds (max_children - taken) rlist n force level now
