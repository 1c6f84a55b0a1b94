-- ===== src/Server/Start.antt =====
-- The part of `ParallelizationServer.entrust` that puts solvers to work on the root of an instance:
-- at the start of the instance, and when solvers join later. `draw` is what a callable parameter
-- returns, by the counter of the solver's start.
pub mod Serves
use smts.Prelude.{
  ℕ, suc, ◌+◌, String, Bool, Option, none, some, List, [], ◌∷◌, ok, attribute_error, Dict, or_raise,
  length, insert, pos, string_key,
}
use smts.Tree.Defs.{update}
use smts.World.Effects.{Exec, pure, reads, modify, ◌>>=◌, ◌>>◌}
use smts.World.Objects.{Value, number, Solver, World}
use smts.Config.{Config}
use smts.Config.Parameters.{Parameter, entrust}
use smts.Solver.{solve}
use smts.Server.{
  Instance, Server, Connection, on_world, solvers, every, with_node, newly_joint_solver,
  first_schedulable,
}

module _ (parameters : Dict String Parameter) (draw : ℕ → String → Value) where
  -- The seven lines that both loops share, for solver `i` and the current instance `k`.
  unfoldable pub start_solver : ℕ → ℕ → ℕ → Exec Server (Unit {0})
  unfolding entrust solvers solve
  start_solver k i now = do
    root ← reads λ s. ok (s.instances k).root
    others ← reads λ s. ok (solvers s.rlist s.world.solvers (with_node (some root)))
    name ← reads λ s. ok (s.world.solvers i).name
    modify λ s. record s { counter = suc s.counter }
    counter ← reads λ s. ok s.counter
    on_world (
        solve i root
          (insert "parameter.seed" (number counter)
            (entrust parameters (draw counter) name (length others) []))
          now)
    modify λ s. record s {
      instances = elim (s.instances k).started [
        | none ↦ update s.instances k (record (s.instances k) { started = some now })
        | some _ ↦ s.instances
      ];
    }

  -- The loop over the idle solvers, which resets the number of partitions each time.
  unfoldable pub start_all : ℕ → List ℕ → ℕ → Exec Server (Unit {0})
  unfolding start_solver
  start_all k [] now = pure tt
  start_all k (i ∷ is) now = do
    start_solver k i now
    modify λ s. record s {
      world = record s.world { config = record s.world.config { partition_count = pos 0 } };
    }
    start_all k is now

  -- `if self.current is None`: the first instance that can be scheduled becomes the current one.
  unfoldable pub start_instance : ℕ → Exec Server (Unit {0})
  unfolding start_all first_schedulable
  start_instance now = do
    chosen ← reads λ s. ok (first_schedulable s.instances s.world.marks now s.trees)
    elim chosen [
      | none ↦ pure tt
      | some k ↦ (do
        modify λ s. record s {
          current = some k;
          total_solvers = length (solvers s.rlist s.world.solvers every);
        }
        idle ← reads λ s. ok (solvers s.rlist s.world.solvers (with_node none))
        start_all k idle now)
    ]

  -- The loop over the solvers that joined while the instance `k` is the current one.
  unfoldable pub join_all : ℕ → List ℕ → ℕ → Exec Server (Unit {0})
  unfolding start_solver
  join_all k [] now = pure tt
  join_all k (i ∷ is) now = do
    modify λ s. record s { total_solvers = suc s.total_solvers }
    start_solver k i now
    join_all k is now

  unfoldable pub join_instance : ℕ → ℕ → Exec Server (Unit {0})
  unfolding join_all newly_joint_solver
  join_instance k now = do
    joint ← reads λ s. ok (newly_joint_solver s.rlist s.world.solvers)
    join_all k joint now
