-- ===== src/Tests/Servers.antt =====
-- The scheduler on a world with one solver.
use smts.Prelude.{refl, ok, some, true, false, ◌≡◌, List, [], ◌∷◌, index, length, ◌-◌}
use smts.Tree.Walk.{level}
use smts.Tree.Defs.{new_or}
use smts.World.Effects.{◌>>=◌, reads, modify, pure}
use smts.World.Objects.{World}
use smts.Solver.{solve, ask_partitions}
use smts.Server.{Connection, solver_socket, listening_socket, solvers, with_node, level_children}
use smts.Server.Partition.{partition}
use smts.Server.Partition.Outcome.{Outcome, Rests, partition-Outcome}
use smts.Tests.Worlds.{idle_world}

unfoldable abbrev leaf_world : World
unfolding solve idle_world
leaf_world = (solve 0 3 [] 100 idle_world).1

abbrev connections : List Connection
connections = listening_socket ∷ solver_socket 0 ∷ []

partition-Outcome_example :
    Outcome
      (Rests leaf_world false
        (solvers connections leaf_world.solvers (with_node (some 3)))
        200
        (1 - length (leaf_world.tree.children 3)))
      leaf_world
      false
      2
      (solvers connections leaf_world.solvers (with_node (some 3)))
      200
      (partition connections 3 false 200 leaf_world)
unfolding leaf_world level level_children ◌>>=◌ modify reads pure index
partition-Outcome_example = partition-Outcome connections 3 leaf_world false 2 1 200 refl refl

-- After ten seconds the solver is asked.
partition_asks : (partition connections 3 false 110 leaf_world).0 ≡ ok true
unfolding leaf_world partition level level_children ◌>>=◌ modify reads pure index new_or
    ask_partitions
partition_asks = refl

partition_waits : (partition connections 3 false 109 leaf_world).0 ≡ ok false
unfolding leaf_world partition level level_children ◌>>=◌ modify reads pure index new_or
partition_waits = refl
