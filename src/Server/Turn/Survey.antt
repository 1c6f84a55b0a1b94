-- ===== src/Server/Turn/Survey.antt =====
-- The loop of `entrust` over the nodes of the tree, from the root down: the solvers of decided nodes
-- are collected, those of nodes that ran out of time become idle, and a leaf to partition is chosen.
use smts.Prelude.{
  ℕ, zero, suc, ◌+◌, ◌-◌, Bool, true, false, not, ◌&&◌, ◌||◌, Option, none, some, List, [], ◌∷◌,
  ◌++◌, ◌==◌, ltb, leb, nonempty, is_none, length, if◌then◌else◌, Result, ok, err, or_raise,
  assertion_error, attribute_error, index_error, type_error,
}
use smts.Tree.Defs.{Tree, Marks, unknown, sat, unsat, is_and, live_parent, update}
use smts.Tree.Walk
use smts.Tree.Status.{same_status}
use smts.World.Effects.{Exec, reads, modify, pure, ◌>>=◌, ◌>>◌, for_each, when}
use smts.Server.{with_node}
use smts.Server.Turn.{Turn, is_in, remove, sort_by, solvers_now, set_marks, drop_count, set_idle}

-- A solver leaves a decided node: it is no longer idle or its partitions are no longer expected.
unfoldable pub release : ℕ → Exec Turn (Unit {0})
unfolding is_in remove set_idle drop_count
release i = do
  idle ← reads λ t. ok (is_in i t.server.idle_solvers)
  if idle then set_idle (remove i) else drop_count
  modify λ t. record t {
    solved_solvers =
        if is_in i t.solved_solvers then t.solved_solvers else t.solved_solvers ++ i ∷ [];
  }

-- A solver becomes idle, once; the count is lowered if `counted`.
unfoldable pub rest_solver : Bool → ℕ → Exec Turn (Unit {0})
unfolding is_in set_idle drop_count
rest_solver counted i = do
  idle ← reads λ t. ok (is_in i t.server.idle_solvers)
  when (not idle) (set_idle λ l. l ++ i ∷ [])
  when (not idle && counted) drop_count

unfoldable pub set_processed : ℕ → Exec Turn (Unit {0})
unfolding set_marks
set_processed n = set_marks λ m. record m { processed = update m.processed n true }

-- The AND node above the parent of `n`, if the parent has children.
unfoldable pub leave_parent : ℕ → Exec Turn (Unit {0})
unfolding release solvers_now set_processed
leave_parent n = do
  above ← reads λ t. ok (live_parent t.server.world.tree n)
  elim above [
    | none ↦ pure tt
    | some o ↦ (do
      p ← reads λ t. or_raise attribute_error (t.server.world.tree.parent o)
      status ← reads λ t. ok (t.server.world.marks.status p)
      at_parent ← reads λ t. ok (solvers_now (with_node (some p)) t)
      when (same_status status unknown) (for_each at_parent release)
      when (same_status status unknown) (set_processed p))
  ]

-- `node.status == unsat`
unfoldable pub leave_unsat : ℕ → Exec Turn (Unit {0})
unfolding leave_parent
leave_unsat n = do
  leave_parent n
  set_processed n
  at_node ← reads λ t. ok (solvers_now (with_node (some n)) t)
  for_each at_node release

-- `config.node_timeout and (node.started and node.started + config.node_timeout <= time.time())`
unfoldable pub is_overdue : Option ℕ → Option ℕ → ℕ → Bool
is_overdue (some (suc limit)) (some (suc started)) now = leb (suc started + suc limit) now
is_overdue _ _ now = false

-- `node.partitioning and (node._children[0])._children`
unfoldable pub has_partitions : Tree → Marks → ℕ → Result Bool
has_partitions t m n =
    if m.partitioning n
    then elim (t.children n) [ [] ↦ err index_error | o ∷ _ ↦ ok (nonempty (t.children o)) ]
    else ok false

unfoldable pub leave_overdue : ℕ → Exec Turn (Unit {0})
unfolding has_partitions rest_solver solvers_now set_marks
leave_overdue n = do
  split ← reads λ t. has_partitions t.server.world.tree t.server.world.marks n
  assumed ← reads λ t. ok (t.server.world.marks.assumed_timout n)
  at_node ← reads λ t. ok (solvers_now (with_node (some n)) t)
  when (split || not assumed) (for_each at_node (rest_solver (not assumed)))
  set_marks λ m.
      if split
      then record m {
        processed = update m.processed n true;
        is_timeout = update m.is_timeout n true;
      }
      else record m { assumed_timout = update m.assumed_timout n true }

abbrev pub is_off : Option ℕ → Bool
is_off none = true
is_off (some zero) = true
is_off (some (suc n)) = false

-- The dynamic node timeout, which starts with the first leaf that one solver works on alone.
unfoldable pub set_node_timeout : ℕ → Exec Turn (Unit {0})
set_node_timeout now = do
  root ← reads λ t. elim t.server.current [
    | none ↦ err attribute_error
    | some k ↦ ok (t.server.instances k).root
  ]
  started ← reads λ t. or_raise type_error (t.server.world.marks.started root)
  modify λ t. record t {
    server = record t.server {
      world = record t.server.world {
        config = record t.server.world.config {
          node_timeout = some (if ltb (now - started) 60 then 60 else now - started + 5);
        };
      };
    };
  }

-- The first leaf that can be partitioned, and whether nobody works on it although its time is up.
unfoldable pub choose_leaf : ℕ → Exec Turn (Unit {0})
unfolding solvers_now
choose_leaf n = modify λ t.
    let m = t.server.world.marks in
    if not (m.partitioning n)
      && not (m.processed n)
      && not (nonempty (t.server.world.tree.children n))
      && is_none t.to_partition_node
    then record t {
      to_partition_node = some n;
      solver_partition =
          t.solver_partition
          || not (nonempty (solvers_now (with_node (some n)) t)) && m.assumed_timout n;
    }
    else t

-- The body of the loop, for an AND node that has not been processed.
unfoldable pub survey_node : ℕ → ℕ → Exec Turn (Unit {0})
unfolding leave_unsat is_overdue leave_overdue set_node_timeout choose_leaf solvers_now
survey_node now n = do
  status ← reads λ t. ok (t.server.world.marks.status n)
  limit ← reads λ t. ok t.server.world.config.node_timeout
  started ← reads λ t. ok (t.server.world.marks.started n)
  alone ← reads λ t. ok (
      is_off limit
      && not (nonempty (t.server.world.tree.children n))
      && length (solvers_now (with_node (some n)) t) == 1)
  elim status [
    | sat ↦ reads λ t. err assertion_error
    | unsat ↦ leave_unsat n
    | unknown ↦
        if is_overdue limit started now then leave_overdue n else when alone (set_node_timeout now)
  ]
  choose_leaf n

-- `if isinstance(node, framework.AndNode) and not node.processed`
unfoldable pub survey_one : ℕ → ℕ → Exec Turn (Unit {0})
unfolding survey_node
survey_one now n = do
  todo ←
      reads λ t. ok (is_and (t.server.world.tree.class n) && not (t.server.world.marks.processed n))
  when todo (survey_node now n)

-- The lengths of the paths, by which the nodes are compared.
unfoldable pub check_levels : Tree → List ℕ → Result (Unit {0})
check_levels t [] = ok tt
check_levels t (n ∷ ns) = elim (Walk.level t n) [ err e ↦ err e | ok k ↦ check_levels t ns ]

abbrev pub level_of : Tree → ℕ → ℕ
level_of t n = elim (Walk.level t n) [ err e ↦ 0 | ok k ↦ k ]

-- `nodes = self.current.root.all()`, sorted by `__lt__`
unfoldable pub sorted_nodes : Tree → ℕ → Result (List ℕ)
unfolding Walk.all check_levels sort_by Walk.level
sorted_nodes t root =
    let nodes = Walk.all t root in
    elim (check_levels t nodes) [ err e ↦ err e | ok _ ↦ ok (sort_by (level_of t) nodes) ]

unfoldable pub survey : List ℕ → ℕ → Exec Turn (Unit {0})
unfolding survey_one
survey nodes now = for_each nodes (survey_one now)
