-- ===== src/Server/Turn/Moves.antt =====
-- The parts of `entrust` that move solvers: those of decided nodes, those that partitions have arrived
-- for, and those whose time is up.
pub mod Endless
pub mod Spare
pub mod Nodes
pub mod Keeps
use smts.Prelude.{
  ℕ, zero, suc, ◌+◌, ◌-◌, Bool, true, false, not, ◌&&◌, ◌||◌, Option, none, some, List, [], ◌∷◌,
  ◌++◌, ◌==◌, ltb, leb, nonempty, is_none, length, filter_by, if◌then◌else◌, Result, ok, err,
  or_raise, assertion_error, attribute_error, type_error, out_of_fuel, show_path,
}
use smts.Tree.Defs.{Tree, Marks, unknown, is_and}
use smts.Tree.Walk
use smts.Tree.Status.{same_status, childeren}
use smts.World.Effects.{Exec, reads, modify, pure, ◌>>=◌, ◌>>◌, for_each, when}
use smts.World.Objects.{Solver, World}
use smts.Config.{Config}
use smts.Solver.{incremental}
use smts.Server.{Server, with_node, busy, on_world, solvers}
use smts.Server.Turn.{Turn, on_server, is_in, remove, sort_by, solvers_now, set_idle}

-- `solver.incremental(node)`
unfoldable pub move_solver : ℕ → ℕ → ℕ → Exec Turn (Unit {0})
unfolding on_server on_world incremental
move_solver now n i = on_server (on_world (incremental i n now))

-- `all_active_nodes(child.all())`, sorted by the number of solvers at each
unfoldable pub active_nodes : ℕ → Turn → List ℕ
unfolding Walk.all sort_by solvers_now filter_by
active_nodes child t =
    let m = t.server.world.marks in
    let tree = t.server.world.tree in
    sort_by (λ n. length (solvers_now (with_node (some n)) t))
      (filter_by
        (λ n. same_status (m.status n) unknown && (is_and (tree.class n) && not (m.processed n)))
        (Walk.all tree child))

-- The inner loops for one child of the root: one solver goes to the active node with the fewest.
unfoldable pub place_solved : ℕ → ℕ → Exec Turn (Unit {0})
unfolding active_nodes move_solver
place_solved now child = do
  places ← reads λ t. ok (active_nodes child t)
  waiting ← reads λ t. ok t.solved_solvers
  elim places [
    | [] ↦ pure tt
    | n ∷ _ ↦ elim waiting [
      | [] ↦ pure tt
      | i ∷ rest ↦ (do modify λ t. record t { solved_solvers = rest }; move_solver now n i)
    ]
  ]

-- `while 0 != len(solved_solvers)`
unfoldable pub place_all : ℕ → ℕ → List ℕ → Exec Turn (Unit {0})
unfolding place_solved
place_all zero now childs = reads λ t. if nonempty t.solved_solvers then err out_of_fuel else ok tt
place_all (suc f) now childs = do
  waiting ← reads λ t. ok t.solved_solvers
  elim waiting [
    | [] ↦ pure tt
    | i ∷ rest ↦ (do for_each childs (place_solved now); place_all f now childs)
  ]

-- `if solved_solvers`, with fuel for the loop
unfoldable pub move_solved : ℕ → ℕ → ℕ → Exec Turn (Unit {0})
unfolding place_all childeren
move_solved fuel root now = do
  waiting ← reads λ t. ok t.solved_solvers
  when (nonempty waiting) (do
    childs ← reads λ t. childeren t.server.world.tree t.server.world.marks.status root
    place_all fuel now childs)

-- The loop over the solvers of one node: those above `portfolio_min` may go.
unfoldable pub spare_solvers : ℕ → List ℕ → ℕ → List ℕ → List ℕ
unfolding is_in
spare_solvers least idle counter [] = []
spare_solvers least idle counter (i ∷ is) =
    let keep = spare_solvers least idle counter is in
    let go = spare_solvers least idle (counter - 1) is in
    if ltb least counter && not (is_in i idle) then i ∷ go else keep

unfoldable pub collect_spare : ℕ → Exec Turn (Unit {0})
unfolding spare_solvers solvers_now
collect_spare n = modify λ t.
    let at_node = solvers_now (with_node (some n)) t in
    record t {
      movable_solvers =
          t.movable_solvers
          ++ spare_solvers t.server.world.config.portfolio_min t.server.idle_solvers
              (length at_node) at_node;
    }

-- One node of `for node in p_node.childeren()`: the first solver goes there.
unfoldable pub place_movable : ℕ → ℕ → Exec Turn (Unit {0})
unfolding move_solver
place_movable now n = do
  waiting ← reads λ t. ok t.movable_solvers
  elim waiting [
    | [] ↦ pure tt
    | i ∷ rest ↦ (do modify λ t. record t { movable_solvers = rest }; move_solver now n i)
  ]

-- `while 0 != len(movable_solvers)`: the children are read anew in each round.
unfoldable pub place_rounds : ℕ → ℕ → ℕ → Exec Turn (Unit {0})
unfolding place_movable childeren
place_rounds zero p now = reads λ t. if nonempty t.movable_solvers then err out_of_fuel else ok tt
place_rounds (suc f) p now = do
  waiting ← reads λ t. ok t.movable_solvers
  elim waiting [
    | [] ↦ pure tt
    | i ∷ rest ↦ (do
      childs ← reads λ t. childeren t.server.world.tree t.server.world.marks.status p
      for_each childs (place_movable now)
      place_rounds f p now)
  ]

-- `if partition_recieved`
unfoldable pub move_received : ℕ → ℕ → ℕ → Exec Turn (Unit {0})
unfolding collect_spare place_rounds solvers_now Walk.path_to_node
move_received fuel p now = do
  least ← reads λ t. ok t.server.world.config.portfolio_min
  above ← reads λ t. ok (Walk.path_to_node t.server.world.tree p)
  elim least [
    | zero ↦ modify λ t. record t { movable_solvers = solvers_now busy t }
    | suc _ ↦ for_each above collect_spare
  ]
  place_rounds fuel p now

-- `un_attempted_active_leaves` on one node
unfoldable pub is_fresh_leaf : Tree → Marks → ℕ → Bool
is_fresh_leaf t m n =
    not (nonempty (t.children n))
    && same_status (m.status n) unknown
    && is_none (m.started n)
    && is_and (t.class n)
    && not (m.processed n)

-- Whether an idle solver may go to the leaf `n`: from above it, or from a leaf whose time is up.
unfoldable pub may_move : Turn → ℕ → ℕ → Result Bool
unfolding Walk.is_ancestor solvers_now
may_move t n i =
    let m = t.server.world.marks in
    let tree = t.server.world.tree in
    elim (t.server.world.solvers i).node [
      | none ↦ err type_error
      | some at ↦ elim (Walk.is_ancestor tree at n) [
        | err e ↦ err e
        | ok above ↦ ok (
            above
            || not (nonempty (tree.children at))
              && m.assumed_timout at
              && not (m.is_timeout n)
              && not (nonempty (solvers_now (with_node (some n)) t))
              && not (at == n))
      ]
    ]

-- `for solver in self.idle_solvers`, up to the first one that moves
unfoldable pub place_idle : ℕ → ℕ → List ℕ → Exec Turn (Unit {0})
unfolding may_move move_solver set_idle remove
place_idle now n [] = pure tt
place_idle now n (i ∷ is) = do
  moves ← reads λ t. may_move t n i
  elim moves [ true ↦ (do set_idle (remove i); move_solver now n i) | false ↦ place_idle now n is ]

unfoldable pub fill_leaf : ℕ → ℕ → Exec Turn (Unit {0})
unfolding is_fresh_leaf place_idle
fill_leaf now n = do
  fresh ← reads λ t. ok (is_fresh_leaf t.server.world.tree t.server.world.marks n)
  idle ← reads λ t. ok t.server.idle_solvers
  when fresh (place_idle now n idle)

-- `if self.idle_solvers`, up to the assertion
unfoldable pub move_idle : List ℕ → ℕ → Exec Turn (Unit {0})
unfolding fill_leaf
move_idle nodes now = do
  for_each nodes (fill_leaf now)
  reads λ t.
      if leb (length t.server.idle_solvers) t.server.total_solvers
      then ok tt
      else err assertion_error
