-- ===== src/Server.antt =====
-- The scheduler's state and its queries: `ParallelizationServer` and `Instance`
-- (server/schedular.py).
pub mod Partition
pub mod Start
pub mod Finish
pub mod Turn
pub mod Entrust
pub mod Sockets
pub mod Reports
pub mod Handlers
pub mod Loop
pub mod Chart
use smts.Prelude.{
  ℕ, zero, suc, ◌%◌, ◌+◌, String, Bool, true, false, ◌&&◌, ◌||◌, not, Option, none, some, List, [],
  ◌∷◌, ◌==◌, leb, if◌then◌else◌, ok, err, index_error, zero_division_error, Dict, or_raise, Result,
  length, get_elem?,
}
use smts.Tree.Defs.{Marks, SolveStatus, unknown}
use smts.Tree.Status.{same_status}
use smts.World.Effects.{Exec}
use smts.World.Objects.{Solver, World}

-- The attributes of an `Instance`.
pub record Instance : Type 0 where
  pub root : ℕ
  pub started : Option ℕ
  pub timeout : Option ℕ

-- A member of `_rlist`, by its class.
pub data Connection : Type 0 where
  listening_socket : Connection
  plain_socket : ℕ → Connection
  solver_socket : ℕ → Connection
  lemma_socket : ℕ → Connection

-- `rlist` is in the order in which the set is iterated over. `trees` and `current` refer to the
-- same objects, the cells of `instances`. `closed` lists the connections that were
-- closed, and `listening` has the address of each lemma server.
pub record Server : Type 0 where
  pub world : World
  pub rlist : List Connection
  pub instances : ℕ → Instance
  pub next_instance : ℕ
  pub trees : Dict String ℕ
  pub current : Option ℕ
  pub idle_solvers : List ℕ
  pub total_solvers : ℕ
  pub counter : ℕ
  pub terminate : Bool
  pub closed : List Connection
  pub listening : ℕ → String

-- A part that changes the world only.
unfoldable pub on_world : {A : Type 0} → Exec World A → Exec Server A
on_world m s = let (r, w) = m s.world in (r, record s { world = w })

-- The argument of `solvers`: False, True, or a node or None.
pub data Which : Type 0 where
  every busy : Which
  with_node : Option ℕ → Which

-- `solver.node == node`, by identity
abbrev pub same_node : Option ℕ → Option ℕ → Bool
same_node none none = true
same_node (some a) (some b) = a == b
same_node _ _ = false

abbrev pub is_which : Which → Option ℕ → Bool
is_which every n = true
is_which busy none = false
is_which busy (some n) = true
is_which (with_node m) n = same_node n m

-- `solvers(node)`
unfoldable pub solvers : List Connection → (ℕ → Solver) → Which → List ℕ
solvers [] f q = []
solvers (solver_socket i ∷ l) f q =
    if is_which q (f i).node then i ∷ solvers l f q else solvers l f q
solvers (_ ∷ l) f q = solvers l f q

abbrev pub is_unset : Option ℕ → Bool
is_unset none = true
is_unset (some n) = false

-- `newly_joint_solver()`
unfoldable pub newly_joint_solver : List Connection → (ℕ → Solver) → List ℕ
newly_joint_solver [] f = []
newly_joint_solver (solver_socket i ∷ l) f =
    if is_unset (f i).node && is_unset (f i).started
    then i ∷ newly_joint_solver l f
    else newly_joint_solver l f
newly_joint_solver (_ ∷ l) f = newly_joint_solver l f

-- `lemma_server`
unfoldable pub lemma_server : List Connection → Option ℕ
lemma_server [] = none
lemma_server (lemma_socket i ∷ l) = some i
lemma_server (_ ∷ l) = lemma_server l

-- `level_children(level)`
unfoldable pub level_children : List ℕ → ℕ → Result ℕ
level_children [] level = err zero_division_error
level_children (c ∷ cs) level = or_raise index_error (get_elem? (c ∷ cs) (level % length (c ∷ cs)))

-- `when_timeout > 0`: the time that is left, which is infinite until the instance is started.
unfoldable pub has_time : Instance → ℕ → Bool
has_time r now = elim r.started [
  | none ↦ true
  | some zero ↦ true
  | some (suc at) ↦ elim r.timeout [ none ↦ true | some t ↦ not (leb (suc at + t) now) ]
]

-- `schedulables[0]`
unfoldable pub first_schedulable : (ℕ → Instance) → Marks → ℕ → Dict String ℕ → Option ℕ
unfolding has_time
first_schedulable f m now [] = none
first_schedulable f m now ((name, k) ∷ d) =
    if same_status (m.status (f k).root) unknown && has_time (f k) now
    then some k
    else first_schedulable f m now d
