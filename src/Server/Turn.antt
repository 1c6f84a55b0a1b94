-- ===== src/Server/Turn.antt =====
-- The local variables of `ParallelizationServer.entrust` behind the start of an instance, and the
-- steps that its parts share.
pub mod Survey
pub mod Moves
pub mod Keeps
use smts.Prelude.{
  ℕ, suc, Bool, true, false, not, Option, none, some, List, [], ◌∷◌, ◌++◌, ◌==◌, ltb, if◌then◌else◌,
  Result, pos, ◌-ℤ◌,
}
use smts.World.Effects.{Exec, reads, modify, pure, ◌>>=◌, ◌>>◌}
use smts.World.Objects.{Solver, World}
use smts.Config.{Config}
use smts.Tree.Defs.{Marks}
use smts.Server.{Server, Which, solvers}

-- `solved_solvers` is a set: it is listed in the order in which `pop` takes its members.
pub record Turn : Type 0 where
  pub server : Server
  pub solved_solvers : List ℕ
  pub movable_solvers : List ℕ
  pub to_partition_node : Option ℕ
  pub solver_partition : Bool

abbrev pub new_turn : Server → Turn
new_turn s = record {
  server = s;
  solved_solvers = [];
  movable_solvers = [];
  to_partition_node = none;
  solver_partition = false;
}

-- A part that changes no local variable.
unfoldable pub on_server : {A : Type 0} → Exec Server A → Exec Turn A
on_server m t = let (r, s) = m t.server in (r, record t { server = s })

-- `x in xs`
unfoldable pub is_in : ℕ → List ℕ → Bool
is_in x [] = false
is_in x (y ∷ ys) = if y == x then true else is_in x ys

-- `xs.remove(x)`, of a member
unfoldable pub remove : ℕ → List ℕ → List ℕ
remove x [] = []
remove x (y ∷ ys) = if y == x then ys else y ∷ remove x ys

-- `sorted(xs, key=key)`: members with equal keys keep their order.
unfoldable pub insert_by : (ℕ → ℕ) → ℕ → List ℕ → List ℕ
insert_by key x [] = x ∷ []
insert_by key x (y ∷ ys) = if ltb (key y) (key x) then y ∷ insert_by key x ys else x ∷ y ∷ ys

unfoldable pub sort_by : (ℕ → ℕ) → List ℕ → List ℕ
unfolding insert_by
sort_by key [] = []
sort_by key (x ∷ xs) = insert_by key x (sort_by key xs)

-- `self.solvers(which)`
unfoldable pub solvers_now : Which → Turn → List ℕ
unfolding solvers
solvers_now q t = solvers t.server.rlist t.server.world.solvers q

unfoldable pub set_marks : (Marks → Marks) → Exec Turn (Unit {0})
set_marks f = modify λ t. record t {
  server = record t.server { world = record t.server.world { marks = f t.server.world.marks } };
}

-- `config.partition_count -= 1`
unfoldable pub drop_count : Exec Turn (Unit {0})
drop_count = modify λ t. record t {
  server = record t.server {
    world = record t.server.world {
      config = record t.server.world.config {
        partition_count = t.server.world.config.partition_count -ℤ pos 1;
      };
    };
  };
}

unfoldable pub set_idle : (List ℕ → List ℕ) → Exec Turn (Unit {0})
set_idle f =
    modify λ t. record t { server = record t.server { idle_solvers = f t.server.idle_solvers } }
