-- ===== src/Tests/Starts.antt =====
-- An instance is started on two solvers, and ended while they are idle.
use smts.Prelude.{
  ap, lookup, err, erase, attribute_error, key_error, string_key, Memᴰ, ℕ, refl, arith, false, none,
  some, ◌≡◌, [], ◌∷◌, String,
}
use smts.Tree.Defs.{no_nodes}
use smts.Tree.Growth.{no_nodes-IsForest}
use smts.World.Effects.{◌>>=◌, reads, modify, pure}
use smts.World.Objects.{Value, number, root_name}
use smts.Config.Parameters.{default_parameters}
use smts.Server.{Server, on_world, solvers, solver_socket, listening_socket}
use smts.Server.Finish.{finish}
use smts.Server.Finish.Idle.{finish_idle}
use smts.Server.Start.{start_instance}
use smts.Server.Start.Serves.{IsServing}
use smts.Tests.Sample.{six_nodes-IsForest}
use smts.Tests.Worlds.{idle_world}

unfoldable abbrev pub idle_server : Server
unfolding idle_world
idle_server = record {
  world = idle_world;
  rlist = listening_socket ∷ solver_socket 0 ∷ solver_socket 1 ∷ [];
  instances = λ k. record { root = 0; started = none; timeout = some 2000 };
  next_instance = 1;
  trees = ("a.smt2", 0) ∷ [];
  current = none;
  idle_solvers = [];
  total_solvers = 0;
  counter = 75674531;
  terminate = false;
  closed = [];
  listening = λ j. "";
}

abbrev pub draw : ℕ → String → Value
draw c k = number c

pub idle_server-IsServing : IsServing [] idle_server
unfolding idle_server
idle_server-IsServing = (
  (
    record {
      forest = six_nodes-IsForest;
      node_lt = λ i n e. absurd (cc);
      waiting_lt = λ i o m. elim m [ ];
    },
    λ n m. elim m [ ],
  ),
  record {
    root_lt = λ k lt. omega arith;
    current_lt = λ k e. absurd (cc);
    listed_lt = λ e m. elim m [
      | Memᴰ.head same ↦ omega (arith, ap (λ (x : String × ℕ). x.1) same)
      | Memᴰ.tail none_left ↦ elim none_left [ ]
    ];
  },
)

-- The server as the main program begins with it: no nodes, no instances, one socket
unfoldable abbrev pub fresh_server : Server
unfolding idle_server idle_world
fresh_server = record idle_server {
  world = record idle_world { tree = no_nodes };
  rlist = listening_socket ∷ [];
  next_instance = 0;
  trees = [];
}

pub fresh_server-IsServing : IsServing [] fresh_server
unfolding fresh_server
fresh_server-IsServing = (
  (
    record {
      forest = no_nodes-IsForest;
      node_lt = λ i n e. absurd (cc);
      waiting_lt = λ i o m. elim m [ ];
    },
    λ n m. elim m [ ],
  ),
  record {
    root_lt = λ k lt. absurd (omega arith);
    current_lt = λ k e. absurd (cc);
    listed_lt = λ e m. elim m [ ];
  },
)

-- The second solver works on the root, and the counter has moved by two.
second_started :
    ((start_instance default_parameters draw 100 idle_server).1.world.solvers 1).node ≡ some 0
unfolding idle_server start_instance ◌>>=◌ reads modify pure on_world
second_started = refl

counted : (start_instance default_parameters draw 100 idle_server).1.counter ≡ 75674533
unfolding idle_server start_instance ◌>>=◌ reads modify pure on_world
counted = refl

-- The instance was started before, and both solvers joined just now.
unfoldable abbrev late_server : Server
unfolding idle_server
late_server = record idle_server {
  instances = λ k. record { root = 0; started = some 100; timeout = some 2000 };
  current = some 0;
}

finish_idle_example :
    (finish 0 late_server
      ≡ (err attribute_error, record late_server { trees = erase "a.smt2" late_server.trees }))
    × (finish 0 (record late_server { trees = erase "a.smt2" late_server.trees })
        ≡ (err key_error, record late_server { trees = erase "a.smt2" late_server.trees }))
unfolding late_server lookup solvers root_name
finish_idle_example =
    finish_idle late_server 0 0 0 100 "a.smt2" refl refl refl refl (refl, tt) (Memᴰ.head refl) refl
