-- ===== src/Tests/Loops.antt =====
-- The event loop, its handlers and the loops of `entrust`, on an idle server.
use smts.Prelude.{
  ℕ, refl, arith, false, some, ok, err, ◌≡◌, ◌≤◌, List, filter_by, [], ◌∷◌, ◌==◌, value_error,
  out_of_fuel, length, if◌then◌else◌, Memᴰ,
}
use smts.Tree.Defs.{no_marks, unknown, unsat}
use smts.Tree.Status.{childeren}
use smts.World.Objects.{text, Header}
use smts.Config.Constant
use smts.Config.Parameters.{default_parameters}
use smts.Server.{Server, Connection, listening_socket, lemma_socket, plain_socket, lemma_server}
use smts.Server.Start.Serves.{IsServing}
use smts.Server.Sockets.{add_lemma_server, is_member}
use smts.Server.Handlers.{Outside}
use smts.Server.Entrust.{entrust}
use smts.Server.Entrust.Serves.{entrust-IsServing}
use smts.Server.Turn.{Turn, is_in}
use smts.Server.Turn.Moves.{place_rounds, spare_solvers}
use smts.Server.Turn.Moves.Endless.{Sends, place_rounds-Sends, place_rounds_endless}
use smts.Server.Turn.Moves.Spare.{spare_solvers_lem}
use smts.Server.Loop.{Arrival, client, message, run_forever}
use smts.Server.Loop.Serves.{run_forever-IsServing}
use smts.Server.Loop.Deaf.{run_forever_deaf}
use smts.Tests.Sample.{six_nodes}
use smts.Tests.Worlds.{idle_world}
use smts.Tests.Starts.{
  idle_server, idle_server-IsServing, fresh_server, fresh_server-IsServing, draw,
}

abbrev outside : Outside
outside = record {
  parameters = default_parameters;
  draw = draw;
  fuel = 100;
  smt2json = λ s. err value_error;
  format = λ j. "";
  host = λ j. "127.0.0.1";
  answer = λ s. "";
}

abbrev hello : Header
hello = (Constant.lemmas, text ":5000") ∷ []

-- A client connects, becomes the lemma server, and one more connects.
abbrev rounds : List (ℕ × List (Connection × Arrival))
rounds =
    (100, (listening_socket, client 7) ∷ [])
    ∷ (101, (plain_socket 7, message hello (some "")) ∷ [])
    ∷ (102, (listening_socket, client 8) ∷ [])
    ∷ []

run_forever-IsServing_example : IsServing [] (run_forever outside rounds fresh_server).1
run_forever-IsServing_example =
    run_forever-IsServing outside rounds fresh_server fresh_server-IsServing

entrust-IsServing_example :
    IsServing [] (entrust default_parameters draw 100 hello 100 idle_server).1
entrust-IsServing_example =
    entrust-IsServing default_parameters draw 100 hello 100 idle_server idle_server-IsServing

-- The lemma server 2 is connected, and the client 3 is a further one.
unfoldable abbrev two_servers : Server
unfolding idle_server
two_servers = record idle_server { rlist = listening_socket ∷ lemma_socket 2 ∷ plain_socket 3 ∷ [] }

run_forever_deaf_example :
    run_forever outside rounds (add_lemma_server 3 (plain_socket 3) ":5001" two_servers).1
    ≡ (ok tt, (add_lemma_server 3 (plain_socket 3) ":5001" two_servers).1)
unfolding two_servers lemma_server is_member
run_forever_deaf_example =
    run_forever_deaf outside rounds 2 3 (plain_socket 3) ":5001" two_servers refl refl refl

-- The solver 0 waits to be sent to a partition of node 0.
unfoldable abbrev waiting_turn : Turn
unfolding idle_server
waiting_turn = record {
  server = idle_server;
  solved_solvers = [];
  movable_solvers = 0 ∷ [];
  to_partition_node = some 0;
  solver_partition = false;
}

place_rounds-Sends_example : Sends 100 (2 ∷ 3 ∷ []) waiting_turn (place_rounds 1 0 100 waiting_turn)
unfolding waiting_turn idle_world six_nodes childeren filter_by
place_rounds-Sends_example = place_rounds-Sends 1 0 100 waiting_turn 2 (3 ∷ []) (omega arith) refl

-- Both partitions of node 0 are decided.
unfoldable abbrev stuck_turn : Turn
unfolding waiting_turn idle_server
stuck_turn = record waiting_turn {
  server = record idle_server {
    world = record idle_world {
      marks = record no_marks {
        status = λ n. if n == 2 then unsat else if n == 3 then unsat else unknown;
      };
    };
  };
}

place_rounds_endless_example : place_rounds 1000 0 100 stuck_turn ≡ (err out_of_fuel, stuck_turn)
unfolding stuck_turn idle_world six_nodes childeren filter_by
place_rounds_endless_example = place_rounds_endless 1000 0 100 stuck_turn 0 [] refl refl

-- The solver 3 is idle, and two are to stay.
spare_solvers_lem_example :
    (length (spare_solvers 2 (3 ∷ []) 4 (1 ∷ 3 ∷ 4 ∷ 6 ∷ [])) ≤ 2)
    × (((i : ℕ) → Memᴰ i (1 ∷ 3 ∷ 4 ∷ 6 ∷ []) → is_in i (3 ∷ []) ≡ false)
        → length (spare_solvers 2 (3 ∷ []) 4 (1 ∷ 3 ∷ 4 ∷ 6 ∷ [])) ≡ 2)
    × ((i : ℕ)
        → Memᴰ i (spare_solvers 2 (3 ∷ []) 4 (1 ∷ 3 ∷ 4 ∷ 6 ∷ []))
        → Memᴰ i (1 ∷ 3 ∷ 4 ∷ 6 ∷ []) × (is_in i (3 ∷ []) ≡ false))
spare_solvers_lem_example = spare_solvers_lem 2 (3 ∷ []) (1 ∷ 3 ∷ 4 ∷ 6 ∷ [])
