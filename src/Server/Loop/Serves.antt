-- ===== src/Server/Loop/Serves.antt =====
-- Whatever happens at the connections, the server stays in order.
use smts.Prelude.{
  ℕ, List, [], ◌∷◌, ◌++◌, Option, Result, ok, err, Bool-cases, inl, inr, nonempty, String,
  connection_aborted,
}
use smts.World.Holds.{Holds, bind-Holds, reads-Holds, pure-Holds, for_each-Holds}
use smts.World.Objects.{Header}
use smts.Solver.Read.Keeps.{read-Keeps}
use smts.Server.{Server, Connection, listening_socket, plain_socket, solver_socket, lemma_socket}
use smts.Server.Entrust.Ending.{world-Holds}
use smts.Server.Entrust.Serves.{entrust-Holds}
use smts.Server.Sockets.{is_member}
use smts.Server.Handlers.{Outside}
use smts.Server.Sockets.Closing.{
  IsOrderly, remove_connection-Holds, close_connection-Holds, add_connection-Holds,
}
use smts.Server.Handlers.Serves.{handle_message-Holds, handle_close-Holds}
use smts.Server.Loop.{
  Arrival, client, message, broken, read_open, accept, read_from, drop_connection, handle_read,
  serve_one, serve_ready, run_until_timeout, run_forever,
}

read_open-Holds : (sock : Connection) (arrival : Arrival) → Holds IsOrderly (read_open sock arrival)
unfolding read_open
read_open-Holds listening_socket (client j) = reads-Holds _ _
read_open-Holds listening_socket (broken e) = reads-Holds _ _
read_open-Holds listening_socket (message h p) = pure-Holds _ (h, p)
read_open-Holds (plain_socket i) (client j) = reads-Holds _ _
read_open-Holds (plain_socket i) (broken e) = reads-Holds _ _
read_open-Holds (plain_socket i) (message h p) = pure-Holds _ (h, p)
read_open-Holds (solver_socket i) (client j) = reads-Holds _ _
read_open-Holds (solver_socket i) (broken e) = reads-Holds _ _
read_open-Holds (solver_socket i) (message h p) =
    bind-Holds IsOrderly _ _ (world-Holds [] _ λ qs. read-Keeps (qs ++ []) i h p)
      λ header. pure-Holds _ _
read_open-Holds (lemma_socket i) (client j) = reads-Holds _ _
read_open-Holds (lemma_socket i) (broken e) = reads-Holds _ _
read_open-Holds (lemma_socket i) (message h p) = pure-Holds _ (h, p)

read_from-Holds : (sock : Connection) (arrival : Arrival) → Holds IsOrderly (read_from sock arrival)
unfolding read_from
read_from-Holds sock arrival = record {
  at = λ s g. elim (Bool-cases (is_member sock s.closed)) [
    | inl shut ↦ rw (shut, read_from) g
    | inr still_open ↦ rw (still_open, read_from) ((read_open-Holds sock arrival).at s g)
  ];
}

accept-Holds : (j : ℕ) → Holds IsOrderly (accept j)
unfolding accept
accept-Holds j = record {
  at = λ s g. elim (Bool-cases (is_member listening_socket s.closed)) [
    | inl shut ↦ rw (shut, accept) g
    | inr still_open ↦ rw (still_open, accept) ((add_connection-Holds (plain_socket j)).at s g)
  ];
}

drop_connection-Holds : (sock : Connection) → Holds IsOrderly (drop_connection sock)
unfolding drop_connection
drop_connection-Holds sock =
    bind-Holds _ _ _ (handle_close-Holds sock)
      λ _. bind-Holds _ _ _ (close_connection-Holds sock) λ _. remove_connection-Holds sock

module _ (out : Outside) where
  handle_read-Holds :
      (sock : Connection) (now : ℕ) (r : Result (Header × Option String))
      → Holds IsOrderly (handle_read out sock now r)
  unfolding handle_read
  handle_read-Holds sock now (ok (header, payload)) =
      handle_message-Holds out sock header payload now
  handle_read-Holds sock now (err connection_aborted) = drop_connection-Holds sock
  handle_read-Holds sock now (err _) = reads-Holds _ _

  heard-Holds :
      (now : ℕ) (sock : Connection) (arrival : Arrival) (s : Server)
      → IsOrderly s
      → IsOrderly (let (r, s') = read_from sock arrival s in handle_read out sock now r s').1
  heard-Holds now sock arrival s g =
      (handle_read-Holds sock now (read_from sock arrival s).0).at (read_from sock arrival s).1
        ((read_from-Holds sock arrival).at s g)

  serve_one-Holds : (now : ℕ) (e : Connection × Arrival) → Holds IsOrderly (serve_one out now e)
  unfolding serve_one
  serve_one-Holds now (listening_socket, client j) = record { at = (accept-Holds j).at }
  serve_one-Holds now (listening_socket, broken e) = record {
    at = heard-Holds now listening_socket (broken e);
  }
  serve_one-Holds now (listening_socket, message h p) = record {
    at = heard-Holds now listening_socket (message h p);
  }
  serve_one-Holds now (plain_socket j, a) = record { at = heard-Holds now (plain_socket j) a }
  serve_one-Holds now (solver_socket j, a) = record { at = heard-Holds now (solver_socket j) a }
  serve_one-Holds now (lemma_socket j, a) = record { at = heard-Holds now (lemma_socket j) a }

  serve_ready-Holds :
      (now : ℕ) (ready : List (Connection × Arrival)) → Holds IsOrderly (serve_ready out now ready)
  unfolding serve_ready
  serve_ready-Holds now [] =
      bind-Holds _ _ _ (reads-Holds _ _) λ _. entrust-Holds out.parameters out.draw out.fuel [] now
  serve_ready-Holds now (r ∷ rest) =
      bind-Holds _ _ _ (reads-Holds _ _)
        λ _. for_each-Holds _ (r ∷ rest) _ λ e m. serve_one-Holds now e

  run_until_timeout-Holds :
      (now : ℕ) (ready : List (Connection × Arrival))
      → Holds IsOrderly (run_until_timeout out now ready)
  unfolding run_until_timeout
  run_until_timeout-Holds now ready = record {
    at = λ s g. elim (Bool-cases (nonempty s.rlist)) [
      | inl some_left ↦ rw (some_left, run_until_timeout) ((serve_ready-Holds now ready).at s g)
      | inr none_left ↦ rw (none_left, run_until_timeout) g
    ];
  }

  -- From a server in order, whatever clients connect, whatever messages and failures of connections
  -- arrive in whatever rounds, handled or cut short by an exception, the server is in order after
  -- them: the tree is well-formed, the solvers refer to nodes that exist, the roots of the instances
  -- made so far exist, and `current` and `trees` refer to such instances.
  pub run_forever-IsServing :
      (rounds : List (ℕ × List (Connection × Arrival))) (s : Server)
      → IsOrderly s
      → IsOrderly (run_forever out rounds s).1
  unfolding run_forever
  run_forever-IsServing [] s g = g
  run_forever-IsServing ((now, ready) ∷ rounds) s g = elim (Bool-cases (nonempty s.rlist)) [
    | inl some_left ↦
        rw (some_left, run_forever)
          ((bind-Holds IsOrderly _ _ (run_until_timeout-Holds now ready)
              λ _. record { at = run_forever-IsServing rounds }).at
            s g)
    | inr none_left ↦ rw (none_left, run_forever) g
  ]
