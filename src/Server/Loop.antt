-- ===== src/Server/Loop.antt =====
-- `Server.run_until_timeout` and `run_forever` (server/net.py). What `select` and the sockets deliver is
-- an argument.
pub mod Serves
pub mod Deaf
use smts.Prelude.{
  ℕ, String, Bool, true, false, Option, none, some, List, [], ◌∷◌, nonempty, if◌then◌else◌, Result,
  ok, err, Error, attribute_error, type_error, connection_aborted, system_exit,
}
use smts.World.Effects.{Exec, reads, modify, pure, ◌>>=◌, ◌>>◌, for_each}
use smts.World.Objects.{Header, World}
use smts.Solver.Read.{read}
use smts.Server.{
  Server, Connection, listening_socket, plain_socket, solver_socket, lemma_socket, on_world,
}
use smts.Server.Entrust.{entrust}
use smts.Server.Sockets.{is_member, remove_connection, add_connection, close_connection}
use smts.Server.Handlers.{Outside, handle_message, handle_close}

-- What arrives at a connection that is ready: a new client, a message or an exception of the socket.
pub data Arrival : Type 0 where
  client : ℕ → Arrival
  message : Header → Option String → Arrival
  broken : Error → Arrival

-- A message that is dropped has no payload.
abbrev pub delivered : Header → Option String → Option String
delivered [] payload = some ""
delivered (entry ∷ header) payload = payload

-- `sock.read()` with a socket: a solver's messages are read by `Solver.read`. A client is nothing that
-- these can read.
unfoldable pub read_open : Connection → Arrival → Exec Server (Header × Option String)
unfolding read on_world
read_open (solver_socket i) (message h payload) = do
  header ← on_world (read i h payload)
  pure (header, delivered header payload)
read_open sock (message h payload) = pure (h, payload)
read_open sock (client j) = reads λ s. err type_error
read_open sock (broken e) = reads λ s. err e

-- `header, message = sock.read()`: without a socket `read` returns None.
unfoldable pub read_from : Connection → Arrival → Exec Server (Header × Option String)
unfolding read_open is_member
read_from sock arrival s =
    if is_member sock s.closed then (err type_error, s) else read_open sock arrival s

-- `self._sock.accept()`
unfoldable pub accept : ℕ → Exec Server (Unit {0})
unfolding add_connection is_member
accept j s =
    if is_member listening_socket s.closed
    then (err attribute_error, s)
    else add_connection (plain_socket j) s

-- The end of a connection: `handle_close`, `close` and the removal.
unfoldable pub drop_connection : Connection → Exec Server (Unit {0})
unfolding handle_close close_connection remove_connection
drop_connection sock = do handle_close sock; close_connection sock; remove_connection sock

-- `isinstance(exp, Exception)`: the call of `exit` is none.
abbrev pub is_exception : Error → Bool
is_exception system_exit = false
is_exception _ = true

-- `select.select(rlist, …)` asks each connection for its file number, which a closed one has not.
unfoldable pub select : List Connection → List Connection → Result (Unit {0})
unfolding is_member
select closed [] = ok tt
select closed (c ∷ l) = if is_member c closed then err attribute_error else select closed l

-- The handler of exceptions lets all but the call of `exit` pass.
abbrev pub swallow : Result (Unit {0}) → Result (Unit {0})
swallow (ok _) = ok tt
swallow (err e) = if is_exception e then ok tt else err e

module _ (out : Outside) where
  -- The `else` branch and the `except ConnectionAbortedError` branch, by what `read` returned.
  unfoldable pub handle_read :
      Connection → ℕ → Result (Header × Option String) → Exec Server (Unit {0})
  unfolding handle_message drop_connection
  handle_read sock now (ok (header, payload)) = handle_message out sock header payload now
  handle_read sock now (err connection_aborted) = drop_connection sock
  handle_read sock now (err e) = reads λ s. err e

  -- The body of the loop over the ready connections.
  unfoldable pub serve_one : ℕ → Connection × Arrival → Exec Server (Unit {0})
  unfolding accept read_from handle_read
  serve_one now (listening_socket, client j) s = accept j s
  serve_one now (sock, arrival) s =
      let (r, s') = read_from sock arrival s in handle_read sock now r s'

  -- The `try` block, for the connections that are ready. The server's own timeout is not 0.
  unfoldable pub serve_ready : ℕ → List (Connection × Arrival) → Exec Server (Unit {0})
  unfolding select serve_one entrust
  serve_ready now ready = do
    reads λ s. select s.closed s.rlist
    elim ready [
      | [] ↦ entrust out.parameters out.draw out.fuel [] now
      | r ∷ rest ↦ for_each (r ∷ rest) (serve_one now)
    ]

  -- `run_until_timeout`: whatever the `try` block raises is logged at most.
  unfoldable pub run_until_timeout : ℕ → List (Connection × Arrival) → Exec Server (Unit {0})
  unfolding serve_ready
  run_until_timeout now ready s =
      if nonempty s.rlist
      then (let (r, s') = serve_ready now ready s in (swallow r, s'))
      else (ok tt, s)

  -- `run_forever`, for the rounds that happen: it returns once no connection is left.
  unfoldable pub run_forever : List (ℕ × List (Connection × Arrival)) → Exec Server (Unit {0})
  unfolding run_until_timeout
  run_forever [] s = (ok tt, s)
  run_forever ((now, ready) ∷ rounds) s =
      if nonempty s.rlist
      then (do run_until_timeout now ready; run_forever rounds) s
      else (ok tt, s)
