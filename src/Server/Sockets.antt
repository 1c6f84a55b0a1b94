-- ===== src/Server/Sockets.antt =====
-- The connections in `_rlist`, and what a socket becomes: a solver (`Solver.init` and the steps
-- around it in `handle_message`) or the lemma server (`LemmaServer.init` and those around it).
pub mod Closing
pub mod Serves
use Prim.Native.Char.{code}
use Prim.Native.String.{◌++◌ as str_append}
use package.text.Mathlib.Text.{◌==◌ as str_eq}
use smts.Prelude.{
  ℕ, zero, suc, ◌-◌, String, Bool, true, false, not, ◌&&◌, ◌||◌, Option, none, some, List, [], ◌∷◌,
  ◌++◌, ◌==◌, leb, nonempty, if◌then◌else◌, Result, ok, err, attribute_error, index_error,
  key_error, unicode_error, value_error, system_exit, Dict, lookup, insert, is_none, string_key,
}
use smts.Json.{Json, Items}
use smts.Tree.Defs.{Tree, Class, root_node, fixedpoint, update}
use smts.World.Effects.{Exec, reads, modify, pure, ◌>>=◌, ◌>>◌, for_each, when}
use smts.World.Objects.{Value, text, Header, Solver, World}
use smts.Config.{Config}
use smts.Config.Constant
use smts.Config.Parameters.{Parameter}
use smts.Solver.{init, stop, send, set_lemma_server}
use smts.Solver.Read.{has_key}
use smts.Instances.{parse}
use smts.Instances.Fixedpoint
use smts.Instances.Fixedpoint.{Problem}
use smts.Server.{
  Instance, Server, Connection, listening_socket, plain_socket, solver_socket, lemma_socket, every,
  on_world, solvers, lemma_server,
}

-- The number of the socket below a connection; the listening one has the number 0.
abbrev pub socket_of : Connection → ℕ
socket_of listening_socket = 0
socket_of (plain_socket j) = j
socket_of (solver_socket j) = j
socket_of (lemma_socket j) = j

-- Identity of connections.
abbrev pub same_connection : Connection → Connection → Bool
same_connection listening_socket listening_socket = true
same_connection (plain_socket i) (plain_socket j) = i == j
same_connection (solver_socket i) (solver_socket j) = i == j
same_connection (lemma_socket i) (lemma_socket j) = i == j
same_connection _ _ = false

-- `c in rlist`
unfoldable pub is_member : Connection → List Connection → Bool
is_member c [] = false
is_member c (d ∷ l) = if same_connection d c then true else is_member c l

unfoldable pub without : Connection → List Connection → List Connection
without c [] = []
without c (d ∷ l) = if same_connection d c then l else d ∷ without c l

-- `self._rlist.remove(sock)`
unfoldable pub remove_connection : Connection → Exec Server (Unit {0})
unfolding is_member without
remove_connection c s =
    if is_member c s.rlist
    then (ok tt, record s { rlist = without c s.rlist })
    else (err key_error, s)

unfoldable pub add_connection : Connection → Exec Server (Unit {0})
add_connection c = modify λ s. record s { rlist = s.rlist ++ c ∷ [] }

-- `close()` of a connection; it has no socket after that, so that a second call raises.
unfoldable pub close_connection : Connection → Exec Server (Unit {0})
unfolding is_member
close_connection c s =
    if is_member c s.closed
    then (err attribute_error, s)
    else (ok tt, record s { closed = s.closed ++ c ∷ [] })

-- `Server.close`: the connections are taken from `_rlist` one by one. One without a socket raises.
unfoldable pub close_each : List Connection → Exec Server (Unit {0})
unfolding close_connection
close_each [] = pure tt
close_each (c ∷ l) = do modify λ s. record s { rlist = l }; close_connection c; close_each l

unfoldable pub close_all : Exec Server (Unit {0})
unfolding close_each
close_all = do everyone ← reads λ s. ok s.rlist; close_each everyone

-- `for solver in … : solver.set_lemma_server(…)`
unfoldable pub tell_lemma_server : Option String → Exec Server (Unit {0})
unfolding set_lemma_server on_world solvers
tell_lemma_server listening = do
  everyone ← reads λ s. ok (solvers s.rlist s.world.solvers every)
  for_each everyone λ i. on_world (set_lemma_server i listening)

-- The address that a lemma server listens at, on its host if it names only a port.
unfoldable pub full_address : String → String → Result String
full_address host String.[] = err index_error
full_address host (String.◌∷◌ c s) =
    ok (if code c == b':' then str_append host (String.◌∷◌ c s) else String.◌∷◌ c s)

-- `LemmaServer.init`
unfoldable pub init_lemma_server : ℕ → Exec World (Unit {0})
unfolding send
init_lemma_server j = do
  log ← reads λ w. ok w.config.enable_log
  memory ← reads λ w. ok w.config.max_memory
  send j
      (if log
        then (Constant.log_mode, Value.number 1) ∷ (Constant.max_memory, Value.number memory) ∷ []
        else (Constant.max_memory, Value.number memory) ∷ [])
      ""

-- The address of the lemma server that is connected, if any.
unfoldable pub server_address : Server → Option String
unfolding lemma_server
server_address s = elim (lemma_server s.rlist) [ none ↦ none | some j ↦ some (s.listening j) ]

-- `constant.SOLVER in header`: the socket becomes a solver.
unfoldable pub add_solver : ℕ → Connection → String → Exec Server (Unit {0})
unfolding init on_world remove_connection add_connection server_address set_lemma_server
add_solver j sock name = do
  on_world (init j name)
  remove_connection sock
  add_connection (solver_socket j)
  address ← reads λ s. ok (server_address s)
  elim address [ none ↦ pure tt | some a ↦ on_world (set_lemma_server j (some a)) ]

-- The steps of `constant.LEMMAS in header` from the removal of the socket on.
unfoldable pub replace_lemma_server : ℕ → Connection → String → Exec Server (Unit {0})
unfolding on_world remove_connection add_connection init_lemma_server tell_lemma_server
replace_lemma_server j sock address = do
  remove_connection sock
  modify λ s. record s { listening = update s.listening j address }
  on_world (init_lemma_server j)
  add_connection (lemma_socket j)
  tell_lemma_server (some address)

-- `constant.LEMMAS in header`: the socket becomes the lemma server. The one before it is closed.
unfoldable pub add_lemma_server : ℕ → Connection → String → Exec Server (Unit {0})
unfolding close_connection replace_lemma_server
add_lemma_server j sock address = do
  old ← reads λ s. ok (lemma_server s.rlist)
  elim old [ none ↦ pure tt | some l ↦ close_connection (lemma_socket l) ]
  replace_lemma_server j sock address
