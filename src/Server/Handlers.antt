-- ===== src/Server/Handlers.antt =====
-- `ParallelizationServer.handle_message` and `handle_close`. Log messages are left out, but the
-- payload is decoded for them.
pub mod Serves
use Prim.Native.Char.{code}
use Prim.Native.String.{◌++◌ as str_append}
use package.text.Mathlib.Text.{◌==◌ as str_eq}
use smts.Prelude.{
  ℕ, zero, suc, ◌-◌, String, Bool, true, false, not, ◌&&◌, ◌||◌, Option, none, some, List, [], ◌∷◌,
  ◌++◌, ◌==◌, leb, nonempty, if◌then◌else◌, Result, ok, err, attribute_error, index_error,
  key_error, unicode_error, value_error, system_exit, Dict, lookup, insert, is_none, string_key,
}
use smts.Json.{Json, Items}
use smts.Tree.Defs.{Tree, Class, root_node, fixedpoint, update}
use smts.World.Effects.{Exec, reads, modify, pure, ◌>>=◌, ◌>>◌, for_each, when}
use smts.World.Objects.{Value, text, Header, Solver, World}
use smts.Config.{Config}
use smts.Config.Constant
use smts.Config.Parameters.{Parameter}
use smts.Solver.{init, stop, send, set_lemma_server}
use smts.Solver.Read.{has_key}
use smts.Instances.{parse}
use smts.Instances.Fixedpoint
use smts.Instances.Fixedpoint.{Problem}
use smts.Server.{
  Instance, Server, Connection, listening_socket, plain_socket, solver_socket, lemma_socket, every,
  on_world, solvers, lemma_server,
}
use smts.Server.Entrust.{entrust}
use smts.Server.Sockets.{
  close_all, socket_of, same_connection, is_member, without, remove_connection, add_connection,
  close_connection, tell_lemma_server, full_address, init_lemma_server, server_address, add_solver,
  add_lemma_server,
}
use smts.Server.Reports.{level_name, is_upper, is_level, is_error, note_error, check_lemma_report}

-- `header[key]` as a text; what the wire delivers is a text.
abbrev pub text_of : Option Value → Result String
text_of (some (text s)) = ok s
text_of (some _) = err attribute_error
text_of none = err key_error

abbrev pub decoded : Option String → Result String
decoded none = err unicode_error
decoded (some s) = ok s

-- A method in a `try` with a bare `except` behind which the handler goes on.
unfoldable pub attempt : {S : Type 0} → Exec S (Unit {0}) → Exec S (Unit {0})
attempt m s = (ok tt, (m s).1)

-- A new instance in the next free cell.
unfoldable pub store_instance : String → ℕ → Exec Server (Unit {0})
store_instance name root = modify λ s. record s {
  instances =
      update s.instances s.next_instance
        (record { root = root; started = none; timeout = s.world.config.solving_timeout });
  next_instance = suc s.next_instance;
  trees = insert name s.next_instance s.trees;
}

module _ (smt2json : String → Result Items) (format : Json → String) where
  -- `Instance(name, smt)` and what follows it in the `try`
  unfoldable pub add_instance : String → Option String → Exec Server (Unit {0})
  unfolding on_world parse store_instance Fixedpoint.partition
  add_instance name payload = do
    smt ← reads λ s. decoded payload
    made ← on_world (parse smt2json name smt)
    store_instance name made.0
    split ← reads λ s. ok s.world.config.fixedpoint_partition
    elim made.1 [
      | none ↦ pure tt
      | some problem ↦ when split (on_world (Fixedpoint.partition format problem made.0))
    ]

-- What the handlers are given from outside: the parameters of the solvers, what the random ones draw,
-- the fuel of the loops of `entrust`, the reader of S-expressions, the text of a JSON value, the host
-- at the other end of a socket, and what `eval` answers.
pub record Outside : Type 0 where
  pub parameters : Dict String Parameter
  pub draw : ℕ → String → Value
  pub fuel : ℕ
  pub smt2json : String → Result Items
  pub format : Json → String
  pub host : ℕ → String
  pub answer : String → String

module _ (out : Outside) where
  -- A header with a command, from any connection.
  unfoldable pub handle_command : Header → Option String → ℕ → Exec Server (Unit {0})
  unfolding add_instance attempt entrust close_all lookup
  handle_command header payload now = do
    command ← reads λ s. text_of (lookup Constant.command header)
    name ← reads λ s. ok (lookup Constant.name header)
    if str_eq command Constant.terminate
        then close_all
        else if str_eq command Constant.solve && not (is_none name)
        then (do
          known ← reads λ s. text_of name
          attempt (add_instance out.smt2json out.format known payload)
          entrust out.parameters out.draw out.fuel [] now)
        else pure tt

  -- `constant.SOLVER in header`
  unfoldable pub request_solver : Connection → Header → ℕ → Exec Server (Unit {0})
  unfolding add_solver entrust lookup
  request_solver sock header now = do
    name ← reads λ s. text_of (lookup Constant.solver header)
    add_solver (socket_of sock) sock name
    entrust out.parameters out.draw out.fuel [] now

  -- `constant.LEMMAS in header`
  unfoldable pub request_lemmas : Connection → Header → Exec Server (Unit {0})
  unfolding add_lemma_server full_address lookup
  request_lemmas sock header = do
    given ← reads λ s. text_of (lookup Constant.lemmas header)
    address ← reads λ s. full_address (out.host (socket_of sock)) given
    add_lemma_server (socket_of sock) sock address

  -- `constant.EVAL in header`
  unfoldable pub request_eval : Connection → Header → Exec Server (Unit {0})
  unfolding lookup send on_world
  request_eval sock header = do
    code ← reads λ s. text_of (lookup Constant.eval header)
    on_world (send (socket_of sock) [] (if str_eq code "" then "" else out.answer code))

  -- The part of `handle_message` behind the messages of solvers.
  unfoldable pub handle_request : Connection → Header → Option String → ℕ → Exec Server (Unit {0})
  unfolding handle_command request_solver request_lemmas request_eval
  handle_request sock header payload now =
      if has_key Constant.command header
      then handle_command header payload now
      else if has_key Constant.solver header
      then request_solver sock header now
      else if has_key Constant.lemmas header
      then request_lemmas sock header
      else if has_key Constant.eval header
      then request_eval sock header
      else pure tt

  -- A message from a solver.
  unfoldable pub handle_solver : Header → ℕ → Exec Server (Unit {0})
  unfolding is_error note_error entrust lookup
  handle_solver header now = when (nonempty header) (do
    when (is_error (lookup Constant.report header)) note_error
    entrust out.parameters out.draw out.fuel header now)

  -- The branches on the class of the connection. A lemma server may send requests too.
  unfoldable pub handle_from : Connection → Header → Option String → ℕ → Exec Server (Unit {0})
  unfolding handle_solver handle_request check_lemma_report
  handle_from (solver_socket i) header payload now = handle_solver header now
  handle_from (lemma_socket j) header payload now = when (nonempty header) (do
    reads λ s. check_lemma_report (lookup Constant.report header)
    handle_request (lemma_socket j) header payload now)
  handle_from sock header payload now = handle_request sock header payload now

  -- `handle_message(sock, header, payload)`
  unfoldable pub handle_message : Connection → Header → Option String → ℕ → Exec Server (Unit {0})
  unfolding handle_from
  handle_message sock header payload now = do
    log ← reads λ s. ok s.world.config.enable_log
    reads λ s. if log && is_none payload then err unicode_error else ok tt
    handle_from sock header payload now

-- `handle_close(sock)`
unfoldable pub handle_close : Connection → Exec Server (Unit {0})
unfolding attempt stop on_world tell_lemma_server
handle_close (solver_socket i) = attempt (on_world (stop i))
handle_close (lemma_socket j) = tell_lemma_server none
handle_close _ = pure tt
