-- ===== src/Server/Sockets/Serves.antt =====
-- What a socket becomes keeps the server in order.
use smts.Prelude.{ℕ, String, Option, some, [], ◌++◌}
use smts.World.Holds.{
  Holds, bind-Holds, reads-Holds, pure-Holds, modify-Holds, for_each-Holds, option-Holds,
}
use smts.World.Running.{bind-Keeps, reads-Keeps}
use smts.Solver.Keeps.{init-Keeps, send-Keeps, set_lemma_server-Keeps}
use smts.Server.{Connection, solver_socket, lemma_socket, on_world}
use smts.Server.Entrust.Ending.{world-Holds}
use smts.Server.Sockets.{
  tell_lemma_server, init_lemma_server, add_solver, replace_lemma_server, add_lemma_server,
}
use smts.Server.Sockets.Closing.{
  IsOrderly, remove_connection-Holds, close_connection-Holds, add_connection-Holds,
}

pub tell_lemma_server-Holds : (a : Option String) → Holds IsOrderly (tell_lemma_server a)
unfolding tell_lemma_server
tell_lemma_server-Holds a = bind-Holds _ _ _ (reads-Holds _ _) λ everyone.
    for_each-Holds _ everyone _ λ i m. world-Holds [] _ λ qs. set_lemma_server-Keeps (qs ++ []) i a

init_lemma_server-Holds : (j : ℕ) → Holds IsOrderly (on_world (init_lemma_server j))
unfolding init_lemma_server
init_lemma_server-Holds j = world-Holds [] _ λ qs.
    bind-Keeps _ _ _ (reads-Keeps _ _)
      λ log. bind-Keeps _ _ _ (reads-Keeps _ _) λ memory. send-Keeps _ j _ _

pub add_solver-Holds :
    (j : ℕ) (c : Connection) (name : String) → Holds IsOrderly (add_solver j c name)
unfolding add_solver
add_solver-Holds j c name =
    bind-Holds _ _ _ (world-Holds [] _ λ qs. init-Keeps (qs ++ []) j name) λ _.
      bind-Holds _ _ _ (remove_connection-Holds c) λ _.
        bind-Holds _ _ _ (add_connection-Holds (solver_socket j)) λ _.
          bind-Holds _ _ _ (reads-Holds _ _) λ address.
            option-Holds _ address _ _ (pure-Holds _ tt)
              λ a. world-Holds [] _ λ qs. set_lemma_server-Keeps (qs ++ []) j (some a)

replace_lemma_server-Holds :
    (j : ℕ) (c : Connection) (a : String) → Holds IsOrderly (replace_lemma_server j c a)
unfolding replace_lemma_server
replace_lemma_server-Holds j c a = bind-Holds _ _ _ (remove_connection-Holds c) λ _.
    bind-Holds _ _ _ (modify-Holds _ _ λ s k. k) λ _.
      bind-Holds _ _ _ (init_lemma_server-Holds j) λ _.
        bind-Holds _ _ _ (add_connection-Holds (lemma_socket j))
          λ _. tell_lemma_server-Holds (some a)

pub add_lemma_server-Holds :
    (j : ℕ) (c : Connection) (a : String) → Holds IsOrderly (add_lemma_server j c a)
unfolding add_lemma_server
add_lemma_server-Holds j c a = bind-Holds _ _ _ (reads-Holds _ _) λ old.
    bind-Holds _ _ _
      (option-Holds _ old _ _ (pure-Holds _ tt) λ l. close_connection-Holds (lemma_socket l))
      λ _. replace_lemma_server-Holds j c a
