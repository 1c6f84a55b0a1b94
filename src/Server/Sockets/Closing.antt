-- ===== src/Server/Sockets/Closing.antt =====
-- Opening and closing connections keeps the server in order.
use smts.Prelude.{List, [], ◌∷◌, arith}
use smts.World.Holds.{Holds, bind-Holds, reads-Holds, pure-Holds, modify-Holds}
use smts.Server.{Server, Connection}
use smts.Server.Start.Serves.{IsServing}
use smts.Server.Sockets.{close_each, close_all, remove_connection, add_connection, close_connection}

abbrev pub IsOrderly : Server → Type 0
IsOrderly = IsServing []

pub remove_connection-Holds : (c : Connection) → Holds IsOrderly (remove_connection c)
unfolding remove_connection
remove_connection-Holds c = record { at = λ s k. ground (arith, k) }

pub close_connection-Holds : (c : Connection) → Holds IsOrderly (close_connection c)
unfolding close_connection
close_connection-Holds c = record { at = λ s k. ground (arith, k) }

pub add_connection-Holds : (c : Connection) → Holds IsOrderly (add_connection c)
unfolding add_connection
add_connection-Holds c = modify-Holds _ _ λ s k. k

close_each-Holds : (l : List Connection) → Holds IsOrderly (close_each l)
unfolding close_each
close_each-Holds [] = pure-Holds _ tt
close_each-Holds (c ∷ l) =
    bind-Holds _ _ _ (modify-Holds _ _ λ s k. k)
      λ _. bind-Holds _ _ _ (close_connection-Holds c) λ _. close_each-Holds l

pub close_all-Holds : Holds IsOrderly close_all
unfolding close_all
close_all-Holds = bind-Holds _ _ _ (reads-Holds _ _) λ everyone. close_each-Holds everyone
