-- ===== src/Protocol.antt =====
-- What the scheduler does to the solvers (server/schedular.py), as steps of the world: the calls of
-- their methods that `ParallelizationServer` makes, in any order, and the messages that arrive.
pub mod Messages
pub mod Delivery
use smts.Prelude.{ℕ, ◌<◌, refl, arith, String, Option, none, [], ◌∷◌, Memᴰ}
use smts.World.Objects.{Header, World}
use smts.World.Running.{IsRunning}
use smts.Solver.{init, stop, terminate, solve, incremental, set_lemma_server, ask_partitions}
use smts.Solver.Keeps.{
  init-Keeps, stop-Keeps, terminate-Keeps, solve-Keeps, incremental-Keeps, set_lemma_server-Keeps,
  ask_partitions-Keeps,
}
use smts.Solver.Read.{read}
use smts.Solver.Read.Keeps.{read-Keeps}

-- Solver `i` connects, is told something, or is heard.
pub data Step (w : World) : World → Type 0 where
  connects : (i : ℕ) (name : String) → Step w (init i name w).1
  stopped : (i : ℕ) → Step w (stop i w).1
  terminated : (i : ℕ) → Step w (terminate i w).1
  solves :
      (i n now : ℕ) (parameters : Header) → n < w.tree.next → Step w (solve i n parameters now w).1
  moved : (i n now : ℕ) → n < w.tree.next → Step w (incremental i n now w).1
  served : (i : ℕ) (listening : Option String) → Step w (set_lemma_server i listening w).1
  asked : (i count : ℕ) → Step w (ask_partitions i count none w).1
  heard : (i : ℕ) (h : Header) (payload : Option String) → Step w (read i h payload w).1

-- The worlds that any number of steps leads to.
pub data Reaches (w : World) : World → Type 0 where
  start : Reaches w w
  step : {v u : World} → Reaches w v → Step v u → Reaches w u

no_nodes_known : {b : ℕ} (n : ℕ) → Memᴰ n [] → n < b
no_nodes_known n m = elim m [ ]

one_known : {b n : ℕ} → n < b → (q : ℕ) → Memᴰ q (n ∷ []) → q < b
one_known lt q (Memᴰ.head e) = omega (arith, e)
one_known lt q (Memᴰ.tail m) = elim m [ ]

Step-IsRunning : {w v : World} → Step w v → IsRunning w → IsRunning v
Step-IsRunning {w} (connects i name) r = ((init-Keeps [] i name).at w (r, no_nodes_known)).0
Step-IsRunning {w} (stopped i) r = ((stop-Keeps [] i).at w (r, no_nodes_known)).0
Step-IsRunning {w} (terminated i) r = ((terminate-Keeps [] i).at w (r, no_nodes_known)).0
Step-IsRunning {w} (solves i n now ps lt) r =
    ((solve-Keeps (n ∷ []) i n ps now (Memᴰ.head refl)).at w (r, one_known lt)).0
Step-IsRunning {w} (moved i n now lt) r =
    ((incremental-Keeps (n ∷ []) i n now (Memᴰ.head refl)).at w (r, one_known lt)).0
Step-IsRunning {w} (served i listening) r =
    ((set_lemma_server-Keeps [] i listening).at w (r, no_nodes_known)).0
Step-IsRunning {w} (asked i count) r =
    ((ask_partitions-Keeps [] i count none (λ p e. absurd (cc))).at w (r, no_nodes_known)).0
Step-IsRunning {w} (heard i h payload) r = ((read-Keeps [] i h payload).at w (r, no_nodes_known)).0

-- From a world with a well-formed tree whose solvers name nodes that exist, whatever methods of the
-- solvers are called and whatever messages arrive, exceptions included, the tree stays well-formed
-- and every node that a solver works on or waits for exists. A solver is only sent to nodes that
-- exist.
pub Reaches-IsRunning : {w v : World} → IsRunning w → Reaches w v → IsRunning v
Reaches-IsRunning r start = r
Reaches-IsRunning r (step before s) = Step-IsRunning s (Reaches-IsRunning r before)
