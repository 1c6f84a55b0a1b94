-- ===== src/Server/Finish.antt =====
-- The part of `ParallelizationServer.entrust` that ends the current instance, behind the test whether
-- it is stuck. Printing is left out.
pub mod Idle
use smts.Prelude.{
  ℕ, String, Bool, true, false, not, Option, none, some, List, [], ◌∷◌, ◌==◌, if◌then◌else◌, ok,
  err, Result, type_error, attribute_error, key_error, lookup, erase, string_key,
}
use smts.Tree.Defs.{Tree}
use smts.Tree.Walk
use smts.World.Effects.{Exec, pure, reads, modify, ◌>>=◌, ◌>>◌, when}
use smts.World.Objects.{Value, text, path, Solver, World, root_name}
use smts.Config.{Config}
use smts.Config.Constant
use smts.Solver.{send, stop}
use smts.Server.{Server, Connection, on_world, solvers, every, lemma_server}

-- `del self.trees[name]`
unfoldable pub forget : String → Exec Server (Unit {0})
forget name s = elim (lookup name s.trees) [
  | none ↦ (err key_error, s)
  | some k ↦ (ok tt, record s { trees = erase name s.trees })
]

-- `{solver for solver in solvers(False) if solver.node.root == root}`; an idle solver has no node.
unfoldable pub at_root : Tree → (ℕ → Solver) → ℕ → List ℕ → Result (List ℕ)
at_root t f root [] = ok []
at_root t f root (i ∷ is) = elim (f i).node [
  | none ↦ err attribute_error
  | some n ↦ elim (at_root t f root is) [
    | err e ↦ err e
    | ok found ↦ ok (if t.root n == root then i ∷ found else found)
  ]
]

unfoldable pub stop_all : List ℕ → Exec Server (Unit {0})
unfolding on_world stop
stop_all [] = pure tt
stop_all (i ∷ is) = do on_world (stop i); stop_all is

-- `LemmaServer.reset(node)`, with '0' for the lemmas.
unfoldable pub reset_lemmas : ℕ → ℕ → Exec World (Unit {0})
unfolding send root_name Walk.path
reset_lemmas j n = do
  name ← reads λ w. root_name w.tree n
  at ← reads λ w. Walk.path w.tree n
  send j ((Constant.name, text name) ∷ (Constant.node, path at) ∷ (Constant.lemmas, text "0") ∷ [])
      ""

-- From the name of the current root to `self.idle_solvers.clear()`.
unfoldable pub finish : ℕ → Exec Server (Unit {0})
unfolding forget at_root stop_all reset_lemmas solvers lemma_server
finish k = do
  root ← reads λ s. ok (s.instances k).root
  name ← reads λ s. root_name s.world.tree root
  reads λ s. elim (s.instances k).started [ none ↦ err type_error | some at ↦ ok at ]
  log ← reads λ s. ok s.world.config.enable_log
  when (not log) (forget name)
  working ←
      reads λ s. at_root s.world.tree s.world.solvers root (solvers s.rlist s.world.solvers every)
  stop_all working
  lemmas ← reads λ s. ok (lemma_server s.rlist)
  elim lemmas [ none ↦ pure tt | some j ↦ on_world (reset_lemmas j root) ]
  modify λ s. record s { current = none; idle_solvers = [] }
