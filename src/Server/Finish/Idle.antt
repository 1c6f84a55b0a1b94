-- ===== src/Server/Finish/Idle.antt =====
-- The end of an instance while a solver is idle.
use smts.Prelude.{
  ℕ, ◌≡◌, refl, String, false, none, some, List, [], ◌∷◌, Memᴰ, ok, err, arith, Dict, NodupKeys,
  attribute_error, key_error, lookup, erase, string_key,
}
use package.text.Mathlib.TextEquality.{eq_iff}
use smts.Tree.Defs.{Tree}
use smts.World.Effects.{pure, reads, modify, ◌>>=◌, when}
use smts.World.Objects.{Solver, root_name}
use smts.Server.{Server, solvers, every}
use smts.Server.Finish.{forget, at_root, finish}

lookup-erase :
    {V : Type 0} (k : String) (d : Dict String V) → NodupKeys d → lookup k (erase k d) ≡ none
unfolding lookup erase
lookup-erase k [] h = refl
lookup-erase k ((j, v) ∷ d) h = ground (arith, h.0, h.1, eq_iff j k, lookup-erase k d h.1)

-- One idle solver is enough for the exception.
at_root_idle :
    (t : Tree) (f : ℕ → Solver) (root : ℕ) (is : List ℕ) {i : ℕ}
    → Memᴰ i is
    → (f i).node ≡ none
    → at_root t f root is ≡ err attribute_error
unfolding at_root
at_root_idle t f root [] m idle = elim m [ ]
at_root_idle t f root (j ∷ is) (Memᴰ.head e) idle = ground (arith, e, idle)
at_root_idle t f root (j ∷ is) (Memᴰ.tail m) idle = ground (arith, at_root_idle t f root is m idle)

-- If a connected solver is idle when a started instance ends, with logging off and the instance among the
-- trees, whose keys are distinct, the scheduler raises: the instance has been deleted from the trees and stays the current
-- one, and nobody has been stopped. The next attempt to end it raises as well, and changes nothing.
pub finish_idle :
    (s : Server) (k i name_of at : ℕ) (name : String)
    → root_name s.world.tree (s.instances k).root ≡ ok name
    → (s.instances k).started ≡ some at
    → s.world.config.enable_log ≡ false
    → lookup name s.trees ≡ some name_of
    → NodupKeys s.trees
    → Memᴰ i (solvers s.rlist s.world.solvers every)
    → (s.world.solvers i).node ≡ none
    → (finish k s ≡ (err attribute_error, record s { trees = erase name s.trees }))
      × (finish k (record s { trees = erase name s.trees })
          ≡ (err key_error, record s { trees = erase name s.trees }))
unfolding finish forget ◌>>=◌ reads modify when pure
finish_idle s k i name_of at name named started quiet found nodup m idle =
    let raised = at_root_idle s.world.tree s.world.solvers (s.instances k).root _ m idle in
    let gone = lookup-erase name s.trees nodup in
    (
      simp (named, started, quiet, found, raised, forget, finish),
      simp (named, started, quiet, gone, forget, finish),
    )
