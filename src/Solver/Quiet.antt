-- ===== src/Solver/Quiet.antt =====
-- What `Solver.incremental` leaves alone: the tree and the statuses.
use smts.Prelude.{ℕ, ◌≡◌}
use smts.Tree.Defs.{Tree, SolveStatus}
use smts.World.Holds.{Holds, holds_rules}
use smts.World.Objects.{World}
use smts.Solver.{send, set_solver, mark_started, incremental}

abbrev pub HasTree : Tree → (ℕ → SolveStatus) → World → Type 0
HasTree t st w = (w.tree ≡ t) × (w.marks.status ≡ st)

pub incremental-HasTree :
    (t : Tree) (st : ℕ → SolveStatus) (i n now : ℕ) → Holds (HasTree t st) (incremental i n now)
unfolding incremental send set_solver mark_started
incremental-HasTree t st i n now = search holds_rules depth 30
