-- ===== src/Tree/Status.antt =====
-- How a status moves up the tree: the `_set_status` methods of `AndNode` and `OrNode`, and what
-- `Solver.read` does with a reported result. The proofs are in the modules below.
pub mod Moves
pub mod Steps
pub mod Pending
pub mod Meaning
pub mod Closing
pub mod Progress
use smts.Prelude.{
  ℕ, zero, suc, Bool, true, false, ◌&&◌, ◌||◌, Option, none, some, List, [], ◌∷◌, all_of,
  if◌then◌else◌, filter_by, Result, ok, err, index_error,
}
use smts.Tree.Defs.{Tree, SolveStatus, unknown, sat, unsat, is_and, update, live_parent}
use smts.Tree.Walk.{all}

-- `==` on `SolveStatus`
abbrev pub same_status : SolveStatus → SolveStatus → Bool
same_status unknown unknown = true
same_status sat sat = true
same_status unsat unsat = true
same_status _ _ = false

-- The node whose status `_set_status(status)` of `n` assigns next, if any: an `OrNode` passes the
-- status on to its parent; an `AndNode` does if the status is sat or all siblings have it.
unfoldable pub next_up : Tree → (ℕ → SolveStatus) → ℕ → SolveStatus → Option ℕ
next_up t st n s =
    if is_and (t.class n)
    then elim (live_parent t n) [
      | none ↦ none
      | some p ↦
          if same_status s sat || all_of (λ c. same_status (st c) s) (t.children p)
          then some p
          else none
    ]
    else t.parent n

-- `n.status = s`, with fuel for the depth.
unfoldable pub set_within : ℕ → Tree → (ℕ → SolveStatus) → ℕ → SolveStatus → ℕ → SolveStatus
set_within zero t st n s = st
set_within (suc f) t st n s = elim (next_up t (update st n s) n s) [
  | none ↦ update st n s
  | some p ↦ set_within f t (update st n s) p s
]

-- `n.status = s`: the new statuses of all nodes. A parent is older than its children.
unfoldable pub set_status : Tree → (ℕ → SolveStatus) → ℕ → SolveStatus → ℕ → SolveStatus
unfolding set_within
set_status t st n s = set_within (suc n) t st n s

-- The body of the loop over `self.node.all()` after an unsat report.
unfoldable pub close_one : Tree → (ℕ → SolveStatus) → ℕ → ℕ → SolveStatus
unfolding set_status
close_one t st c =
    if same_status (st c) unknown && is_and (t.class c) then set_status t st c unsat else st

unfoldable pub close_unsat : Tree → (ℕ → SolveStatus) → List ℕ → ℕ → SolveStatus
unfolding close_one
close_unsat t st [] = st
close_unsat t st (c ∷ cs) = close_unsat t (close_one t st c) cs

-- A result that a solver reports for its node.
unfoldable pub report : Tree → (ℕ → SolveStatus) → ℕ → SolveStatus → ℕ → SolveStatus
unfolding close_unsat
report t st n s =
    if same_status s unsat
    then close_unsat t (set_status t st n s) (all t n)
    else set_status t st n s

-- `node.childeren()`: the children of the first child that have no status yet.
unfoldable pub childeren : Tree → (ℕ → SolveStatus) → ℕ → Result (List ℕ)
childeren t st n = elim (t.children n) [
  | [] ↦ err index_error
  | o ∷ _ ↦ ok (filter_by (λ c. same_status (st c) unknown) (t.children o))
]
