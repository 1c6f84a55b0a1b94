-- ===== src/Tests/Trees.antt =====
-- The theorems about trees and statuses at the sample tree.
use mathlib.Core.List.Memᴰ
use mathlib.Core.List.{flat_map}
use smts.Prelude.{ℕ, Bool, true, ◌≡◌, ◌↔◌, refl, ok, List, [], ◌∷◌, index, all_of}
use smts.Tree.Defs.{no_marks, SolveStatus, unsat, unknown, sat}
use smts.Tree.Shape.{Below}
use smts.Tree.Walk.{path, child, is_ancestor, all}
use smts.Tree.Paths.{child-path, is_ancestor_iff}
use smts.Tree.Subtree.{mem-all_iff}
use smts.Tree.Status.{next_up, set_status, report}
use smts.Tree.Status.Steps.{Assigns, set_status-Assigns}
use smts.Tree.Status.Meaning.{IsSound, report-IsSound}
use smts.Tree.Status.Closing.{report_unsat_all}
use smts.Tree.Status.Pending.{IsPropagated}
use smts.Tree.Status.Progress.{report-IsPropagated, no_marks-IsPropagated}
use smts.Tests.Sample.{
  six_nodes, six_nodes-IsForest, Below-0-3, Below-0-5, Below-2-5, sample_truth,
  sample-IsPartitioned, no_marks-IsSound,
}

path_sample : path six_nodes 5 ≡ ok (0 ∷ 0 ∷ 0 ∷ 0 ∷ [])
unfolding six_nodes path index
path_sample = refl

all_sample : all six_nodes 0 ≡ 0 ∷ 1 ∷ 2 ∷ 4 ∷ 5 ∷ 3 ∷ []
unfolding six_nodes all flat_map
all_sample = refl

child-path_example : (is : List ℕ) × (path six_nodes 5 ≡ ok is) × (child six_nodes 0 is ≡ ok 5)
unfolding six_nodes
child-path_example = child-path six_nodes 5 six_nodes-IsForest Below-0-5

is_ancestor_iff_example :
    (b : Bool) × (is_ancestor six_nodes 3 5 ≡ ok b) × ((b ≡ true) ↔ Below six_nodes 3 5)
unfolding six_nodes
is_ancestor_iff_example = is_ancestor_iff six_nodes 3 5 six_nodes-IsForest Below-0-3 Below-0-5 refl

mem-all_iff_example : Memᴰ.Memᴰ 5 (all six_nodes 2) ↔ Below six_nodes 2 5
mem-all_iff_example = mem-all_iff six_nodes 2 5 six_nodes-IsForest

report-IsSound_example : IsSound sample_truth (report six_nodes no_marks.status 2 unsat)
report-IsSound_example =
    report-IsSound six_nodes sample_truth no_marks.status 2 unsat six_nodes-IsForest
      sample-IsPartitioned no_marks-IsSound refl

report_unsat_all_example : report six_nodes no_marks.status 2 unsat 5 ≡ unsat
unfolding six_nodes
report_unsat_all_example =
    report_unsat_all six_nodes sample_truth no_marks.status 2 5 six_nodes-IsForest
      sample-IsPartitioned no_marks-IsSound refl Below-2-5 refl

report-IsPropagated_example : IsPropagated six_nodes (report six_nodes no_marks.status 3 sat)
unfolding six_nodes
report-IsPropagated_example =
    report-IsPropagated six_nodes no_marks.status 3 sat six_nodes-IsForest (λ e. cc) refl Below-0-3
      (no_marks-IsPropagated six_nodes)

-- A sat partition decides the root.
root_sat : report six_nodes no_marks.status 3 sat 0 ≡ sat
unfolding six_nodes report all flat_map next_up all_of
root_sat = refl

-- One unsat partition does not, two do.
root_open : report six_nodes no_marks.status 2 unsat 0 ≡ unknown
unfolding six_nodes report all flat_map next_up all_of
root_open = refl

root_unsat : report six_nodes (report six_nodes no_marks.status 2 unsat) 3 unsat 0 ≡ unsat
unfolding six_nodes report all flat_map next_up all_of
root_unsat = refl

set_status-Assigns_example :
    Assigns six_nodes no_marks.status 2 unsat (set_status six_nodes no_marks.status 2 unsat)
    × ((after : ℕ → SolveStatus)
        → Assigns six_nodes no_marks.status 2 unsat after
        → after ≡ set_status six_nodes no_marks.status 2 unsat)
set_status-Assigns_example = set_status-Assigns six_nodes no_marks.status 2 unsat six_nodes-IsForest
