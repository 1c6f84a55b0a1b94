-- ===== src/Tests/Formulas.antt =====
-- The solver input for nodes of the sample tree.
use smts.Prelude.{some, none, ◌≡◌, refl, ok, List, [], ◌∷◌, index}
use smts.Tree.Walk.{is_ancestor}
use smts.Formula.{Line, text, push, pop, smt_lines, to_string}
use smts.Formula.Stack.{run, frames}
use smts.Formula.Incremental.{smt_lines-full, smt_lines-incremental}
use smts.Tests.Sample.{six_nodes, six_nodes-IsForest, Below-0-3, Below-0-5}

-- From the partition B to the partition C below A.
smt_lines_sample :
    smt_lines six_nodes 0 5 (some 3) ≡ ok (pop ∷ push ∷ text "A" ∷ push ∷ text "C" ∷ [])
unfolding six_nodes smt_lines is_ancestor index
smt_lines_sample = refl

to_string_sample : to_string six_nodes 0 3 none ≡ ok ("R\n(push 1)\nB", "(check-sat)")
unfolding six_nodes to_string
to_string_sample = refl

smt_lines-full_example :
    (ls : List Line) × (smt_lines six_nodes 0 5 none ≡ ok ls)
    × (run ls ([] ∷ []) ≡ some (frames six_nodes 5))
unfolding six_nodes
smt_lines-full_example = smt_lines-full six_nodes 5 six_nodes-IsForest Below-0-5

smt_lines-incremental_example :
    (ls : List Line) × (smt_lines six_nodes 0 5 (some 3) ≡ ok ls)
    × (run ls (frames six_nodes 3) ≡ some (frames six_nodes 5))
unfolding six_nodes
smt_lines-incremental_example =
    smt_lines-incremental six_nodes 3 5 six_nodes-IsForest Below-0-3 Below-0-5 refl
