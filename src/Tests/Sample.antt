-- ===== src/Tests/Sample.antt =====
-- The sample: a root 0, an OR node 1 below it with the partitions 2 and 3, and under the partition 2
-- a further OR node 4 with the partition 5.
use mathlib.Core.List.Memᴰ
use smts.Prelude.{
  ℕ, Bool, true, false, some, refl, ◌==◌, arith, ==_iff, Bool-cases, inl, inr, subst, sym,
  if◌then◌else◌,
}
use smts.Tree.Defs.{
  Tree, no_nodes, smt_lib, and_node, or_node, init_node, new_root, new_and, new_or, no_marks,
}
use smts.Tree.Shape.{IsForest, Below, here, down}
use smts.Tree.Growth.{no_nodes-IsForest, new_root-IsForest, new_and-IsForest, new_or-IsForest}
use smts.Tree.Status.Meaning.{IsPartitioned, IsSound}

unfoldable abbrev pub one_node : Tree
unfolding new_root init_node
one_node = new_root no_nodes smt_lib "a.smt2" "R"

unfoldable abbrev pub two_nodes : Tree
unfolding one_node
two_nodes = init_node one_node or_node (some 0) ""

unfoldable abbrev pub three_nodes : Tree
unfolding two_nodes
three_nodes = init_node two_nodes and_node (some 1) "A"

unfoldable abbrev pub four_nodes : Tree
unfolding three_nodes
four_nodes = init_node three_nodes and_node (some 1) "B"

unfoldable abbrev pub five_nodes : Tree
unfolding four_nodes
five_nodes = init_node four_nodes or_node (some 2) ""

unfoldable abbrev pub six_nodes : Tree
unfolding five_nodes
six_nodes = init_node five_nodes and_node (some 4) "C"

pub one_node-IsForest : IsForest one_node
unfolding one_node new_root
one_node-IsForest = new_root-IsForest no_nodes smt_lib "a.smt2" "R" no_nodes-IsForest

pub two_nodes-IsForest : IsForest two_nodes
unfolding two_nodes new_or
two_nodes-IsForest = new_or-IsForest one_node two_nodes 0 "" (omega arith) one_node-IsForest refl

pub three_nodes-IsForest : IsForest three_nodes
unfolding three_nodes new_and
three_nodes-IsForest =
    new_and-IsForest two_nodes three_nodes (some 1) "A" (λ q e. ground arith) two_nodes-IsForest
      refl

pub four_nodes-IsForest : IsForest four_nodes
unfolding four_nodes new_and
four_nodes-IsForest =
    new_and-IsForest three_nodes four_nodes (some 1) "B" (λ q e. ground arith) three_nodes-IsForest
      refl

pub five_nodes-IsForest : IsForest five_nodes
unfolding five_nodes new_or
five_nodes-IsForest =
    new_or-IsForest four_nodes five_nodes 2 "" (omega arith) four_nodes-IsForest refl

pub six_nodes-IsForest : IsForest six_nodes
unfolding six_nodes new_and
six_nodes-IsForest =
    new_and-IsForest five_nodes six_nodes (some 4) "C" (λ q e. ground arith) five_nodes-IsForest
      refl

-- How nodes stand below others.
pub Below-0-2 : Below six_nodes 0 2
unfolding six_nodes
Below-0-2 = down (down here refl (Memᴰ.head refl)) refl (Memᴰ.head refl)

pub Below-2-5 : Below six_nodes 2 5
unfolding six_nodes
Below-2-5 = down (down here refl (Memᴰ.head refl)) refl (Memᴰ.head refl)

pub Below-0-3 : Below six_nodes 0 3
unfolding six_nodes
Below-0-3 = down (down here refl (Memᴰ.head refl)) refl (Memᴰ.tail (Memᴰ.head refl))

pub Below-0-5 : Below six_nodes 0 5
unfolding six_nodes
Below-0-5 = down (down Below-0-2 refl (Memᴰ.head refl)) refl (Memᴰ.head refl)

-- The formulas: A is unsatisfiable, B is not, and so the whole instance is satisfiable.
abbrev pub sample_truth : ℕ → Bool
sample_truth n = if n == 2 then false else if n == 4 then false else if n == 5 then false else true

pub sample-IsPartitioned : IsPartitioned six_nodes sample_truth
unfolding six_nodes
sample-IsPartitioned = record {
  split = λ o p c e. ground arith;
  strengthen = λ n p c e h. ground arith;
  cover = λ p c some_child all_false. elim (Bool-cases (p == 1)) [
    | inl one ↦ absurd (
        cc (
          all_false 3 (
            subst (λ q. Memᴰ.Memᴰ 3 (six_nodes.children q)) (sym ((==_iff p 1).0 one))
              (Memᴰ.tail (Memᴰ.head refl)))))
    | inr other ↦ ground arith
  ];
}

pub no_marks-IsSound : IsSound sample_truth no_marks.status
no_marks-IsSound n = tt
