-- ===== src/Instances/Fixedpoint/Children.antt =====
-- The nodes that `partition` makes of a problem.
use Prim.Native.String.{◌++◌ as str_append}
use mathlib.Core.List.{append-nil}
use smts.Prelude.{
  ℕ, ◌<◌, ◌≡◌, refl, sym, ap, ◌∙◌, String, true, false, some, List, [], ◌∷◌, ◌++◌, map,
  append_assoc, ok, arith,
}
use smts.Json.{Json, Items, smt_lines_of}
use smts.Tree.Defs.{Tree, and_node, or_node, init_node, init_marks, is_and, new_or, new_and}
use smts.Tree.Shape.{IsForest}
use smts.Tree.Growth.{new_and-IsForest, new_or-IsForest}
use smts.World.Effects.{reads, ◌>>=◌}
use smts.World.Objects.{World}
use smts.Solver.Read.Partitions.{formulas, formulas-new_and}
use smts.Instances.Fixedpoint
use smts.Instances.Fixedpoint.{Problem, split_rules, declare_all, add_or, add_queries}

abbrev pub query_text : String → String
query_text q = str_append "(query " (str_append q ")")

add_queries-formulas :
    (o : ℕ) (qs : List String) (w : World)
    → IsForest w.tree
    → o < w.tree.next
    → is_and (w.tree.class o) ≡ false
    → ((add_queries o qs w).0 ≡ ok tt)
      × (formulas (add_queries o qs w).1.tree o ≡ formulas w.tree o ++ map query_text qs)
unfolding add_queries new_and
add_queries-formulas o [] w f lt or = (refl, sym (append-nil _))
add_queries-formulas o (q ∷ qs) w f lt or =
    let t : Tree = init_node w.tree and_node (some o) (query_text q) in
    let w' : World = record w { tree = t; marks = init_marks w.marks w.tree.next } in
    let f' : IsForest t =
      new_and-IsForest w.tree t (some o) (query_text q) (λ p e. ground arith) f
        (ground (arith, or)) in
    let (done, rest) = add_queries-formulas o qs w' f' (omega arith) (ground arith) in
    rw (or, add_queries)
      (
        done,
        rest
            ∙ ap (λ l. l ++ map query_text qs) (formulas-new_and w.tree o (query_text q) f lt)
            ∙ append_assoc (formulas w.tree o) (query_text q ∷ []) (map query_text qs),
      )

-- For an AND node of a well-formed tree, if the search for the first declaration raises nothing, then
-- `partition` returns, and what is asked at the children of its new OR node are the new queries, in
-- order.
pub partition-formulas :
    (format : Json → String) (problem : Problem) (n : ℕ) (obj : Items) (w : World)
    → IsForest w.tree
    → n < w.tree.next
    → is_and (w.tree.class n) ≡ true
    → (let split = split_rules format problem.query 0 problem.json in
        declare_all split.1 split.0 ≡ ok obj)
    → ((Fixedpoint.partition format problem n w).0 ≡ ok tt)
      × (formulas (Fixedpoint.partition format problem n w).1.tree w.tree.next
          ≡ map query_text (split_rules format problem.query 0 problem.json).1)
unfolding Fixedpoint.partition add_or new_or ◌>>=◌ reads
partition-formulas format problem n obj w f lt and declared =
    let qs = (split_rules format problem.query 0 problem.json).1 in
    let t : Tree = init_node w.tree or_node (some n) (smt_lines_of obj) in
    let w' : World = record w { tree = t; marks = init_marks w.marks w.tree.next } in
    let f' : IsForest t =
      new_or-IsForest w.tree t n (smt_lines_of obj) lt f (ground (arith, and)) in
    let (done, asked) = add_queries-formulas w.tree.next qs w' f' (omega arith) (ground arith) in
    let none_yet : formulas t w.tree.next ≡ [] = ground arith in
    rw (declared, and, Fixedpoint.partition, add_or)
      (done, asked ∙ ap (λ l. l ++ map query_text qs) none_yet)
