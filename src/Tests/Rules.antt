-- ===== src/Tests/Rules.antt =====
-- A fixedpoint problem with two rules for its query.
use smts.Prelude.{arith, ok, refl, String, ◌≡◌, [], ◌∷◌, show_nat}
use smts.Json.{Json, str, array, Items, nil, cons, smt_text}
use smts.Instances.Fixedpoint
use smts.Instances.Fixedpoint.{Problem, split_rules, declare_queries, declare_all}
use smts.Instances.Fixedpoint.Children.{partition-formulas}
use smts.Solver.Read.Partitions.{formulas}
use smts.Tests.Sample.{six_nodes, six_nodes-IsForest}
use smts.Tests.Worlds.{idle_world}
use smts.Instances.Fixedpoint.Rules.{numbered, count_rules, count_items, split_rules_lem}

abbrev rule : Json → Json
rule body = array (cons (str "rule") (cons body nil))

abbrev implies : String → String → Json
implies a b = array (cons (str "=>") (cons (str a) (cons (str b) nil)))

abbrev bound : Json → Json
bound body = array (cons (str "let") (cons (array nil) (cons body nil)))

abbrev problem : Items
problem = cons (array (cons (str "declare-rel") (cons (str "q") (cons (array nil) nil)))) (
    cons (rule (implies "a" "q"))
      (cons (rule (implies "a" "b")) (cons (rule (bound (implies "b" "q"))) nil)))

queries : (split_rules smt_text (str "q") 0 problem).1 ≡ "q0" ∷ "q1" ∷ []
unfolding split_rules smt_text show_nat
queries = refl

split_rules_lem_example :
    ((split_rules smt_text (str "q") 0 problem).1
      ≡ numbered (smt_text (str "q")) 0 (count_rules (str "q") problem))
    × (count_items (split_rules smt_text (str "q") 0 problem).0 ≡ count_items problem)
split_rules_lem_example = split_rules_lem smt_text (str "q") 0 problem

abbrev queried : Problem
queried = record { json = problem; query = str "q" }

-- The items that are left, with a relation for each new query, the last one first.
unfoldable abbrev declared : Items
unfolding split_rules declare_all smt_text show_nat
declared = declare_queries ("q0" ∷ "q1" ∷ []) (split_rules smt_text (str "q") 0 problem).0

partition-formulas_example :
    ((Fixedpoint.partition smt_text queried 0 idle_world).0 ≡ ok tt)
    × (formulas (Fixedpoint.partition smt_text queried 0 idle_world).1.tree 6
        ≡ "(query q0)" ∷ "(query q1)" ∷ [])
unfolding idle_world six_nodes declared split_rules declare_all smt_text show_nat
partition-formulas_example =
    partition-formulas smt_text queried 0 declared idle_world six_nodes-IsForest (omega arith) refl
      refl
