-- ===== src/Tests/Dummies.antt =====
-- The test client on a few messages.
use smts.Prelude.{
  int, index, show_path, refl, String, some, ok, true, ◌≡◌, [], ◌∷◌, ◌++◌, Result, Memᴰ, lookup,
  string_key, split_nul,
}
use smts.Json.{Json, Items, nil, array}
use smts.Tree.Walk
use smts.World.Effects.{◌>>=◌}
use smts.World.Objects.{text, Header, root_name}
use smts.Config.Constant
use smts.Solver.Read.{is_current}
use smts.Dummy.{begin, hear, report, item}
use smts.Dummy.Answers.{replicate, answer, hear_partition}
use smts.Dummy.Input.{IsInput, hear_all, hear_texts, report-is_current}
use smts.Tests.Sample.{six_nodes}

abbrev pub no_clauses : String → String
no_clauses s = ""

abbrev pub read_none : String → Result Items
read_none s = ok nil

abbrev pub learn_none : Items → Result Json
learn_none l = ok (array nil)

abbrev partition_message : Header
partition_message = (Constant.command, text "partition") ∷ (Constant.partitions, text "12") ∷ []

hear_partition_example :
    (p : String) × (hear no_clauses read_none learn_none partition_message "" begin
      ≡ (ok tt, record begin { sent = begin.sent ++ (answer Constant.partitions begin, p) ∷ [] }))
    × (split_nul p ≡ replicate 12 "true")
unfolding lookup int
hear_partition_example =
    hear_partition no_clauses read_none learn_none partition_message "" "12" 11 begin refl refl refl

abbrev solve_message : Header
solve_message =
    (Constant.command, text "solve")
    ∷ (Constant.name, text "a.smt2")
    ∷ (Constant.node, text "[0, 1]")
    ∷ (Constant.query, text "(check-sat)")
    ∷ []

solve_message-IsInput : IsInput "solve" "a.smt2" "[0, 1]" solve_message
unfolding lookup item
solve_message-IsInput = record {
  commands = refl;
  names = refl;
  leads = refl;
  query = "(check-sat)";
  asks = refl;
}

abbrev next_message : Header
next_message =
    (Constant.command, text "incremental")
    ∷ (Constant.name, text "a.smt2")
    ∷ (Constant.node, text "[0, 1]")
    ∷ (Constant.node_, text "[]")
    ∷ []

next_message-IsInput : IsInput "incremental" "a.smt2" "[]" next_message
unfolding lookup item
next_message-IsInput = record {
  commands = refl;
  names = refl;
  leads = refl;
  query = "";
  asks = refl;
}

next_inputs :
    (e : Header × String)
    → Memᴰ e ((next_message, "(pop 1)") ∷ [])
    → (name : String) × (node : String) × IsInput "incremental" name node e.0
next_inputs e (Memᴰ.head same) = rw same ("a.smt2", "[]", next_message-IsInput)
next_inputs e (Memᴰ.tail m) = elim m [ ]

hear_texts_example :
    ((hear_all no_clauses read_none learn_none
        ((solve_message, "(push 1)") ∷ (next_message, "(pop 1)") ∷ [])
        begin).0
      ≡ ok tt)
    × ((hear_all no_clauses read_none learn_none
          ((solve_message, "(push 1)") ∷ (next_message, "(pop 1)") ∷ [])
          begin).1.smt
        ≡ some "(push 1)(pop 1)")
hear_texts_example =
    hear_texts no_clauses read_none learn_none solve_message "(push 1)" "a.smt2" "[0, 1]"
      ((next_message, "(pop 1)") ∷ []) begin solve_message-IsInput next_inputs

-- Node 3 of the sample is the second partition of the root.
report-is_current_example :
    (h : Header) × ((hear no_clauses read_none learn_none solve_message "x" >>= λ _. report "unsat")
        begin
      ≡ (
        ok tt,
        (let s' = (hear no_clauses read_none learn_none solve_message "x" begin).1 in
            record s' { sent = s'.sent ++ (h, "") ∷ [] }),
      ))
    × (is_current six_nodes 3 h ≡ ok true)
unfolding six_nodes root_name Walk.path index show_path
report-is_current_example =
    report-is_current no_clauses read_none learn_none six_nodes 3 "a.smt2" (0 ∷ 1 ∷ [])
      solve_message "x" "unsat" begin refl refl solve_message-IsInput
