-- ===== src/Tests/Typed.antt =====
-- Messages that fit their commands.
use smts.Prelude.{ℕ, refl, arith, String, [], ◌∷◌, lookup, string_key}
use smts.World.Objects.{text, number, path, Header}
use smts.Config.Constant
use smts.Solver.{solve, stop}
use smts.Protocol.{solves, stopped, start, step}
use smts.Protocol.Messages.{Reaches-AllTyped}
use smts.Protocol.Messages.Entries.{AllTyped, is_typed}
use smts.Protocol.Delivery.{deliver}
use smts.Dummy.{begin, hear}
use smts.Dummy.Typed.{Hears, hear-IsTyped}
use smts.Tests.Sample.{six_nodes}
use smts.Tests.Worlds.{idle_world}
use smts.Tests.Dummies.{no_clauses, read_none, learn_none}

Reaches-AllTyped_example : AllTyped (stop 0 (solve 0 2 [] 100 idle_world).1).1
unfolding idle_world six_nodes
Reaches-AllTyped_example =
    Reaches-AllTyped {w = idle_world} (λ m k. elim k [ ])
      (step (step start (solves 0 2 100 [] (omega arith))) (stopped 0))

abbrev partition_header : Header
partition_header =
    (Constant.command, text "partition")
    ∷ (Constant.name, text "a.smt2")
    ∷ (Constant.node, path (0 ∷ 1 ∷ []))
    ∷ (Constant.query, text "(check-sat)")
    ∷ (Constant.partitions, number 8)
    ∷ []

abbrev no_text : ℕ → String
no_text n = ""

hear-IsTyped_example :
    Hears "partition" begin
      (hear no_clauses read_none learn_none (deliver no_text partition_header) "" begin).0
unfolding is_typed lookup
hear-IsTyped_example =
    hear-IsTyped no_text no_clauses read_none learn_none partition_header "partition" "" begin refl
      refl
