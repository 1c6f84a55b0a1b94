-- ===== src/Tests/Worlds.antt =====
-- Worlds with solvers.
use smts.Prelude.{
  ℕ, refl, arith, none, some, ◌≡◌, [], ◌∷◌, lookup, index, split_nul, ◌++◌, ◌↔◌, ◌≢◌, ◌%◌,
  string_key,
}
use smts.Tree.Defs.{no_marks, new_or, unknown}
use smts.World.Effects.{◌>>=◌, reads, modify, pure}
use smts.World.Objects.{text, number, Header, World}
use smts.World.Running.{IsRunning}
use smts.Config.{default_config}
use smts.Config.Constant
use smts.Solver.{solve, ask_partitions}
use smts.Solver.Read.{read}
use smts.Solver.Read.{receive_partitions}
use smts.Solver.Read.Partitions.{formulas, assertions, receive_partitions-formulas}
use smts.Config.Parameters.{entrust, default_parameters}
use smts.Config.Parameters.Portfolio.{entrust-sally_iff}
use smts.Protocol.{solves, asked, heard, start, step, Reaches-IsRunning}
use smts.Tests.Sample.{six_nodes, six_nodes-IsForest}

unfoldable abbrev pub idle_world : World
unfolding six_nodes
idle_world = record {
  tree = six_nodes;
  marks = no_marks;
  solvers = λ i. record {
    name = "OpenSMT2";
    node = none;
    started = none;
    or_waiting = [];
    parameters = [];
  };
  config = default_config;
  sent = [];
}

idle_world-IsRunning : IsRunning idle_world
unfolding idle_world
idle_world-IsRunning = record {
  forest = six_nodes-IsForest;
  node_lt = λ i n e. absurd (cc);
  waiting_lt = λ i o m. elim m [ ];
}

unfoldable abbrev pub solving_world : World
unfolding solve idle_world
solving_world = (solve 0 2 [] 100 idle_world).1

unfoldable abbrev pub asking_world : World
unfolding ask_partitions solving_world
asking_world = (ask_partitions 0 2 none solving_world).1

abbrev partitions_report : Header
partitions_report =
    (Constant.report, text Constant.partitions)
    ∷ (Constant.name, text "a.smt2")
    ∷ (Constant.node, text "[0, 0]")
    ∷ []

unfoldable abbrev pub heard_world : World
unfolding read asking_world
heard_world = (read 0 partitions_report (some "x") asking_world).1

-- The new OR node 6 got the one partition.
heard_children : heard_world.tree.children 6 ≡ 7 ∷ []
unfolding heard_world lookup ◌>>=◌ modify reads pure index new_or split_nul
heard_children = refl

Reaches-IsRunning_example : IsRunning heard_world
unfolding heard_world
Reaches-IsRunning_example = Reaches-IsRunning idle_world-IsRunning (
    step (step (step start (solves 0 2 100 [] (omega arith))) (asked 0 2))
      (heard 0 partitions_report (some "x")))

asking_world-IsRunning : IsRunning asking_world
unfolding asking_world
asking_world-IsRunning =
    Reaches-IsRunning idle_world-IsRunning
      (step (step start (solves 0 2 100 [] (omega arith))) (asked 0 2))

receive_partitions-formulas_example :
    (asking_world.marks.status 2 ≡ unknown
      → formulas (receive_partitions 6 [] (some "x") asking_world).1.tree 6
        ≡ formulas asking_world.tree 6 ++ assertions (split_nul "x"))
    × (asking_world.marks.status 2 ≢ unknown
        → (receive_partitions 6 [] (some "x") asking_world).1.tree.children 6 ≡ [])
    × ((receive_partitions 6 [] none asking_world).1.tree.children 6 ≡ [])
unfolding asking_world ◌>>=◌ modify reads pure index new_or
receive_partitions-formulas_example =
    receive_partitions-formulas asking_world 6 2 [] "x" asking_world-IsRunning.forest (omega arith)
      refl refl

entrust-sally_iff_example :
    ((lookup "parameter.opensmt2-itp-lra" (entrust default_parameters (λ k. number 7) "SALLY" 1 [])
        ≡ lookup "parameter.opensmt2-itp-lra"
            (entrust default_parameters (λ k. number 7) "SALLY" 7 []))
      × (lookup "parameter.opensmt2-itp-bool"
            (entrust default_parameters (λ k. number 7) "SALLY" 1 [])
          ≡ lookup "parameter.opensmt2-itp-bool"
              (entrust default_parameters (λ k. number 7) "SALLY" 7 [])))
    ↔ (◌≡◌ {A = ℕ} (1 % 6) (7 % 6))
entrust-sally_iff_example = entrust-sally_iff default_parameters (λ k. number 7) 1 7 [] []
