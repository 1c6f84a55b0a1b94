-- ===== src/Evaluation/Sources.antt =====
-- The results of a tool, from an event database or from a file of times, by the suffix of its path
-- (the main program of server/mk_scatter.py).
use package.text.Mathlib.Text.{◌==◌ as str_eq}
use smts.Prelude.{
  String, true, false, Option, List, [], ◌∷◌, Result, ok, err, system_exit, ◌>>=◌, ℤ,
}
use smts.Client.{suffix}
use smts.Evaluation.{Floats, Outcomes}
use smts.Evaluation.Benchmarks.{Queries, db2res}
use smts.Evaluation.Files.{times2res}
use smts.Evaluation.Scatter.{Options}
use smts.Evaluation.Scatter.Script.{scatter}

-- What stands on the disk: the answers of the databases, and the lines of the files
pub record Disk : Type 0 where
  pub database : String → Queries
  pub lines : String → List String

module _ {F : Type 0} (fl : Floats F) where
  -- Whole seconds among the other numbers
  unfoldable pub as_numbers : Outcomes ℤ → Outcomes F
  as_numbers [] = []
  as_numbers ((k, o) ∷ d) =
      (k, record { status = o.status; time = fl.of_int o.time; label = o.label }) ∷ as_numbers d

  unfoldable pub read_database : Disk → Option String → String → Result (Outcomes F)
  unfolding as_numbers db2res
  read_database disk attribute path = do
    r ← db2res (disk.database path) attribute
    ok (as_numbers r)

  unfoldable pub load : Disk → Option String → String → Result (Outcomes F)
  unfolding read_database times2res
  load disk attribute path = elim (str_eq (suffix path) ".db") [
    | true ↦ read_database disk attribute path
    | false ↦ times2res fl (disk.lines path) []
  ]

  -- The main program: five arguments or none at all
  unfoldable pub plot : Disk → Options F → List String → Result (List String)
  unfolding load scatter
  plot disk o (x ∷ y ∷ x_label ∷ y_label ∷ output ∷ []) = do
    x_res ← load disk o.attribute x
    y_res ← load disk o.attribute y
    scatter fl o x_res y_res x_label y_label output
  plot disk o _ = err system_exit
