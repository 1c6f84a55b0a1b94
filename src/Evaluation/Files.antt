-- ===== src/Evaluation/Files.antt =====
-- The files of times: what `main` of server/sql2times.py writes for a database, and `times2res`
-- (server/mk_scatter.py), which reads it.
pub mod RoundTrip
use package.text.Mathlib.Text.{◌==◌ as str_eq}
use Prim.Native.String.{◌++◌ as join}
use smts.Prelude.{
  line, show_int, ℕ, suc, ◌-◌, String, Bool, true, false, ◌&&◌, ◌||◌, Option, none, some, List, [],
  ◌∷◌, ◌==◌, leb, if◌then◌else◌, Result, ok, err, index_error, ◌>>=◌, Dict, lookup, insert,
  string_key, ℤ, pos, negsuc, ◌+ℤ◌, show_nat, words,
}
use smts.Evaluation.{Floats, Outcome, Outcomes}
use smts.Client.{front_of, stem}
use smts.Evaluation.Benchmarks.{
  Queries, get_benchmarks, Benchmark, status_of, duration, not_started,
}
use smts.Evaluation.Scatter.Script.{is_set}

-- The third column: the time, or the entry that the option names
unfoldable pub third : Option String → String → Benchmark → Result String
unfolding is_set duration show_int lookup
third col coldef b = elim (is_set col) [
  | false ↦ do t ← duration b; ok (show_int t)
  | true ↦ ok (elim col [
    | none ↦ coldef
    | some c ↦ elim b.info [
      | none ↦ coldef
      | some d ↦ elim (lookup c d) [ none ↦ coldef | some text ↦ text ]
    ]
  ])
]

unfoldable pub times_line : Option String → String → Benchmark → Result String
unfolding third status_of
times_line col coldef b = do
  column ← third col coldef b
  ok (join b.name (join " " (join (status_of b) (join " " (join column "\n")))))

-- The lines of the file, and the total time
unfoldable pub write_times : Option String → String → List Benchmark → ℤ → Result (List String × ℤ)
unfolding times_line duration not_started ◌+ℤ◌
write_times col coldef [] total = ok ([], total)
write_times col coldef (b ∷ bs) total = elim (not_started b) [
  | true ↦ write_times col coldef bs total
  | false ↦ elim (times_line col coldef b) [
    | err e ↦ err e
    | ok l ↦ elim (duration b) [
      | err e ↦ err e
      | ok t ↦ elim (write_times col coldef bs (total +ℤ t)) [
        | err e ↦ err e
        | ok (ls, sum) ↦ ok (l ∷ ls, sum)
      ]
    ]
  ]
]

-- A file of times, with the total that is printed
pub record TimesFile : Type 0 where
  pub path : String
  pub lines : List String
  pub total : ℤ

-- The main program: a database that cannot be read is passed over.
unfoldable pub dump :
    (String → Queries) → Option String → String → List String → Result (List TimesFile)
unfolding get_benchmarks write_times front_of line
dump database col coldef [] = ok []
dump database col coldef (arg ∷ args) = elim (get_benchmarks (database arg)) [
  | err e ↦ dump database col coldef args
  | ok bs ↦ elim (write_times col coldef bs (pos 0)) [
    | err e ↦ err e
    | ok (ls, sum) ↦ elim (dump database col coldef args) [
      | err e ↦ err e
      | ok files ↦ ok (
          record { path = line (front_of arg ∷ stem arg ∷ ".times" ∷ []); lines = ls; total = sum }
          ∷ files)
    ]
  ]
]

module _ {F : Type 0} (fl : Floats F) where
  -- `float(time)`, or -1 where there is no time or it is not to be used
  unfoldable pub read_time : String → List String → Result F
  read_time status columns =
      if str_eq status "unknown" || str_eq status "indet"
      then ok (fl.of_int (negsuc 0))
      else elim columns [ [] ↦ ok (fl.of_int (negsuc 0)) | text ∷ _ ↦ fl.of_text text ]

  -- The columns of a line
  unfoldable pub read_columns : List String → Result (String × Outcome F)
  unfolding read_time
  read_columns [] = err index_error
  read_columns (name ∷ []) = err index_error
  read_columns (name ∷ status ∷ columns) = do
    t ← read_time status columns
    ok (name, record { status = status; time = t; label = none })

  -- The loop of `times2res`
  unfoldable pub times2res : List String → Outcomes F → Result (Outcomes F)
  unfolding read_columns words insert
  times2res [] h_out = ok h_out
  times2res (l ∷ ls) h_out = elim (read_columns (words l)) [
    | err e ↦ err e
    | ok (name, o) ↦ times2res ls (insert name o h_out)
  ]
