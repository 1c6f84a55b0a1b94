-- ===== src/Evaluation/Benchmarks.antt =====
-- `get_benchmarks` (server/sql2times.py) and `db2res` (server/mk_scatter.py). What the queries return is
-- an argument: the rows with their data read as JSON, whose entries are texts.
pub mod Times
use package.text.Mathlib.Text.{◌==◌ as str_eq}
use smts.Prelude.{
  ℕ, zero, suc, ◌-◌, String, Bool, true, false, not, Option, none, some, List, [], ◌∷◌, ◌==◌,
  if◌then◌else◌, Result, ok, err, key_error, type_error, value_error, or_raise, ◌>>=◌, Dict, lookup,
  insert, string_key, ℤ, pos, sub_ℕ,
}
use smts.Evaluation.{Outcome, Outcomes}

abbrev pub Data : Type 0
Data = Dict String String

pub record Benchmark : Type 0 where
  pub name : String
  pub ts_start : Option ℕ
  pub ts_end : Option ℕ
  pub info : Option Data

-- The queries to the table `SolvingHistory`, in their order
pub record Queries : Type 0 where
  -- The path is that of a file.
  pub is_file : Bool
  pub names : List String
  pub first_start : String → Option ℕ
  pub root_status : String → Option (ℕ × Data)
  pub last_solved : String → Option (ℕ × Data)
  pub next_start : String → ℕ → Option ℕ
  pub last_event : Option ℕ

-- `data['status'] = data['report']`
unfoldable pub with_status : Data → Result Data
unfolding lookup insert
with_status d = elim (lookup "report" d) [
  | none ↦ err key_error
  | some r ↦ ok (insert "status" r d)
]

module _ (db : Queries) where
  -- The result of the root, and when it came
  unfoldable pub solved_row : String → Result (Option (ℕ × Data))
  unfolding with_status lookup
  solved_row name = elim (db.root_status name) [
    | some (ts, d) ↦ elim (with_status d) [ err e ↦ err e | ok d' ↦ ok (some (ts, d')) ]
    | none ↦ elim (db.last_solved name) [
      | none ↦ ok none
      | some (ts, d) ↦ elim (lookup "node" d) [
        | none ↦ err key_error
        | some n ↦ ok (if str_eq n "[]" then some (ts, d) else none)
      ]
    ]
  ]

  -- One round of the loop
  unfoldable pub measure : String → Result Benchmark
  unfolding solved_row
  measure name = elim (db.first_start name) [
    | none ↦ ok (record { name = name; ts_start = none; ts_end = none; info = none })
    | some start ↦ elim (solved_row name) [
      | err e ↦ err e
      | ok (some (ts, d)) ↦
          ok (record { name = name; ts_start = some start; ts_end = some ts; info = some d })
      | ok none ↦ ok (record {
        name = name;
        ts_start = some start;
        ts_end = elim (db.next_start name start) [ some ts ↦ some ts | none ↦ db.last_event ];
        info = none;
      })
    ]
  ]

  unfoldable pub measure_all : List String → Result (List Benchmark)
  unfolding measure
  measure_all [] = ok []
  measure_all (n ∷ ns) = do b ← measure n; bs ← measure_all ns; ok (b ∷ bs)

  unfoldable pub get_benchmarks : Result (List Benchmark)
  unfolding measure_all
  get_benchmarks = if db.is_file then measure_all db.names else err value_error

-- `Benchmark.status`
unfoldable pub status_of : Benchmark → String
unfolding lookup
status_of b = elim b.info [
  | none ↦ "unknown"
  | some d ↦ elim (lookup "status" d) [ none ↦ "unknown" | some s ↦ s ]
]

-- `benchmark.ts_end - benchmark.ts_start`
unfoldable pub duration : Benchmark → Result ℤ
duration b = do
  start ← or_raise type_error b.ts_start
  end ← or_raise type_error b.ts_end
  ok (sub_ℕ end start)

-- `not benchmark.ts_start`
unfoldable pub not_started : Benchmark → Bool
not_started b = elim b.ts_start [ none ↦ true | some t ↦ t == 0 ]

abbrev pub is_zero : ℤ → Bool
is_zero (pos n) = n == 0
is_zero _ = false

-- `[status, t]`, with the attribute if there is one; an instance that took no second took one.
unfoldable pub outcome_of : Option String → Benchmark → ℤ → Outcome ℤ
unfolding status_of lookup
outcome_of attribute b t = record {
  status = status_of b;
  time = if is_zero t then pos 1 else t;
  label = elim attribute [
    | none ↦ none
    | some a ↦ elim b.info [ none ↦ none | some d ↦ lookup a d ]
  ];
}

unfoldable pub db_outcome : Option String → Benchmark → Result (Outcome ℤ)
unfolding duration outcome_of
db_outcome attribute b = do t ← duration b; ok (outcome_of attribute b t)

-- The loop of `db2res`
unfoldable pub db_outcomes : Option String → List Benchmark → Outcomes ℤ → Result (Outcomes ℤ)
unfolding db_outcome not_started insert
db_outcomes attribute [] res = ok res
db_outcomes attribute (b ∷ bs) res = elim (not_started b) [
  | true ↦ db_outcomes attribute bs res
  | false ↦ elim (db_outcome attribute b) [
    | err e ↦ err e
    | ok o ↦ db_outcomes attribute bs (insert b.name o res)
  ]
]

unfoldable pub db2res : Queries → Option String → Result (Outcomes ℤ)
unfolding get_benchmarks db_outcomes
db2res db attribute = do bs ← get_benchmarks db; db_outcomes attribute bs []
