-- ===== src/Evaluation/Benchmarks/Times/Positive.antt =====
-- The times that `db2res` returns, and the names that it returns them for.
use package.text.Mathlib.Text.{◌==◌ as str_eq}
use smts.Prelude.{
  has-insert, has, listed, ℕ, suc, ◌-◌, ◌≤◌, String, Bool, ◌&&◌, ◌||◌, Option, some, List, [], ◌∷◌,
  if◌then◌else◌, ok, lookup, insert, string_key, ℤ, pos, sub_ℕ, NodupKeys, NodupKeys-insert,
  lookup-insert, ◌≡◌, refl, sym, ◌∙◌, ap, arith, Bool-cases, inl, inr,
}
use smts.Evaluation.{Outcome, Outcomes}
use smts.Evaluation.Benchmarks.{
  Benchmark, Queries, get_benchmarks, duration, not_started, is_zero, outcome_of, db_outcome,
  db_outcomes, db2res,
}
use smts.Evaluation.Benchmarks.Times.{
  Recorded, unstarted, timed, AllMeasured, nil, cons, is_started, started_in, measure_all-Recorded,
}

-- Every time is a positive number of seconds.
abbrev pub Positive : Outcomes ℤ → Type 0
Positive r = (k : String) (o : Outcome ℤ) → lookup k r ≡ some o → (n : ℕ) × (o.time ≡ pos (suc n))

at_least_one :
    (s t : ℕ) → s ≤ t → (n : ℕ) × ((if is_zero (sub_ℕ t s) then pos 1 else sub_ℕ t s) ≡ pos (suc n))
at_least_one s t late = (t - s - 1, ground arith)

db_outcome-timed :
    (attribute : Option String) (b : Benchmark) (s t : ℕ)
    → b.ts_start ≡ some s
    → b.ts_end ≡ some t
    → s ≤ t
    → (o : Outcome ℤ) × (n : ℕ) × (db_outcome attribute b ≡ ok o) × (o.time ≡ pos (suc n))
unfolding db_outcome duration outcome_of
db_outcome-timed attribute b s t start end late =
    let (n, positive) = at_least_one s t late in
    (outcome_of attribute b (sub_ℕ t s), n, rw (start, end, db_outcome, duration) refl, positive)

Positive-insert :
    (k : String) (o : Outcome ℤ) (n : ℕ) (r : Outcomes ℤ)
    → o.time ≡ pos (suc n)
    → Positive r
    → Positive (insert k o r)
Positive-insert k o n r new old j o' found = elim (Bool-cases (str_eq k j)) [
  | inl is ↦
      let same : o ≡ o' = ground (arith, lookup-insert k j o r, is, found) in
      (n, ap (λ (v : Outcome ℤ). v.time) (sym same) ∙ new)
  | inr other ↦ old j o' (ground (arith, lookup-insert k j o r, other, found))
]

-- The loop of `db2res`
db_outcomes-AllMeasured :
    (attribute : Option String) (bs : List Benchmark)
    → AllMeasured bs
    → (res : Outcomes ℤ) → NodupKeys res
    → Positive res
    → (r : Outcomes ℤ) × (db_outcomes attribute bs res ≡ ok r)
      × NodupKeys r
      × Positive r
      × ((k : String) → has k r ≡ (has k res || started_in bs k))
unfolding db_outcomes started_in not_started
db_outcomes-AllMeasured attribute [] nil res nodup positive =
    (res, refl, nodup, positive, λ k. ground arith)
db_outcomes-AllMeasured attribute (b ∷ bs) (cons _ _ fine all_fine) res nodup positive =
    elim (Bool-cases (not_started b)) [
      | inl skipped ↦
          let (r, run, nodup', positive', names) =
            db_outcomes-AllMeasured attribute bs all_fine res nodup positive in
          (
            r,
            rw (skipped, db_outcomes) run,
            nodup',
            positive',
            λ k. ground (arith, names k, skipped),
          )
      | inr started ↦ elim fine [
        | unstarted none_yet ↦ absurd (ground (arith, started, none_yet))
        | timed s t start end late ↦
            let (o, n, measured, time) = db_outcome-timed attribute b s t start end late in
            let (r, run, nodup', positive', names) =
              db_outcomes-AllMeasured attribute bs all_fine (insert b.name o res)
                (NodupKeys-insert b.name o res nodup)
                (Positive-insert b.name o n res time positive) in
            (
              r,
              rw (started, measured, db_outcomes) run,
              nodup',
              positive',
              λ k. ground (arith, names k, has-insert b.name k o res, started),
            )
      ]
    ]

-- For a database where each result has its fields and does not come before the start, `db2res` returns a
-- dict with distinct keys. They are the names in the database whose first start has a time other than 0,
-- and each time in the dict is a positive number of seconds, although an instance may have ended in the
-- second in which it started.
pub db2res-Recorded :
    (db : Queries) (attribute : Option String)
    → Recorded db
    → (r : Outcomes ℤ) × (db2res db attribute ≡ ok r)
      × NodupKeys r
      × Positive r
      × ((k : String) → has k r ≡ (listed k db.names && is_started (db.first_start k)))
unfolding db2res get_benchmarks has
db2res-Recorded db attribute recorded =
    let (bs, rows, fine, same) = measure_all-Recorded db recorded db.names in
    let (r, run, nodup, positive, names) =
      db_outcomes-AllMeasured attribute bs fine [] tt (λ k o found. absurd (no_entry k o found)) in
    (
      r,
      rw (recorded.is_file, rows, db2res, get_benchmarks) run,
      nodup,
      positive,
      λ k. names k ∙ empty_or k (started_in bs k) ∙ same k,
    )
  where
    no_entry : (k : String) (o : Outcome ℤ) → lookup k [] ≡ some o → ⊥
    no_entry k o found = cc

    empty_or : (k : String) (b : Bool) → (has {V = Outcome ℤ} k [] || b) ≡ b
    empty_or k b = refl
