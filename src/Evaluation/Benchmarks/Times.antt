-- ===== src/Evaluation/Benchmarks/Times.antt =====
-- What `db2res` (server/mk_scatter.py) makes of an event database that the server wrote.
pub mod Positive
use package.text.Mathlib.Text.{◌==◌ as str_eq}
use package.text.Mathlib.TextEquality.{eq_iff}
use smts.Prelude.{
  has, listed, ℕ, zero, suc, ◌-◌, ◌≤◌, ◌+◌, String, Bool, true, false, not, ◌&&◌, ◌||◌, Option,
  none, some, List, [], ◌∷◌, ◌==◌, leb, if◌then◌else◌, Result, ok, err, or_raise, ◌>>=◌, Dict,
  lookup, insert, string_key, ℤ, pos, sub_ℕ, NodupKeys, NodupKeys-insert, lookup-insert, ◌≡◌, ◌≢◌,
  ◌⊎◌, inl, inr, refl, sym, ◌∙◌, ap, arith, Bool-cases, Option-cases,
}
use smts.Evaluation.{Outcome, Outcomes}
use smts.Evaluation.Benchmarks.{
  Data, Benchmark, Queries, with_status, solved_row, measure, measure_all, get_benchmarks,
  status_of, duration, not_started, is_zero, db_outcome, db_outcomes, db2res,
}

-- A database of the server: a result has the fields that the code reads and does not come before the
-- start, the next start is not before this one, and there is an event no start is after.
pub record Recorded (db : Queries) : Type 0 where
  pub is_file : db.is_file ≡ true
  pub status_after :
      (name : String) (s t : ℕ) (d : Data)
      → db.first_start name ≡ some s
      → db.root_status name ≡ some (t, d)
      → (s ≤ t) × (r : String) × (lookup "report" d ≡ some r)
  pub solved_after :
      (name : String) (s t : ℕ) (d : Data)
      → db.first_start name ≡ some s
      → db.last_solved name ≡ some (t, d)
      → (s ≤ t) × (n : String) × (lookup "node" d ≡ some n)
  pub next_after : (name : String) (s t : ℕ) → db.next_start name s ≡ some t → s ≤ t
  pub last_after :
      (name : String) (s : ℕ)
      → db.first_start name ≡ some s
      → (t : ℕ) × (db.last_event ≡ some t) × (s ≤ t)

-- Not started, or with an end that is not before its start
pub data Measured (b : Benchmark) : Type 0 where
  unstarted : b.ts_start ≡ none → Measured b
  timed : (s t : ℕ) → b.ts_start ≡ some s → b.ts_end ≡ some t → s ≤ t → Measured b

pub data AllMeasured : List Benchmark → Type 0 where
  nil : AllMeasured []
  cons : (b : Benchmark) (bs : List Benchmark) → Measured b → AllMeasured bs → AllMeasured (b ∷ bs)

solved_row-Recorded :
    (db : Queries)
    → Recorded db
    → (name : String) (s : ℕ) → db.first_start name ≡ some s
    → (solved_row db name ≡ ok none)
      ⊎ ((t : ℕ) × (d : Data) × (solved_row db name ≡ ok (some (t, d))) × (s ≤ t))
unfolding solved_row with_status
solved_row-Recorded db recorded name s started = elim (Option-cases (db.root_status name)) [
  | inr ((t, d), e) ↦
      let (after, r, has_report) = recorded.status_after name s t d started e in
      inr (t, insert "status" r d, rw (e, solved_row, with_status, has_report) refl, after)
  | inl e ↦ elim (Option-cases (db.last_solved name)) [
    | inl e' ↦ inl (rw (e, e', solved_row) refl)
    | inr ((t, d), e') ↦
        let (after, n, has_node) = recorded.solved_after name s t d started e' in
        elim (Bool-cases (str_eq n "[]")) [
          | inl root ↦ inr (t, d, rw (e, e', has_node, root, solved_row) refl, after)
          | inr other ↦ inl (rw (e, e', has_node, other, solved_row) refl)
        ]
  ]
]

measure-Recorded :
    (db : Queries)
    → Recorded db
    → (name : String)
    → (b : Benchmark) × (measure db name ≡ ok b)
      × Measured b
      × (b.name ≡ name)
      × (b.ts_start ≡ db.first_start name)
unfolding measure
measure-Recorded db recorded name = elim (Option-cases (db.first_start name)) [
  | inl e ↦
      let b : Benchmark = record { name = name; ts_start = none; ts_end = none; info = none } in
      (b, rw (e, measure) refl, unstarted refl, refl, sym e)
  | inr (s, e) ↦ elim (solved_row-Recorded db recorded name s e) [
    | inr (t, d, row, after) ↦
        let b : Benchmark = record {
          name = name;
          ts_start = some s;
          ts_end = some t;
          info = some d;
        } in
        (b, rw (e, row, measure) refl, timed s t refl refl after, refl, sym e)
    | inl row ↦
        let (last, is_last, last_late) = recorded.last_after name s e in
        elim (Option-cases (db.next_start name s)) [
          | inr (t, next) ↦
              let b : Benchmark = record {
                name = name;
                ts_start = some s;
                ts_end = some t;
                info = none;
              } in
              (
                b,
                rw (e, row, next, measure) refl,
                timed s t refl refl (recorded.next_after name s t next),
                refl,
                sym e,
              )
          | inl next ↦
              let b : Benchmark = record {
                name = name;
                ts_start = some s;
                ts_end = some last;
                info = none;
              } in
              (
                b,
                rw (e, row, next, is_last, measure) refl,
                timed s last refl refl last_late,
                refl,
                sym e,
              )
        ]
  ]
]

-- Whether a name stands for a start
abbrev pub is_started : Option ℕ → Bool
is_started o = elim o [ none ↦ false | some t ↦ not (t == 0) ]

-- One of the benchmarks has the name and was started.
unfoldable pub started_in : List Benchmark → String → Bool
unfolding not_started
started_in [] k = false
started_in (b ∷ bs) k = (str_eq b.name k && not (not_started b)) || started_in bs k

not_started-is_started : (b : Benchmark) → not (not_started b) ≡ is_started b.ts_start
unfolding not_started
not_started-is_started b = elim (Option-cases b.ts_start) [
  | inl e ↦ rw (e, not_started, is_started) refl
  | inr (t, e) ↦ rw (e, not_started, is_started) refl
]

pub measure_all-Recorded :
    (db : Queries)
    → Recorded db
    → (ns : List String)
    → (bs : List Benchmark) × (measure_all db ns ≡ ok bs)
      × AllMeasured bs
      × ((k : String) → started_in bs k ≡ (listed k ns && is_started (db.first_start k)))
unfolding measure_all started_in listed
measure_all-Recorded db recorded [] = ([], refl, nil, λ k. refl)
measure_all-Recorded db recorded (n ∷ ns) =
    let (b, first, fine, named, start) = measure-Recorded db recorded n in
    let (bs, rest, all_fine, same) = measure_all-Recorded db recorded ns in
    (
      b ∷ bs,
      rw first (rw rest refl),
      cons b bs fine all_fine,
      λ k. elim (Bool-cases (str_eq n k)) [
        | inl is ↦
            let e : db.first_start n ≡ db.first_start k = ap db.first_start ((eq_iff n k).0 is) in
            let here = not_started-is_started b ∙ ap is_started (start ∙ e) in
            ground (arith, is, ap (λ j. str_eq j k) named, here, same k)
        | inr other ↦ ground (arith, other, ap (λ j. str_eq j k) named, same k)
      ],
    )
