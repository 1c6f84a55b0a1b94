-- ===== src/Evaluation/Files/RoundTrip.antt =====
-- A file of times is read back as it was written.
use Prim.Native.String.{◌++◌ as join}
use package.text.Mathlib.Text.{◌==◌ as str_eq}
use smts.Prelude.{
  show_int, ℕ, suc, String, true, false, ◌||◌, Option, none, some, List, [], ◌∷◌, if◌then◌else◌, ok,
  insert, string_key, ℤ, sub_ℕ, pos, negsuc, ◌+ℤ◌, ◌≡◌, refl, ◌∙◌, ap, Bool-cases, inl, inr, words,
  words-line, show_nat-IsWord, signed-IsWord, IsWord,
}
use smts.Evaluation.{Floats, Outcome, Outcomes}
use smts.Evaluation.Scatter.Script.{is_set}
use smts.Evaluation.Benchmarks.{Benchmark, status_of, duration, not_started}
use smts.Evaluation.Files.{third, times_line, write_times, read_time, read_columns, times2res}

-- Not started, or with a start and an end, and a name and a status without blanks
pub data Written (b : Benchmark) : Type 0 where
  skipped : not_started b ≡ true → Written b
  timed :
      (s t : ℕ)
      → not_started b ≡ false
      → b.ts_start ≡ some s
      → b.ts_end ≡ some t
      → IsWord b.name
      → IsWord (status_of b)
      → Written b

pub data AllWritten : List Benchmark → Type 0 where
  nil : AllWritten []
  cons : (b : Benchmark) (bs : List Benchmark) → Written b → AllWritten bs → AllWritten (b ∷ bs)

-- The seconds between the start and the end
unfoldable pub elapsed : Benchmark → ℤ
elapsed b = elim b.ts_start [
  | none ↦ pos 0
  | some s ↦ elim b.ts_end [ none ↦ pos 0 | some t ↦ sub_ℕ t s ]
]

show_int-IsWord : (z : ℤ) → IsWord (show_int z)
unfolding show_int
show_int-IsWord (pos n) = show_nat-IsWord n
show_int-IsWord (negsuc n) = signed-IsWord (suc n)

-- A line of words
line_of : Benchmark → String
line_of b =
    join b.name (join " " (join (status_of b) (join " " (join (show_int (elapsed b)) "\n"))))

duration-elapsed :
    (b : Benchmark) (s t : ℕ)
    → b.ts_start ≡ some s
    → b.ts_end ≡ some t
    → duration b ≡ ok (elapsed b)
unfolding duration elapsed
duration-elapsed b s t start end = rw (start, end, duration, elapsed) refl

times_line-line_of :
    (col : Option String) (coldef : String) (b : Benchmark)
    → is_set col ≡ false
    → duration b ≡ ok (elapsed b)
    → times_line col coldef b ≡ ok (line_of b)
unfolding times_line third line_of
times_line-line_of col coldef b unset lasted = rw (unset, lasted, times_line, third) refl

module _ {F : Type 0} (fl : Floats F) where
  -- What stands in the file for a benchmark
  unfoldable pub recorded : Benchmark → Outcome F
  unfolding elapsed
  recorded b = record {
    status = status_of b;
    time =
        if str_eq (status_of b) "unknown" || str_eq (status_of b) "indet"
        then fl.of_int (negsuc 0)
        else fl.of_int (elapsed b);
    label = none;
  }

  unfoldable pub read_back : List Benchmark → Outcomes F → Outcomes F
  unfolding recorded insert not_started
  read_back [] out = out
  read_back (b ∷ bs) out =
      read_back bs (if not_started b then out else insert b.name (recorded b) out)

  module _ (reads : (z : ℤ) → fl.of_text (show_int z) ≡ ok (fl.of_int z)) where
    read_time-show_int :
        (status : String) (z : ℤ)
        → read_time fl status (show_int z ∷ [])
          ≡ ok (
              if str_eq status "unknown" || str_eq status "indet"
              then fl.of_int (negsuc 0)
              else fl.of_int z)
    unfolding read_time
    read_time-show_int status z =
        elim (Bool-cases (str_eq status "unknown" || str_eq status "indet")) [
          | inl e ↦ rw e refl
          | inr e ↦ rw e (reads z)
        ]

    read_columns-line_of :
        (b : Benchmark)
        → IsWord b.name
        → IsWord (status_of b)
        → read_columns fl (words (line_of b)) ≡ ok (b.name, recorded b)
    unfolding line_of read_columns recorded
    read_columns-line_of b is_name is_status =
        ap (read_columns fl) (
          words-line b.name (status_of b) (show_int (elapsed b)) is_name is_status
            (show_int-IsWord (elapsed b)))
        ∙ rw (read_time-show_int (status_of b) (elapsed b)) refl

    -- The lines that are written for benchmarks whose names and statuses are words, without the option
    -- for the third column, are read back without an error: a benchmark that was not started is missing,
    -- and each other one has its status and the seconds between its start and its end, or -1 where the
    -- status is `unknown` or `indet`. `float` reads back an integer that was printed.
    pub times2res-write_times :
        (col : Option String) (coldef : String) (bs : List Benchmark) (total : ℤ) (out : Outcomes F)
        → is_set col ≡ false
        → AllWritten bs
        → (ls : List String) × (sum : ℤ) × (write_times col coldef bs total ≡ ok (ls, sum))
          × (times2res fl ls out ≡ ok (read_back bs out))
    unfolding write_times times2res read_back
    times2res-write_times col coldef [] total out unset nil = ([], total, refl, refl)
    times2res-write_times col coldef (b ∷ bs) total out unset (cons _ _ (skipped not_begun) rest) =
        let (ls, sum, wrote, read) = times2res-write_times col coldef bs total out unset rest in
        (ls, sum, rw (not_begun, write_times) wrote, rw (not_begun, read_back) read)
    times2res-write_times col coldef (b ∷ bs) total out unset
          (cons _ _ (timed s t begun start end is_name is_status) rest) =
        let lasted = duration-elapsed b s t start end in
        let line = times_line-line_of col coldef b unset lasted in
        let (ls, sum, wrote, read) =
          times2res-write_times col coldef bs (total +ℤ elapsed b) (insert b.name (recorded b) out)
            unset rest in
        (
          line_of b ∷ ls,
          sum,
          rw (begun, line, lasted, wrote, write_times) refl,
          rw (read_columns-line_of b is_name is_status, begun, times2res, read_back) read,
        )
