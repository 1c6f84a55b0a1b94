-- ===== src/Tests/Evaluations.antt =====
-- Two tools on a few instances, a small event database, and whole numbers as times.
use Prim.Native.String.append
use package.text.Mathlib.Text.{◌==◌ as str_eq}
use smts.Prelude.{
  has, listed, names, show_int, is_space, no_blank, NodupKeys, string_key, ℕ, suc, ◌+◌, ◌*◌, ◌/◌,
  ◌≤◌, String, Bool, true, not, ◌&&◌, none, some, List, [], ◌∷◌, ◌==◌, ltb, if◌then◌else◌, Result,
  ok, err, lookup, ℤ, pos, negsuc, pos_part, neg_part, sub_ℕ, ◌+ℤ◌, ◌-ℤ◌, show_nat,
  zero_division_error, int, int_from, int-show_nat, ◌≡◌, refl, ◌∙◌, ap, length, filter_by, arith,
}
use smts.Evaluation.Scatter.Script.{is_set}
use smts.Evaluation.{Floats, Outcome, Outcomes}
use smts.Evaluation.Cactus.{curves}
use smts.Evaluation.Cactus.Curves.{by_all, Shows, curves-Shows}
use smts.Evaluation.Files.{write_times, times2res}
use smts.Evaluation.Files.RoundTrip.{
  AllWritten, nil, cons, timed, skipped, read_back, times2res-write_times,
}
use smts.Evaluation.Benchmarks.{Benchmark, Queries, Data, not_started, status_of, db2res}
use smts.Evaluation.Benchmarks.Times.{Recorded, is_started}
use smts.Evaluation.Benchmarks.Times.Positive.{Positive, db2res-Recorded}
use smts.Evaluation.Scatter.{
  is_decided, bounded, solved, solved_both, solved_either, post_proc, group_all, no_points,
}
use smts.Evaluation.Scatter.Counts.Either.{solved_either-bounded}
use smts.Evaluation.Scatter.Points.{
  is_sat, is_unsat, is_unknown, is_contradiction, common, group_all-common,
}

abbrev rest_of : String → String
rest_of String.[] = ""
rest_of (String.◌∷◌ c s) = s

-- `float` of the text of an integer
unfoldable signed : String → Result ℤ
unfolding int
signed s = elim (int s) [
  | ok n ↦ ok (pos n)
  | err e ↦ elim (int (rest_of s)) [ ok n ↦ ok (sub_ℕ 0 n) | err e' ↦ err e' ]
]

signed-show_int : (z : ℤ) → signed (show_int z) ≡ ok z
unfolding signed show_int int int_from
signed-show_int (pos n) = rw (int-show_nat n, signed) refl
signed-show_int (negsuc n) =
    ap signed (
      append.cons "-" String.[] (show_nat (suc n))
      ∙ ap (λ t. String.◌∷◌ "-" t) (append.nil (show_nat (suc n))))
    ∙ rw (int-show_nat (suc n), signed) (ground arith)

below : ℤ → ℤ → Bool
unfolding ◌-ℤ◌
below a b = ltb 0 (pos_part (b -ℤ a))

abbrev equal : ℤ → ℤ → Bool
equal a b = pos_part a == pos_part b && neg_part a == neg_part b

-- Whole numbers, with division that forgets the rest
unfoldable abbrev whole_numbers : Floats ℤ
unfolding ◌+ℤ◌ below show_int
whole_numbers = record {
  of_text = signed;
  of_int = λ z. z;
  add = λ a b. a +ℤ b;
  mul = λ a b.
      sub_ℕ (pos_part a * pos_part b + neg_part a * neg_part b)
        (pos_part a * neg_part b + neg_part a * pos_part b);
  div = λ a b.
      if equal b (pos 0)
      then err zero_division_error
      else ok (pos (pos_part a / (pos_part b + neg_part b)));
  less = below;
  at_most = λ a b. not (below b a);
  same = equal;
  hundredth = pos 1;
  short = show_int;
  long = show_int;
}

abbrev outcome : String → ℤ → Outcome ℤ
outcome status time = record { status = status; time = time; label = none }

abbrev first_tool : Outcomes ℤ
first_tool =
    ("a", outcome "sat" (pos 5))
    ∷ ("b", outcome "unsat" (pos 7))
    ∷ ("c", outcome "sat" (negsuc 0))
    ∷ ("d", outcome "unknown" (negsuc 0))
    ∷ []

abbrev second_tool : Outcomes ℤ
second_tool =
    ("b", outcome "sat" (pos 3))
    ∷ ("a", outcome "unknown" (pos 4))
    ∷ ("c", outcome "sat" (pos 9))
    ∷ ("e", outcome "sat" (pos 2))
    ∷ []

-- Three common names are solved, and one of them is counted twice.
solved_either-bounded_example :
    (solved_both whole_numbers
        (pos 100)
        (post_proc whole_numbers (pos 100) (bounded whole_numbers (pos 100) first_tool))
        (post_proc whole_numbers (pos 100) (bounded whole_numbers (pos 100) second_tool))
      ≤ solved whole_numbers
          (pos 100)
          (bounded whole_numbers (pos 100) first_tool)
          (bounded whole_numbers (pos 100) second_tool)
        + solved whole_numbers
            (pos 100)
            (bounded whole_numbers (pos 100) second_tool)
            (bounded whole_numbers (pos 100) first_tool))
    × (solved_either whole_numbers
          (pos 100)
          (bounded whole_numbers (pos 100) first_tool)
          (bounded whole_numbers (pos 100) second_tool)
        ≡ 3 + 1)
unfolding names has lookup filter_by is_decided whole_numbers
solved_either-bounded_example =
    solved_either-bounded whole_numbers (pos 100) refl first_tool second_tool
      (refl, (refl, (refl, (refl, tt)))) (refl, (refl, (refl, (refl, tt))))

group_all-common_example :
    ((group_all first_tool second_tool no_points).sat_points
      ≡ filter_by is_sat (common first_tool second_tool))
    × ((group_all first_tool second_tool no_points).unsat_points
        ≡ filter_by is_unsat (common first_tool second_tool))
    × ((group_all first_tool second_tool no_points).ukn_points
        ≡ filter_by is_unknown (common first_tool second_tool))
    × ((group_all first_tool second_tool no_points).fail_points
        ≡ filter_by is_contradiction (common first_tool second_tool))
    × (length (group_all first_tool second_tool no_points).sat_points
          + length (group_all first_tool second_tool no_points).unsat_points
          + length (group_all first_tool second_tool no_points).ukn_points
          + length (group_all first_tool second_tool no_points).fail_points
        ≡ length (common first_tool second_tool))
group_all-common_example = group_all-common first_tool second_tool

abbrev report : Data
report = ("report", "sat") ∷ ("node", "[]") ∷ []

-- One instance, solved in the second in which it started, and one that was never started
abbrev two_instances : Queries
two_instances = record {
  is_file = true;
  names = "a.smt2" ∷ "b.smt2" ∷ [];
  first_start = λ n. if str_eq n "a.smt2" then some 20 else none;
  root_status = λ n. some (20, report);
  last_solved = λ n. none;
  next_start = λ n t. none;
  last_event = some 30;
}

the_pair : (p q : ℕ × Data) → some p ≡ some q → q ≡ p
the_pair p q e = cc

two_instances-Recorded : Recorded two_instances
unfolding lookup
two_instances-Recorded = record {
  is_file = refl;
  status_after = λ n s t d started found. (
    ground (arith, started, found),
    "sat",
    ap (lookup "report") (ap (λ (p : ℕ × Data). p.1) (the_pair (20, report) (t, d) found)),
  );
  solved_after = λ n s t d started found. absurd (cc);
  next_after = λ n s t found. absurd (cc);
  last_after = λ n s started. (30, refl, ground (arith, started));
}

db2res-Recorded_example :
    (r : Outcomes ℤ) × (db2res two_instances none ≡ ok r)
    × NodupKeys r
    × Positive r
    × ((k : String)
        → has k r
          ≡ (listed k ("a.smt2" ∷ "b.smt2" ∷ []) && is_started (two_instances.first_start k)))
db2res-Recorded_example = db2res-Recorded two_instances none two_instances-Recorded

abbrev two_benchmarks : List Benchmark
two_benchmarks =
    record {
      name = "a.smt2";
      ts_start = some 20;
      ts_end = some 25;
      info = some (("status", "unsat") ∷ []);
    }
    ∷ record { name = "b.smt2"; ts_start = none; ts_end = none; info = none }
    ∷ []

two_benchmarks-AllWritten : AllWritten two_benchmarks
unfolding not_started status_of lookup no_blank is_space
two_benchmarks-AllWritten =
    cons _ _ (timed 20 25 refl refl refl (refl, refl) (refl, refl)) (cons _ _ (skipped refl) nil)

times2res-write_times_example :
    (ls : List String) × (sum : ℤ) × (write_times none "0" two_benchmarks (pos 0) ≡ ok (ls, sum))
    × (times2res whole_numbers ls [] ≡ ok (read_back whole_numbers two_benchmarks []))
unfolding is_set whole_numbers signed
times2res-write_times_example =
    times2res-write_times whole_numbers signed-show_int none "0" two_benchmarks (pos 0) [] refl
      two_benchmarks-AllWritten

abbrev two_tools : List (String × Outcomes ℤ)
two_tools = ("one", first_tool) ∷ ("two", second_tool) ∷ []

curves-Shows_example : Shows true "c" (by_all true two_tools "c") two_tools (curves true two_tools)
unfolding lookup
curves-Shows_example =
    curves-Shows true two_tools
      ((refl, (refl, (refl, (refl, tt)))), ((refl, (refl, (refl, (refl, tt)))), tt)) "c"
