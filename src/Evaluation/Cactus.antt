-- ===== src/Evaluation/Cactus.antt =====
-- The curves of server/mk_cactus.py: for each tool the times of the instances that all tools have, and the
-- gnuplot script.
pub mod Curves
use package.text.Mathlib.Text.{◌==◌ as str_eq}
use smts.Prelude.{
  has, line, listed, names, ℕ, zero, suc, ◌/◌, ◌==◌, String, Bool, true, false, not, ◌&&◌, ◌||◌,
  Option, none, some, List, [], ◌∷◌, ◌++◌, map, take, drop, filter_by, length, Result, ok, err,
  system_exit, ◌>>=◌, Dict, lookup, string_key, show_nat, if◌then◌else◌,
}
use smts.Instances.{ends_with}
use smts.Client.{suffix}
use smts.Evaluation.{Floats, Outcome, Outcomes}
use smts.Evaluation.Files.{times2res}
use smts.Evaluation.Scatter.{is_decided}
use smts.Evaluation.Sources.{Disk, read_database}

pub record Curve (F : Type 0) : Type 0 where
  pub title : String
  pub values : Outcomes F

pub record Style : Type 0 where
  pub output : Option String
  pub bottom : Bool
  pub only_solved : Bool

module _ {F : Type 0} where
  -- `not options.only_solved or res[k][0] != 'unknown'`
  unfoldable pub is_wanted : Bool → Outcome F → Bool
  is_wanted only_solved o = not only_solved || not (str_eq o.status "unknown")

  -- The names of the first tool that come into question
  unfoldable pub first_files : Bool → Outcomes F → List String
  unfolding is_wanted
  first_files only_solved [] = []
  first_files only_solved ((k, o) ∷ res) =
      if is_wanted only_solved o
      then k ∷ first_files only_solved res
      else first_files only_solved res

  -- The results for those files
  unfoldable pub values_of : Bool → List String → Outcomes F → Outcomes F
  unfolding is_wanted listed
  values_of only_solved files [] = []
  values_of only_solved files ((k, o) ∷ res) =
      if listed k files && is_wanted only_solved o
      then (k, o) ∷ values_of only_solved files res
      else values_of only_solved files res

  -- `files.intersection_update(...)`
  unfoldable pub common_files : List String → Outcomes F → List String
  unfolding has filter_by
  common_files files values = filter_by (λ k. has k values) files

  -- The loop over the tools, behind the first one; `i[0] in files` for the files that are left
  unfoldable pub gather_curves :
      Bool → List String → List (String × Outcomes F) → List String × List (Curve F)
  unfolding values_of common_files
  gather_curves only_solved files [] = (files, [])
  gather_curves only_solved files ((title, res) ∷ tools) =
      let values = values_of only_solved files res in
      let rest = gather_curves only_solved (common_files files values) tools in
      (rest.0, record { title = title; values = values } ∷ rest.1)

  unfoldable pub gather_all_curves :
      Bool → List (String × Outcomes F) → List String × List (Curve F)
  unfolding first_files gather_curves
  gather_all_curves only_solved [] = ([], [])
  gather_all_curves only_solved ((title, res) ∷ tools) =
      gather_curves only_solved (first_files only_solved res) ((title, res) ∷ tools)

  -- `i[0] in files`
  unfoldable pub restrict : List String → Outcomes F → Outcomes F
  unfolding listed
  restrict files [] = []
  restrict files ((k, o) ∷ values) =
      if listed k files then (k, o) ∷ restrict files values else restrict files values

  unfoldable pub restrict_all : List String → List (Curve F) → List (Curve F)
  unfolding restrict
  restrict_all files [] = []
  restrict_all files (c ∷ cs) =
      record { title = c.title; values = restrict files c.values } ∷ restrict_all files cs

  -- The curves before they are sorted
  unfoldable pub curves : Bool → List (String × Outcomes F) → List (Curve F)
  unfolding gather_all_curves restrict_all
  curves only_solved tools =
      let found = gather_all_curves only_solved tools in restrict_all found.0 found.1

module _ {F : Type 0} (fl : Floats F) where
  -- `sorted(values, key=time)`, which keeps the order of equal times
  unfoldable pub put_sorted : String × Outcome F → Outcomes F → Outcomes F
  put_sorted e [] = e ∷ []
  put_sorted e (f ∷ d) =
      let rest = put_sorted e d in if fl.less f.1.time e.1.time then f ∷ rest else e ∷ f ∷ d

  unfoldable pub sorted : Outcomes F → Outcomes F
  unfolding put_sorted
  sorted [] = []
  sorted (e ∷ d) = put_sorted e (sorted d)

  -- The solved instances, numbered from i
  unfoldable pub curve_lines : ℕ → Outcomes F → List String
  unfolding line is_decided show_nat
  curve_lines i [] = "e" ∷ []
  curve_lines i ((k, o) ∷ d) =
      let rest = curve_lines (if is_decided o.status then suc i else i) d in
      if is_decided o.status
      then line (show_nat i ∷ ", " ∷ fl.long o.time ∷ " # " ∷ k ∷ []) ∷ rest
      else rest

  unfoldable pub all_lines : List (Curve F) → List String
  unfolding curve_lines sorted
  all_lines [] = []
  all_lines (c ∷ cs) = curve_lines 1 (sorted c.values) ++ all_lines cs

  -- `','.join(plot_c)`
  unfoldable pub plot_parts : List (Curve F) → List String
  plot_parts [] = []
  plot_parts (c ∷ []) = "\"-\" title \"" ∷ c.title ∷ "\" with linespoints" ∷ []
  plot_parts (c ∷ d ∷ cs) =
      "\"-\" title \"" ∷ c.title ∷ "\" with linespoints" ∷ "," ∷ plot_parts (d ∷ cs)

  unfoldable pub cactus_term : String → List String
  unfolding ends_with
  cactus_term output =
      if ends_with ".ps" output
      then "set term postscript eps enhanced color" ∷ []
      else if ends_with ".tex" output
      then "set term epslatex standalone color" ∷ []
      else if ends_with ".svg" output
      then "set term svg" ∷ []
      else []

  unfoldable pub cactus_script : Bool → String → List (Curve F) → List String
  unfolding line cactus_term plot_parts all_lines
  cactus_script bottom output cs =
      "#!/usr/bin/env gnuplot" ∷ []
      ++ (cactus_term output
          ++ (line ("set output \"" ∷ output ∷ "\"" ∷ [])
              ∷ "set xlabel \"\\\\# solved instances\""
              ∷ "set ylabel \"runtime (sec.)\""
              ∷ "#set logscale y"
              ∷ line ("set key out horiz " ∷ (if bottom then "bottom right" else "top left") ∷ [])
              ∷ "#set key font \",8\""
              ∷ "#set key spacing 3"
              ∷ "#set xrange [0:]"
              ∷ "#set yrange [0:]"
              ∷ line ("plot " ∷ plot_parts cs)
              ∷ all_lines cs))

  unfoldable pub load_curve : Disk → String → Result (Outcomes F)
  unfolding read_database times2res
  load_curve disk path = elim (str_eq (suffix path) ".times") [
    | true ↦ times2res fl (disk.lines path) []
    | false ↦ read_database fl disk none path
  ]

  -- The first half of the arguments are the files, the second half their labels.
  unfoldable pub load_all : Disk → List String → List String → Result (List (String × Outcomes F))
  unfolding load_curve
  load_all disk [] titles = ok []
  load_all disk (path ∷ paths) [] = ok []
  load_all disk (path ∷ paths) (title ∷ titles) = do
    res ← load_curve disk path
    rest ← load_all disk paths titles
    ok ((title, res) ∷ rest)

  unfoldable pub cactus : Disk → Style → List String → Result (List String)
  unfolding load_all curves cactus_script
  cactus disk style args = elim style.output [
    | none ↦ err system_exit
    | some output ↦ (do
      let half = length args / 2
      tools ← load_all disk (take half args) (drop half args)
      ok (cactus_script style.bottom output (curves style.only_solved tools)))
  ]
