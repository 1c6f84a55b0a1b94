-- ===== src/Evaluation/Scatter/Script.antt =====
-- The gnuplot script that server/mk_scatter.py prints, line by line. When the script raises, what it has
-- printed before is lost here.
use smts.Prelude.{
  line, ℕ, suc, String, Bool, true, false, Option, none, some, List, [], ◌∷◌, ◌++◌, length,
  is_empty, Result, ok, err, value_error, system_exit, ◌>>=◌, lookup, string_key, pos, show_nat,
  if◌then◌else◌,
}
use smts.Instances.{ends_with}
use smts.Evaluation.{Floats, Outcomes}
use smts.Evaluation.Scatter.{
  Options, Point, Groups, no_points, compare_all, bounded, solved, solved_both, solved_either,
  post_proc, group_all,
}

-- `set term`, by the suffix of the output
unfoldable pub term_lines : String → List String
unfolding ends_with
term_lines output =
    if ends_with ".ps" output
    then "set term postscript" ∷ []
    else if ends_with ".tex" output
    then "set term epslatex standalone color" ∷ []
    else if ends_with ".svg" output
    then "set term svg" ∷ []
    else []

abbrev pub plot_line : String
plot_line =
    "plot x title \"\" lc \"black\", \"-\" title \"\" with point pointtype 2 lc \"black\", \"-\" title \"\" with points pointtype 4 lc \"black\", \"-\" title \"\" with points pointtype 3 lc \"black\", \"-\" title \"\" with points pointtype 5 lc 1"

-- `if options.attribute`
unfoldable pub is_set : Option String → Bool
is_set none = false
is_set (some s) = elim (is_empty s) [ true ↦ false | false ↦ true ]

module _ {F : Type 0} (fl : Floats F) where
  unfoldable pub axis_lines : Options F → F → String → String → String → List String
  unfolding line term_lines
  axis_lines o bnd output x_label y_label =
      "#!/usr/bin/env gnuplot" ∷ []
      ++ (term_lines output
          ++ line ("set output \"" ∷ output ∷ "\"" ∷ [])
            ∷ "set size square"
            ∷ line ("set xlabel \"" ∷ x_label ∷ "\"" ∷ [])
            ∷ line ("set ylabel \"" ∷ y_label ∷ "\"" ∷ [])
            ∷ "set logscale x"
            ∷ "set logscale y"
            ∷ "set key right bottom"
            ∷ line ("set xrange [" ∷ fl.long o.min ∷ ":" ∷ fl.long bnd ∷ "]" ∷ [])
            ∷ line ("set yrange [" ∷ fl.long o.min ∷ ":" ∷ fl.long bnd ∷ "]" ∷ [])
            ∷ "set pointsize 1.5"
            ∷ line (
                "set arrow from graph 0, first "
                ∷ fl.long o.max
                ∷ " to "
                ∷ fl.long o.max
                ∷ ","
                ∷ fl.long o.max
                ∷ " nohead"
                ∷ [])
            ∷ line (
                "set arrow from "
                ∷ fl.long o.max
                ∷ ", graph 0 to "
                ∷ fl.long o.max
                ∷ ","
                ∷ fl.long o.max
                ∷ " nohead"
                ∷ [])
            ∷ line (
                "set arrow from "
                ∷ fl.long bnd
                ∷ ", graph 0 to graph 1.05, graph -.05 backhead"
                ∷ [])
            ∷ "set label \"timeout\" at graph 1.05, graph -0.06"
            ∷ [])

  unfoldable pub total_lines : F → F → Outcomes F → Outcomes F → F → List String
  unfolding line solved show_nat
  total_lines ratio speedup x y bnd =
      line ("set label \"sp tot x/y " ∷ fl.short ratio ∷ "\" at graph -0.3,1" ∷ [])
      ∷ line ("set label \"sp x/y " ∷ fl.short speedup ∷ "\" at graph -0.3,0.95" ∷ [])
      ∷ line ("set label \"solved x " ∷ show_nat (solved fl bnd x y) ∷ "\" at graph -0.3,0.9" ∷ [])
      ∷ line ("set label \"solved y " ∷ show_nat (solved fl bnd y x) ∷ "\" at graph -0.3,0.85" ∷ [])
      ∷ []

  unfoldable pub both_lines : Outcomes F → Outcomes F → F → List String
  unfolding line solved_both solved_either post_proc show_nat
  both_lines x y bnd =
      line (
        "set label \"solved both "
        ∷ show_nat (solved_both fl bnd (post_proc fl bnd x) (post_proc fl bnd y))
        ∷ "\" at graph -0.3,0.8"
        ∷ [])
      ∷ line (
          "set label \"solved x+y "
          ∷ show_nat (solved_either fl bnd x y)
          ∷ "\" at graph -0.3,0.75"
          ∷ [])
      ∷ []

  -- A label and an arrow for the attribute of an instance of x, and the number of labels
  unfoldable pub x_labels : ℕ → Outcomes F → Outcomes F → List String
  unfolding line is_set lookup
  x_labels n [] y = []
  x_labels n ((k, a) ∷ x) y = elim (is_set a.label) [
    | false ↦ x_labels n x y
    | true ↦ elim (lookup k y) [
      | none ↦ x_labels n x y
      | some b ↦
          line (
            "set label \""
            ∷ elim a.label [ none ↦ "" | some l ↦ l ]
            ∷ "\" at "
            ∷ fl.short a.time
            ∷ ", graph "
            ∷ fl.short (fl.add (fl.mul (fl.of_int (pos n)) fl.hundredth) fl.hundredth)
            ∷ " font \",8\""
            ∷ [])
          ∷ line (
              "set arrow from "
              ∷ fl.short a.time
              ∷ ",graph 0 to "
              ∷ fl.short a.time
              ∷ ","
              ∷ fl.short b.time
              ∷ " nohead lt 2 lw 0.5"
              ∷ [])
          ∷ x_labels (suc n) x y
    ]
  ]

  unfoldable pub y_labels : Outcomes F → Outcomes F → List String
  unfolding line is_set lookup
  y_labels x [] = []
  y_labels x ((k, b) ∷ y) = elim (is_set b.label) [
    | false ↦ y_labels x y
    | true ↦ elim (lookup k x) [
      | none ↦ y_labels x y
      | some a ↦
          line (
            "set label \""
            ∷ elim b.label [ none ↦ "" | some l ↦ l ]
            ∷ "\" at graph 0.03, first "
            ∷ fl.short b.time
            ∷ " font \",8\""
            ∷ [])
          ∷ line (
              "set arrow from graph 0, first "
              ∷ fl.short b.time
              ∷ " to "
              ∷ fl.short a.time
              ∷ ","
              ∷ fl.short b.time
              ∷ " nohead lt 2 lw 0.5"
              ∷ [])
          ∷ y_labels x y
    ]
  ]

  unfoldable pub point_line : Point F → String
  unfolding line
  point_line p = line (fl.short p.x.time ∷ " " ∷ fl.short p.y.time ∷ " # " ∷ p.name ∷ [])

  -- The points of a group, and the line that ends them
  unfoldable pub group_lines : List (Point F) → List String
  unfolding point_line
  group_lines [] = "e" ∷ []
  group_lines (p ∷ ps) = point_line p ∷ group_lines ps

  unfoldable pub points_lines : Groups F → List String
  unfolding group_lines
  points_lines g =
      group_lines g.sat_points
      ++ (group_lines g.unsat_points ++ (group_lines g.ukn_points ++ group_lines g.fail_points))

  -- `max(map(...))` raises if there is nothing.
  unfoldable pub has_max : Outcomes F → Result Bool
  has_max [] = err value_error
  has_max (e ∷ d) = ok true

  -- `sum`, behind a number
  unfoldable pub sum : F → List F → F
  sum total [] = total
  sum total (s ∷ ss) = sum (fl.add total s) ss

  -- The script for the results of the two tools, from the options and the three last arguments
  unfoldable pub scatter :
      Options F → Outcomes F → Outcomes F → String → String → String → Result (List String)
  unfolding has_max compare_all sum bounded post_proc axis_lines total_lines both_lines x_labels
      y_labels points_lines group_all is_set
  scatter o x y x_label y_label output = do
    some_x ← has_max x
    some_y ← has_max y
    let bnd = fl.mul (fl.of_int (pos 2)) o.max
    let zero_float = fl.of_int (pos 0)
    c ← compare_all fl x y (record { speedups = []; x_total = zero_float; y_total = zero_float })
    speedup ← elim c.speedups [
      | [] ↦ err system_exit
      | s ∷ ss ↦ fl.div (sum zero_float (s ∷ ss)) (fl.of_int (pos (length (s ∷ ss))))
    ]
    let x' = bounded fl bnd x
    let y' = bounded fl bnd y
    ratio ← fl.div c.x_total c.y_total
    let px = post_proc fl bnd x'
    let py = post_proc fl bnd y'
    ok (
        axis_lines o bnd output x_label y_label
        ++ (total_lines ratio speedup x' y' bnd
            ++ (both_lines x' y' bnd
                ++ ((if is_set o.attribute then x_labels 0 px py ++ y_labels px py else [])
                    ++ plot_line ∷ points_lines (group_all px py no_points)))))
