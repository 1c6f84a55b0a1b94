-- ===== src/Evaluation/Scatter.antt =====
-- The comparison of two tools in server/mk_scatter.py: the names that both have, the speedups, what
-- counts as solved, and the four groups of points. Numbers of Python's two types are one type here.
pub mod Counts
pub mod Points
pub mod Script
use package.text.Mathlib.Text.{◌==◌ as str_eq}
use smts.Prelude.{
  has, listed, names, ℕ, ◌+◌, ◌-◌, String, Bool, true, false, not, ◌&&◌, ◌||◌, Option, none, some,
  List, [], ◌∷◌, Result, ok, ◌>>=◌, Dict, lookup, string_key, ℤ, pos, negsuc, ◌++◌, filter_by,
  length, is_none, if◌then◌else◌,
}
use smts.Evaluation.{Floats, Outcome, Outcomes}

-- `status in ('sat', 'unsat')`
unfoldable pub is_decided : String → Bool
is_decided status = str_eq status "sat" || str_eq status "unsat"

pub record Options (F : Type 0) : Type 0 where
  pub min : F
  pub max : F
  pub attribute : Option String

-- The averages and the totals of the comparison
pub record Compared (F : Type 0) : Type 0 where
  pub speedups : List F
  pub x_total : F
  pub y_total : F

pub record Point (F : Type 0) : Type 0 where
  pub name : String
  pub x : Outcome F
  pub y : Outcome F

pub data Group : Type 0 where
  sat_group unsat_group ukn_group fail_group : Group

-- Each value of a dict changed in its place
unfoldable pub change_all {ℓ} : {V : Type ℓ} → (V → V) → Dict String V → Dict String V
change_all f [] = []
change_all f ((k, v) ∷ d) = (k, f v) ∷ change_all f d

module _ {F : Type 0} (fl : Floats F) where
  -- A pair of results that is compared
  unfoldable pub is_comparable : Outcome F → Outcome F → Bool
  is_comparable a b =
      (fl.at_most (fl.of_int (pos 0)) a.time && fl.less (fl.of_int (pos 0)) b.time)
      && (not (str_eq a.status "unknown") && not (str_eq b.status "unknown"))

  -- The loop over the names of x
  unfoldable pub compare_all : Outcomes F → Outcomes F → Compared F → Result (Compared F)
  unfolding is_comparable lookup
  compare_all [] y c = ok c
  compare_all ((k, a) ∷ x) y c = elim (lookup k y) [
    | none ↦ compare_all x y c
    | some b ↦ elim (is_comparable a b) [
      | false ↦ compare_all x y c
      | true ↦ elim (fl.div a.time b.time) [
        | Result.err e ↦ Result.err e
        | ok s ↦ compare_all x y (record {
          speedups = c.speedups ++ s ∷ [];
          x_total = fl.add c.x_total a.time;
          y_total = fl.add c.y_total b.time;
        })
      ]
    ]
  ]

  -- `x_res[k][1] = bnd` where k is not solved
  unfoldable pub bounded_one : F → Outcome F → Outcome F
  unfolding is_decided
  bounded_one bnd o = record {
    status = o.status;
    time = if is_decided o.status then o.time else bnd;
    label = o.label;
  }

  unfoldable pub bounded : F → Outcomes F → Outcomes F
  unfolding bounded_one change_all
  bounded bnd d = change_all (bounded_one bnd) d

  -- `d[k][1] != bnd`, for a key of d
  unfoldable pub off_bound : F → Outcomes F → String → Bool
  unfolding lookup
  off_bound bnd d k = elim (lookup k d) [ none ↦ false | some o ↦ not (fl.same o.time bnd) ]

  -- The names that `solved_x` counts; `solved_y` counts those of y.
  unfoldable pub solved_names : F → Outcomes F → Outcomes F → List String
  unfolding off_bound has names filter_by
  solved_names bnd d other = filter_by (λ k. off_bound bnd d k && has k other) (names d)

  unfoldable pub solved : F → Outcomes F → Outcomes F → ℕ
  unfolding solved_names
  solved bnd d other = length (solved_names bnd d other)

  unfoldable pub solved_both : F → Outcomes F → Outcomes F → ℕ
  unfolding solved_names listed off_bound names filter_by
  solved_both bnd x y =
      length (filter_by (λ k. listed k (solved_names bnd x y) && off_bound bnd y k) (names y))

  -- `-1`, the time of a result that has none, becomes the bound.
  unfoldable pub post_one : F → Outcome F → Outcome F
  post_one bnd o = record {
    status = o.status;
    time = if fl.same o.time (fl.of_int (negsuc 0)) then bnd else o.time;
    label = o.label;
  }

  -- `postProc`
  unfoldable pub post_proc : F → Outcomes F → Outcomes F
  unfolding post_one change_all
  post_proc bnd d = change_all (post_one bnd) d

  -- `solved_x + solved_y - solved_both`: the last one is counted after `postProc`.
  unfoldable pub solved_either : F → Outcomes F → Outcomes F → ℕ
  unfolding solved solved_both post_proc
  solved_either bnd x y =
      solved bnd x y + solved bnd y x - solved_both bnd (post_proc bnd x) (post_proc bnd y)

-- The group of a point
unfoldable pub group : String → String → Group
group a b =
    if (str_eq a "sat" && str_eq b "unsat") || (str_eq a "unsat" && str_eq b "sat")
    then fail_group
    else if str_eq a "sat" || str_eq b "sat"
    then sat_group
    else if str_eq a "unsat" || str_eq b "unsat"
    then unsat_group
    else ukn_group

-- The four lists of points
pub record Groups (F : Type 0) : Type 0 where
  pub sat_points : List (Point F)
  pub unsat_points : List (Point F)
  pub ukn_points : List (Point F)
  pub fail_points : List (Point F)

module _ {F : Type 0} where
  abbrev pub no_points : Groups F
  no_points = record { sat_points = []; unsat_points = []; ukn_points = []; fail_points = [] }

  unfoldable pub add_point : Point F → Groups F → Groups F
  unfolding group
  add_point p g = elim (group p.x.status p.y.status) [
    | fail_group ↦ record g { fail_points = g.fail_points ++ p ∷ [] }
    | sat_group ↦ record g { sat_points = g.sat_points ++ p ∷ [] }
    | unsat_group ↦ record g { unsat_points = g.unsat_points ++ p ∷ [] }
    | ukn_group ↦ record g { ukn_points = g.ukn_points ++ p ∷ [] }
  ]

  -- The loop over the names of x
  unfoldable pub group_all : Outcomes F → Outcomes F → Groups F → Groups F
  unfolding add_point lookup
  group_all [] y g = g
  group_all ((k, a) ∷ x) y g = elim (lookup k y) [
    | none ↦ group_all x y g
    | some b ↦ group_all x y (add_point (record { name = k; x = a; y = b }) g)
  ]
