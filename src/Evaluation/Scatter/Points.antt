-- ===== src/Evaluation/Scatter/Points.antt =====
-- Where the points of the scatter plot go (server/mk_scatter.py): the four lists against a description
-- that does not depend on which tool is x, nor on the order of the tests.
use package.text.Mathlib.Text.{◌==◌ as str_eq}
use package.text.Mathlib.TextEquality.{eq_iff}
use smts.Prelude.{
  ◌+◌, String, Bool, false, not, ◌&&◌, ◌||◌, none, some, List, [], ◌∷◌, ◌++◌, lookup, string_key,
  filter_by, length, ◌≡◌, refl, sym, subst, ◌∙◌, ap, arith, Bool-cases, Option-cases, inl, inr,
  append-nil, append_assoc,
}
use smts.Evaluation.{Outcomes}
use smts.Evaluation.Scatter.{Point, Groups, no_points, group, add_point, group_all}

not_both : (s : String) → (str_eq s "sat" && str_eq s "unsat") ≡ false
not_both s = elim (Bool-cases (str_eq s "sat")) [
  | inl e ↦
      subst (λ t. (str_eq t "sat" && str_eq t "unsat") ≡ false) (sym ((eq_iff s "sat").0 e)) refl
  | inr e ↦ rw e refl
]

module _ {F : Type 0} where
  -- One of the two results is this one.
  abbrev pub one_is : String → Point F → Bool
  one_is s p = str_eq p.x.status s || str_eq p.y.status s

  -- The points of the names that both have, in the order of x
  unfoldable pub common : Outcomes F → Outcomes F → List (Point F)
  unfolding lookup
  common [] y = []
  common ((k, a) ∷ x) y = elim (lookup k y) [
    | none ↦ common x y
    | some b ↦ record { name = k; x = a; y = b } ∷ common x y
  ]

  abbrev pub is_sat : Point F → Bool
  is_sat p = one_is "sat" p && not (one_is "unsat" p)

  abbrev pub is_unsat : Point F → Bool
  is_unsat p = one_is "unsat" p && not (one_is "sat" p)

  abbrev pub is_contradiction : Point F → Bool
  is_contradiction p = one_is "sat" p && one_is "unsat" p

  abbrev pub is_unknown : Point F → Bool
  is_unknown p = not (one_is "sat" p) && not (one_is "unsat" p)

  record Described (points : List (Point F)) (g g' : Groups F) : Type 0 where
    sat_eq : g'.sat_points ≡ g.sat_points ++ filter_by is_sat points
    unsat_eq : g'.unsat_points ≡ g.unsat_points ++ filter_by is_unsat points
    ukn_eq : g'.ukn_points ≡ g.ukn_points ++ filter_by is_unknown points
    fail_eq : g'.fail_points ≡ g.fail_points ++ filter_by is_contradiction points

  Described-nil : (g : Groups F) → Described [] g g
  unfolding filter_by
  Described-nil g = record {
    sat_eq = sym (append-nil g.sat_points);
    unsat_eq = sym (append-nil g.unsat_points);
    ukn_eq = sym (append-nil g.ukn_points);
    fail_eq = sym (append-nil g.fail_points);
  }

  filter_by-cons :
      (q : Point F → Bool) (p : Point F) (ps as' bs cs : List (Point F))
      → bs ≡ as' ++ filter_by q (p ∷ [])
      → cs ≡ bs ++ filter_by q ps
      → cs ≡ as' ++ filter_by q (p ∷ ps)
  unfolding filter_by
  filter_by-cons q p ps as' bs cs first rest =
      rest ∙ ap (λ (l : List (Point F)). l ++ filter_by q ps) first ∙ elim (Bool-cases (q p)) [
        | inl e ↦ rw e (append_assoc as' (p ∷ []) (filter_by q ps))
        | inr e ↦ rw e (append_assoc as' [] (filter_by q ps))
      ]

  Described-trans :
      (p : Point F) (ps : List (Point F)) (g h i : Groups F)
      → Described (p ∷ []) g h
      → Described ps h i
      → Described (p ∷ ps) g i
  Described-trans p ps g h i first rest = record {
    sat_eq = filter_by-cons is_sat p ps _ _ _ first.sat_eq rest.sat_eq;
    unsat_eq = filter_by-cons is_unsat p ps _ _ _ first.unsat_eq rest.unsat_eq;
    ukn_eq = filter_by-cons is_unknown p ps _ _ _ first.ukn_eq rest.ukn_eq;
    fail_eq = filter_by-cons is_contradiction p ps _ _ _ first.fail_eq rest.fail_eq;
  }

  Described-add_point : (p : Point F) (g : Groups F) → Described (p ∷ []) g (add_point p g)
  unfolding filter_by add_point group
  Described-add_point p g =
      let x_one = not_both p.x.status in
      let y_one = not_both p.y.status in
      record {
        sat_eq = ground (arith, x_one, y_one, append-nil g.sat_points);
        unsat_eq = ground (arith, x_one, y_one, append-nil g.unsat_points);
        ukn_eq = ground (arith, x_one, y_one, append-nil g.ukn_points);
        fail_eq = ground (arith, x_one, y_one, append-nil g.fail_points);
      }

  Described-group_all :
      (x y : Outcomes F) (g : Groups F) → Described (common x y) g (group_all x y g)
  unfolding common group_all
  Described-group_all [] y g = Described-nil g
  Described-group_all ((k, a) ∷ x) y g = elim (Option-cases (lookup k y)) [
    | inl e ↦ rw (e, common, group_all) (Described-group_all x y g)
    | inr (b, e) ↦
        let p : Point F = record { name = k; x = a; y = b } in
        rw (e, common, group_all)
          (Described-trans p (common x y) g (add_point p g) (group_all x y (add_point p g))
            (Described-add_point p g) (Described-group_all x y (add_point p g)))
  ]

  one_each :
      (points : List (Point F))
      → length (filter_by is_sat points)
          + length (filter_by is_unsat points)
          + length (filter_by is_unknown points)
          + length (filter_by is_contradiction points)
        ≡ length points
  unfolding filter_by
  one_each [] = refl
  one_each (p ∷ ps) = ground (arith, one_each ps)

  -- The points go, in the order of x, to four lists: "sat" has those where a result is `sat` and none is
  -- `unsat`, "unsat" those where one is `unsat` and none is `sat`, the last list those where one is `sat`
  -- and the other `unsat`, and the list of unknown points the others. Together the four lists have as
  -- many points as x has entries whose names y has too.
  pub group_all-common :
      (x y : Outcomes F)
      → ((group_all x y no_points).sat_points ≡ filter_by is_sat (common x y))
        × ((group_all x y no_points).unsat_points ≡ filter_by is_unsat (common x y))
        × ((group_all x y no_points).ukn_points ≡ filter_by is_unknown (common x y))
        × ((group_all x y no_points).fail_points ≡ filter_by is_contradiction (common x y))
        × (length (group_all x y no_points).sat_points
              + length (group_all x y no_points).unsat_points
              + length (group_all x y no_points).ukn_points
              + length (group_all x y no_points).fail_points
            ≡ length (common x y))
  group_all-common x y =
      let d = Described-group_all x y no_points in
      (
        d.sat_eq,
        d.unsat_eq,
        d.ukn_eq,
        d.fail_eq,
        omega (
          arith,
          ap length d.sat_eq,
          ap length d.unsat_eq,
          ap length d.ukn_eq,
          ap length d.fail_eq,
          one_each (common x y),
        ),
      )
