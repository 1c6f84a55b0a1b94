-- ===== src/Evaluation/Scatter/Counts/Solved.antt =====
-- The labels "solved x", "solved y", "solved both" and "solved x+y" of the scatter plot.
use package.text.Mathlib.Text.{◌==◌ as str_eq}
use mathlib.Core.Option
use smts.Prelude.{
  has, names, String, Bool, true, false, not, ◌&&◌, Option, none, some, [], ◌∷◌, lookup, string_key,
  NodupKeys, ◌≡◌, refl, sym, ◌∙◌, ap, arith, Bool-cases, Option-cases, inl, inr, fun_ext, negsuc,
}
use smts.Evaluation.{Floats, Outcome, Outcomes}
use smts.Evaluation.Scatter.{
  is_decided, change_all, bounded_one, bounded, post_one, post_proc, off_bound, solved_names,
  solved, solved_both,
}
use smts.Evaluation.Scatter.Counts.{tally, tally_swap, listed-names}

and_comm : (a b : Bool) → (a && b) ≡ (b && a)
and_comm a b = ground arith

module _ {F : Type 0} (f : Outcome F → Outcome F) where
  pub names-change_all : (d : Outcomes F) → names (change_all f d) ≡ names d
  unfolding names change_all
  names-change_all [] = refl
  names-change_all ((k, o) ∷ d) = rw (names-change_all d) refl

  lookup-change_all :
      (k : String) (d : Outcomes F) → lookup k (change_all f d) ≡ Option.map f (lookup k d)
  unfolding lookup change_all
  lookup-change_all k [] = refl
  lookup-change_all k ((j, o) ∷ d) = elim (Bool-cases (str_eq j k)) [
    | inl e ↦ rw e refl
    | inr e ↦ rw e (lookup-change_all k d)
  ]

  pub NodupKeys-change_all : (d : Outcomes F) → NodupKeys d → NodupKeys (change_all f d)
  unfolding change_all
  NodupKeys-change_all [] nodup = tt
  NodupKeys-change_all ((k, o) ∷ d) (new, nodup) =
      (lookup-change_all k d ∙ rw new refl, NodupKeys-change_all d nodup)

  pub has-change_all : (k : String) (d : Outcomes F) → has k (change_all f d) ≡ has k d
  unfolding has
  has-change_all k d = elim (Option-cases (lookup k d)) [
    | inl e ↦ rw (lookup-change_all k d) (rw e refl)
    | inr (o, e) ↦ rw (lookup-change_all k d) (rw e refl)
  ]

module _ {F : Type 0} (fl : Floats F) (bnd : F) where
  pub solved-tally :
      (d other : Outcomes F)
      → solved fl bnd d other ≡ tally (λ k. has k other && off_bound fl bnd d k) d
  unfolding solved solved_names
  solved-tally d other =
      ap (λ (q : String → Bool). tally q d)
        (fun_ext (λ k. and_comm (off_bound fl bnd d k) (has k other)))

  pub solved_both-tally :
      (x y : Outcomes F)
      → NodupKeys x
      → NodupKeys y
      → solved_both fl bnd x y
        ≡ tally (λ k. (has k y && off_bound fl bnd x k) && (has k y && off_bound fl bnd y k)) x
  unfolding solved_both solved_names
  solved_both-tally x y nodup nodup' =
      let p : String → Bool = λ k. off_bound fl bnd x k && (has k y && off_bound fl bnd y k) in
      ap (λ (q : String → Bool). tally q y)
        (fun_ext (λ k.
          ap (λ b. b && off_bound fl bnd y k)
            (listed-names (λ j. off_bound fl bnd x j && has j y) k x)
          ∙ regroup (has k x) (off_bound fl bnd x k) (has k y) (off_bound fl bnd y k)))
      ∙ sym (tally_swap p x y nodup nodup')
      ∙ ap (λ (q : String → Bool). tally q x)
          (fun_ext (λ k. spread (has k y) (off_bound fl bnd x k) (off_bound fl bnd y k)))
    where
      regroup : (a b c d : Bool) → ((a && (b && c)) && d) ≡ (a && (b && (c && d)))
      regroup a b c d = ground arith

      spread : (a b c : Bool) → (a && (b && (a && c))) ≡ ((a && b) && (a && c))
      spread a b c = ground arith

  -- `sat` or `unsat`, off the bound
  abbrev pub solved_in : Outcomes F → String → Bool
  unfolding is_decided lookup
  solved_in d k = elim (lookup k d) [
    | none ↦ false
    | some o ↦ is_decided o.status && not (fl.same o.time bnd)
  ]

  -- A result with a time
  abbrev pub timed_in : Outcomes F → String → Bool
  unfolding lookup
  timed_in d k = elim (lookup k d) [
    | none ↦ false
    | some o ↦ not (fl.same o.time (fl.of_int (negsuc 0)))
  ]

  off : Option (Outcome F) → Bool
  off o = elim o [ none ↦ false | some o' ↦ not (fl.same o'.time bnd) ]

  pub off_bound-bounded :
      fl.same bnd bnd ≡ true
      → (d : Outcomes F) (k : String) → off_bound fl bnd (bounded fl bnd d) k ≡ solved_in d k
  unfolding off_bound bounded_one bounded off
  off_bound-bounded reflexive d k =
      ap off (lookup-change_all (bounded_one fl bnd) k d) ∙ by_case (lookup k d)
    where
      by_case :
          (o : Option (Outcome F))
          → off (Option.map (bounded_one fl bnd) o)
            ≡ elim o [ none ↦ false | some o' ↦ is_decided o'.status && not (fl.same o'.time bnd) ]
      by_case none = refl
      by_case (some o) = elim (Bool-cases (is_decided o.status)) [
        | inl s ↦ rw s refl
        | inr s ↦ rw s (rw reflexive refl)
      ]

  pub off_bound-post_proc :
      fl.same bnd bnd ≡ true
      → (d : Outcomes F) (k : String)
      → off_bound fl bnd (post_proc fl bnd (bounded fl bnd d)) k ≡ (solved_in d k && timed_in d k)
  unfolding off_bound bounded_one bounded post_one post_proc off
  off_bound-post_proc reflexive d k =
      ap off (
        lookup-change_all (post_one fl bnd) k (change_all (bounded_one fl bnd) d)
        ∙ ap (Option.map (post_one fl bnd)) (lookup-change_all (bounded_one fl bnd) k d))
      ∙ by_case (lookup k d)
    where
      by_case :
          (o : Option (Outcome F))
          → off (Option.map (post_one fl bnd) (Option.map (bounded_one fl bnd) o)) ≡ (
              elim o [ none ↦ false | some o' ↦ is_decided o'.status && not (fl.same o'.time bnd) ]
              && elim o [ none ↦ false | some o' ↦ not (fl.same o'.time (fl.of_int (negsuc 0))) ])
      by_case none = refl
      by_case (some o) = ground (arith, reflexive)
