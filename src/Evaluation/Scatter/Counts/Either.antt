-- ===== src/Evaluation/Scatter/Counts/Either.antt =====
-- The number in the label "solved x+y" of the scatter plot.
use smts.Prelude.{
  has, names, ◌+◌, ◌≤◌, String, Bool, true, not, ◌&&◌, ◌||◌, NodupKeys, string_key, filter_by,
  length, ◌≡◌, sym, ◌∙◌, ap, arith, fun_ext,
}
use smts.Evaluation.{Floats, Outcomes}
use smts.Evaluation.Scatter.{
  off_bound, change_all, bounded_one, bounded, post_one, post_proc, solved, solved_both,
  solved_either,
}
use smts.Evaluation.Scatter.Counts.{tally, tally_swap, tally_either, tally_split}
use smts.Evaluation.Scatter.Counts.Solved.{
  names-change_all, has-change_all, NodupKeys-change_all, solved-tally, solved_both-tally,
  solved_in, timed_in, off_bound-bounded, off_bound-post_proc,
}

module _ {F : Type 0} (fl : Floats F) (bnd : F) (reflexive : fl.same bnd bnd ≡ true) where
  both_in : {a a' b b' : Bool} → a ≡ a' → b ≡ b' → (a && b) ≡ (a' && b')
  both_in e f = cc

  solved-bounded :
      (d other : Outcomes F)
      → solved fl bnd (bounded fl bnd d) (bounded fl bnd other)
        ≡ tally (λ k. has k other && solved_in fl bnd d k) d
  unfolding bounded
  solved-bounded d other =
      solved-tally fl bnd (bounded fl bnd d) (bounded fl bnd other)
      ∙ ap
          (λ ns. length (
            filter_by (λ k. has k (bounded fl bnd other) && off_bound fl bnd (bounded fl bnd d) k)
              ns))
          (names-change_all (bounded_one fl bnd) d)
      ∙ ap (λ (q : String → Bool). tally q d)
          (fun_ext (λ k.
            both_in (has-change_all (bounded_one fl bnd) k other)
              (off_bound-bounded fl bnd reflexive d k)))

  solved_both-post_proc :
      (x y : Outcomes F)
      → NodupKeys x
      → NodupKeys y
      → solved_both fl bnd
          (post_proc fl bnd (bounded fl bnd x))
          (post_proc fl bnd (bounded fl bnd y))
        ≡ tally
            (λ k.
              (has k y && (solved_in fl bnd x k && timed_in fl bnd x k))
              && (has k y && (solved_in fl bnd y k && timed_in fl bnd y k)))
            x
  unfolding bounded post_proc
  solved_both-post_proc x y nodup nodup' =
      let x' = change_all (bounded_one fl bnd) x in
      let y' = change_all (bounded_one fl bnd) y in
      let px = post_proc fl bnd (bounded fl bnd x) in
      let py = post_proc fl bnd (bounded fl bnd y) in
      let common : (k : String) → has k py ≡ has k y =
        λ k. has-change_all (post_one fl bnd) k y' ∙ has-change_all (bounded_one fl bnd) k y in
      solved_both-tally fl bnd px py
        (NodupKeys-change_all (post_one fl bnd) x'
          (NodupKeys-change_all (bounded_one fl bnd) x nodup))
        (NodupKeys-change_all (post_one fl bnd) y'
          (NodupKeys-change_all (bounded_one fl bnd) y nodup'))
      ∙ ap
          (λ ns. length (
            filter_by
              (λ k. (has k py && off_bound fl bnd px k) && (has k py && off_bound fl bnd py k)) ns))
          (names-change_all (post_one fl bnd) x' ∙ names-change_all (bounded_one fl bnd) x)
      ∙ ap (λ (q : String → Bool). tally q x)
          (fun_ext (λ k.
            both_in (both_in (common k) (off_bound-post_proc fl bnd reflexive x k))
              (both_in (common k) (off_bound-post_proc fl bnd reflexive y k))))

  -- The number in the label "solved x+y" is the number of common names that x or y solved, which counts
  -- a result as solved that is `sat` or `unsat` with a time off the bound, and once more the number of
  -- common names that both solved where one of the two results has the time -1. The difference that
  -- computes the number does not go below 0. The keys of either dict are distinct, and the bound is a
  -- number equal to itself.
  pub solved_either-bounded :
      (x y : Outcomes F)
      → NodupKeys x
      → NodupKeys y
      → (solved_both fl bnd
            (post_proc fl bnd (bounded fl bnd x))
            (post_proc fl bnd (bounded fl bnd y))
          ≤ solved fl bnd (bounded fl bnd x) (bounded fl bnd y)
            + solved fl bnd (bounded fl bnd y) (bounded fl bnd x))
        × (solved_either fl bnd (bounded fl bnd x) (bounded fl bnd y)
            ≡ length (
                filter_by
                  (λ k. has k y && (solved_in fl bnd x k || solved_in fl bnd y k))
                  (names x))
              + length (
                  filter_by
                    (λ k.
                      (has k y && (solved_in fl bnd x k && solved_in fl bnd y k))
                      && not (timed_in fl bnd x k && timed_in fl bnd y k))
                    (names x)))
  unfolding solved_either
  solved_either-bounded x y nodup nodup' =
      let sx = solved_in fl bnd x in
      let sy = solved_in fl bnd y in
      let tx = timed_in fl bnd x in
      let ty = timed_in fl bnd y in
      let by_x = solved-bounded x y in
      let by_y = solved-bounded y x ∙ sym (tally_swap sy x y nodup nodup') in
      let both = solved_both-post_proc x y nodup nodup' in
      let sums = tally_either (λ k. has k y && sx k) (λ k. has k y && sy k) x in
      let parts = tally_split (λ k. (has k y && sx k) && (has k y && sy k)) (λ k. tx k && ty k) x in
      let once =
        ap (λ (q : String → Bool). tally q x) (fun_ext (λ k. either_one (has k y) (sx k) (sy k))) in
      let timed =
        ap (λ (q : String → Bool). tally q x)
          (fun_ext (λ k. both_timed (has k y) (sx k) (sy k) (tx k) (ty k))) in
      let twice =
        ap (λ (q : String → Bool). tally q x)
          (fun_ext (λ k. both_untimed (has k y) (sx k) (sy k) (tx k && ty k))) in
      (
        omega (arith, by_x, by_y, both, sums, parts, timed),
        omega (arith, by_x, by_y, both, sums, parts, once, timed, twice),
      )
    where
      either_one : (a b c : Bool) → ((a && b) || (a && c)) ≡ (a && (b || c))
      either_one a b c = ground arith

      both_timed :
          (a b c t u : Bool)
          → (((a && b) && (a && c)) && (t && u)) ≡ ((a && (b && t)) && (a && (c && u)))
      both_timed a b c t u = ground arith

      both_untimed :
          (a b c t : Bool) → (((a && b) && (a && c)) && not t) ≡ ((a && (b && c)) && not t)
      both_untimed a b c t = ground arith
