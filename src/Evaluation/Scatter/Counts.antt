-- ===== src/Evaluation/Scatter/Counts.antt =====
-- The counts in the labels of the scatter plot (server/mk_scatter.py): names counted over either dict.
pub mod Either
pub mod Solved
use package.text.Mathlib.Text.{◌==◌ as str_eq}
use package.text.Mathlib.TextEquality.{eq_iff}
use smts.Prelude.{
  has, listed, names, ℕ, ◌+◌, ◌-◌, ◌≤◌, String, Bool, true, false, not, ◌&&◌, ◌||◌, Option, none,
  some, List, [], ◌∷◌, Dict, lookup, string_key, NodupKeys, filter_by, length, is_none,
  if◌then◌else◌, ◌≡◌, refl, sym, ◌∙◌, ap, subst, arith, Bool-cases, inl, inr, fun_ext,
}
use smts.Evaluation.{Floats, Outcome, Outcomes}
use smts.Evaluation.Scatter.{
  is_decided, bounded_one, bounded, off_bound, solved_names, solved, solved_both, solved_either,
}

-- How many names of a dict pass a test
abbrev pub tally : {V : Type 0} → (String → Bool) → Dict String V → ℕ
tally p d = length (filter_by p (names d))

one_if : Bool → ℕ
one_if b = if b then 1 else 0

tally_cons :
    {V : Type 0} (p : String → Bool) (k : String) (v : V) (d : Dict String V)
    → tally p ((k, v) ∷ d) ≡ one_if (p k) + tally p d
unfolding names filter_by one_if
tally_cons p k v d = ground arith

tally_none :
    {V : Type 0} (p : String → Bool) (d : Dict String V)
    → ((k : String) → p k ≡ false)
    → tally p d ≡ 0
unfolding names filter_by
tally_none p [] h = refl
tally_none p ((k, v) ∷ d) h = ground (arith, h k, tally_none p d h)

-- One more name to look for counts at most once.
tally_or :
    {V : Type 0} (a : String) (q p : String → Bool) (y : Dict String V)
    → NodupKeys y
    → q a ≡ false
    → tally (λ k. (if str_eq a k then true else q k) && p k) y
      ≡ one_if (has a y && p a) + tally (λ k. q k && p k) y
unfolding names filter_by one_if has lookup
tally_or a q p [] nodup out = refl
tally_or a q p ((j, w) ∷ y) (new, nodup) out = elim (Bool-cases (str_eq a j)) [
  | inl is ↦
      let e : a ≡ j = (eq_iff a j).0 is in
      let absent : lookup a y ≡ none = subst (λ k. lookup k y ≡ none) (sym e) new in
      let out' : q j ≡ false = subst (λ k. q k ≡ false) e out in
      let here : p a ≡ p j = ap p e in
      ground (arith, eq_iff a j, eq_iff j a, absent, out', here, tally_or a q p y nodup out)
  | inr other ↦ ground (arith, eq_iff a j, eq_iff j a, tally_or a q p y nodup out)
]

has_cons :
    {V : Type 0} (k a : String) (v : V) (x : Dict String V)
    → has k ((a, v) ∷ x) ≡ (if str_eq a k then true else has k x)
unfolding has lookup
has_cons k a v x = elim (Bool-cases (str_eq a k)) [ inl e ↦ rw e refl | inr e ↦ rw e refl ]

-- Common names may be counted over either dict.
pub tally_swap :
    {V : Type 0} (p : String → Bool) (x y : Dict String V)
    → NodupKeys x
    → NodupKeys y
    → tally (λ k. has k y && p k) x ≡ tally (λ k. has k x && p k) y
unfolding names filter_by one_if has lookup
tally_swap p [] y nodup nodup' = sym (tally_none (λ k. false && p k) y (λ k. refl))
tally_swap p ((a, v) ∷ x) y (new, nodup) nodup' =
    tally_cons (λ k. has k y && p k) a v x
    ∙ ap (λ n. one_if (has a y && p a) + n) (tally_swap p x y nodup nodup')
    ∙ sym (tally_or a (λ k. has k x) p y nodup' (ap (λ o. not (is_none o)) new))
    ∙ ap (λ (q : String → Bool). tally (λ k. q k && p k) y) (fun_ext (λ k. sym (has_cons k a v x)))

pub tally_cong :
    {V : Type 0} (p q : String → Bool) (d : Dict String V)
    → ((k : String) → has k d ≡ true → p k ≡ q k)
    → tally p d ≡ tally q d
unfolding names filter_by has lookup
tally_cong p q [] same = refl
tally_cong p q ((a, v) ∷ d) same =
    let rest = tally_cong p q d (λ k h. same k (elim (Bool-cases (str_eq a k)) [
      | inl e ↦ has_cons k a v d ∙ rw e refl
      | inr e ↦ has_cons k a v d ∙ rw e h
    ])) in
    let head = same a (has_cons a a v d ∙ ground (arith, eq_iff a a)) in ground (arith, rest, head)

-- Inclusion and exclusion
pub tally_either :
    {V : Type 0} (p q : String → Bool) (d : Dict String V)
    → tally (λ k. p k || q k) d + tally (λ k. p k && q k) d ≡ tally p d + tally q d
unfolding names filter_by
tally_either p q [] = refl
tally_either p q ((a, v) ∷ d) = ground (arith, tally_either p q d)

-- A count in two parts
pub tally_split :
    {V : Type 0} (p t : String → Bool) (d : Dict String V)
    → tally p d ≡ tally (λ k. p k && t k) d + tally (λ k. p k && not (t k)) d
unfolding names filter_by
tally_split p t [] = refl
tally_split p t ((a, v) ∷ d) = ground (arith, tally_split p t d)

-- What a list of names that pass a test holds
pub listed-names :
    {V : Type 0} (p : String → Bool) (k : String) (d : Dict String V)
    → listed k (filter_by p (names d)) ≡ (has k d && p k)
unfolding names filter_by has lookup listed
listed-names p k [] = refl
listed-names p k ((a, v) ∷ d) = elim (Bool-cases (str_eq a k)) [
  | inl e ↦
      let same : p a ≡ p k = ap p ((eq_iff a k).0 e) in ground (arith, e, same, listed-names p k d)
  | inr e ↦ ground (arith, e, listed-names p k d)
]
