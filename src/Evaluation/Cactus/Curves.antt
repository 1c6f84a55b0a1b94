-- ===== src/Evaluation/Cactus/Curves.antt =====
-- Which instances the curves of server/mk_cactus.py show, against a description by all tools at once.
use package.text.Mathlib.Text.{◌==◌ as str_eq}
use package.text.Mathlib.TextEquality.{eq_iff}
use smts.Prelude.{
  has, listed, String, Bool, true, false, ◌&&◌, Option, none, some, List, [], ◌∷◌, filter_by,
  lookup, string_key, NodupKeys, if◌then◌else◌, ◌≡◌, refl, sym, subst, ◌∙◌, ap, arith, Bool-cases,
  inl, inr,
}
use smts.Evaluation.{Outcome, Outcomes}
use smts.Evaluation.Cactus.{
  Curve, is_wanted, first_files, values_of, common_files, gather_curves, gather_all_curves,
  restrict, restrict_all, curves,
}

listed-filter_by :
    (p : String → Bool) (k : String) (ks : List String)
    → listed k (filter_by p ks) ≡ (listed k ks && p k)
unfolding listed filter_by
listed-filter_by p k [] = refl
listed-filter_by p k (j ∷ ks) = elim (Bool-cases (str_eq j k)) [
  | inl e ↦
      let same : p j ≡ p k = ap p ((eq_iff j k).0 e) in
      ground (arith, e, same, listed-filter_by p k ks)
  | inr e ↦ ground (arith, e, listed-filter_by p k ks)
]

module _ {F : Type 0} (only_solved : Bool) where
  wanted : Option (Outcome F) → Bool
  wanted o = elim o [ none ↦ false | some o' ↦ is_wanted only_solved o' ]

  -- The tool has a result for the name, and if only solved ones are wanted, not `unknown`.
  abbrev pub selected : Outcomes F → String → Bool
  unfolding wanted lookup
  selected res k = wanted (lookup k res)

  -- All tools have such a result.
  unfoldable pub by_all : List (String × Outcomes F) → String → Bool
  unfolding selected
  by_all [] k = true
  by_all ((title, res) ∷ tools) k = selected res k && by_all tools k

  abbrev pub AllNodup : List (String × Outcomes F) → Type 0
  AllNodup [] = Unit
  AllNodup ((title, res) ∷ tools) = NodupKeys res × AllNodup tools

  lookup-values_of :
      (k : String) (files : List String) (res : Outcomes F)
      → NodupKeys res
      → lookup k (values_of only_solved files res)
        ≡ (if listed k files && selected res k then lookup k res else none)
  unfolding lookup values_of wanted
  lookup-values_of k files [] nodup = ground arith
  lookup-values_of k files ((j, o) ∷ res) (new, nodup) = elim (Bool-cases (str_eq j k)) [
    | inl is ↦
        let e : j ≡ k = (eq_iff j k).0 is in
        let absent : lookup k res ≡ none = subst (λ n. lookup n res ≡ none) e new in
        let same : listed j files ≡ listed k files = ap (λ n. listed n files) e in
        ground (arith, is, absent, same, lookup-values_of k files res nodup)
    | inr other ↦ ground (arith, other, lookup-values_of k files res nodup)
  ]

  lookup-restrict :
      (k : String) (files : List String) (d : Outcomes F)
      → lookup k (restrict files d) ≡ (if listed k files then lookup k d else none)
  unfolding lookup restrict
  lookup-restrict k files [] = ground arith
  lookup-restrict k files ((j, o) ∷ d) = elim (Bool-cases (str_eq j k)) [
    | inl is ↦
        let e : j ≡ k = (eq_iff j k).0 is in
        let same : listed j files ≡ listed k files = ap (λ n. listed n files) e in
        ground (arith, is, same, lookup-restrict k files d)
    | inr other ↦ ground (arith, other, lookup-restrict k files d)
  ]

  listed-first_files :
      (k : String) (res : Outcomes F)
      → NodupKeys res
      → listed k (first_files only_solved res) ≡ selected res k
  unfolding lookup first_files listed wanted
  listed-first_files k [] nodup = refl
  listed-first_files k ((j, o) ∷ res) (new, nodup) = elim (Bool-cases (str_eq j k)) [
    | inl is ↦
        let e : j ≡ k = (eq_iff j k).0 is in
        let absent : lookup k res ≡ none = subst (λ n. lookup n res ≡ none) e new in
        ground (arith, is, absent, listed-first_files k res nodup)
    | inr other ↦ ground (arith, other, listed-first_files k res nodup)
  ]

  -- One round of the loop keeps the names that the tool has.
  listed-common_files :
      (k : String) (files : List String) (res : Outcomes F)
      → NodupKeys res
      → listed k (common_files files (values_of only_solved files res))
        ≡ (listed k files && selected res k)
  unfolding common_files has wanted
  listed-common_files k files res nodup =
      listed-filter_by (λ n. has n (values_of only_solved files res)) k files
      ∙ by_case (lookup k res) (lookup-values_of k files res nodup)
    where
      by_case :
          (o : Option (Outcome F))
          → lookup k (values_of only_solved files res)
            ≡ (if listed k files && wanted o then o else none)
          → (listed k files && has k (values_of only_solved files res))
            ≡ (listed k files && wanted o)
      by_case none e = ground (arith, e)
      by_case (some o) e = ground (arith, e)

  listed-gather_curves :
      (k : String) (files : List String) (tools : List (String × Outcomes F))
      → AllNodup tools
      → listed k (gather_curves only_solved files tools).0 ≡ (listed k files && by_all tools k)
  unfolding gather_curves by_all
  listed-gather_curves k files [] nodup = ground arith
  listed-gather_curves k files ((title, res) ∷ tools) (nodup, others) =
      listed-gather_curves k (common_files files (values_of only_solved files res)) tools others
      ∙ ground (arith, listed-common_files k files res nodup)

  -- Curve by curve: its label, and the result of its tool for a name if the name is shown
  abbrev pub Shows : String → Bool → List (String × Outcomes F) → List (Curve F) → Type 0
  Shows k shown [] [] = Unit
  Shows k shown ((title, res) ∷ tools) (c ∷ cs) =
      (c.title ≡ title)
      × (lookup k c.values ≡ (if shown then lookup k res else none))
      × Shows k shown tools cs
  Shows k shown _ _ = ⊥

  gather_curves-Shows :
      (k : String) (final : List String) (files : List String) (tools : List (String × Outcomes F))
      → AllNodup tools
      → (listed k final ≡ true → (listed k files && by_all tools k) ≡ true)
      → Shows k
          (listed k final)
          tools
          (restrict_all final (gather_curves only_solved files tools).1)
  unfolding gather_curves by_all restrict_all
  gather_curves-Shows k final files [] nodup enough = tt
  gather_curves-Shows k final files ((title, res) ∷ tools) (nodup, others) enough = (
    refl,
    lookup-restrict k final (values_of only_solved files res) ∙ here,
    gather_curves-Shows k final (common_files files (values_of only_solved files res)) tools others
        (λ shown. ground (arith, enough shown, listed-common_files k files res nodup)),
  )
    where
      here :
          (if listed k final then lookup k (values_of only_solved files res) else none)
          ≡ (if listed k final then lookup k res else none)
      here = elim (Bool-cases (listed k final)) [
        | inl shown ↦ ground (arith, shown, enough shown, lookup-values_of k files res nodup)
        | inr hidden ↦ rw hidden refl
      ]

  -- For tools whose results have distinct keys, the curves are those of the tools in their order, each
  -- with its label. A curve has the result of its tool for a name if every tool has a result for that
  -- name, which is not `unknown` if only solved instances are wanted, and otherwise none.
  pub curves-Shows :
      (tools : List (String × Outcomes F))
      → AllNodup tools
      → (k : String) → Shows k (by_all tools k) tools (curves only_solved tools)
  unfolding curves gather_all_curves by_all restrict_all
  curves-Shows [] nodup k = tt
  curves-Shows ((title, res) ∷ tools) (nodup, others) k =
      let files = first_files only_solved res in
      let all = (title, res) ∷ tools in
      let final = (gather_curves only_solved files all).0 in
      let first = listed-first_files k res nodup in
      let shown : listed k final ≡ by_all all k =
        listed-gather_curves k files all (nodup, others) ∙ ground (arith, first) in
      subst (λ b. Shows k b all (curves only_solved all)) shown
        (gather_curves-Shows k final files all (nodup, others)
          (λ h. sym (listed-gather_curves k files all (nodup, others)) ∙ h))
