-- ===== src/Config/Extension/Merged.antt =====
-- What the settings are behind `extend`.
use package.text.Mathlib.Text.{◌==◌ as str_eq}
use package.text.Mathlib.TextEquality.{eq_iff}
use smts.Prelude.{
  String, Bool, true, false, Option, none, some, [], ◌∷◌, if◌then◌else◌, Result, ok, err, Dict,
  lookup, insert, update_all, string_key, Error, ◌&&◌, ◌||◌, ◌⊎◌, lookup-insert, NodupKeys, ◌≡◌,
  refl, sym, ◌∙◌, subst, ap, arith, Bool-cases, inl, inr,
}
use smts.Config.Extension.{
  Setting, a_text, some_texts, a_dict, another, placed, begins_with, merge, extend,
}

to_option : {A : Type 0} → Result A → Option A
to_option (ok a) = some a
to_option (err e) = none

is_ok : {A : Type 0} → Result A → Bool
is_ok (ok a) = true
is_ok (err e) = false

Result-cases : {A : Type 0} (r : Result A) → ((e : Error) × (r ≡ err e)) ⊎ ((a : A) × (r ≡ ok a))
Result-cases (ok a) = inr (a, refl)
Result-cases (err e) = inl (e, refl)

module _ {A : Type 0} (dir : String) where
  -- The value of a name that is put, from its value in the file and its old value
  unfoldable pub new_value : String → Setting A → Option (Setting A) → Option (Setting A)
  unfolding placed update_all
  new_value k (a_dict d) (some (a_dict old)) = some (a_dict (update_all old d))
  new_value k (a_dict d) _ = none
  new_value k v _ = some (placed dir k v)

  -- A dict meets a dict.
  unfoldable pub meets : Setting A → Option (Setting A) → Bool
  meets (a_dict d) (some (a_dict old)) = true
  meets (a_dict d) _ = false
  meets v _ = true

  to_option-merge :
      (k : String) (v : Setting A) (old : Option (Setting A))
      → to_option (merge dir k v old) ≡ new_value k v old
  unfolding merge new_value to_option
  to_option-merge k (a_dict d) none = refl
  to_option-merge k (a_dict d) (some (a_dict old)) = refl
  to_option-merge k (a_dict d) (some (a_text s)) = refl
  to_option-merge k (a_dict d) (some (some_texts l)) = refl
  to_option-merge k (a_dict d) (some (another a)) = refl
  to_option-merge k (a_text s) old = refl
  to_option-merge k (some_texts l) old = refl
  to_option-merge k (another a) old = refl

  is_ok-merge :
      (k : String) (v : Setting A) (old : Option (Setting A))
      → is_ok (merge dir k v old) ≡ meets v old
  unfolding merge meets is_ok
  is_ok-merge k (a_dict d) none = refl
  is_ok-merge k (a_dict d) (some (a_dict old)) = refl
  is_ok-merge k (a_dict d) (some (a_text s)) = refl
  is_ok-merge k (a_dict d) (some (some_texts l)) = refl
  is_ok-merge k (a_dict d) (some (another a)) = refl
  is_ok-merge k (a_text s) old = refl
  is_ok-merge k (some_texts l) old = refl
  is_ok-merge k (another a) old = refl

  -- The value of a name at the end
  unfoldable pub chosen : String → Option (Setting A) → Option (Setting A) → Option (Setting A)
  unfolding new_value
  chosen k none old = old
  chosen k (some v) old = if begins_with b'_' k then old else new_value k v old

  unfoldable pub merged :
      Dict String (Setting A) → Dict String (Setting A) → String → Option (Setting A)
  unfolding chosen lookup
  merged file before k = chosen k (lookup k file) (lookup k before)

  -- Every name of the file can be put into the settings.
  unfoldable pub all_merge : Dict String (Setting A) → Dict String (Setting A) → Bool
  unfolding meets lookup
  all_merge [] before = true
  all_merge ((name, v) ∷ file) before =
      (begins_with b'_' name || meets v (lookup name before)) && all_merge file before

  all_merge-insert :
      (name : String) (new : Setting A) (file before : Dict String (Setting A))
      → lookup name file ≡ none
      → all_merge file (insert name new before) ≡ all_merge file before
  unfolding all_merge lookup
  all_merge-insert name new [] before absent = refl
  all_merge-insert name new ((j, w) ∷ file) before absent = elim (Bool-cases (str_eq j name)) [
    | inl same ↦ absurd (ground (arith, same, absent))
    | inr other ↦
        let kept : lookup j (insert name new before) ≡ lookup j before =
          ground (arith, lookup-insert name j new before, other, eq_iff name j, eq_iff j name) in
        let rest = all_merge-insert name new file before (ground (arith, other, absent)) in
        rw (kept, rest) refl
  ]

  -- A private name changes nothing.
  merged_skips :
      (name : String) (v : Setting A) (file before : Dict String (Setting A))
      → lookup name file ≡ none
      → (k : String) → begins_with b'_' name ≡ true
      → merged file before k ≡ merged ((name, v) ∷ file) before k
  unfolding chosen merged lookup
  merged_skips name v file before new k hidden = elim (Bool-cases (str_eq name k)) [
    | inr other ↦ rw (other, merged) refl
    | inl is ↦
        let e : name ≡ k = (eq_iff name k).0 is in
        let absent : lookup k file ≡ none = subst (λ j. lookup j file ≡ none) e new in
        let hidden' : begins_with b'_' k ≡ true = subst (λ j. begins_with b'_' j ≡ true) e hidden in
        rw (is, absent, merged) (rw hidden' refl)
  ]

  -- A name that is put
  merged_puts :
      (name : String) (v : Setting A) (file before : Dict String (Setting A))
      → lookup name file ≡ none
      → (k : String) (w : Setting A) → begins_with b'_' name ≡ false
      → merge dir name v (lookup name before) ≡ ok w
      → merged file (insert name w before) k ≡ merged ((name, v) ∷ file) before k
  unfolding chosen merged lookup to_option
  merged_puts name v file before new k w public fine = elim (Bool-cases (str_eq name k)) [
    | inr other ↦
        rw (other, merged)
          (ap (chosen k (lookup k file)) (lookup-insert name k w before ∙ rw other refl))
    | inl is ↦
        let e : name ≡ k = (eq_iff name k).0 is in
        let absent : lookup k file ≡ none = subst (λ j. lookup j file ≡ none) e new in
        let public' : begins_with b'_' k ≡ false =
          subst (λ j. begins_with b'_' j ≡ false) e public in
        let fine' : merge dir k v (lookup k before) ≡ ok w =
          subst (λ j. merge dir j v (lookup j before) ≡ ok w) e fine in
        let here : lookup k (insert name w before) ≡ some w =
          lookup-insert name k w before ∙ rw is refl in
        let there : chosen k (some v) (lookup k before) ≡ some w =
          rw (public', chosen) (sym (to_option-merge k v (lookup k before)) ∙ ap to_option fine') in
        rw (is, absent, merged) (here ∙ sym there)
  ]

  -- What `extend` does with a file of distinct names
  pub extend-merged :
      (file before : Dict String (Setting A))
      → NodupKeys file
      → (all_merge file before ≡ true
          → (after : Dict String (Setting A)) × (extend dir file before ≡ ok after)
            × ((k : String) → lookup k after ≡ merged file before k))
        × (all_merge file before ≡ false → (e : Error) × (extend dir file before ≡ err e))
  unfolding extend all_merge merged lookup
  extend-merged [] before nodup = (λ h. (before, refl, λ k. refl), λ h. absurd (cc))
  extend-merged ((name, v) ∷ file) before (new, nodup) = elim (Bool-cases (begins_with b'_' name)) [
    | inl hidden ↦
        let (runs, fails) = extend-merged file before nodup in
        (
          λ h.
              let (after, done, values) = runs (ground (arith, h, hidden)) in
              (
                after,
                rw (hidden, extend) done,
                λ k. values k ∙ merged_skips name v file before new k hidden,
              ),
          λ h. let (e, done) = fails (ground (arith, h, hidden)) in (e, rw (hidden, extend) done),
        )
    | inr public ↦ elim (Result-cases (merge dir name v (lookup name before))) [
      | inl (e, raised) ↦ (
        λ h. absurd (
            ground
              (arith, h, public, sym (is_ok-merge name v (lookup name before)) ∙ ap is_ok raised)),
        λ h. (e, rw (public, raised, extend) refl),
      )
      | inr (w, fine) ↦
          let (runs, fails) = extend-merged file (insert name w before) nodup in
          let same = all_merge-insert name w file before new in
          (
            λ h.
                let (after, done, values) = runs (
                  ground (
                    arith,
                    h,
                    public,
                    sym (is_ok-merge name v (lookup name before)) ∙ ap is_ok fine,
                    same,
                  )) in
                (
                  after,
                  rw (public, fine, extend) done,
                  λ k. values k ∙ merged_puts name v file before new k w public fine,
                ),
            λ h.
                let (e, done) = fails (
                  ground (
                    arith,
                    h,
                    public,
                    sym (is_ok-merge name v (lookup name before)) ∙ ap is_ok fine,
                    same,
                  )) in
                (e, rw (public, fine, extend) done),
          )
    ]
  ]
