-- ===== src/Prelude/Dicts.antt =====
-- Python's dicts, in insertion order, over any type of keys with a decidable equality.
use Prim.Native.Nat.{ℕ}
use Prim.Native.String.{String}
use mathlib.Core.Path.{◌≡◌, refl, ap, ◌∙◌}
use mathlib.Core.Logic.{◌↔◌, inl, inr}
use mathlib.Core.Bool.{Bool, true, false, ◌&&◌, ◌||◌, not}
use mathlib.Core.Option.{Option, none, some}
use mathlib.Core.List.{List, [], ◌∷◌, ◌++◌}
use native.Mathlib.Omega.{arith}
use text.Mathlib.Text.{◌==◌ as str_eq}
use text.Mathlib.TextEquality.{eq_iff}
use smts.Prelude.Tests.{◌==◌, if◌then◌else◌, Bool-cases, is_none}

-- The keys of a dict can be compared.
pub record Key {ℓ} (K : Type ℓ) : Type ℓ where
  pub same : K → K → Bool
  pub same_iff : (j k : K) → (same j k ≡ true) ↔ (j ≡ k)

instance abbrev pub string_key : Key String
string_key = record { same = str_eq; same_iff = eq_iff }

-- Texts as lists of code points.
unfoldable pub same_codes : List ℕ → List ℕ → Bool
same_codes [] [] = true
same_codes (a ∷ as') (b ∷ bs) = a == b && same_codes as' bs
same_codes _ _ = false

pub same_codes_iff : (a b : List ℕ) → (same_codes a b ≡ true) ↔ (a ≡ b)
unfolding same_codes
same_codes_iff [] [] = ground arith
same_codes_iff [] (b ∷ bs) = ground arith
same_codes_iff (a ∷ as') [] = ground arith
same_codes_iff (a ∷ as') (b ∷ bs) = ground (arith, same_codes_iff as' bs)

instance abbrev pub codes_key : Key (List ℕ)
codes_key = record { same = same_codes; same_iff = same_codes_iff }

abbrev pub Dict {ℓ κ} : Type ℓ → Type κ → Type (ℓ ⊔ κ)
Dict K V = List (K × V)

module _ {ℓ κ} {K : Type ℓ} {V : Type κ} ⦃e : Key K⦄ where
  unfoldable pub lookup : K → Dict K V → Option V
  lookup k [] = none
  lookup k ((j, v) ∷ d) = if e.same j k then some v else lookup k d

  -- `d[k] = v`
  unfoldable pub insert : K → V → Dict K V → Dict K V
  insert k v [] = (k, v) ∷ []
  insert k v ((j, w) ∷ d) = if e.same j k then (j, v) ∷ d else (j, w) ∷ insert k v d

  -- `del d[k]`
  unfoldable pub erase : K → Dict K V → Dict K V
  erase k [] = []
  erase k ((j, w) ∷ d) = if e.same j k then d else (j, w) ∷ erase k d

  -- `d.update(changes)`
  unfoldable pub update_all : Dict K V → Dict K V → Dict K V
  unfolding insert
  update_all d [] = d
  update_all d ((k, v) ∷ changes) = update_all (insert k v d) changes

  abbrev pub NodupKeys : Dict K V → Type κ
  NodupKeys [] = Unit
  NodupKeys ((k, _) ∷ d) = (lookup k d ≡ none) × NodupKeys d

  pub lookup-insert :
      (k j : K) (v : V) (d : Dict K V)
      → lookup j (insert k v d) ≡ (if e.same k j then some v else lookup j d)
  unfolding lookup insert
  lookup-insert k j v [] = refl
  lookup-insert k j v ((i, w) ∷ d) =
      ground (arith, e.same_iff k j, e.same_iff i k, e.same_iff i j, lookup-insert k j v d)

  pub insert-new :
      (k : K) (v : V) (d : Dict K V) → lookup k d ≡ none → insert k v d ≡ d ++ (k, v) ∷ []
  unfolding lookup insert
  insert-new k v [] h = refl
  insert-new k v ((j, w) ∷ d) h = ground (arith, insert-new k v d)

  pub NodupKeys-insert : (k : K) (v : V) (d : Dict K V) → NodupKeys d → NodupKeys (insert k v d)
  unfolding lookup insert
  NodupKeys-insert k v [] nodup = (refl, tt)
  NodupKeys-insert k v ((j, w) ∷ d) (new, nodup) = elim (Bool-cases (e.same j k)) [
    | inl is ↦ rw is (new, nodup)
    | inr other ↦
        let absent = lookup-insert k j v d in
        rw other (
          ground (arith, absent, e.same_iff k j, e.same_iff j k, other, new),
          NodupKeys-insert k v d nodup,
        )
  ]

-- The keys of a dict, in their order
unfoldable pub names {ℓ} : {V : Type ℓ} → Dict String V → List String
names [] = []
names ((k, v) ∷ d) = k ∷ names d

-- `k in d`
unfoldable pub has {ℓ} : {V : Type ℓ} → String → Dict String V → Bool
unfolding lookup
has k d = not (is_none (lookup k d))

-- `k in names`
unfoldable pub listed : String → List String → Bool
listed k [] = false
listed k (j ∷ js) = if str_eq j k then true else listed k js

pub has-insert {ℓ} :
    {V : Type ℓ} (k j : String) (v : V) (d : Dict String V)
    → has j (insert k v d) ≡ (str_eq k j || has j d)
unfolding has
has-insert k j v d = ap (λ o. not (is_none o)) (lookup-insert k j v d) ∙ by_case (str_eq k j)
  where
    by_case :
        (b : Bool)
        → not (is_none (if b then some v else lookup j d)) ≡ (b || not (is_none (lookup j d)))
    by_case true = refl
    by_case false = refl

pub listed-keys {ℓ} : {V : Type ℓ} (k : String) (d : Dict String V) → listed k (names d) ≡ has k d
unfolding names has listed lookup
listed-keys k [] = refl
listed-keys k ((j, v) ∷ d) = elim (Bool-cases (str_eq j k)) [
  | inl e ↦ rw e refl
  | inr e ↦ rw e (listed-keys k d)
]

pub listed-append :
    (k : String) (js ks : List String) → listed k (js ++ ks) ≡ (listed k js || listed k ks)
unfolding listed
listed-append k [] ks = refl
listed-append k (j ∷ js) ks = elim (Bool-cases (str_eq j k)) [
  | inl e ↦ rw e refl
  | inr e ↦ rw e (listed-append k js ks)
]
