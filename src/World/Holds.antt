-- ===== src/World/Holds.antt =====
-- Properties of a state that a method keeps, whether it raises or not.
use smts.Prelude.{
  ◌≡◌, refl, Bool, true, false, Option, none, some, List, [], ◌∷◌, Memᴰ, Result, ok, err,
  if◌then◌else◌,
}
use smts.World.Effects.{Exec, pure, reads, modify, proceed, ◌>>=◌, when, for_each}

pub record Holds {S A : Type 0} (P : S → Type 0) (m : Exec S A) : Type 0 where
  pub at : (s : S) → P s → P (m s).1

module _ {S A C : Type 0} where
  proceed-Holds :
      (P : S → Type 0) (r : Result A) (rest : A → Exec S C) (s : S)
      → ((x : A) → Holds P (rest x))
      → P s
      → P (proceed r rest s).1
  proceed-Holds P (err e) rest s h k = k
  proceed-Holds P (ok x) rest s h k = (h x).at s k

  pub bind-Holds :
      (P : S → Type 0) (m : Exec S A) (rest : A → Exec S C)
      → Holds P m
      → ((x : A) → Holds P (rest x))
      → Holds P (m >>= rest)
  unfolding ◌>>=◌
  bind-Holds P m rest g h = record { at = λ s k. proceed-Holds P (m s).0 rest (m s).1 h (g.at s k) }

  learned :
      (P : S → Type 0) (Q : A → S → Type 0) (r : Result A) (rest : A → Exec S C) (s : S)
      → ((x : A) → r ≡ ok x → Q x s)
      → ((x : A) (u : S) → Q x u → P u)
      → ((x : A) → Holds (Q x) (rest x))
      → P s
      → P (proceed r rest s).1
  learned P Q (err e) rest s learn forget h k = k
  learned P Q (ok x) rest s learn forget h k =
      forget x (proceed (ok x) rest s).1 ((h x).at s (learn x refl))

  -- More is known behind a part that reads the state.
  pub learn-Holds :
      (P : S → Type 0) (Q : A → S → Type 0) (look : S → Result A) (rest : A → Exec S C)
      → ((s : S) (x : A) → P s → look s ≡ ok x → Q x s)
      → ((x : A) (s : S) → Q x s → P s)
      → ((x : A) → Holds (Q x) (rest x))
      → Holds P (reads look >>= rest)
  unfolding ◌>>=◌ reads
  learn-Holds P Q look rest learn forget h = record {
    at = λ s k. learned P Q (look s) rest s (λ x e. learn s x k e) forget h k;
  }

-- A method that brings a state of one kind to one of another kind, whether it raises or not.
pub record Leads {S A : Type 0} (P Q : S → Type 0) (m : Exec S A) : Type 0 where
  pub at : (s : S) → P s → Q (m s).1

module _ {S A C : Type 0} (P Q : S → Type 0) (weaken : (s : S) → P s → Q s) where
  proceed-Leads :
      (r : Result A) (rest : A → Exec S C) (s : S)
      → ((x : A) → r ≡ ok x → Leads P Q (rest x))
      → P s
      → Q (proceed r rest s).1
  proceed-Leads (err e) rest s h k = weaken s k
  proceed-Leads (ok x) rest s h k = (h x refl).at s k

  pub bind-Leads :
      (m : Exec S A) (rest : A → Exec S C)
      → Holds P m
      → ((x : A) → Leads P Q (rest x))
      → Leads P Q (m >>= rest)
  unfolding ◌>>=◌
  bind-Leads m rest g h = record {
    at = λ s k. proceed-Leads (m s).0 rest (m s).1 (λ x _. h x) (g.at s k);
  }

  -- Behind a part that reads the state, what was read is known to satisfy `X`.
  pub learn-Leads :
      (X : A → Type 0) (look : S → Result A) (rest : A → Exec S C)
      → ((s : S) (x : A) → P s → look s ≡ ok x → X x)
      → ((x : A) → X x → Leads P Q (rest x))
      → Leads P Q (reads look >>= rest)
  unfolding ◌>>=◌ reads
  learn-Leads X look rest learn h = record {
    at = λ s k. proceed-Leads (look s) rest s (λ x e. h x (learn s x k e)) k;
  }

module _ {S : Type 0} where
  pub reads-Holds : {A : Type 0} (P : S → Type 0) (look : S → Result A) → Holds P (reads look)
  unfolding reads
  reads-Holds P look = record { at = λ s k. k }

  pub pure-Holds : {A : Type 0} (P : S → Type 0) (x : A) → Holds P (pure {S = S} x)
  unfolding pure
  pure-Holds P x = reads-Holds P λ s. ok x

  pub modify-Holds :
      (P : S → Type 0) (change : S → S) → ((s : S) → P s → P (change s)) → Holds P (modify change)
  unfolding modify
  modify-Holds P change h = record { at = h }

  pub if_kept : (P : S → Type 0) (b : Bool) (s s' : S) → P s → P s' → P (if b then s else s')
  if_kept P true s s' h k = h
  if_kept P false s s' h k = k

  pub when-Holds :
      (P : S → Type 0) (b : Bool) (m : Exec S (Unit {0})) → Holds P m → Holds P (when b m)
  unfolding when
  when-Holds P true m g = g
  when-Holds P false m g = pure-Holds P tt

  pub if-Holds :
      (P : S → Type 0) (b : Bool) (m m' : Exec S (Unit {0}))
      → Holds P m
      → Holds P m'
      → Holds P (if b then m else m')
  if-Holds P true m m' g h = g
  if-Holds P false m m' g h = h

  pub for_each-Holds :
      {A : Type 0} (P : S → Type 0) (xs : List A) (body : A → Exec S (Unit {0}))
      → ((x : A) → Memᴰ x xs → Holds P (body x))
      → Holds P (for_each xs body)
  unfolding for_each
  for_each-Holds P [] body h = pure-Holds P tt
  for_each-Holds P (x ∷ xs) body h =
      bind-Holds P (body x) _ (h x (Memᴰ.head refl))
        λ _. for_each-Holds P xs body (λ y m. h y (Memᴰ.tail m))

module _ {S A : Type 0} where
  pub option-Holds :
      (P : S → Type 0) (o : Option A) (m : Exec S (Unit {0})) (f : A → Exec S (Unit {0}))
      → Holds P m
      → ((x : A) → Holds P (f x))
      → Holds P (elim o as (λ _. Exec S (Unit {0})) [ none ↦ m | some x ↦ f x ])
  option-Holds P none m f g h = g
  option-Holds P (some x) m f g h = h x

  pub list-Holds :
      (P : S → Type 0) (l : List A) (m : Exec S (Unit {0})) (f : A → List A → Exec S (Unit {0}))
      → Holds P m
      → ((x : A) (xs : List A) → l ≡ x ∷ xs → Holds P (f x xs))
      → Holds P (elim l as (λ _. Exec S (Unit {0})) [ [] ↦ m | x ∷ xs ↦ f x xs ])
  list-Holds P [] m f g h = g
  list-Holds P (x ∷ xs) m f g h = h x xs refl

pub ruleset holds_rules = (bind-Holds, reads-Holds, pure-Holds, when-Holds, if-Holds, modify-Holds)
