-- ===== src/World/Effects.antt =====
-- Methods that change a state and may raise.
use smts.Prelude.{Bool, if◌then◌else◌, List, [], ◌∷◌, Result, ok, err}

abbrev pub Exec : Type 0 → Type 0 → Type 0
Exec S A = S → Result A × S

-- A part that only reads the state, and may raise.
unfoldable pub reads : {S A : Type 0} → (S → Result A) → Exec S A
reads look s = (look s, s)

-- A part that only writes.
unfoldable pub modify : {S : Type 0} → (S → S) → Exec S (Unit {0})
modify change s = (ok tt, change s)

unfoldable pub pure : {S A : Type 0} → A → Exec S A
unfolding reads
pure x = reads λ _. ok x

module _ {S A B : Type 0} where
  -- An exception ends the method, and the state stays as it is then.
  abbrev pub proceed : Result A → (A → Exec S B) → Exec S B
  proceed (err raised) rest s = (err raised, s)
  proceed (ok x) rest s = rest x s

  infixl 5 ◌>>=◌ ◌>>◌
  unfoldable pub ◌>>=◌ : Exec S A → (A → Exec S B) → Exec S B
  ◌>>=◌ first rest s = proceed (first s).0 rest (first s).1

  abbrev pub ◌>>◌ : Exec S A → Exec S B → Exec S B
  first >> rest = first >>= λ _. rest

-- `if b: m`
unfoldable pub when : {S : Type 0} → Bool → Exec S (Unit {0}) → Exec S (Unit {0})
unfolding pure
when b m = if b then m else pure tt

-- `for x in xs: body(x)`
unfoldable pub for_each : {S A : Type 0} → List A → (A → Exec S (Unit {0})) → Exec S (Unit {0})
unfolding pure ◌>>=◌
for_each [] body = pure tt
for_each (x ∷ xs) body = body x >>= λ _. for_each xs body
