-- ===== src/Prelude/Lists.antt =====
-- Lists measured and indexed by the native numbers, and the searches that Python's lists have.
use Prim.Native.Nat.{ℕ, zero, suc, ◌+◌, ◌≤◌}
use mathlib.Core.Path.{◌≡◌, refl, subst, sym}
use mathlib.Core.Logic.{inl, inr, ◌⊎◌}
use mathlib.Core.Bool.{Bool, true, false, ◌&&◌}
use mathlib.Core.List.{List, [], ◌∷◌, ◌++◌, Memᴰ}
use mathlib.Core.Option
use mathlib.Core.Option.{Option, none, some}
use native.Mathlib.Omega.{arith}
use smts.Prelude.Tests.{◌==◌, if◌then◌else◌, Bool-cases}

module _ {ℓ} {A : Type ℓ} where
  abbrev pub length : List A → ℕ
  length [] = 0
  length (x ∷ xs) = suc (length xs)

  abbrev pub get_elem? : List A → ℕ → Option A
  get_elem? [] i = none
  get_elem? (x ∷ xs) zero = some x
  get_elem? (x ∷ xs) (suc i) = get_elem? xs i

  -- `xs[:n]` and `xs[n:]`
  abbrev pub take : ℕ → List A → List A
  take zero xs = []
  take (suc n) [] = []
  take (suc n) (x ∷ xs) = x ∷ take n xs

  abbrev pub drop : ℕ → List A → List A
  drop zero xs = xs
  drop (suc n) [] = []
  drop (suc n) (x ∷ xs) = drop n xs

  -- `xs.pop()`: the list without its last element, and that element
  abbrev pub pop_last : List A → Option (List A × A)
  pop_last [] = none
  pop_last (x ∷ xs) = elim (pop_last xs) [ none ↦ some ([], x) | some (ys, y) ↦ some (x ∷ ys, y) ]

  -- `bool(xs)` of a list
  abbrev pub nonempty : List A → Bool
  nonempty [] = false
  nonempty (x ∷ xs) = true

  -- `[x for x in xs if p(x)]`
  unfoldable pub filter_by : (A → Bool) → List A → List A
  filter_by p [] = []
  filter_by p (x ∷ xs) = if p x then x ∷ filter_by p xs else filter_by p xs

  -- `all(p(x) for x in xs)`
  unfoldable pub all_of : (A → Bool) → List A → Bool
  all_of p [] = true
  all_of p (x ∷ xs) = p x && all_of p xs

  pub all_of-mem :
      (p : A → Bool) (xs : List A) {x : A} → all_of p xs ≡ true → Memᴰ x xs → p x ≡ true
  unfolding all_of
  all_of-mem p [] h m = elim m [ ]
  all_of-mem p (y ∷ xs) h (Memᴰ.head e) = ground (arith, e)
  all_of-mem p (y ∷ xs) h (Memᴰ.tail m) = ground (arith, all_of-mem p xs (ground arith) m)

module _ {ℓ} {A : Type ℓ} where
  pub nonempty-mem : (xs : List A) {x : A} → Memᴰ x xs → nonempty xs ≡ true
  nonempty-mem [] m = elim m [ ]
  nonempty-mem (y ∷ xs) m = refl

-- `xs.index(x)`, by identity; none where Python raises ValueError
unfoldable pub index : ℕ → List ℕ → Option ℕ
index n [] = none
index n (x ∷ xs) = if x == n then some 0 else Option.map suc (index n xs)

-- What `index` finds stands there.
pub get_elem?-index :
    (n : ℕ) (xs : List ℕ) → Memᴰ n xs → (i : ℕ) × (index n xs ≡ some i) × (get_elem? xs i ≡ some n)
unfolding index
get_elem?-index n [] m = elim m [ ]
get_elem?-index n (x ∷ xs) (Memᴰ.head e) = (0, ground arith, ground arith)
get_elem?-index n (x ∷ xs) (Memᴰ.tail m) =
    let (i, found, at) = get_elem?-index n xs m in
    elim (Bool-cases (x == n)) [
      | inl same ↦ (0, ground arith, ground arith)
      | inr other ↦ (suc i, ground arith, at)
    ]

module _ {ℓ} {A : Type ℓ} where
  pub length-append : (xs ys : List A) → length (xs ++ ys) ≡ length xs + length ys
  length-append [] ys = omega arith
  length-append (x ∷ xs) ys = omega (arith, length-append xs ys)

  pub take-append-drop : (n : ℕ) (xs : List A) → take n xs ++ drop n xs ≡ xs
  take-append-drop zero xs = refl
  take-append-drop (suc n) [] = refl
  take-append-drop (suc n) (x ∷ xs) = rw (take-append-drop n xs)

  pub length-take : (n : ℕ) (xs : List A) → n ≤ length xs → length (take n xs) ≡ n
  length-take zero xs h = refl
  length-take (suc n) [] h = absurd (omega arith)
  length-take (suc n) (x ∷ xs) h = omega (arith, length-take n xs)

  pub take-append : (xs ys : List A) → take (length xs) (xs ++ ys) ≡ xs
  take-append [] ys = refl
  take-append (x ∷ xs) ys = rw (take-append xs ys)

  pub drop-append : (xs ys : List A) → drop (length xs) (xs ++ ys) ≡ ys
  drop-append [] ys = refl
  drop-append (x ∷ xs) ys = drop-append xs ys

  -- What `pop` leaves, and what it returns, were in the list.
  pub pop_last-mem :
      (xs ys : List A) (y : A)
      → pop_last xs ≡ some (ys, y)
      → ((x : A) → Memᴰ x ys → Memᴰ x xs) × Memᴰ y xs
  pop_last-mem [] ys y e = absurd (cc)
  pop_last-mem (x ∷ xs) ys y e = popped (pop_last xs) refl (pop_last-mem xs)
    where
      popped :
          (r : Option (List A × A))
          → pop_last xs ≡ r
          → ((zs : List A) (z : A)
              → pop_last xs ≡ some (zs, z)
              → ((v : A) → Memᴰ v zs → Memᴰ v xs) × Memᴰ z xs)
          → ((z : A) → Memᴰ z ys → Memᴰ z (x ∷ xs)) × Memᴰ y (x ∷ xs)
      popped none f ih =
          let none_left : ys ≡ [] = ground (arith, e, f) in
          (λ z m. elim (subst (λ l. Memᴰ z l) none_left m) [ ], Memᴰ.head (ground (arith, e, f)))
      popped (some (zs, z)) f ih =
          let front : ys ≡ x ∷ zs = ground (arith, e, f) in
          let last : y ≡ z = ground (arith, e, f) in
          (
            λ v m. elim (subst (λ l. Memᴰ v l) front m) [
              | Memᴰ.head p ↦ Memᴰ.head p
              | Memᴰ.tail m' ↦ Memᴰ.tail ((ih zs z f).0 v m')
            ],
            Memᴰ.tail (subst (λ v. Memᴰ v xs) (sym last) (ih zs z f).1),
          )

module _ {ℓ} {A : Type ℓ} where
  pub List-cases : (xs : List A) → (xs ≡ []) ⊎ ((x : A) × (rest : List A) × (xs ≡ x ∷ rest))
  List-cases [] = inl refl
  List-cases (x ∷ rest) = inr (x, rest, refl)
