-- ===== src/Tree/Paths.antt =====
-- Paths of index numbers: `path`, `child` and `is_ancestor` agree with the tree.
use mathlib.Core.List.Memᴰ
use mathlib.Core.List
use smts.Prelude.{
  ℕ, zero, suc, ◌<◌, ◌≡◌, refl, sym, ap, subst, ◌∙◌, ◌↔◌, Bool, true, false, none, some, List, [],
  ◌∷◌, ◌++◌, ==_self, ltb, if◌then◌else◌, arith, ok, inl, inr, get_elem?, get_elem?-index, length,
  reverse, reverse-append, nonempty-mem, Option-cases,
}
use smts.Tree.Defs.{Tree}
use smts.Tree.Walk.{path_up, path, child, same_prefix, is_ancestor}
use smts.Tree.Shape.{IsForest, Below, here, down, IsAttached, Below-trans, trail, trail_trans}

module _ {t : Tree} (w : IsForest t) where
  -- The loop of `path` follows the trail, with any fuel above the node's number.
  path_up-trail :
      (f : ℕ) {a n : ℕ} (b : Below t a n) → t.parent a ≡ none → n < f → path_up f t n ≡ ok (trail b)
  unfolding path_up trail
  path_up-trail zero b top h = absurd (omega arith)
  path_up-trail (suc f) here top h = ground arith
  path_up-trail (suc f) (down {p} {n} b e m) top h =
      let (i, found, at) = get_elem?-index n (t.children p) m in
      ground (
        arith,
        nonempty-mem (t.children p) m,
        path_up-trail f b top (omega (arith, w.parent_lt n p e)),
      )

  path-trail : {a n : ℕ} (b : Below t a n) → t.parent a ≡ none → path t n ≡ ok (reverse (trail b))
  unfolding path
  path-trail {n = n} b top = rw (path_up-trail (suc n) b top (omega arith))

child-append :
    (t : Tree) (n : ℕ) (a b : List ℕ) {m : ℕ}
    → child t n a ≡ ok m
    → child t n (a ++ b) ≡ child t m b
unfolding child
child-append t n [] b e = ground arith
child-append t n (i ∷ a) b e = elim (Option-cases (get_elem? (t.children n) i)) [
  | inl missing ↦ ground arith
  | inr (k, found) ↦ rw found (child-append t k a b (rw found at e))
]

-- Following a trail down with `child` ends at its node.
child-trail : {t : Tree} {a n : ℕ} (b : Below t a n) → child t a (reverse (trail b)) ≡ ok n
unfolding child trail
child-trail here = refl
child-trail {t} {a} (down {p} {n} b e m) =
    let (i, found, at) = get_elem?-index n (t.children p) m in
    rw List.reverse-cons
      (child-append t a (reverse (trail b)) (i ∷ []) (child-trail b) ∙ rw (at, child))

-- What `child` finds stands below.
get_elem?-mem : (xs : List ℕ) (i : ℕ) {x : ℕ} → get_elem? xs i ≡ some x → Memᴰ.Memᴰ x xs
get_elem?-mem [] i e = cc
get_elem?-mem (y ∷ xs) zero e = Memᴰ.head (ground arith)
get_elem?-mem (y ∷ xs) (suc i) e = Memᴰ.tail (get_elem?-mem xs i e)

child-Below :
    {t : Tree} → IsForest t → (n : ℕ) (is : List ℕ) {m : ℕ} → child t n is ≡ ok m → Below t n m
unfolding child
child-Below w n [] e = subst (Below _ n) (ground arith) here
child-Below {t} w n (i ∷ is) e = elim (Option-cases (get_elem? (t.children n) i)) [
  | inl missing ↦ cc (rw missing at e)
  | inr (k, found) ↦
      let m = get_elem?-mem (t.children n) i found in
      Below-trans (down here (w.parent_of_child n k m) m) (child-Below w k is (rw found at e))
]

same_prefix-append : (a b : List ℕ) → same_prefix a (a ++ b) ≡ true
unfolding same_prefix
same_prefix-append [] b = refl
same_prefix-append (x ∷ a) b = rw (==_self x) (same_prefix-append a b)

length-append_le : (a b : List ℕ) → ltb (length (a ++ b)) (length a) ≡ false
length-append_le [] b = ground arith
length-append_le (x ∷ a) b = ground (arith, length-append_le a b)

append_of_same_prefix : (a b : List ℕ) → same_prefix a b ≡ true → (c : List ℕ) × (b ≡ a ++ c)
unfolding same_prefix
append_of_same_prefix [] b e = (b, refl)
append_of_same_prefix (x ∷ a) [] e = cc
append_of_same_prefix (x ∷ a) (y ∷ b) e =
    let (c, rest) = append_of_same_prefix a b (ground arith) in (c, ground arith)

-- The path of an attached node is found, and following it from the root leads back to the node.
pub child-path :
    (t : Tree) (n : ℕ)
    → IsForest t
    → IsAttached t n
    → (is : List ℕ) × (path t n ≡ ok is) × (child t (t.root n) is ≡ ok n)
child-path t n w b = (reverse (trail b), path-trail w b (w.root_top n), child-trail b)

-- The answer of `is_ancestor`, from the trails.
abbrev starts_with : List ℕ → List ℕ → Bool
starts_with a b = if ltb (length b) (length a) then false else same_prefix a b

is_ancestor-trail :
    {t : Tree} {s n : ℕ}
    → IsForest t
    → (x : IsAttached t s) (y : IsAttached t n) → t.root s ≡ t.root n
    → is_ancestor t s n ≡ ok (starts_with (reverse (trail x)) (reverse (trail y)))
unfolding is_ancestor
is_ancestor-trail {t} {s} {n} w x y same =
    ground (arith, path-trail w x (w.root_top s), path-trail w y (w.root_top n))

starts_with-append : (a b : List ℕ) → starts_with a (a ++ b) ≡ true
starts_with-append a b = rw (length-append_le a b) (same_prefix-append a b)

-- In one tree `is_ancestor` answers, and says true exactly for the nodes below.
pub is_ancestor_iff :
    (t : Tree) (s n : ℕ)
    → IsForest t
    → IsAttached t s
    → IsAttached t n
    → t.root s ≡ t.root n
    → (b : Bool) × (is_ancestor t s n ≡ ok b) × ((b ≡ true) ↔ Below t s n)
is_ancestor_iff t s n w x y same = (
  starts_with (reverse (trail x)) (reverse (trail y)),
  is_ancestor-trail w x y same,
  (sound, complete),
)
  where
    sound : starts_with (reverse (trail x)) (reverse (trail y)) ≡ true → Below t s n
    sound e =
        let (c, longer) =
          append_of_same_prefix (reverse (trail x)) (reverse (trail y)) (ground arith) in
        child-Below w s c (
          sym (child-append t (t.root s) (reverse (trail x)) c (child-trail x))
          ∙ ap (child t (t.root s)) (sym longer)
          ∙ subst (λ r. child t r (reverse (trail y)) ≡ ok n) (sym same) (child-trail y))

    complete : Below t s n → starts_with (reverse (trail x)) (reverse (trail y)) ≡ true
    complete z =
        subst (λ l. starts_with (reverse (trail x)) l ≡ true)
          (ground (
            arith,
            path-trail w y (w.root_top n),
            path-trail w (Below-trans x z) (w.root_top s),
            trail_trans x z,
            reverse-append (trail z) (trail x),
          ))
          (starts_with-append (reverse (trail x)) (reverse (trail z)))
