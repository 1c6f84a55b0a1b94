-- ===== src/Tree/Subtree.antt =====
-- `all` lists exactly the nodes below.
use mathlib.Core.List.Memᴰ
use mathlib.Core.List.{flat_map}
use smts.Prelude.{
  ℕ, zero, suc, ◌+◌, ◌≤◌, ◌<◌, refl, sym, subst, inl, inr, ◌↔◌, List, [], ◌∷◌, arith,
}
use smts.Tree.Defs.{Tree}
use smts.Tree.Walk.{all_within, all}
use smts.Tree.Shape.{IsForest, Below, here, down, Below-trans}

module _ {A B : Type 0} (f : A → List B) where
  mem-flat_map :
      (xs : List A) {x : A} {y : B}
      → Memᴰ.Memᴰ x xs
      → Memᴰ.Memᴰ y (f x)
      → Memᴰ.Memᴰ y (flat_map f xs)
  unfolding flat_map
  mem-flat_map [] m k = elim m [ ]
  mem-flat_map (z ∷ xs) {y = y} (Memᴰ.head e) k =
      Memᴰ.append_left (flat_map f xs) (subst (λ u. Memᴰ.Memᴰ y (f u)) e k)
  mem-flat_map (z ∷ xs) (Memᴰ.tail m) k = Memᴰ.append_right (f z) (mem-flat_map xs m k)

  of_mem-flat_map :
      (xs : List A) {y : B}
      → Memᴰ.Memᴰ y (flat_map f xs)
      → (x : A) × Memᴰ.Memᴰ x xs × Memᴰ.Memᴰ y (f x)
  unfolding flat_map
  of_mem-flat_map [] m = elim m [ ]
  of_mem-flat_map (z ∷ xs) m = elim (Memᴰ.append_cases (f z) m) [
    | inl k ↦ (z, Memᴰ.head refl, k)
    | inr k ↦ let (x, m', k') = of_mem-flat_map xs k in (x, Memᴰ.tail m', k')
  ]

module _ {t : Tree} (w : IsForest t) where
  -- What the traversal lists stands below.
  all_within-Below : (f : ℕ) (n : ℕ) {m : ℕ} → Memᴰ.Memᴰ m (all_within f t n) → Below t n m
  unfolding all_within
  all_within-Below zero n m = elim m [ ]
  all_within-Below (suc f) n {m} (Memᴰ.head e) = subst (Below t n) (sym e) here
  all_within-Below (suc f) n {m} (Memᴰ.tail k) =
      let (c, child, k') = of_mem-flat_map (all_within f t) (t.children n) k in
      Below-trans (down here (w.parent_of_child n c child) child) (all_within-Below f c k')

  -- One more round of fuel reaches the children of what was listed.
  all_within-children :
      (f : ℕ) (n : ℕ) {p m : ℕ}
      → Memᴰ.Memᴰ p (all_within f t n)
      → Memᴰ.Memᴰ m (t.children p)
      → Memᴰ.Memᴰ m (all_within (suc f) t n)
  unfolding all_within
  all_within-children zero n k m = elim k [ ]
  all_within-children (suc f) n {p} {m} (Memᴰ.head e) c = Memᴰ.tail (
      mem-flat_map (all_within (suc f) t) (t.children n)
        (subst (λ q. Memᴰ.Memᴰ m (t.children q)) e c) (Memᴰ.head refl))
  all_within-children (suc f) n (Memᴰ.tail k) c =
      let (x, x_child, k') = of_mem-flat_map (all_within f t) (t.children n) k in
      Memᴰ.tail
        (mem-flat_map (all_within (suc f) t) (t.children n) x_child (all_within-children f x k' c))

  pub Below-le : {n m : ℕ} → Below t n m → n ≤ m
  Below-le here = omega arith
  Below-le (down {p} {n} b e m) = omega (arith, Below-le b, w.parent_lt n p e)

  -- With fuel above the distance in numbers every node below is listed.
  Below-all_within : (f : ℕ) {n m : ℕ} → Below t n m → m < n + f → Memᴰ.Memᴰ m (all_within f t n)
  unfolding all_within
  Below-all_within zero b h = absurd (omega (arith, Below-le b))
  Below-all_within (suc f) here h = Memᴰ.head refl
  Below-all_within (suc f) (down {p} {n} b e m) h =
      all_within-children f _ (Below-all_within f b (omega (arith, w.parent_lt n p e))) m

  Below-all : {n m : ℕ} → Below t n m → Memᴰ.Memᴰ m (all t n)
  unfolding all
  Below-all here = Below-all_within (suc t.next) here (omega arith)
  Below-all (down {p} {n} b e k) =
      Below-all_within (suc t.next) (down b e k) (omega (arith, w.child_lt p n k))

-- `all` lists a node exactly if it is the start or stands below it.
pub mem-all_iff : (t : Tree) (n m : ℕ) → IsForest t → Memᴰ.Memᴰ m (all t n) ↔ Below t n m
unfolding all
mem-all_iff t n m w = (all_within-Below w (suc t.next) n, Below-all w)
