-- ===== src/Tree/Shape.antt =====
-- Well-formed trees, and the relation that a node stands below another one.
use smts.Prelude.{
  ℕ, ◌≤◌, ◌<◌, ◌≡◌, refl, ap, true, not, none, some, List, [], ◌∷◌, ◌++◌, Memᴰ, get_elem?-index,
  ◌∙◌,
}
use smts.Tree.Defs.{Tree, is_and}

-- Each node is younger than its parent, stands among the children of nobody else, is of the other
-- kind than its parent, and knows its root. Cells from `next` on are not used yet.
pub record IsForest (t : Tree) : Type 0 where
  pub parent_lt : (n p : ℕ) → t.parent n ≡ some p → p < n
  pub parent_of_child : (n c : ℕ) → Memᴰ c (t.children n) → t.parent c ≡ some n
  pub child_lt : (n c : ℕ) → Memᴰ c (t.children n) → c < t.next
  pub root_le : (n : ℕ) → t.root n ≤ n
  pub root_top : (n : ℕ) → t.parent (t.root n) ≡ none
  pub root_self : (n : ℕ) → t.parent n ≡ none → t.root n ≡ n
  pub root_step : (n p : ℕ) → t.parent n ≡ some p → t.root n ≡ t.root p
  pub top_and : (n : ℕ) → t.parent n ≡ none → is_and (t.class n) ≡ true
  pub alternate : (n p : ℕ) → t.parent n ≡ some p → is_and (t.class n) ≡ not (is_and (t.class p))
  pub unused : (n : ℕ) → t.next ≤ n → t.parent n ≡ none

-- `Below t a n`: the node `n` is reached from `a` through the children lists.
pub data Below (t : Tree) (a : ℕ) : ℕ → Type 0 where
  here : Below t a a
  down : {p n : ℕ} → Below t a p → t.parent n ≡ some p → Memᴰ n (t.children p) → Below t a n

-- `n` hangs on its root: nobody cleared a children list above it.
abbrev pub IsAttached : Tree → ℕ → Type 0
IsAttached t n = Below t (t.root n) n

unfoldable pub Below-trans : {t : Tree} {a b c : ℕ} → Below t a b → Below t b c → Below t a c
Below-trans x here = x
Below-trans x (down y e m) = down (Below-trans x y) e m

pub Below-root : {t : Tree} {a n : ℕ} → IsForest t → Below t a n → t.root n ≡ t.root a
Below-root w here = refl
Below-root w (down {p} {n} b e m) = w.root_step n p e ∙ Below-root w b

-- The indices on the way from `a` down to `n`, innermost first.
unfoldable pub trail : {t : Tree} {a n : ℕ} → Below t a n → List ℕ
trail here = []
trail {t} (down {p} {n} b e m) = (get_elem?-index n (t.children p) m).0 ∷ trail b

pub trail_trans :
    {t : Tree} {a b c : ℕ} (x : Below t a b) (y : Below t b c)
    → trail (Below-trans x y) ≡ trail y ++ trail x
unfolding trail Below-trans
trail_trans x here = refl
trail_trans {t} x (down {p} {n} y e m) =
    ap (λ l. (get_elem?-index n (t.children p) m).0 ∷ l) (trail_trans x y)
