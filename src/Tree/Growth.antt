-- ===== src/Tree/Growth.antt =====
-- The constructors and `clear` keep a forest well-formed.
use mathlib.Core.List.Memᴰ
use smts.Prelude.{
  ℕ, suc, ◌<◌, ◌≡◌, refl, subst, true, not, Option, none, some, List, [], ◌∷◌, ◌++◌, Memᴰ, ◌==◌,
  ==_iff, if◌then◌else◌, arith, ok, Bool-cases, inl, inr, ◌⊎◌, String, ◌≢◌,
}
use smts.Tree.Defs.{
  Tree, Class, and_node, or_node, is_and, update, no_nodes, init_node, new_and, new_or, new_root,
  clear, Format,
}
use smts.Tree.Shape.{IsForest}

pub no_nodes-IsForest : IsForest no_nodes
no_nodes-IsForest = record {
  parent_lt = λ n p e. cc;
  parent_of_child = λ n c m. elim m [ ];
  child_lt = λ n c m. elim m [ ];
  root_le = λ n. omega arith;
  root_top = λ n. refl;
  root_self = λ n e. refl;
  root_step = λ n p e. cc;
  top_and = λ n e. refl;
  alternate = λ n p e. cc;
  unused = λ n h. refl;
}

-- What stands in a column of lists after an assignment.
mem-update :
    (f : ℕ → List ℕ) (q : ℕ) (l : List ℕ) {x n : ℕ}
    → Memᴰ x (update f q l n)
    → (q ≡ n) × Memᴰ x l ⊎ (q ≢ n) × Memᴰ x (f n)
mem-update f q l {x} {n} m = elim (Bool-cases (q == n)) [
  | inl same ↦ inl ((==_iff q n).0 same, subst (λ b. Memᴰ x (if b then l else f n)) same m)
  | inr other ↦ inr (ground arith, subst (λ b. Memᴰ x (if b then l else f n)) other m)
]

-- The children after a new node: the old ones, and the new node under its parent.
mem-init_root :
    (t : Tree) (c : Class) (s : String) {x n : ℕ}
    → Memᴰ x ((init_node t c none s).children n)
    → Memᴰ x (t.children n)
unfolding init_node
mem-init_root t c s {x} {n} m = elim (mem-update t.children t.next [] {x = x} {n = n} m) [
  | inl (_, k) ↦ elim k [ ]
  | inr (_, k) ↦ k
]

mem-init_child :
    (t : Tree) (c : Class) (p : ℕ) (s : String) {x n : ℕ}
    → Memᴰ x ((init_node t c (some p) s).children n)
    → Memᴰ x (t.children n) ⊎ (p ≡ n) × (x ≡ t.next)
unfolding init_node
mem-init_child t c p s {x} {n} m =
    elim (mem-update (update t.children p (t.children p ++ t.next ∷ [])) t.next [] {x = x} {n = n}
      m) [
        | inl (_, k) ↦ elim k [ ]
        | inr (_, k) ↦
            elim (mem-update t.children p (t.children p ++ t.next ∷ []) {x = x} {n = n} k) [
              | inl (e, j) ↦ elim (Memᴰ.append_cases (t.children p) j) [
                | inl old ↦ inl (subst (λ q. Memᴰ x (t.children q)) e old)
                | inr new ↦ inr (e, Memᴰ.eq_of_singleton new)
              ]
              | inr (_, j) ↦ inl j
            ]
      ]

-- A new root, in the first free cell.
init_root-IsForest :
    (t : Tree) (c : Class) (s : String)
    → is_and c ≡ true
    → IsForest t
    → IsForest (init_node t c none s)
unfolding init_node
init_root-IsForest t c s k w = record {
  parent_lt = λ n p e. ground (arith, w.parent_lt n p);
  parent_of_child = λ n x m. ground (
    arith,
    w.parent_of_child n x (mem-init_root t c s {n = n} m),
    w.child_lt n x (mem-init_root t c s {n = n} m),
  );
  child_lt = λ n x m. ground (arith, w.child_lt n x (mem-init_root t c s {n = n} m));
  root_le = λ n. ground (arith, w.root_le n);
  root_top = λ n. ground (arith, w.root_top n, w.root_le n);
  root_self = λ n e. ground (arith, w.root_self n);
  root_step = λ n p e. ground (arith, w.root_step n p, w.parent_lt n p, w.unused n);
  top_and = λ n e. ground (arith, w.top_and n);
  alternate = λ n p e. ground (arith, w.alternate n p, w.parent_lt n p, w.unused n);
  unused = λ n h. ground (arith, w.unused n);
}

-- A new child of the node `p`, of the other kind.
init_child-IsForest :
    (t : Tree) (c : Class) (p : ℕ) (s : String)
    → is_and c ≡ not (is_and (t.class p))
    → p < t.next
    → IsForest t
    → IsForest (init_node t c (some p) s)
unfolding init_node
init_child-IsForest t c p s k old w = record {
  parent_lt = λ n q e. ground (arith, w.parent_lt n q);
  parent_of_child = λ n x m. elim (mem-init_child t c p s {x = x} {n = n} m) [
    | inl m' ↦ ground (arith, w.parent_of_child n x m', w.child_lt n x m')
    | inr (e, e') ↦ ground arith
  ];
  child_lt = λ n x m. elim (mem-init_child t c p s {x = x} {n = n} m) [
    | inl m' ↦ ground (arith, w.child_lt n x m')
    | inr (e, e') ↦ ground arith
  ];
  root_le = λ n. ground (arith, w.root_le n, w.root_le p);
  root_top = λ n.
      ground
        (arith, w.root_top n, w.root_top p, w.root_le n, w.root_le p, w.unused n, w.root_self n);
  root_self = λ n e. ground (arith, w.root_self n);
  root_step = λ n q e. ground (arith, w.root_step n q, w.parent_lt n q, w.unused n);
  top_and = λ n e. ground (arith, w.top_and n);
  alternate = λ n q e. ground (arith, w.alternate n q, w.parent_lt n q, w.unused n);
  unused = λ n h. ground (arith, w.unused n);
}

-- Every constructor that does not raise keeps the forest well-formed.
pub new_root-IsForest :
    (t : Tree) (f : Format) (name s : String) → IsForest t → IsForest (new_root t f name s)
unfolding new_root
new_root-IsForest t f name s w = init_root-IsForest t _ s refl w

-- An OR node that the constructor makes under a node of a well-formed forest leaves it well-formed.
pub new_or-IsForest :
    (t t' : Tree) (p : ℕ) (s : String)
    → p < t.next
    → IsForest t
    → new_or t p s ≡ ok t'
    → IsForest t'
unfolding new_or
new_or-IsForest t t' p s old w e = elim (Bool-cases (is_and (t.class p))) [
  | inl and ↦ subst IsForest (ground arith) (init_child-IsForest t or_node p s (ground arith) old w)
  | inr or ↦ absurd (ground arith)
]

-- An AND node that the constructor makes in a well-formed forest, alone or under an OR node of it,
-- leaves it well-formed.
pub new_and-IsForest :
    (t t' : Tree) (p : Option ℕ) (s : String)
    → ((q : ℕ) → p ≡ some q → q < t.next)
    → IsForest t
    → new_and t p s ≡ ok t'
    → IsForest t'
unfolding new_and
new_and-IsForest t t' none s old w e =
    subst IsForest (ground arith) (init_root-IsForest t and_node s refl w)
new_and-IsForest t t' (some p) s old w e = elim (Bool-cases (is_and (t.class p))) [
  | inl and ↦ absurd (ground arith)
  | inr or ↦
      subst IsForest (ground arith)
        (init_child-IsForest t and_node p s (ground arith) (old p refl) w)
]

pub clear-IsForest : (t : Tree) (n : ℕ) → IsForest t → IsForest (clear t n)
unfolding clear
clear-IsForest t n w = record {
  parent_lt = w.parent_lt;
  parent_of_child = λ k c m. elim (mem-update t.children n [] {x = c} {n = k} m) [
    | inl (_, no_child) ↦ elim no_child [ ]
    | inr (_, m') ↦ w.parent_of_child k c m'
  ];
  child_lt = λ k c m. elim (mem-update t.children n [] {x = c} {n = k} m) [
    | inl (_, no_child) ↦ elim no_child [ ]
    | inr (_, m') ↦ w.child_lt k c m'
  ];
  root_le = w.root_le;
  root_top = w.root_top;
  root_self = w.root_self;
  root_step = w.root_step;
  top_and = w.top_and;
  alternate = w.alternate;
  unused = w.unused;
}

-- The new node is in the first free cell.
pub new_or-grows : (t t' : Tree) (p : ℕ) (s : String) → new_or t p s ≡ ok t' → t'.next ≡ suc t.next
unfolding new_or init_node
new_or-grows t t' p s e = ground arith

pub new_and-grows :
    (t t' : Tree) (p : Option ℕ) (s : String) → new_and t p s ≡ ok t' → t'.next ≡ suc t.next
unfolding new_and init_node
new_and-grows t t' none s e = ground arith
new_and-grows t t' (some p) s e = ground arith
