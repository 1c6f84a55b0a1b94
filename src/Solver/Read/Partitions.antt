-- ===== src/Solver/Read/Partitions.antt =====
-- What the partitions of a payload become.
use Prim.Native.String.{◌++◌ as str_append}
use mathlib.Core.List.{map-append, append-nil}
use smts.Prelude.{
  ℕ, ◌<◌, ◌≡◌, ◌≢◌, none, refl, sym, ap, ◌∙◌, some, List, [], ◌∷◌, ◌++◌, map, append_assoc, Memᴰ,
  Bool-cases, Bool, true, false, inl, inr, arith, String, if◌then◌else◌, is_empty, split_nul,
}
use smts.Tree.Defs.{Tree, Marks, init_node, init_marks, and_node, is_and, update, unknown, clear}
use smts.Tree.Shape.{IsForest}
use smts.Tree.Growth.{new_and-IsForest}
use smts.Solver.Read.{
  add_partitions, receive_partitions, settle_partitions, is_solved, add_received,
}
use smts.Tree.Status.{same_status}
use smts.Solver.Read.Keeps.{settled_tree}
use smts.World.Objects.{World, Header}

-- The formula of a partition that is not empty.
abbrev pub assertion : String → String
assertion p = str_append "(assert " (str_append p ")")

-- A column of a tree at older nodes does not see what is written at the next one.
map-update :
    {A : Type 0} (f : ℕ → A) (n : ℕ) (v : A) (xs : List ℕ)
    → ((x : ℕ) → Memᴰ x xs → x < n)
    → map (update f n v) xs ≡ map f xs
map-update f n v [] h = refl
map-update f n v (x ∷ xs) h =
    let older : x < n = h x (Memᴰ.head refl) in
    let rest = map-update f n v xs (λ y m. h y (Memᴰ.tail m)) in ground (arith, older, rest)

-- The formulas of the parts that are not empty.
unfoldable pub assertions : List String → List String
assertions [] = []
assertions (p ∷ ps) = if is_empty p then assertions ps else assertion p ∷ assertions ps

-- The formulas of the children of `o`, in their order.
abbrev pub formulas : Tree → ℕ → List String
formulas t o = map t.smt (t.children o)

-- One new child.
pub formulas-new_and :
    (t : Tree) (o : ℕ) (s : String)
    → IsForest t
    → o < t.next
    → formulas (init_node t and_node (some o) s) o ≡ formulas t o ++ s ∷ []
unfolding init_node
formulas-new_and t o s f lt =
    let column = map-update t.smt t.next s (t.children o) (λ x m. f.child_lt o x m) in
    let children : (init_node t and_node (some o) s).children o ≡ t.children o ++ t.next ∷ [] =
      ground arith in
    let last : update t.smt t.next s t.next ≡ s = ground arith in
    ap (map (update t.smt t.next s)) children
    ∙ map-append (update t.smt t.next s) (t.children o) (t.next ∷ [])
    ∙ rw (column, last) refl

-- The loop runs to the end, and appends a child for each part that is not empty.
pub add_partitions-formulas :
    (t : Tree) (m : Marks) (o : ℕ) (ps : List String)
    → IsForest t
    → o < t.next
    → is_and (t.class o) ≡ false
    → ((add_partitions t m o ps).2 ≡ true)
      × (formulas (add_partitions t m o ps).0 o ≡ formulas t o ++ assertions ps)
unfolding add_partitions assertions
add_partitions-formulas t m o [] f lt or = (refl, sym (append-nil _))
add_partitions-formulas t m o (p ∷ ps) f lt or = elim (Bool-cases (is_empty p)) [
  | inl empty ↦ rw (empty, assertions) (add_partitions-formulas t m o ps f lt or)
  | inr full ↦
      let t' : Tree = init_node t and_node (some o) (assertion p) in
      let f' : IsForest t' =
        new_and-IsForest t t' (some o) (assertion p) (λ q e. ground arith) f (ground (arith, or)) in
      let (filled, rest) =
        add_partitions-formulas t' (init_marks m t.next) o ps f' (omega arith) (ground arith) in
      rw (full, or, assertions)
        (
          filled,
          rest
              ∙ ap (λ l. l ++ assertions ps) (formulas-new_and t o (assertion p) f lt)
              ∙ append_assoc (formulas t o) (assertion p ∷ []) (assertions ps),
        )
]

-- Older nodes keep their parent and their status.
pub add_partitions-old :
    (t : Tree) (m : Marks) (o q : ℕ) (ps : List String)
    → q < t.next
    → ((add_partitions t m o ps).0.parent q ≡ t.parent q)
      × ((add_partitions t m o ps).1.status q ≡ m.status q)
unfolding add_partitions
add_partitions-old t m o q [] lt = (refl, refl)
add_partitions-old t m o q (p ∷ ps) lt =
    let t' : Tree = init_node t and_node (some o) (assertion p) in
    let ih = add_partitions-old t' (init_marks m t.next) o q ps (omega arith) in
    let same_parent : t'.parent q ≡ t.parent q = ground arith in
    let same_status : (init_marks m t.next).status q ≡ m.status q = ground arith in
    elim (Bool-cases (is_empty p)) [
      | inl empty ↦ rw empty (add_partitions-old t m o q ps lt)
      | inr full ↦ elim (Bool-cases (is_and (t.class o))) [
        | inl and ↦ rw (full, and) (refl, refl)
        | inr or ↦ rw (full, or) (ih.0 ∙ same_parent, ih.1 ∙ same_status)
      ]
    ]

-- The tree once the loop has run to the end.
received_tree :
    (w : World) (o : ℕ) (h : Header) (s : String)
    → (add_partitions w.tree w.marks o (split_nul s)).2 ≡ true
    → (receive_partitions o h (some s) w).1.tree ≡ (
        let (t, m, _) = add_partitions w.tree w.marks o (split_nul s) in
        if is_solved t m o then clear t o else t)
unfolding receive_partitions
received_tree w o h s filled =
    let added : Tree × Marks × Bool = add_partitions w.tree w.marks o (split_nul s) in
    let h' = add_received added.0 o h in
    let w' : World = record w { tree = added.0; marks = added.1 } in
    rw (filled, receive_partitions) (settled_tree o h' w')

is_solved-unknown :
    (t : Tree) (m : Marks) (o p : ℕ)
    → t.parent o ≡ some p
    → m.status p ≡ unknown
    → is_solved t m o ≡ false
unfolding is_solved
is_solved-unknown t m o p under st = rw (under, is_solved) (rw (st, same_status) refl)

is_solved-decided :
    (t : Tree) (m : Marks) (o p : ℕ)
    → t.parent o ≡ some p
    → m.status p ≢ unknown
    → is_solved t m o ≡ true
unfolding is_solved
is_solved-decided t m o p under st = ground (arith, under, st)

-- When the partitions that were asked for under the OR node `o` arrive: if its parent has no status yet,
-- `o` gets one child for each part of the payload that is not empty, in the order of the payload,
-- with the part as its assertion. If the parent is decided, or the payload is not UTF-8, `o`
-- has no children afterwards.
pub receive_partitions-formulas :
    (w : World) (o p : ℕ) (h : Header) (s : String)
    → IsForest w.tree
    → o < w.tree.next
    → is_and (w.tree.class o) ≡ false
    → w.tree.parent o ≡ some p
    → (w.marks.status p ≡ unknown
        → formulas (receive_partitions o h (some s) w).1.tree o
          ≡ formulas w.tree o ++ assertions (split_nul s))
      × (w.marks.status p ≢ unknown → (receive_partitions o h (some s) w).1.tree.children o ≡ [])
      × ((receive_partitions o h none w).1.tree.children o ≡ [])
unfolding receive_partitions settle_partitions clear
receive_partitions-formulas w o p h s f lt or under =
    let parts_of = split_nul s in
    let (filled, formulas_of) = add_partitions-formulas w.tree w.marks o parts_of f lt or in
    let same_parent = (add_partitions-old w.tree w.marks o o parts_of lt).0 in
    let same =
      (add_partitions-old w.tree w.marks o p parts_of (omega (arith, f.parent_lt o p under))).1 in
    let added : Tree × Marks × Bool = add_partitions w.tree w.marks o parts_of in
    let tree_of = received_tree w o h s filled in
    let w' : World = (receive_partitions o h (some s) w).1 in
    (
      λ st.
          let undecided = is_solved-unknown added.0 added.1 o p (same_parent ∙ under) (same ∙ st) in
          let kept : w'.tree ≡ added.0 = tree_of ∙ rw undecided refl in
          ap (λ t. formulas t o) kept ∙ formulas_of,
      λ st.
          let decided =
            is_solved-decided added.0 added.1 o p (same_parent ∙ under) (λ e. st (sym same ∙ e)) in
          let cleared : w'.tree ≡ clear added.0 o = tree_of ∙ rw decided refl in
          ap (λ (t : Tree). t.children o) cleared ∙ ground arith,
      ground arith,
    )
