-- ===== src/Server/Turn/Moves/Nodes.antt =====
-- The nodes that the moves are about exist.
use mathlib.Core.List.Memᴰ
use smts.Prelude.{
  ℕ, ◌<◌, ◌≡◌, refl, subst, Bool, not, ◌&&◌, some, List, [], ◌∷◌, ◌++◌, Memᴰ, Result, ok, arith,
  filter_by, length, ltb, Bool-cases, inl, inr,
}
use smts.Tree.Defs.{Tree, Marks, unknown, is_and}
use smts.Tree.Shape.{IsForest, Below, here, down}
use smts.Tree.Subtree.{mem-all_iff}
use smts.Tree.Walk
use smts.Tree.Status.{childeren, same_status}
use smts.World.Effects.{Exec, reads, ◌>>=◌}
use smts.World.Holds.{Holds, learn-Holds}
use smts.Server.{with_node}
use smts.Server.Turn.{Turn, insert_by, sort_by, solvers_now}
use smts.Server.Turn.Keeps.{InOrder}
use smts.Server.Turn.Moves.{active_nodes}

pub mem-filter_by : (p : ℕ → Bool) (xs : List ℕ) {x : ℕ} → Memᴰ x (filter_by p xs) → Memᴰ x xs
unfolding filter_by
mem-filter_by p [] m = m
mem-filter_by p (y ∷ ys) m = elim (Bool-cases (p y)) [
  | inl kept ↦ elim (rw (kept, filter_by) at m) [
    | Memᴰ.head e ↦ Memᴰ.head e
    | Memᴰ.tail m' ↦ Memᴰ.tail (mem-filter_by p ys m')
  ]
  | inr dropped ↦ Memᴰ.tail (mem-filter_by p ys (rw (dropped, filter_by) at m))
]

mem-insert_by :
    (key : ℕ → ℕ) (x : ℕ) (ys : List ℕ) {z : ℕ} → Memᴰ z (insert_by key x ys) → Memᴰ z (x ∷ ys)
unfolding insert_by
mem-insert_by key x [] m = m
mem-insert_by key x (y ∷ ys) m = elim (Bool-cases (ltb (key y) (key x))) [
  | inl later ↦ elim (rw (later, insert_by) at m) [
    | Memᴰ.head e ↦ Memᴰ.tail (Memᴰ.head e)
    | Memᴰ.tail m' ↦ elim (mem-insert_by key x ys m') [
      | Memᴰ.head e ↦ Memᴰ.head e
      | Memᴰ.tail m'' ↦ Memᴰ.tail (Memᴰ.tail m'')
    ]
  ]
  | inr here_first ↦ rw (here_first, insert_by) at m
]

pub mem-sort_by : (key : ℕ → ℕ) (xs : List ℕ) {z : ℕ} → Memᴰ z (sort_by key xs) → Memᴰ z xs
unfolding sort_by
mem-sort_by key [] m = m
mem-sort_by key (x ∷ xs) m = elim (mem-insert_by key x (sort_by key xs) m) [
  | Memᴰ.head e ↦ Memᴰ.head e
  | Memᴰ.tail m' ↦ Memᴰ.tail (mem-sort_by key xs m')
]

-- Whatever stands below an existing node exists.
Below-lt : (t : Tree) (n c : ℕ) → IsForest t → n < t.next → Below t n c → c < t.next
Below-lt t n c f lt here = lt
Below-lt t n c f lt (down {p} b e m) = f.child_lt p c m

pub mem-all-lt :
    (t : Tree) (n : ℕ) {c : ℕ} → IsForest t → n < t.next → Memᴰ c (Walk.all t n) → c < t.next
mem-all-lt t n {c} f lt m = Below-lt t n c f lt ((mem-all_iff t n c f).0 m)

pub childeren-lt :
    (t : Tree) (m : Marks) (n : ℕ) (cs : List ℕ) {c : ℕ}
    → IsForest t
    → childeren t m.status n ≡ ok cs
    → Memᴰ c cs
    → c < t.next
unfolding childeren
childeren-lt t m n cs {c} f e mem = go (t.children n) refl
  where
    go : (l : List ℕ) → t.children n ≡ l → c < t.next
    go [] is_l = absurd (ground (arith, e, is_l))
    go (o ∷ rest) is_l =
        let open_ones : ℕ → Bool = λ k. same_status (m.status k) unknown in
        let is_cs : cs ≡ filter_by open_ones (t.children o) = ground (arith, e, is_l) in
        f.child_lt o c (mem-filter_by open_ones (t.children o) (subst (λ l. Memᴰ c l) is_cs mem))

-- The nodes of a list that is read exist behind the part that reads it.
pub learn_nodes :
    {C : Type 0} (ns : List ℕ) (look : Turn → Result (List ℕ)) (rest : List ℕ → Exec Turn C)
    → ((t : Turn) (xs : List ℕ)
        → InOrder ns t
        → look t ≡ ok xs
        → (n : ℕ) → Memᴰ n xs
        → n < t.server.world.tree.next)
    → ((xs : List ℕ) → Holds (InOrder (xs ++ ns)) (rest xs))
    → Holds (InOrder ns) (reads look >>= rest)
learn_nodes ns look rest known h =
    learn-Holds (InOrder ns) (λ xs. InOrder (xs ++ ns)) look rest
      (λ t xs k e. (
        (
          (
            k.0.0.0,
            λ n m. elim (Memᴰ.append_cases xs m) [
              | inl new ↦ known t xs k e n new
              | inr old ↦ k.0.0.1 n old
            ],
          ),
          k.0.1,
        ),
        k.1,
      ))
      (λ xs t k. (((k.0.0.0, λ n m. k.0.0.1 n (Memᴰ.append_right xs m)), k.0.1), k.1)) h

pub active-lt :
    (ns : List ℕ) (child : ℕ)
    → Memᴰ child ns
    → (t : Turn) (n : ℕ) → InOrder ns t
    → Memᴰ n (active_nodes child t)
    → n < t.server.world.tree.next
unfolding active_nodes
active-lt ns child known t n k m =
    let tree = t.server.world.tree in
    let marks = t.server.world.marks in
    let active : ℕ → Bool = λ j.
      same_status (marks.status j) unknown && (is_and (tree.class j) && not (marks.processed j)) in
    let crowd : ℕ → ℕ = λ j. length (solvers_now (with_node (some j)) t) in
    mem-all-lt tree child k.0.0.0.forest (k.0.0.1 child known) (
      mem-filter_by active (Walk.all tree child)
        (mem-sort_by crowd (filter_by active (Walk.all tree child)) m))
