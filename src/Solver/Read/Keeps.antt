-- ===== src/Solver/Read/Keeps.antt =====
-- `Solver.read` keeps the invariant of the world.
use Prim.Native.String.{◌++◌ as str_append}
use smts.Prelude.{
  ℕ, ◌≤◌, ◌<◌, ◌≡◌, refl, Option, Option-cases, none, some, List, [], ◌∷◌, Memᴰ, Bool-cases, Bool,
  true, false, inl, inr, arith, Result, ok, err, String, pop_last-mem, if◌then◌else◌, pop_last, not,
  ◌&&◌, lookup, erase, get_elem?, is_empty, string_key,
}
use smts.Tree.Defs.{
  Tree, Marks, init_node, init_marks, and_node, is_and, update, SolveStatus, clear,
}
use smts.Tree.Shape.{IsForest}
use smts.Tree.Growth.{new_and-IsForest, clear-IsForest}
use smts.World.Effects.{modify, ◌>>=◌, ◌>>◌}
use smts.World.Objects.{World, Header}
use smts.World.Running.{InRange, Knows, Knows_more, Keeps, InRange-update, InRange-grow}
use smts.Config.Constant
use smts.Solver.{set_solver}
use smts.Solver.Read.{
  has_text, has_key, parts, is_text, add_received, add_partitions, settle_partitions,
  receive_partitions, receive_status, receive, read, status_named, is_current, is_solved,
}

-- The partitions that are read grow a well-formed tree, also where the loop is left early.
pub add_partitions-grows :
    (t : Tree) (m : Marks) (o : ℕ) (ps : List String)
    → o < t.next
    → IsForest t
    → IsForest (add_partitions t m o ps).0 × (t.next ≤ (add_partitions t m o ps).0.next)
unfolding add_partitions
add_partitions-grows t m o [] lt f = (f, omega arith)
add_partitions-grows t m o (p ∷ ps) lt f = elim (Bool-cases (is_empty p)) [
  | inl empty ↦ rw empty (add_partitions-grows t m o ps lt f)
  | inr full ↦ elim (Bool-cases (is_and (t.class o))) [
    | inl and ↦ rw (full, and) (f, omega arith)
    | inr or ↦
        let formula : String = str_append "(assert " (str_append p ")") in
        let t' : Tree = init_node t and_node (some o) formula in
        let f' : IsForest t' =
          new_and-IsForest t t' (some o) formula (λ q e. ground arith) f (ground (arith, or)) in
        let after = add_partitions-grows t' (init_marks m t.next) o ps (omega arith) f' in
        rw (full, or) (after.0, omega (arith, after.1))
  ]
]

Knows-tree :
    (ns : List ℕ) (w : World) (t : Tree)
    → IsForest t
    → w.tree.next ≤ t.next
    → Knows ns w
    → InRange t w.solvers × ((n : ℕ) → Memᴰ n ns → n < t.next)
Knows-tree ns w t f h k = (InRange-grow k.0 f h, λ n m. omega (arith, k.1 n m))

-- Whether the policy has an entry for partitions makes no difference to the tree and the solvers.
pub settled_tree :
    (o : ℕ) (h : Header) (w : World)
    → (settle_partitions o true h w).1.tree
      ≡ (if is_solved w.tree w.marks o then clear w.tree o else w.tree)
unfolding settle_partitions
settled_tree o h w = elim (Option-cases (get_elem? w.config.partition_policy 1)) [
  | inl e ↦ rw (e, settle_partitions) refl
  | inr (n, e) ↦ rw (e, settle_partitions) refl
]

settled_solvers :
    (o : ℕ) (h : Header) (w : World) → (settle_partitions o true h w).1.solvers ≡ w.solvers
unfolding settle_partitions
settled_solvers o h w = elim (Option-cases (get_elem? w.config.partition_policy 1)) [
  | inl e ↦ rw (e, settle_partitions) refl
  | inr (n, e) ↦ rw (e, settle_partitions) refl
]

settle_partitions-Keeps :
    (ns : List ℕ) (o : ℕ) (filled : Bool) (h : Header) → Keeps ns (settle_partitions o filled h)
settle_partitions-Keeps ns o false h = record {
  at =
      unfold settle_partitions clear in
      λ w k. Knows-tree ns w (clear w.tree o) (clear-IsForest w.tree o k.0.forest) (omega arith) k;
}
settle_partitions-Keeps ns o true h = record {
  at = λ w k.
      rw (settled_tree o h w, settled_solvers o h w)
        (elim (is_solved w.tree w.marks o)
          as (λ b.
            InRange (if b then clear w.tree o else w.tree) w.solvers
            × ((n : ℕ) → Memᴰ n ns → n < (if b then clear w.tree o else w.tree).next)) [
              | true ↦
                  Knows-tree ns w (clear w.tree o) (clear-IsForest w.tree o k.0.forest)
                    (unfold clear in omega arith) k
              | false ↦ k
            ]);
}

receive_partitions-Keeps :
    (ns : List ℕ) (o : ℕ) (h : Header) (payload : Option String)
    → Memᴰ o ns
    → Keeps ns (receive_partitions o h payload)
unfolding receive_partitions
receive_partitions-Keeps ns o h payload known = record {
  at = λ w k.
      let grown = add_partitions-grows w.tree w.marks o (parts payload) (k.1 o known) k.0.forest in
      let added : Tree × Marks × Bool = add_partitions w.tree w.marks o (parts payload) in
      let done : Bool = is_text payload && added.2 in
      (settle_partitions-Keeps ns o done (if done then add_received added.0 o h else h)).at
        (record w { tree = added.0; marks = added.1 }) (Knows-tree ns w added.0 grown.0 grown.1 k);
}

popped-Keeps :
    (ns : List ℕ) (w : World) (i : ℕ) (rest : List ℕ) (o : ℕ)
    → pop_last (w.solvers i).or_waiting ≡ some (rest, o)
    → Knows ns w
    → InRange w.tree (update w.solvers i (record (w.solvers i) { or_waiting = rest }))
popped-Keeps ns w i rest o e k =
    InRange-update w.tree w.solvers i (record (w.solvers i) { or_waiting = rest }) k.0
      (k.0.node_lt i) (λ q m. k.0.waiting_lt i q ((pop_last-mem _ rest o e).0 q m))

receive_status-Keeps :
    (ns : List ℕ) (i n : ℕ) (s : SolveStatus) (w : World)
    → Knows ns w
    → Knows ns (receive_status i n s w)
unfolding receive_status
receive_status-Keeps ns i n s w k = elim (Option-cases (pop_last (w.solvers i).or_waiting)) [
  | inl e ↦ rw (e, receive_status) k
  | inr ((rest, o), e) ↦ rw (e, receive_status) (popped-Keeps ns w i rest o e k, k.1)
]

-- The OR node is taken off the list, and then filled.
fill-Keeps :
    (ns : List ℕ) (i : ℕ) (rest : List ℕ) (o : ℕ) (h : Header) (payload : Option String) (w : World)
    → pop_last (w.solvers i).or_waiting ≡ some (rest, o)
    → Knows ns w
    → Knows ns
        ((do set_solver i λ s. record s { or_waiting = rest }; receive_partitions o h payload) w).1
unfolding ◌>>=◌ set_solver modify
fill-Keeps ns i rest o h payload w e k =
    let popped : World = record w {
      solvers = update w.solvers i (record (w.solvers i) { or_waiting = rest });
    } in
    let o_lt = k.0.waiting_lt i o (pop_last-mem (w.solvers i).or_waiting rest o e).1 in
    let after =
      (receive_partitions-Keeps (o ∷ ns) o h payload (Memᴰ.head refl)).at popped
        (popped-Keeps ns w i rest o e k, Knows_more ns o w.tree.next o_lt k.1) in
    (after.0, λ n m. after.1 n (Memᴰ.tail m))

-- A message that is no partitions for a waiting OR node: nothing, or a status.
as_status-Keeps :
    (ns : List ℕ) (i n : ℕ) (h : Header) (w : World) (v : Option SolveStatus)
    → Knows ns w
    → Knows ns
        (elim v as (λ _. Result Header × World) [
          | none ↦ (ok h, w)
          | some s ↦ (ok h, receive_status i n s w)
        ]).1
as_status-Keeps ns i n h w none k = k
as_status-Keeps ns i n h w (some s) k = receive_status-Keeps ns i n s w k

receive-Keeps :
    (ns : List ℕ) (i n : ℕ) (h : Header) (payload : Option String)
    → Keeps ns (receive i n h payload)
unfolding receive
receive-Keeps ns i n h payload = record {
  at = λ w k.
      let status_kept = as_status-Keeps ns i n h w (status_named (lookup Constant.report h)) k in
      elim (Bool-cases (has_text (lookup Constant.report h) Constant.partitions)) [
        | inl is_parts ↦ elim (Option-cases (pop_last (w.solvers i).or_waiting)) [
          | inl e ↦ rw (is_parts, e, receive) status_kept
          | inr ((rest, o), e) ↦ rw (is_parts, e, receive) (fill-Keeps ns i rest o h payload w e k)
        ]
        | inr other ↦ rw (other, receive) status_kept
      ];
}

at_node :
    (ns : List ℕ) (i n : ℕ) (h : Header) (payload : Option String) (w : World)
    → Knows ns w
    → (r : Result Bool) → is_current w.tree n h ≡ r
    → not (has_key Constant.report h) ≡ false
    → (w.solvers i).node ≡ some n
    → not (has_key Constant.name h && has_key Constant.node h) ≡ false
    → Knows ns (read i h payload w).1
unfolding read
at_node ns i n h payload w k (err e) c kept busy full = rw (kept, busy, full, c, read) k
at_node ns i n h payload w k (ok false) c kept busy full = rw (kept, busy, full, c, read) k
at_node ns i n h payload w k (ok true) c kept busy full =
    rw (kept, busy, full, c, read) ((receive-Keeps ns i n (erase Constant.name h) payload).at w k)

-- Whatever message arrives, reading it keeps the tree well-formed and the solvers' nodes in range.
pub read-Keeps :
    (ns : List ℕ) (i : ℕ) (h : Header) (payload : Option String) → Keeps ns (read i h payload)
unfolding read
read-Keeps ns i h payload = record {
  at = λ w k. elim (Bool-cases (not (has_key Constant.report h))) [
    | inl dropped ↦ rw (dropped, read) k
    | inr kept ↦ elim (Option-cases (w.solvers i).node) [
      | inl idle ↦ rw (kept, idle, read) k
      | inr (n, busy) ↦
          elim (Bool-cases (not (has_key Constant.name h && has_key Constant.node h))) [
            | inl partial ↦ rw (kept, busy, partial, read) k
            | inr full ↦ at_node ns i n h payload w k (is_current w.tree n h) refl kept busy full
          ]
    ]
  ];
}
