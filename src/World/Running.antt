-- ===== src/World/Running.antt =====
-- The invariant of the world, and how the parts of a method keep it.
use smts.Prelude.{
  ℕ, ◌<◌, ◌≡◌, refl, subst, sym, ◌≤◌, Option, none, some, List, ◌∷◌, Memᴰ, ◌==◌, Bool-cases, Bool,
  true, false, inl, inr, arith, Result, ok, err, or_raise, Error, if◌then◌else◌,
}
use smts.Tree.Defs.{Tree, update}
use smts.Tree.Shape.{IsForest}
use smts.World.Effects.{Exec, pure, reads, modify, proceed, ◌>>=◌, when}
use smts.World.Objects.{Solver, World}

-- The tree is well-formed, and the solvers refer to nodes that exist.
pub record InRange (t : Tree) (solvers : ℕ → Solver) : Type 0 where
  pub forest : IsForest t
  pub node_lt : (i n : ℕ) → (solvers i).node ≡ some n → n < t.next
  pub waiting_lt : (i o : ℕ) → Memᴰ o (solvers i).or_waiting → o < t.next

abbrev pub IsRunning : World → Type 0
IsRunning w = InRange w.tree w.solvers

-- The invariant, and that the nodes `ns` exist.
abbrev pub Knows : List ℕ → World → Type 0
Knows ns w = IsRunning w × ((n : ℕ) → Memᴰ n ns → n < w.tree.next)

-- The invariant and the nodes that are known last, whether the method raises or not.
pub record Keeps {A : Type 0} (ns : List ℕ) (m : Exec World A) : Type 0 where
  pub at : (w : World) → Knows ns w → Knows ns (m w).1

pub Knows_more :
    (ns : List ℕ) (n b : ℕ)
    → n < b
    → ((q : ℕ) → Memᴰ q ns → q < b)
    → (q : ℕ) → Memᴰ q (n ∷ ns)
    → q < b
Knows_more ns n b h k q (Memᴰ.head p) = omega (arith, p)
Knows_more ns n b h k q (Memᴰ.tail m) = k q m

proceed-Keeps :
    {A C : Type 0} (ns : List ℕ) (r : Result A) (rest : A → Exec World C) (w : World)
    → ((x : A) → Keeps ns (rest x))
    → Knows ns w
    → Knows ns (proceed r rest w).1
proceed-Keeps ns (err e) rest w h k = k
proceed-Keeps ns (ok x) rest w h k = (h x).at w k

pub bind-Keeps :
    {A C : Type 0} (ns : List ℕ) (m : Exec World A) (rest : A → Exec World C)
    → Keeps ns m
    → ((x : A) → Keeps ns (rest x))
    → Keeps ns (m >>= rest)
unfolding ◌>>=◌
bind-Keeps ns m rest g h = record { at = λ w k. proceed-Keeps ns (m w).0 rest (m w).1 h (g.at w k) }

-- Behind a part that returns a node, that node is known too.
pub bind_node-Keeps :
    {C : Type 0} (ns : List ℕ) (m : Exec World ℕ) (rest : ℕ → Exec World C)
    → Keeps ns m
    → ((w : World) (n : ℕ) → Knows ns w → (m w).0 ≡ ok n → n < (m w).1.tree.next)
    → ((n : ℕ) → Keeps (n ∷ ns) (rest n))
    → Keeps ns (m >>= rest)
unfolding ◌>>=◌
bind_node-Keeps {C} ns m rest g known h = record {
  at = λ w k. go (m w).0 (m w).1 (g.at w k) (λ n e. known w n k e);
}
  where
    go :
        (r : Result ℕ) (w : World)
        → Knows ns w
        → ((n : ℕ) → r ≡ ok n → n < w.tree.next)
        → Knows ns (proceed r rest w).1
    go (err e) w k known' = k
    go (ok n) w k known' =
        let after = (h n).at w (k.0, Knows_more ns n w.tree.next (known' n refl) k.1) in
        (after.0, λ q m'. after.1 q (Memᴰ.tail m'))

pub reads-Keeps : {A : Type 0} (ns : List ℕ) (look : World → Result A) → Keeps ns (reads look)
unfolding reads
reads-Keeps ns look = record { at = λ w k. k }

pub pure-Keeps : {A : Type 0} (ns : List ℕ) (x : A) → Keeps ns (pure x)
unfolding pure
pure-Keeps ns x = reads-Keeps ns _

pub when-Keeps :
    (ns : List ℕ) (b : Bool) (m : Exec World (Unit {0})) → Keeps ns m → Keeps ns (when b m)
unfolding when
when-Keeps ns true m g = g
when-Keeps ns false m g = pure-Keeps ns tt

-- The node of a solver exists.
pub bind_current-Keeps :
    {C : Type 0} (ns : List ℕ) (e : Error) (i : ℕ) (rest : ℕ → Exec World C)
    → ((n : ℕ) → Keeps (n ∷ ns) (rest n))
    → Keeps ns (reads (λ w. or_raise e (w.solvers i).node) >>= rest)
unfolding reads
bind_current-Keeps ns e i rest h =
    bind_node-Keeps ns _ rest (reads-Keeps ns λ w. or_raise e (w.solvers i).node)
      (λ w n k found. k.0.node_lt i n (of_raise (w.solvers i).node found)) h
  where
    of_raise : (o : Option ℕ) {n : ℕ} → or_raise e o ≡ ok n → o ≡ some n
    of_raise none found = cc
    of_raise (some q) found = cc

-- A change of the settings, the marks and the messages only.
pub modify-Keeps :
    (ns : List ℕ) (change : World → World)
    → ((w : World) → Knows ns w → Knows ns (change w))
    → Keeps ns (modify change)
unfolding modify
modify-Keeps ns change h = record { at = h }

-- One solver's new attributes.
pub InRange-update :
    (t : Tree) (solvers : ℕ → Solver) (i : ℕ) (s : Solver)
    → InRange t solvers
    → ((n : ℕ) → s.node ≡ some n → n < t.next)
    → ((o : ℕ) → Memᴰ o s.or_waiting → o < t.next)
    → InRange t (update solvers i s)
InRange-update t solvers i s r h l = record {
  forest = r.forest;
  node_lt = λ j n e. elim (Bool-cases (i == j)) [
    | inl same ↦ h n (ground arith)
    | inr other ↦ r.node_lt j n (ground arith)
  ];
  waiting_lt = λ j o m. elim (Bool-cases (i == j)) [
    | inl same ↦ l o (subst (λ b. Memᴰ o (Solver.or_waiting (if b then s else solvers j))) same m)
    | inr other ↦
        r.waiting_lt j o
          (subst (λ b. Memᴰ o (Solver.or_waiting (if b then s else solvers j))) other m)
  ];
}

-- A larger tree leaves the solvers in range.
pub InRange-grow :
    {t t' : Tree} {solvers : ℕ → Solver}
    → InRange t solvers
    → IsForest t'
    → t.next ≤ t'.next
    → InRange t' solvers
InRange-grow r f h = record {
  forest = f;
  node_lt = λ i n e. omega (arith, r.node_lt i n e);
  waiting_lt = λ i o m. omega (arith, r.waiting_lt i o m);
}

pub Knows-grow :
    (ns : List ℕ) (w w' : World)
    → Knows ns w
    → IsForest w'.tree
    → w'.solvers ≡ w.solvers
    → w.tree.next ≤ w'.tree.next
    → Knows ns w'
Knows-grow ns w w' k f same h =
    (subst (InRange w'.tree) (sym same) (InRange-grow k.0 f h), λ n m. omega (arith, k.1 n m))
