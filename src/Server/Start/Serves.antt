-- ===== src/Server/Start/Serves.antt =====
-- Putting solvers to work keeps the invariant of the world.
use mathlib.Core.List.Memᴰ
use smts.Prelude.{
  ℕ, ◌<◌, ◌≡◌, refl, sym, subst, ◌∙◌, String, Option, none, some, List, [], ◌∷◌, ◌++◌, ok, Dict,
  Bool-cases, inl, inr, ◌==◌, arith, ok-eq,
}
use smts.Tree.Defs.{Marks, update}
use smts.World.Effects.{Exec, pure}
use smts.World.Holds.{Holds, bind-Holds, learn-Holds, reads-Holds, pure-Holds, modify-Holds}
use smts.World.Objects.{Value, World}
use smts.World.Running.{Knows, Knows_more, Keeps}
use smts.Config.Parameters.{Parameter}
use smts.Solver.Keeps.{solve-Keeps}
use smts.Server.{Instance, Server, on_world, first_schedulable}
use smts.Server.Start.{start_solver, start_all, start_instance, join_all, join_instance}

-- The roots of the instances made so far, which are `made` many, exist, and the current instance and
-- those of `trees` are among them.
pub record HasRoots (instances : ℕ → Instance) (made : ℕ) (current : Option ℕ)
    (trees : Dict String ℕ) (next : ℕ) : Type 0 where
  pub root_lt : (k : ℕ) → k < made → (instances k).root < next
  pub current_lt : (k : ℕ) → current ≡ some k → k < made
  pub listed_lt : (e : String × ℕ) → Memᴰ.Memᴰ e trees → e.1 < made

-- The world is in order, the nodes `ns` exist, and so do the roots of the instances made so far.
abbrev pub IsServing : List ℕ → Server → Type 0
IsServing ns s =
    Knows ns s.world × HasRoots s.instances s.next_instance s.current s.trees s.world.tree.next

-- The same, with `made` instances
abbrev pub Sized : ℕ → List ℕ → Server → Type 0
Sized made ns s = IsServing ns s × (s.next_instance ≡ made)

pub record Serves {A : Type 0} (ns : List ℕ) (m : Exec Server A) : Type 0 where
  pub at : (s : Server) → IsServing ns s → IsServing ns (m s).1

-- A part that changes the world alone, and keeps any further node.
pub on_world-Serves :
    {A : Type 0} (ns : List ℕ) (m : Exec World A)
    → ((qs : List ℕ) → Keeps (qs ++ ns) m)
    → Serves ns (on_world m)
unfolding on_world
on_world-Serves ns m h = record {
  at = λ s g. (
    (h []).at s.world g.0,
    record {
      root_lt = λ k lt.
          let root = (s.instances k).root in
          ((h (root ∷ [])).at s.world
              (g.0.0, Knows_more ns root s.world.tree.next (g.1.root_lt k lt) g.0.1)).1
            root (Memᴰ.head refl);
      current_lt = g.1.current_lt;
      listed_lt = g.1.listed_lt;
    },
  );
}

-- A start time leaves the roots alone.
started_root :
    (s : Server) (made : ℕ)
    → ((j : ℕ) → j < made → (s.instances j).root < s.world.tree.next)
    → (k j now : ℕ) (at : Option ℕ) → k < made
    → j < made
    → ((elim at as (λ _. ℕ → Instance) [
      | none ↦ update s.instances k (record (s.instances k) { started = some now })
      | some _ ↦ s.instances
    ])
        j).root
      < s.world.tree.next
started_root s made h k j now none lt le = elim (Bool-cases (k == j)) [
  | inl same ↦ rw same (h k lt)
  | inr other ↦ rw other (h j le)
]
started_root s made h k j now (some x) lt le = h j le

-- The instance that is chosen is one of `trees`.
first_schedulable-lt :
    (instances : ℕ → Instance) (marks : Marks) (now made : ℕ) (trees : Dict String ℕ) (k : ℕ)
    → ((e : String × ℕ) → Memᴰ.Memᴰ e trees → e.1 < made)
    → first_schedulable instances marks now trees ≡ some k
    → k < made
unfolding first_schedulable
first_schedulable-lt instances marks now made [] k below e = absurd (cc)
first_schedulable-lt instances marks now made ((name, j) ∷ trees) k below e = ground (
  arith,
  below (name, j) (Memᴰ.head refl),
  first_schedulable-lt instances marks now made trees k (λ x m. below x (Memᴰ.tail m)),
  e,
)

on_world-Sized :
    {A : Type 0} (made : ℕ) (ns : List ℕ) (m : Exec World A)
    → Serves ns (on_world m)
    → Holds (Sized made ns) (on_world m)
unfolding on_world
on_world-Sized made ns m h = record { at = λ s g. (h.at s g.0, g.1) }

-- A part that is run where `X` holds of what was read.
given-Holds :
    {A : Type 0} {X : Type 0} (P : Server → Type 0) (m : Exec Server A)
    → (X → Holds P m)
    → Holds (λ s. P s × X) m
given-Holds P m h = record { at = λ s k. ((h k.1).at s k.0, k.1) }

module _ (parameters : Dict String Parameter) (draw : ℕ → String → Value) (made : ℕ)
    (ns : List ℕ) where
  start_solver-Holds :
      (k i now : ℕ) → k < made → Holds (Sized made ns) (start_solver parameters draw k i now)
  unfolding start_solver on_world
  start_solver-Holds k i now lt =
      learn-Holds _ (λ root. Sized made (root ∷ ns)) (λ s. ok (s.instances k).root) _
        (λ s root g e. (
          (
            (
              g.0.0.0,
              Knows_more ns root s.world.tree.next
                  (subst (λ j. j < s.world.tree.next) (ok-eq e)
                    (g.0.1.root_lt k (subst (λ b. k < b) (sym g.1) lt)))
                  g.0.0.1,
            ),
            g.0.1,
          ),
          g.1,
        ))
        (λ root s g. (((g.0.0.0, λ n m. g.0.0.1 n (Memᴰ.tail m)), g.0.1), g.1))
        λ root. bind-Holds _ _ _ (reads-Holds _ _) λ others.
          bind-Holds _ _ _ (reads-Holds _ _) λ name.
            bind-Holds _ _ _ (modify-Holds _ _ λ s g. g) λ _.
              bind-Holds _ _ _ (reads-Holds _ _) λ counter.
                bind-Holds _ _ _
                  (on_world-Sized made (root ∷ ns) _ (
                    on_world-Serves (root ∷ ns) _ λ qs.
                      solve-Keeps (qs ++ root ∷ ns) i root _ now
                        (Memᴰ.append_right qs (Memᴰ.head refl))))
                  λ _. modify-Holds _ _ λ s g. (
                    (
                      g.0.0,
                      record {
                        root_lt = λ j le.
                            started_root s s.next_instance g.0.1.root_lt k j now
                              (s.instances k).started (subst (λ b. k < b) (sym g.1) lt) le;
                        current_lt = g.0.1.current_lt;
                        listed_lt = g.0.1.listed_lt;
                      },
                    ),
                    g.1,
                  )

  start_all-Holds :
      (k : ℕ) (is : List ℕ) (now : ℕ)
      → k < made
      → Holds (Sized made ns) (start_all parameters draw k is now)
  unfolding start_all
  start_all-Holds k [] now lt = pure-Holds _ tt
  start_all-Holds k (i ∷ is) now lt =
      bind-Holds _ _ _ (start_solver-Holds k i now lt)
        λ _. bind-Holds _ _ _ (modify-Holds _ _ λ s g. g) λ _. start_all-Holds k is now lt

  chosen-Holds :
      (chosen : Option ℕ) (first : ℕ → Exec Server (Unit {0}))
      → ((k : ℕ) → k < made → Holds (Sized made ns) (first k))
      → ((k : ℕ) → chosen ≡ some k → k < made)
      → Holds
          (Sized made ns)
          (elim chosen as (λ _. Exec Server (Unit {0})) [ none ↦ pure tt | some k ↦ first k ])
  chosen-Holds none first h below = pure-Holds _ tt
  chosen-Holds (some k) first h below = h k (below k refl)

  pub start_instance-Holds : (now : ℕ) → Holds (Sized made ns) (start_instance parameters draw now)
  unfolding start_instance
  start_instance-Holds now =
      learn-Holds _ (λ chosen s. Sized made ns s × ((k : ℕ) → chosen ≡ some k → k < made)) _ _
        (λ s chosen g e. (
          g,
          λ k is_k.
              first_schedulable-lt s.instances s.world.marks now made s.trees k
                (λ x m. subst (λ b. x.1 < b) g.1 (g.0.1.listed_lt x m)) (ok-eq e ∙ is_k),
        ))
        (λ chosen s g. g.0)
        λ chosen. given-Holds _ _ λ below.
          chosen-Holds chosen _
            (λ k lt.
              bind-Holds _ _ _
                (modify-Holds _ _ λ s g. (
                  (
                    g.0.0,
                    record {
                      root_lt = g.0.1.root_lt;
                      current_lt = λ j e. ground (arith, e, lt, g.1);
                      listed_lt = g.0.1.listed_lt;
                    },
                  ),
                  g.1,
                ))
                λ _. bind-Holds _ _ _ (reads-Holds _ _) λ idle. start_all-Holds k idle now lt)
            below

  join_all-Holds :
      (k : ℕ) (is : List ℕ) (now : ℕ)
      → k < made
      → Holds (Sized made ns) (join_all parameters draw k is now)
  unfolding join_all
  join_all-Holds k [] now lt = pure-Holds _ tt
  join_all-Holds k (i ∷ is) now lt =
      bind-Holds _ _ _ (modify-Holds _ _ λ s g. g)
        λ _. bind-Holds _ _ _ (start_solver-Holds k i now lt) λ _. join_all-Holds k is now lt

  pub join_instance-Holds :
      (k now : ℕ) → k < made → Holds (Sized made ns) (join_instance parameters draw k now)
  unfolding join_instance
  join_instance-Holds k now lt =
      bind-Holds _ _ _ (reads-Holds _ _) λ joint. join_all-Holds k joint now lt
