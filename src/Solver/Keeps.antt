-- ===== src/Solver/Keeps.antt =====
-- The methods of `Solver` keep the invariant of the world, exceptions included.
use mathlib.Core.List.Memᴰ
use smts.Prelude.{
  ℕ, ◌<◌, ◌≡◌, refl, subst, sym, Option, none, some, List, [], ◌∷◌, ◌++◌, Memᴰ, Bool-cases, true,
  false, inl, inr, arith, Result, ok, err, ◌⊎◌, String, nonempty, if◌then◌else◌, value_error,
}
use smts.Tree.Defs.{Tree, new_or, init_node, init_marks}
use smts.Tree.Growth.{new_or-IsForest, new_or-grows}
use smts.World.Effects.{pure, reads, ◌>>=◌}
use smts.World.Objects.{Solver, World, Header}
use smts.World.Running.{
  Knows, Keeps, bind-Keeps, bind_node-Keeps, bind_current-Keeps, reads-Keeps, pure-Keeps,
  when-Keeps, modify-Keeps, InRange-update, Knows-grow,
}
use smts.Solver.{
  send, set_solver, reset, init, mark_started, stop, terminate, solve, incremental,
  set_lemma_server, add_or_node, partition_target, ask_partitions,
}

pub send-Keeps : (ns : List ℕ) (i : ℕ) (h : Header) (p : String) → Keeps ns (send i h p)
unfolding send
send-Keeps ns i h p = modify-Keeps ns _ λ w k. k

mark_started-Keeps : (ns : List ℕ) (n now : ℕ) → Keeps ns (mark_started n now)
unfolding mark_started
mark_started-Keeps ns n now = modify-Keeps ns _ λ w k. k

-- New attributes that name no other nodes than those that are known.
pub set_solver-Keeps :
    (ns : List ℕ) (i : ℕ) (f : Solver → Solver)
    → ((s : Solver) (n : ℕ) → (f s).node ≡ some n → (s.node ≡ some n) ⊎ Memᴰ n ns)
    → ((s : Solver) (o : ℕ) → Memᴰ o (f s).or_waiting → Memᴰ o s.or_waiting ⊎ Memᴰ o ns)
    → Keeps ns (set_solver i f)
unfolding set_solver
set_solver-Keeps ns i f g h = modify-Keeps ns _ λ w rk. (
  InRange-update w.tree w.solvers i (f (w.solvers i)) rk.0
      (λ n e. elim (g (w.solvers i) n e) [ inl old ↦ rk.0.node_lt i n old | inr new ↦ rk.1 n new ])
      (λ o m. elim (h (w.solvers i) o m) [
        | inl old ↦ rk.0.waiting_lt i o old
        | inr new ↦ rk.1 o new
      ]),
  rk.1,
)

reset-Keeps : (ns : List ℕ) (i : ℕ) → Keeps ns (reset i)
unfolding reset
reset-Keeps ns i =
    set_solver-Keeps ns i
      (λ s. record s { node = none; started = none; or_waiting = []; parameters = [] })
      (λ s n e. absurd (cc)) (λ s o m. elim m [ ])

name-Keeps :
    (ns : List ℕ) (i : ℕ) (name : String) → Keeps ns (set_solver i λ s. record s { name = name })
name-Keeps ns i name =
    set_solver-Keeps ns i (λ s. record s { name = name }) (λ s n e. inl e) (λ s o m. inl m)

started-Keeps :
    (ns : List ℕ) (i : ℕ) (at : Option ℕ) → Keeps ns (set_solver i λ s. record s { started = at })
started-Keeps ns i at =
    set_solver-Keeps ns i (λ s. record s { started = at }) (λ s n e. inl e) (λ s o m. inl m)

restarted-Keeps :
    (ns : List ℕ) (i : ℕ) (at : Option ℕ)
    → Keeps ns (set_solver i λ s. record s { or_waiting = []; started = at })
restarted-Keeps ns i at =
    set_solver-Keeps ns i (λ s. record s { or_waiting = []; started = at }) (λ s n e. inl e)
      (λ s o m. elim m [ ])

work-Keeps :
    (ns : List ℕ) (i n : ℕ) (ps : Header)
    → Memᴰ n ns
    → Keeps ns (set_solver i λ s. record s { node = some n; parameters = ps })
work-Keeps ns i n ps known =
    set_solver-Keeps ns i (λ s. record s { node = some n; parameters = ps })
      (λ s q e. inr (subst (λ j. Memᴰ j ns) (cc) known)) (λ s o m. inl m)

move-Keeps :
    (ns : List ℕ) (i n : ℕ) → Memᴰ n ns → Keeps ns (set_solver i λ s. record s { node = some n })
move-Keeps ns i n known =
    set_solver-Keeps ns i (λ s. record s { node = some n })
      (λ s q e. inr (subst (λ j. Memᴰ j ns) (cc) known)) (λ s o m. inl m)

wait-Keeps :
    (ns : List ℕ) (i o : ℕ)
    → Memᴰ o ns
    → Keeps ns (set_solver i λ s. record s { or_waiting = s.or_waiting ++ o ∷ [] })
wait-Keeps ns i o known =
    set_solver-Keeps ns i (λ s. record s { or_waiting = s.or_waiting ++ o ∷ [] }) (λ s q e. inl e)
      (λ s q m. elim (Memᴰ.append_cases s.or_waiting m) [
        | inl old ↦ inl old
        | inr new ↦ inr (subst (λ j. Memᴰ j ns) (sym (Memᴰ.eq_of_singleton new)) known)
      ])

ruleset effect_rules = (
  bind_current-Keeps, bind-Keeps, reads-Keeps, pure-Keeps, when-Keeps, send-Keeps,
  mark_started-Keeps, reset-Keeps, name-Keeps, started-Keeps, restarted-Keeps,
)

pub init-Keeps : (ns : List ℕ) (i : ℕ) (name : String) → Keeps ns (init i name)
unfolding init
init-Keeps ns i name = search effect_rules

pub stop-Keeps : (ns : List ℕ) (i : ℕ) → Keeps ns (stop i)
unfolding stop
stop-Keeps ns i = search effect_rules

pub terminate-Keeps : (ns : List ℕ) (i : ℕ) → Keeps ns (terminate i)
unfolding terminate
terminate-Keeps ns i = search effect_rules

stop_busy-Keeps :
    (ns : List ℕ) (i : ℕ) (busy : Option ℕ)
    → Keeps ns (elim busy [ none ↦ pure tt | some _ ↦ stop i ])
stop_busy-Keeps ns i none = pure-Keeps ns tt
stop_busy-Keeps ns i (some n) = stop-Keeps ns i

pub solve-Keeps :
    (ns : List ℕ) (i n : ℕ) (ps : Header) (now : ℕ) → Memᴰ n ns → Keeps ns (solve i n ps now)
unfolding solve
solve-Keeps ns i n ps now known =
    bind-Keeps ns _ _ (reads-Keeps ns λ w. ok (w.solvers i).node) λ busy.
      bind-Keeps ns _ _ (stop_busy-Keeps ns i busy)
        λ _. bind-Keeps ns _ _ (work-Keeps ns i n ps known) λ _. search effect_rules depth 20

pub incremental-Keeps : (ns : List ℕ) (i n now : ℕ) → Memᴰ n ns → Keeps ns (incremental i n now)
unfolding incremental
incremental-Keeps ns i n now known = search (effect_rules, move-Keeps, known, Memᴰ.tail) depth 20

pub set_lemma_server-Keeps :
    (ns : List ℕ) (i : ℕ) (listening : Option String) → Keeps ns (set_lemma_server i listening)
unfolding set_lemma_server
set_lemma_server-Keeps ns i listening = search effect_rules

-- A new OR node under a known node.
add_or_node-Keeps : (ns : List ℕ) (n : ℕ) → Memᴰ n ns → Keeps ns (add_or_node n)
unfolding add_or_node
add_or_node-Keeps ns n known = record { at = λ w k. made w k (new_or w.tree n "") refl }
  where
    made :
        (w : World)
        → Knows ns w
        → (r : Result Tree) → new_or w.tree n "" ≡ r
        → Knows ns (add_or_node n w).1
    made w k (err e) made_r = rw (made_r, add_or_node) k
    made w k (ok t) made_r =
        rw (made_r, add_or_node)
          (Knows-grow ns w (record w { tree = t; marks = init_marks w.marks w.tree.next }) k
            (new_or-IsForest w.tree t n "" (k.1 n known) k.0.forest made_r) refl
            (omega (arith, new_or-grows w.tree t n "" made_r)))

-- The number of the new node is below the number of the next one.
add_or_node-lt :
    (n : ℕ) (w : World) (o : ℕ) → (add_or_node n w).0 ≡ ok o → o < (add_or_node n w).1.tree.next
unfolding add_or_node new_or init_node
add_or_node-lt n w o e = ground arith

partition_target-Keeps :
    (ns : List ℕ) (n : ℕ) (node : Option ℕ) → Memᴰ n ns → Keeps ns (partition_target n node)
unfolding partition_target
partition_target-Keeps ns n none known = add_or_node-Keeps ns n known
partition_target-Keeps ns n (some o) known = bind-Keeps ns _ _ (reads-Keeps ns λ w. ok w.tree) λ t.
    elim (nonempty (t.children o)) as (λ b. Keeps ns (if b then pure o else add_or_node n)) [
      | true ↦ pure-Keeps ns o
      | false ↦ add_or_node-Keeps ns n known
    ]

partition_target-lt :
    (n : ℕ) (node : Option ℕ) (w : World) (o : ℕ)
    → ((p : ℕ) → node ≡ some p → p < w.tree.next)
    → (partition_target n node w).0 ≡ ok o
    → o < (partition_target n node w).1.tree.next
unfolding partition_target ◌>>=◌ reads pure
partition_target-lt n none w o h e = add_or_node-lt n w o e
partition_target-lt n (some p) w o h e = elim (Bool-cases (nonempty (w.tree.children p))) [
  | inl used ↦ ground (arith, used, h p)
  | inr free ↦ ground (arith, free, add_or_node-lt n w o)
]

pub ask_partitions-Keeps :
    (ns : List ℕ) (i count : ℕ) (node : Option ℕ)
    → ((p : ℕ) → node ≡ some p → Memᴰ p ns)
    → Keeps ns (ask_partitions i count node)
unfolding ask_partitions
ask_partitions-Keeps ns i count node known = bind-Keeps ns _ _ (modify-Keeps ns _ λ w k. k) λ _.
    bind_current-Keeps ns value_error i _ λ n. bind-Keeps (n ∷ ns) _ _ (reads-Keeps _ _) λ name.
      bind-Keeps (n ∷ ns) _ _ (reads-Keeps _ _) λ at.
        bind-Keeps (n ∷ ns) _ _ (send-Keeps _ i _ _) λ _.
          bind_node-Keeps (n ∷ ns) _ _ (partition_target-Keeps (n ∷ ns) n node (Memᴰ.head refl))
            (λ w o k e. partition_target-lt n node w o (λ p e'. k.1 p (Memᴰ.tail (known p e'))) e)
            λ o.
              bind-Keeps (o ∷ n ∷ ns) _ _ (modify-Keeps _ _ λ w k. k)
                λ _. wait-Keeps (o ∷ n ∷ ns) i o (Memᴰ.head refl)
