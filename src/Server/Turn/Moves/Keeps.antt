-- ===== src/Server/Turn/Moves/Keeps.antt =====
-- The parts of `entrust` that move solvers keep the server in order.
use mathlib.Core.List.Memᴰ
use smts.Prelude.{
  ℕ, zero, suc, refl, sym, subst, true, false, List, [], ◌∷◌, ◌++◌, Memᴰ, ok, nonempty, ok-eq,
}
use smts.Tree.Status.{childeren}
use smts.World.Effects.{Exec, modify, ◌>>◌, for_each}
use smts.World.Holds.{
  Holds, bind-Holds, reads-Holds, pure-Holds, modify-Holds, when-Holds, for_each-Holds, list-Holds,
}
use smts.Solver.Keeps.{incremental-Keeps}
use smts.Server.{busy}
use smts.Server.Start.Serves.{on_world-Serves}
use smts.Server.Turn.{Turn, set_idle, solvers_now, remove}
use smts.Server.Turn.Keeps.{InOrder, on_server-Holds}
use smts.Server.Turn.Moves.{
  move_solver, active_nodes, place_solved, place_all, move_solved, collect_spare, place_movable,
  place_rounds, move_received, place_idle, fill_leaf, move_idle,
}
use smts.Server.Turn.Moves.Nodes.{childeren-lt, learn_nodes, active-lt}

pub move_solver-Holds :
    (ns : List ℕ) (now n i : ℕ) → Memᴰ n ns → Holds (InOrder ns) (move_solver now n i)
unfolding move_solver
move_solver-Holds ns now n i known = on_server-Holds ns _ λ rs. on_world-Serves (rs ++ ns) _ λ qs.
    incremental-Keeps (qs ++ (rs ++ ns)) i n now (Memᴰ.append_right qs (Memᴰ.append_right rs known))

place_solved-Holds :
    (ns : List ℕ) (now child : ℕ) → Memᴰ child ns → Holds (InOrder ns) (place_solved now child)
unfolding place_solved
place_solved-Holds ns now child known =
    learn_nodes ns (λ t. ok (active_nodes child t)) _
      (λ t xs k e n m. active-lt ns child known t n k (subst (λ l. Memᴰ n l) (sym (ok-eq e)) m))
      λ places. bind-Holds _ _ _ (reads-Holds _ _) λ waiting.
        list-Holds _ places _ _ (pure-Holds _ tt) λ n others is_places.
          list-Holds _ waiting _ _ (pure-Holds _ tt) λ i rest e.
            bind-Holds _ _ _ (modify-Holds _ _ λ t k. k) λ _.
              move_solver-Holds (places ++ ns) now n i
                (Memᴰ.append_left ns (subst (λ l. Memᴰ n l) (sym is_places) (Memᴰ.head refl)))

place_all-Holds :
    (ns : List ℕ) (fuel now : ℕ) (childs : List ℕ)
    → ((c : ℕ) → Memᴰ c childs → Memᴰ c ns)
    → Holds (InOrder ns) (place_all fuel now childs)
unfolding place_all
place_all-Holds ns zero now childs known = reads-Holds _ _
place_all-Holds ns (suc f) now childs known = bind-Holds _ _ _ (reads-Holds _ _) λ waiting.
    list-Holds _ waiting _ _ (pure-Holds _ tt) λ i rest e.
      bind-Holds _ _ _ (for_each-Holds _ childs _ λ c m. place_solved-Holds ns now c (known c m))
        λ _. place_all-Holds ns f now childs known

pub move_solved-Holds :
    (ns : List ℕ) (fuel root now : ℕ) → Holds (InOrder ns) (move_solved fuel root now)
unfolding move_solved
move_solved-Holds ns fuel root now = bind-Holds _ _ _ (reads-Holds _ _) λ waiting.
    when-Holds _ (nonempty waiting) _ (
      learn_nodes ns (λ t. childeren t.server.world.tree t.server.world.marks.status root) _
        (λ t cs k e c m.
          childeren-lt t.server.world.tree t.server.world.marks root cs k.0.0.0.forest e m)
        λ childs. place_all-Holds (childs ++ ns) fuel now childs (λ c m. Memᴰ.append_left ns m))

collect_spare-Holds : (ns : List ℕ) (n : ℕ) → Holds (InOrder ns) (collect_spare n)
unfolding collect_spare
collect_spare-Holds ns n = modify-Holds _ _ λ t k. k

place_movable-Holds :
    (ns : List ℕ) (now n : ℕ) → Memᴰ n ns → Holds (InOrder ns) (place_movable now n)
unfolding place_movable
place_movable-Holds ns now n known = bind-Holds _ _ _ (reads-Holds _ _) λ waiting.
    list-Holds _ waiting _ _ (pure-Holds _ tt) λ i rest e.
      bind-Holds _ _ _ (modify-Holds _ _ λ t k. k) λ _. move_solver-Holds ns now n i known

place_rounds-Holds : (ns : List ℕ) (fuel p now : ℕ) → Holds (InOrder ns) (place_rounds fuel p now)
unfolding place_rounds
place_rounds-Holds ns zero p now = reads-Holds _ _
place_rounds-Holds ns (suc f) p now = bind-Holds _ _ _ (reads-Holds _ _) λ waiting.
    list-Holds _ waiting _ _ (pure-Holds _ tt) λ i rest e.
      learn_nodes ns (λ t. childeren t.server.world.tree t.server.world.marks.status p) _
        (λ t cs k e' c m.
          childeren-lt t.server.world.tree t.server.world.marks p cs k.0.0.0.forest e' m)
        λ childs.
          bind-Holds _ _ _
            (for_each-Holds _ childs _
              λ c m. place_movable-Holds (childs ++ ns) now c (Memᴰ.append_left ns m))
            λ _. place_rounds-Holds (childs ++ ns) f p now

spare-Holds :
    (ns above : List ℕ) (least : ℕ)
    → Holds (InOrder ns) (elim least as (λ _. Exec Turn (Unit {0})) [
      | zero ↦ modify λ t. record t { movable_solvers = solvers_now busy t }
      | suc _ ↦ for_each above collect_spare
    ])
spare-Holds ns above zero = modify-Holds _ _ λ t k. k
spare-Holds ns above (suc least) = for_each-Holds _ above _ λ n m. collect_spare-Holds ns n

pub move_received-Holds :
    (ns : List ℕ) (fuel p now : ℕ) → Holds (InOrder ns) (move_received fuel p now)
unfolding move_received
move_received-Holds ns fuel p now = bind-Holds _ _ _ (reads-Holds _ _) λ least.
    bind-Holds _ _ _ (reads-Holds _ _)
      λ above. bind-Holds _ _ _ (spare-Holds ns above least) λ _. place_rounds-Holds ns fuel p now

place_idle-Holds :
    (ns : List ℕ) (now n : ℕ) (is : List ℕ) → Memᴰ n ns → Holds (InOrder ns) (place_idle now n is)
unfolding place_idle set_idle
place_idle-Holds ns now n [] known = pure-Holds _ tt
place_idle-Holds ns now n (i ∷ is) known = bind-Holds _ _ _ (reads-Holds _ _) λ moves.
    elim moves
      as (λ b. Holds (InOrder ns) (elim b as (λ _. Exec Turn (Unit {0})) [
        | true ↦ (do set_idle (remove i); move_solver now n i)
        | false ↦ place_idle now n is
      ])) [
        | true ↦
            bind-Holds _ _ _ (modify-Holds _ _ λ t k. k) λ _. move_solver-Holds ns now n i known
        | false ↦ place_idle-Holds ns now n is known
      ]

pub move_idle-Holds :
    (ns nodes : List ℕ) (now : ℕ)
    → ((n : ℕ) → Memᴰ n nodes → Memᴰ n ns)
    → Holds (InOrder ns) (move_idle nodes now)
unfolding move_idle fill_leaf
move_idle-Holds ns nodes now known =
    bind-Holds _ _ _
      (for_each-Holds _ nodes _ λ n m. bind-Holds _ _ _ (reads-Holds _ _) λ fresh.
        bind-Holds _ _ _ (reads-Holds _ _)
          λ idle. when-Holds _ fresh _ (place_idle-Holds ns now n idle (known n m)))
      λ _. reads-Holds _ _
