-- ===== src/Server/Entrust/Balance.antt =====
-- The part of `entrust` about the solvers of one instance keeps the server in order.
use mathlib.Core.List.Memᴰ
use smts.Prelude.{
  ℕ, ◌<◌, ◌≡◌, refl, subst, Bool, false, Option, none, some, List, [], ◌∷◌, ◌++◌, Memᴰ, Result, ok,
  err, arith, ok-eq,
}
use smts.Tree.Defs.{Tree}
use smts.Tree.Shape.{IsForest}
use smts.Tree.Walk
use smts.World.Effects.{Exec, pure, when}
use smts.World.Holds.{
  Holds, bind-Holds, learn-Holds, reads-Holds, pure-Holds, modify-Holds, when-Holds, option-Holds,
  list-Holds,
}
use smts.World.Running.{Knows_more}
use smts.Server.Start.Serves.{IsServing, on_world-Serves}
use smts.Server.Turn.{Turn, set_idle, sort_by, new_turn}
use smts.Server.Turn.Keeps.{InOrder, on_server-Holds, survey-Holds}
use smts.Server.Turn.Survey.{sorted_nodes, level_of, check_levels}
use smts.Server.Turn.Moves.{move_received}
use smts.Server.Turn.Moves.Nodes.{learn_nodes, mem-sort_by, mem-all-lt}
use smts.Server.Turn.Moves.Keeps.{
  move_solver-Holds, move_solved-Holds, move_received-Holds, move_idle-Holds,
}
use smts.Server.Entrust.{send_partitioner, use_idle, split_leaf, balance, rebalance}
use smts.Server.Entrust.Ending.{partition-Keeps}

send_partitioner-Holds :
    (ns : List ℕ) (now target : ℕ)
    → Memᴰ target ns
    → Holds (InOrder ns) (send_partitioner now target)
unfolding send_partitioner set_idle
send_partitioner-Holds ns now target known = bind-Holds _ _ _ (reads-Holds _ _) λ at.
    bind-Holds _ _ _ (reads-Holds _ _) λ keys. bind-Holds _ _ _ (modify-Holds _ _ λ t k. k) λ _.
      bind-Holds _ _ _ (reads-Holds _ _) λ idle. list-Holds _ idle _ _ (pure-Holds _ tt) λ i rest e.
        bind-Holds _ _ _ (reads-Holds _ _) λ waiting. when-Holds _ _ _ (
          bind-Holds _ _ _ (move_solver-Holds ns now target i known) λ _. modify-Holds _ _ λ t k. k)

split_leaf-Holds : (ns : List ℕ) (root now : ℕ) → Holds (InOrder ns) (split_leaf root now)
unfolding split_leaf
split_leaf-Holds ns root now = bind-Holds _ _ _ (reads-Holds _ _) λ smt.
    bind-Holds _ _ _ (reads-Holds _ _) λ target. bind-Holds _ _ _ (reads-Holds _ _) λ wanted.
      bind-Holds _ _ _ (reads-Holds _ _) λ rlist. option-Holds _ target _ _ (pure-Holds _ tt) λ n.
        when-Holds _ _ _ (
          bind-Holds _ _ _
            (on_server-Holds ns _ λ rs.
              on_world-Serves (rs ++ ns) _
                λ qs. partition-Keeps (qs ++ (rs ++ ns)) rlist n false now)
            λ _. pure-Holds _ tt)

-- The node that an option names.
abbrev named : Option ℕ → List ℕ
named none = []
named (some n) = n ∷ []

target-InOrder :
    (ns : List ℕ) (t : Turn) (o : Option ℕ)
    → InOrder ns t
    → t.to_partition_node ≡ o
    → InOrder (named o ++ ns) t
target-InOrder ns t none k e = k
target-InOrder ns t (some n) k e =
    (((k.0.0.0, Knows_more ns n t.server.world.tree.next (k.1 n e) k.0.0.1), k.0.1), k.1)

named_forget : (ns : List ℕ) (o : Option ℕ) (t : Turn) → InOrder (named o ++ ns) t → InOrder ns t
named_forget ns none t k = k
named_forget ns (some n) t k = (((k.0.0.0, λ q m. k.0.0.1 q (Memᴰ.tail m)), k.0.1), k.1)

target-Holds :
    (ns : List ℕ) (now : ℕ) (needed : Bool) (o : Option ℕ)
    → Holds (InOrder (named o ++ ns)) (elim o as (λ _. Exec Turn (Unit {0})) [
      | none ↦ pure tt
      | some n ↦ when needed (send_partitioner now n)
    ])
target-Holds ns now needed none = pure-Holds _ tt
target-Holds ns now needed (some n) =
    when-Holds _ needed _ (send_partitioner-Holds (n ∷ ns) now n (Memᴰ.head refl))

use_idle-Holds :
    (ns nodes : List ℕ) (now : ℕ)
    → ((n : ℕ) → Memᴰ n nodes → Memᴰ n ns)
    → Holds (InOrder ns) (use_idle nodes now)
unfolding use_idle
use_idle-Holds ns nodes now known = bind-Holds _ _ _ (reads-Holds _ _) λ idle. when-Holds _ _ _ (
    bind-Holds _ _ _ (move_idle-Holds ns nodes now known) λ _.
      learn-Holds _ (λ o. InOrder (named o ++ ns)) (λ t. ok t.to_partition_node) _
        (λ t o k e. target-InOrder ns t o k (ok-eq e)) (named_forget ns)
        λ target. bind-Holds _ _ _ (reads-Holds _ _) λ needed. target-Holds ns now needed target)

-- All nodes of a tree, in whatever order, exist.
sorted_nodes-lt :
    (t : Tree) (root : ℕ) (nodes : List ℕ) {n : ℕ}
    → IsForest t
    → root < t.next
    → sorted_nodes t root ≡ ok nodes
    → Memᴰ n nodes
    → n < t.next
unfolding sorted_nodes
sorted_nodes-lt t root nodes {n} f lt e m = go (check_levels t (Walk.all t root)) refl
  where
    go : (r : Result (Unit {0})) → check_levels t (Walk.all t root) ≡ r → n < t.next
    go (err x) c = absurd (ground (arith, e, c))
    go (ok u) c =
        let is_sorted : nodes ≡ sort_by (level_of t) (Walk.all t root) = ground (arith, e, c) in
        mem-all-lt t root f lt
          (mem-sort_by (level_of t) (Walk.all t root) (subst (λ l. Memᴰ n l) is_sorted m))

received-Holds :
    (ns : List ℕ) (fuel now : ℕ) (received : Option ℕ)
    → Holds (InOrder ns) (elim received as (λ _. Exec Turn (Unit {0})) [
      | none ↦ pure tt
      | some p ↦ move_received fuel p now
    ])
received-Holds ns fuel now received =
    option-Holds _ received _ _ (pure-Holds _ tt) λ p. move_received-Holds ns fuel p now

balance-Holds :
    (ns : List ℕ) (fuel : ℕ) (received : Option ℕ) (root now : ℕ)
    → Memᴰ root ns
    → Holds (InOrder ns) (balance fuel received root now)
unfolding balance
balance-Holds ns fuel received root now known =
    learn_nodes ns (λ t. sorted_nodes t.server.world.tree root) _
      (λ t nodes k e n m.
        sorted_nodes-lt t.server.world.tree root nodes k.0.0.0.forest (k.0.0.1 root known) e m)
      λ nodes.
        bind-Holds _ _ _ (survey-Holds (nodes ++ ns) nodes now λ n m. Memᴰ.append_left ns m) λ _.
          bind-Holds _ _ _ (move_solved-Holds _ fuel root now) λ _.
            bind-Holds _ _ _ (received-Holds _ fuel now received) λ _.
              bind-Holds _ _ _ (use_idle-Holds (nodes ++ ns) nodes now λ n m. Memᴰ.append_left ns m)
                λ _. split_leaf-Holds _ root now

pub rebalance-Holds :
    (ns : List ℕ) (fuel : ℕ) (received : Option ℕ) (root now : ℕ)
    → Memᴰ root ns
    → Holds (IsServing ns) (rebalance fuel received root now)
unfolding rebalance
rebalance-Holds ns fuel received root now known = record {
  at = λ s k.
      ((balance-Holds ns fuel received root now known).at (new_turn s) (k, λ n e. absurd (cc))).0;
}
