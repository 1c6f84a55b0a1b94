-- ===== src/Server/Entrust.antt =====
-- `ParallelizationServer.entrust`: its parts in their order. The tree is not drawn, and
-- `config.spit_preference` is off, as in the default settings.
pub mod Ending
pub mod Balance
pub mod Serves
use smts.Prelude.{
  ℕ, zero, suc, ◌-◌, ◌+◌, String, Bool, true, false, not, ◌&&◌, ◌||◌, Option, none, some, List, [],
  ◌∷◌, ◌++◌, ◌==◌, ltb, leb, nonempty, length, take, if◌then◌else◌, Result, ok, err, or_raise,
  attribute_error, system_exit, Dict, show_path, lookup, erase, ℤ, pos, negsuc, string_key,
}
use package.text.Mathlib.Text.{◌==◌ as str_eq}
use smts.Tree.Defs.{Tree, Class, root_node, smt_lib, unknown}
use smts.Tree.Walk
use smts.Tree.Status.{same_status, childeren}
use smts.World.Effects.{Exec, reads, modify, pure, ◌>>=◌, ◌>>◌, for_each, when}
use smts.World.Objects.{Value, node, Header, Solver, World}
use smts.Config.{Config}
use smts.Config.Parameters.{Parameter}
use smts.Solver.{terminate}
use smts.Server.{
  Instance, Server, Connection, plain_socket, listening_socket, every, on_world, solvers,
}
use smts.Server.Sockets.{close_all}
use smts.Server.Start.{start_instance, join_instance}
use smts.Server.Finish.{finish}
use smts.Server.Partition.{partition}
use smts.Server.Turn.{Turn, new_turn, on_server, remove, set_idle}
use smts.Server.Turn.Survey.{sorted_nodes, survey, is_off}
use smts.Server.Turn.Moves.{move_solved, move_received, move_idle, move_solver}

-- `self.current.when_timeout < 0`
unfoldable pub is_late : Instance → ℕ → Bool
is_late r now = elim r.started [
  | none ↦ false
  | some zero ↦ false
  | some (suc at) ↦ elim r.timeout [ none ↦ false | some t ↦ ltb (suc at + t) now ]
]

-- The root has been asked for partitions, and none of those that arrived is left.
unfoldable pub is_stuck : Server → ℕ → Result Bool
unfolding childeren
is_stuck s root =
    if same_status (s.world.marks.status root) unknown && s.world.marks.partitioning root
    then elim (childeren s.world.tree s.world.marks.status root) [
      | err e ↦ err e
      | ok childs ↦ ok (not (nonempty childs))
    ]
    else ok false

-- The current instance `k` if its root is decided or its time is up. True means that `entrust`
-- returns here: the solvers of a stuck instance are told to terminate, once.
unfoldable pub end_instance : ℕ → ℕ → Exec Server Bool
unfolding finish is_stuck is_late terminate on_world solvers
end_instance k now = do
  over ← reads λ s. ok (
      not (same_status (s.world.marks.status (s.instances k).root) unknown)
      || is_late (s.instances k) now)
  stuck ← reads λ s. if over then is_stuck s (s.instances k).root else ok false
  told ← reads λ s. ok s.terminate
  everyone ← reads λ s. ok (solvers s.rlist s.world.solvers every)
  when (stuck && not told) (for_each everyone λ i. on_world (terminate i))
  when (stuck && not told) (modify λ s. record s { terminate = true })
  when (over && not (stuck && not told)) (finish k)
  pure (stuck && not told)

abbrev pub is_plain : Connection → Bool
is_plain (plain_socket n) = true
is_plain _ = false

unfoldable pub has_plain : List Connection → Bool
has_plain [] = false
has_plain (c ∷ cs) = is_plain c || has_plain cs

-- `if self.current is None`, with the instance that was current at the beginning
unfoldable pub stop_if_done : Option ℕ → Exec Server (Unit {0})
unfolding close_all has_plain
stop_if_done none = pure tt
stop_if_done (some k) = do
  stops ← reads λ s. ok (s.world.config.idle_quit && not (has_plain s.rlist))
  when stops (do close_all; reads λ s. err system_exit)

abbrev pub text_length : String → ℕ
text_length String.[] = 0
text_length (String.◌∷◌ c s) = suc (text_length s)

abbrev pub text_take : ℕ → String → String
text_take zero s = ""
text_take (suc n) String.[] = ""
text_take (suc n) (String.◌∷◌ c s) = String.◌∷◌ c (text_take n s)

abbrev pub text_tail : String → String
text_tail String.[] = ""
text_tail (String.◌∷◌ c s) = s

-- `str(a)[1:len(str(b))-1] == str(b)[1:len(str(b))-1]`
unfoldable pub starts_like : List ℕ → List ℕ → Bool
unfolding show_path
starts_like a b =
    let inner = text_length (show_path b) - 2 in
    str_eq (text_take inner (text_tail (show_path a))) (text_take inner (text_tail (show_path b)))

-- The keys of the idle solvers, by which they are sorted.
unfoldable pub sort_keys : World → List ℕ → List ℕ → Result (List (ℕ × Bool))
unfolding starts_like Walk.path
sort_keys w target [] = ok []
sort_keys w target (i ∷ is) = elim (w.solvers i).node [
  | none ↦ err attribute_error
  | some n ↦ elim (Walk.path w.tree n) [
    | err e ↦ err e
    | ok at ↦ elim (sort_keys w target is) [
      | err e ↦ err e
      | ok rest ↦ ok ((i, starts_like target at) ∷ rest)
    ]
  ]
]

-- The solvers whose key is `b`, in their order.
unfoldable pub with_key : Bool → List (ℕ × Bool) → List ℕ
with_key b [] = []
with_key true ((i, k) ∷ l) = if k then i ∷ with_key true l else with_key true l
with_key false ((i, k) ∷ l) = if k then with_key false l else i ∷ with_key false l

-- An idle solver goes to the leaf that nobody works on, to partition it: one from above it first.
unfoldable pub send_partitioner : ℕ → ℕ → Exec Turn (Unit {0})
unfolding sort_keys with_key move_solver set_idle remove
send_partitioner now target = do
  at ← reads λ t. Walk.path t.server.world.tree target
  keys ← reads λ t. sort_keys t.server.world at t.server.idle_solvers
  set_idle λ _. with_key true keys ++ with_key false keys
  idle ← reads λ t. ok t.server.idle_solvers
  elim idle [
    | [] ↦ pure tt
    | i ∷ _ ↦ (do
      waiting ← reads λ t. ok (t.server.world.solvers i).or_waiting
      when (not (nonempty waiting)) (do move_solver now target i; set_idle (remove i)))
  ]

-- `if self.idle_solvers`
unfoldable pub use_idle : List ℕ → ℕ → Exec Turn (Unit {0})
unfolding move_idle send_partitioner
use_idle nodes now = do
  idle ← reads λ t. ok t.server.idle_solvers
  when (nonempty idle) (do
    move_idle nodes now
    target ← reads λ t. ok t.to_partition_node
    needed ← reads λ t. ok t.solver_partition
    elim target [ none ↦ pure tt | some n ↦ when needed (send_partitioner now n) ])

-- `self.total_solvers > config.partition_count`
unfoldable pub exceeds : ℕ → ℤ → Bool
exceeds total (pos count) = ltb count total
exceeds total (negsuc count) = true

abbrev pub is_smt : Class → Bool
is_smt (root_node smt_lib name) = true
is_smt _ = false

-- The last lines: the chosen leaf is partitioned.
unfoldable pub split_leaf : ℕ → ℕ → Exec Turn (Unit {0})
unfolding exceeds partition on_server on_world
split_leaf root now = do
  smt ← reads λ t. ok (is_smt (t.server.world.tree.class root))
  target ← reads λ t. ok t.to_partition_node
  wanted ← reads λ t. ok (exceeds t.server.total_solvers t.server.world.config.partition_count)
  rlist ← reads λ t. ok t.server.rlist
  elim target [
    | none ↦ pure tt
    | some n ↦
        when (smt && wanted) (on_server (on_world (partition rlist n false now)) >>= λ _. pure tt)
  ]

-- The value that `header['partition_recieved']` has, if any, is a node that `Solver.read` put there: no
-- client sends this entry, whose text would have no attribute `childeren`.
unfoldable pub received_node : Header → Option ℕ
unfolding lookup
received_node h = elim (lookup "partition_recieved" h) [ some (node n) ↦ some n | _ ↦ none ]

-- `if config.partition_timeout`, for the root of the current instance
unfoldable pub balance : ℕ → Option ℕ → ℕ → ℕ → Exec Turn (Unit {0})
unfolding sorted_nodes survey move_solved move_received use_idle split_leaf
balance fuel received root now = do
  nodes ← reads λ t. sorted_nodes t.server.world.tree root
  survey nodes now
  move_solved fuel root now
  elim received [ none ↦ pure tt | some p ↦ move_received fuel p now ]
  use_idle nodes now
  split_leaf root now

-- The balance of a server, whose local variables are forgotten at the end.
unfoldable pub rebalance : ℕ → Option ℕ → ℕ → ℕ → Exec Server (Unit {0})
unfolding balance
rebalance fuel received root now s =
    let (r, t) = balance fuel received root now (new_turn s) in (r, t.server)

module _ (parameters : Dict String Parameter) (draw : ℕ → String → Value) (fuel : ℕ) where
  -- What follows the end of an instance, with the instance that was current before it.
  unfoldable pub go_on : Option ℕ → Option ℕ → ℕ → Exec Server (Unit {0})
  unfolding start_instance join_instance stop_if_done rebalance
  go_on solving received now = do
    before ← reads λ s. ok s.current
    elim before [
      | none ↦ start_instance parameters draw now
      | some k ↦ join_instance parameters draw k now
    ]
    current ← reads λ s. ok s.current
    partitions ← reads λ s. ok (not (is_off s.world.config.partition_timeout))
    elim before [
      | none ↦ elim current [ none ↦ stop_if_done solving | some _ ↦ pure tt ]
      | some k ↦ (do
        root ← reads λ s. ok (s.instances k).root
        when partitions (rebalance fuel received root now))
    ]

  -- `entrust(header)`
  unfoldable pub entrust : Header → ℕ → Exec Server (Unit {0})
  unfolding go_on end_instance received_node
  entrust header now = do
    solving ← reads λ s. ok s.current
    returned ← elim solving [ none ↦ pure false | some k ↦ end_instance k now ]
    when (not returned) (go_on solving (received_node header) now)
