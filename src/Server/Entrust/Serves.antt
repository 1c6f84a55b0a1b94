-- ===== src/Server/Entrust/Serves.antt =====
-- `entrust` keeps the server in order, on every path.
use smts.Prelude.{
  ℕ, ◌<◌, ◌≡◌, refl, sym, subst, ◌∙◌, String, Bool, false, Option, none, some, [], ◌∷◌, Memᴰ, ok,
  ok-eq, Dict,
}
use smts.World.Effects.{Exec, pure, reads, when, ◌>>=◌}
use smts.World.Holds.{
  Holds, Leads, bind-Leads, learn-Leads, bind-Holds, reads-Holds, pure-Holds, when-Holds,
  option-Holds,
}
use smts.World.Objects.{Value, Header}
use smts.World.Running.{Knows_more}
use smts.Config.Parameters.{Parameter}
use smts.Server.{Server}
use smts.Server.Start.{start_instance, join_instance}
use smts.Server.Start.Serves.{IsServing, Sized, start_instance-Holds, join_instance-Holds}
use smts.Server.Entrust.{end_instance, stop_if_done, go_on, entrust, received_node, rebalance}
use smts.Server.Sockets.Closing.{close_all-Holds}
use smts.Server.Entrust.Ending.{end_instance-Holds}
use smts.Server.Entrust.Balance.{rebalance-Holds}

stop_if_done-Holds : (solving : Option ℕ) → Holds (IsServing []) (stop_if_done solving)
unfolding stop_if_done
stop_if_done-Holds none = pure-Holds _ tt
stop_if_done-Holds (some k) =
    bind-Holds _ _ _ (reads-Holds _ _)
      λ stops. when-Holds _ _ _ (bind-Holds _ _ _ close_all-Holds λ _. reads-Holds _ _)

module _ (parameters : Dict String Parameter) (draw : ℕ → String → Value) (fuel : ℕ) where
  -- What `go_on` does with the instance `k` that was current
  resumed :
      (received : Option ℕ) (made k now : ℕ) (partitions : Bool)
      → k < made
      → Leads (Sized made []) (IsServing []) (do
        root ← reads λ s. ok (s.instances k).root
        when partitions (rebalance fuel received root now))
  unfolding ◌>>=◌ reads
  resumed received made k now partitions lt = record {
    at = λ s g.
        let root = (s.instances k).root in
        let root_lt = g.0.1.root_lt k (subst (λ b. k < b) (sym g.1) lt) in
        let known = Knows_more [] root s.world.tree.next root_lt (λ n m. elim m [ ]) in
        let after =
          (when-Holds _ partitions _
              (rebalance-Holds (root ∷ []) fuel received root now (Memᴰ.head refl))).at
            s ((g.0.0.0, known), g.0.1) in
        ((after.0.0, λ n m. elim m [ ]), after.1);
  }

  go_on-Leads :
      (solving received : Option ℕ) (made now : ℕ)
      → Leads (Sized made []) (IsServing []) (go_on parameters draw fuel solving received now)
  unfolding go_on
  go_on-Leads solving received made now =
      learn-Leads _ _ (λ s g. g.0) (λ before. (k : ℕ) → before ≡ some k → k < made) _ _
        (λ s before g e k is_k. subst (λ b. k < b) g.1 (g.0.1.current_lt k (ok-eq e ∙ is_k)))
        λ before below.
          bind-Leads _ _ (λ s g. g.0) _ _ (begun before below)
            λ _.
              bind-Leads _ _ (λ s g. g.0) _ _ (reads-Holds _ _)
                λ current.
                  bind-Leads _ _ (λ s g. g.0) _ _ (reads-Holds _ _)
                    λ partitions. rest before current partitions below
    where
      begun :
          (before : Option ℕ)
          → ((k : ℕ) → before ≡ some k → k < made)
          → Holds (Sized made []) (elim before as (λ _. Exec Server (Unit {0})) [
            | none ↦ start_instance parameters draw now
            | some k ↦ join_instance parameters draw k now
          ])
      begun none below = start_instance-Holds parameters draw made [] now
      begun (some k) below = join_instance-Holds parameters draw made [] k now (below k refl)

      rest :
          (before current : Option ℕ) (partitions : Bool)
          → ((k : ℕ) → before ≡ some k → k < made)
          → Leads (Sized made []) (IsServing []) (elim before as (λ _. Exec Server (Unit {0})) [
            | none ↦ elim current as (λ _. Exec Server (Unit {0})) [
              | none ↦ stop_if_done solving
              | some _ ↦ pure tt
            ]
            | some k ↦ (do
              root ← reads λ s. ok (s.instances k).root
              when partitions (rebalance fuel received root now))
          ])
      rest none current partitions below = record {
        at = λ s g.
            (option-Holds (IsServing []) current _ _ (stop_if_done-Holds solving)
                λ k. pure-Holds _ tt).at
              s g.0;
      }
      rest (some k) current partitions below = resumed received made k now partitions (below k refl)

  go_on-Holds :
      (solving received : Option ℕ) (now : ℕ)
      → Holds (IsServing []) (go_on parameters draw fuel solving received now)
  go_on-Holds solving received now = record {
    at = λ s g. (go_on-Leads solving received s.next_instance now).at s (g, refl);
  }

  pub entrust-Holds :
      (header : Header) (now : ℕ) → Holds (IsServing []) (entrust parameters draw fuel header now)
  unfolding entrust
  entrust-Holds header now = bind-Holds _ _ _ (reads-Holds _ _) λ solving.
      bind-Holds _ _ _ (ended solving)
        λ returned. when-Holds _ _ _ (go_on-Holds solving (received_node header) now)
    where
      ended :
          (solving : Option ℕ)
          → Holds (IsServing []) (elim solving as (λ _. Exec Server Bool) [
            | none ↦ pure false
            | some k ↦ end_instance k now
          ])
      ended none = pure-Holds _ false
      ended (some k) = end_instance-Holds [] k now

  -- From a server in order, whatever the message was about, `entrust` leaves the server in order, also
  -- when it raises or a loop of it is stopped: the tree is well-formed, the solvers refer to nodes
  -- that exist, the roots of the instances made so far exist, and `current` and `trees` refer to such
  -- instances.
  pub entrust-IsServing :
      (header : Header) (now : ℕ) (s : Server)
      → IsServing [] s
      → IsServing [] (entrust parameters draw fuel header now s).1
  entrust-IsServing header now s g = (entrust-Holds header now).at s g
