-- ===== src/Server/Turn/Keeps.antt =====
-- The parts of `entrust` that look for work keep the server in order.
use smts.Prelude.{
  ℕ, ◌<◌, ◌≡◌, refl, subst, Bool, some, List, [], ◌∷◌, ◌++◌, Memᴰ, err, assertion_error,
  if◌then◌else◌,
}
use smts.Tree.Defs.{SolveStatus, unknown, sat, unsat}
use smts.World.Effects.{Exec, reads}
use smts.World.Holds.{
  Holds, bind-Holds, reads-Holds, pure-Holds, modify-Holds, when-Holds, for_each-Holds,
  option-Holds, if-Holds, if_kept, holds_rules,
}
use smts.World.Running.{Knows_more}
use smts.Server.{Server}
use smts.Server.Start.Serves.{IsServing, Serves}
use smts.Server.Turn.{Turn, on_server, set_marks, drop_count, set_idle}
use smts.Server.Turn.Survey.{
  release, rest_solver, set_processed, leave_parent, leave_unsat, leave_overdue, set_node_timeout,
  choose_leaf, survey_node, survey_one, survey,
}

-- The server of the turn is in order, the nodes `ns` exist, and the leaf that was chosen too.
abbrev pub InOrder : List ℕ → Turn → Type 0
InOrder ns t =
    IsServing ns t.server × ((n : ℕ) → t.to_partition_node ≡ some n → n < t.server.world.tree.next)

pub on_server-Holds :
    {A : Type 0} (ns : List ℕ) (m : Exec Server A)
    → ((qs : List ℕ) → Serves (qs ++ ns) m)
    → Holds (InOrder ns) (on_server m)
unfolding on_server
on_server-Holds ns m h = record {
  at = λ t k. (
    (h []).at t.server k.0,
    λ n e.
        ((h (n ∷ [])).at t.server
            ((k.0.0.0, Knows_more ns n t.server.world.tree.next (k.1 n e) k.0.0.1), k.0.1)).0.1
          n (Memᴰ.head refl),
  );
}

module _ (ns : List ℕ) where
  release-Holds : (i : ℕ) → Holds (InOrder ns) (release i)
  unfolding release set_idle drop_count
  release-Holds i = search holds_rules depth 30

  rest_solver-Holds : (counted : Bool) (i : ℕ) → Holds (InOrder ns) (rest_solver counted i)
  unfolding rest_solver set_idle drop_count
  rest_solver-Holds counted i = search holds_rules depth 30

  set_processed-Holds : (n : ℕ) → Holds (InOrder ns) (set_processed n)
  unfolding set_processed set_marks
  set_processed-Holds n = search holds_rules depth 30

  leave_parent-Holds : (n : ℕ) → Holds (InOrder ns) (leave_parent n)
  unfolding leave_parent
  leave_parent-Holds n = bind-Holds _ _ _ (reads-Holds _ _) λ above.
      option-Holds _ above _ _ (pure-Holds _ tt)
        λ o. search (holds_rules, for_each-Holds, release-Holds, set_processed-Holds) depth 30

  leave_unsat-Holds : (n : ℕ) → Holds (InOrder ns) (leave_unsat n)
  unfolding leave_unsat
  leave_unsat-Holds n =
      search (holds_rules, for_each-Holds, leave_parent-Holds, release-Holds, set_processed-Holds)
        depth 30

  leave_overdue-Holds : (n : ℕ) → Holds (InOrder ns) (leave_overdue n)
  unfolding leave_overdue set_marks
  leave_overdue-Holds n = search (holds_rules, for_each-Holds, rest_solver-Holds) depth 30

  set_node_timeout-Holds : (now : ℕ) → Holds (InOrder ns) (set_node_timeout now)
  unfolding set_node_timeout
  set_node_timeout-Holds now = search holds_rules depth 30

  choose_leaf-Holds : (n : ℕ) → Memᴰ n ns → Holds (InOrder ns) (choose_leaf n)
  unfolding choose_leaf
  choose_leaf-Holds n known = modify-Holds _ _ λ t k.
      if_kept (InOrder ns) _ _ t
        (k.0, λ q e. subst (λ j. j < t.server.world.tree.next) (cc) (k.0.0.1 n known)) k

  status-Holds :
      (now n : ℕ) (over : Bool) (later : Exec Turn (Unit {0})) (s : SolveStatus)
      → Holds (InOrder ns) later
      → Holds (InOrder ns) (elim s as (λ _. Exec Turn (Unit {0})) [
        | sat ↦ reads (λ t. err assertion_error)
        | unsat ↦ leave_unsat n
        | unknown ↦ if over then leave_overdue n else later
      ])
  status-Holds now n over later unknown h = if-Holds _ over _ _ (leave_overdue-Holds n) h
  status-Holds now n over later sat h = reads-Holds _ _
  status-Holds now n over later unsat h = leave_unsat-Holds n

  survey_node-Holds : (now n : ℕ) → Memᴰ n ns → Holds (InOrder ns) (survey_node now n)
  unfolding survey_node
  survey_node-Holds now n known = bind-Holds _ _ _ (reads-Holds _ _) λ status.
      bind-Holds _ _ _ (reads-Holds _ _) λ limit. bind-Holds _ _ _ (reads-Holds _ _) λ started.
        bind-Holds _ _ _ (reads-Holds _ _) λ alone.
          bind-Holds _ _ _
            (status-Holds now n _ _ status (when-Holds _ alone _ (set_node_timeout-Holds now)))
            λ _. choose_leaf-Holds n known

  pub survey-Holds :
      (nodes : List ℕ) (now : ℕ)
      → ((n : ℕ) → Memᴰ n nodes → Memᴰ n ns)
      → Holds (InOrder ns) (survey nodes now)
  unfolding survey survey_one
  survey-Holds nodes now known = for_each-Holds _ nodes _ λ n m.
      bind-Holds _ _ _ (reads-Holds _ _)
        λ todo. when-Holds _ todo _ (survey_node-Holds now n (known n m))
