-- ===== src/Server/Handlers/Serves.antt =====
-- The handlers keep the server in order.
use mathlib.Core.List.Memᴰ
use package.text.Mathlib.Text.{◌==◌ as str_eq}
use smts.Prelude.{
  ℕ, suc, ◌<◌, ◌≡◌, refl, sym, ap, subst, true, String, Option, none, some, [], ◌∷◌, ◌++◌, Result,
  ok, err, Bool-cases, inl, inr, ◌==◌, Dict, insert, string_key, arith,
}
use smts.Config.Constant
use smts.Solver.Read.{has_key}
use smts.Json.{Json, Items}
use smts.Tree.Defs.{update}
use smts.World.Effects.{Exec, ◌>>=◌, proceed}
use smts.World.Holds.{
  Holds, bind-Holds, reads-Holds, pure-Holds, modify-Holds, when-Holds, option-Holds, if-Holds,
}
use smts.World.Objects.{Header}
use smts.World.Running.{Knows_more}
use smts.Solver.Keeps.{stop-Keeps, send-Keeps}
use smts.Instances.{parse}
use smts.Instances.Fixedpoint.{Problem}
use smts.Server.Entrust.{entrust}
use smts.Instances.Keeps.{IsKnown, parse-Keeps, parse-IsKnown, partition-Keeps}
use smts.Server.{
  Server, Connection, listening_socket, plain_socket, solver_socket, lemma_socket, on_world,
}
use smts.Server.Start.Serves.{IsServing}
use smts.Server.Entrust.Ending.{world-Holds}
use smts.Server.Entrust.Serves.{entrust-Holds}
use smts.Server.Sockets.{socket_of}
use smts.Server.Reports.{note_error}
use smts.Server.Handlers.{
  attempt, store_instance, add_instance, Outside, handle_command, request_solver, request_lemmas,
  request_eval, handle_request, handle_solver, handle_from, handle_message, handle_close,
}
use smts.Server.Sockets.Closing.{IsOrderly, close_all-Holds}
use smts.Server.Sockets.Serves.{tell_lemma_server-Holds, add_solver-Holds, add_lemma_server-Holds}

eq_of_test : (k j : ℕ) → (k == j) ≡ true → j ≡ k
eq_of_test k j e = ground arith

-- A new time limit leaves the roots alone.
note_error-Holds : Holds IsOrderly note_error
unfolding note_error
note_error-Holds = modify-Holds _ _ λ s g.
    elim s.current
      as (λ c. IsOrderly (elim c as (λ _. Server) [
        | none ↦ s
        | some k ↦ record s {
          instances = update s.instances k (record (s.instances k) { timeout = some 0 });
        }
      ])) [
        | none ↦ g
        | some k ↦ (
          g.0,
          record {
            root_lt = λ j lt. elim (Bool-cases (k == j)) [
              | inl same ↦
                  rw same
                    (g.1.root_lt k (subst (λ i. i < s.next_instance) (eq_of_test k j same) lt))
              | inr other ↦ rw other (g.1.root_lt j lt)
            ];
            current_lt = g.1.current_lt;
            listed_lt = g.1.listed_lt;
          },
        )
      ]

attempt-Holds : (m : Exec Server (Unit {0})) → Holds IsOrderly m → Holds IsOrderly (attempt m)
unfolding attempt
attempt-Holds m h = record { at = h.at }

-- Behind a part that returns a new root.
known_rest :
    {P : Type 0} (r : Result (ℕ × P)) (rest : ℕ × P → Exec Server (Unit {0})) (s : Server)
    → IsOrderly s
    → IsKnown (r, s.world)
    → ((n : ℕ) (p : P) → Holds (IsServing (n ∷ [])) (rest (n, p)))
    → IsOrderly (proceed r rest s).1
known_rest (err e) rest s g lt h = g
known_rest (ok (n, p)) rest s g lt h =
    let after =
      (h n p).at s ((g.0.0, Knows_more [] n s.world.tree.next lt (λ q m. elim m [ ])), g.1) in
    ((after.0.0, λ q m. elim m [ ]), after.1)

parse-Holds :
    (smt2json : String → Result Items) (name smt : String)
    (rest : ℕ × Option Problem → Exec Server (Unit {0}))
    → ((n : ℕ) (p : Option Problem) → Holds (IsServing (n ∷ [])) (rest (n, p)))
    → Holds IsOrderly (on_world (parse smt2json name smt) >>= rest)
unfolding ◌>>=◌ on_world
parse-Holds smt2json name smt rest h = record {
  at = λ s g.
      let (r, w) = parse smt2json name smt s.world in
      known_rest r rest (record s { world = w })
        ((world-Holds [] (parse smt2json name smt)
            λ qs. parse-Keeps (qs ++ []) smt2json name smt).at
          s g)
        (parse-IsKnown smt2json name smt s.world) h;
}

le_more : (k made : ℕ) → k < made → k < suc made
le_more k made lt = omega arith

first_or_rest :
    (first : String × ℕ) (rest : Dict String ℕ) (e : String × ℕ) (bound : ℕ)
    → first.1 < bound
    → (Memᴰ.Memᴰ e rest → e.1 < bound)
    → Memᴰ.Memᴰ e (first ∷ rest)
    → e.1 < bound
first_or_rest first rest e bound lt h (Memᴰ.head same) =
    subst (λ (x : String × ℕ). x.1 < bound) (sym same) lt
first_or_rest first rest e bound lt h (Memᴰ.tail m) = h m

-- A new name refers to the new instance.
insert-listed :
    (name : String) (made : ℕ) (trees : Dict String ℕ)
    → ((e : String × ℕ) → Memᴰ.Memᴰ e trees → e.1 < made)
    → (e : String × ℕ) → Memᴰ.Memᴰ e (insert name made trees)
    → e.1 < suc made
unfolding insert
insert-listed name made [] below e (Memᴰ.head same) =
    omega (arith, ap (λ (x : String × ℕ). x.1) same)
insert-listed name made [] below e (Memᴰ.tail m) = elim m [ ]
insert-listed name made ((j, k) ∷ trees) below e m = elim (Bool-cases (str_eq j name)) [
  | inl same ↦
      first_or_rest (j, made) trees e (suc made) (omega arith)
        (λ m'. le_more e.1 made (below e (Memᴰ.tail m'))) (subst (Memᴰ.Memᴰ e) (rw same refl) m)
  | inr other ↦
      first_or_rest (j, k) (insert name made trees) e (suc made)
        (le_more k made (below (j, k) (Memᴰ.head refl)))
        (insert-listed name made trees (λ x m'. below x (Memᴰ.tail m')) e)
        (subst (Memᴰ.Memᴰ e) (rw other refl) m)
]

store_instance-Holds :
    (name : String) (root : ℕ) → Holds (IsServing (root ∷ [])) (store_instance name root)
unfolding store_instance
store_instance-Holds name root = modify-Holds _ _ λ s g. (
  g.0,
  record {
    root_lt = λ j lt. elim (Bool-cases (s.next_instance == j)) [
      | inl same ↦ rw same (g.0.1 root (Memᴰ.head refl))
      | inr other ↦ rw other (g.1.root_lt j (ground (arith, lt, other)))
    ];
    current_lt = λ j e. le_more j s.next_instance (g.1.current_lt j e);
    listed_lt = insert-listed name s.next_instance s.trees g.1.listed_lt;
  },
)

add_instance-Holds :
    (smt2json : String → Result Items) (format : Json → String) (name : String)
    (payload : Option String)
    → Holds IsOrderly (add_instance smt2json format name payload)
unfolding add_instance
add_instance-Holds smt2json format name payload = bind-Holds _ _ _ (reads-Holds _ _) λ smt.
    parse-Holds smt2json name smt _ λ n p. bind-Holds _ _ _ (store_instance-Holds name n) λ _.
      bind-Holds _ _ _ (reads-Holds _ _) λ split. option-Holds _ p _ _ (pure-Holds _ tt) λ problem.
        when-Holds _ split _ (
          world-Holds (n ∷ []) _ λ qs.
            partition-Keeps (qs ++ n ∷ []) format problem n (Memᴰ.append_right qs (Memᴰ.head refl)))

module _ (out : Outside) where
  request_entrust-Holds :
      (header : Header) (now : ℕ)
      → Holds IsOrderly (entrust out.parameters out.draw out.fuel header now)
  request_entrust-Holds header now = entrust-Holds out.parameters out.draw out.fuel header now

  handle_command-Holds :
      (header : Header) (payload : Option String) (now : ℕ)
      → Holds IsOrderly (handle_command out header payload now)
  unfolding handle_command
  handle_command-Holds header payload now = bind-Holds _ _ _ (reads-Holds _ _) λ command.
      bind-Holds _ _ _ (reads-Holds _ _) λ name. if-Holds _ _ _ _ close_all-Holds (
        if-Holds _ _ _ _
          (bind-Holds _ _ _ (reads-Holds _ _) λ known.
            bind-Holds _ _ _
              (attempt-Holds _ (add_instance-Holds out.smt2json out.format known payload))
              λ _. request_entrust-Holds [] now)
          (pure-Holds _ tt))

  request_solver-Holds :
      (sock : Connection) (header : Header) (now : ℕ)
      → Holds IsOrderly (request_solver out sock header now)
  unfolding request_solver
  request_solver-Holds sock header now = bind-Holds _ _ _ (reads-Holds _ _) λ name.
      bind-Holds _ _ _ (add_solver-Holds (socket_of sock) sock name)
        λ _. request_entrust-Holds [] now

  request_lemmas-Holds :
      (sock : Connection) (header : Header) → Holds IsOrderly (request_lemmas out sock header)
  unfolding request_lemmas
  request_lemmas-Holds sock header = bind-Holds _ _ _ (reads-Holds _ _) λ given.
      bind-Holds _ _ _ (reads-Holds _ _)
        λ address. add_lemma_server-Holds (socket_of sock) sock address

  request_eval-Holds :
      (sock : Connection) (header : Header) → Holds IsOrderly (request_eval out sock header)
  unfolding request_eval
  request_eval-Holds sock header =
      bind-Holds _ _ _ (reads-Holds _ _)
        λ asked. world-Holds [] _ λ qs. send-Keeps (qs ++ []) (socket_of sock) [] _

  handle_request-Holds :
      (sock : Connection) (header : Header) (payload : Option String) (now : ℕ)
      → Holds IsOrderly (handle_request out sock header payload now)
  unfolding handle_request
  handle_request-Holds sock header payload now =
      if-Holds _ (has_key Constant.command header) _ _ (handle_command-Holds header payload now) (
        if-Holds _ (has_key Constant.solver header) _ _ (request_solver-Holds sock header now) (
          if-Holds _ (has_key Constant.lemmas header) _ _ (request_lemmas-Holds sock header) (
            if-Holds _ (has_key Constant.eval header) _ _ (request_eval-Holds sock header)
              (pure-Holds _ tt))))

  handle_solver-Holds : (header : Header) (now : ℕ) → Holds IsOrderly (handle_solver out header now)
  unfolding handle_solver
  handle_solver-Holds header now =
      when-Holds _ _ _
        (bind-Holds _ _ _ (when-Holds _ _ _ note_error-Holds) λ _. request_entrust-Holds header now)

  handle_from-Holds :
      (sock : Connection) (header : Header) (payload : Option String) (now : ℕ)
      → Holds IsOrderly (handle_from out sock header payload now)
  unfolding handle_from
  handle_from-Holds listening_socket header payload now =
      handle_request-Holds listening_socket header payload now
  handle_from-Holds (plain_socket j) header payload now =
      handle_request-Holds (plain_socket j) header payload now
  handle_from-Holds (solver_socket i) header payload now = handle_solver-Holds header now
  handle_from-Holds (lemma_socket j) header payload now = when-Holds _ _ _ (
      bind-Holds _ _ _ (reads-Holds _ _)
        λ _. handle_request-Holds (lemma_socket j) header payload now)

  pub handle_message-Holds :
      (sock : Connection) (header : Header) (payload : Option String) (now : ℕ)
      → Holds IsOrderly (handle_message out sock header payload now)
  unfolding handle_message
  handle_message-Holds sock header payload now =
      bind-Holds _ _ _ (reads-Holds _ _)
        λ log. bind-Holds _ _ _ (reads-Holds _ _) λ _. handle_from-Holds sock header payload now

pub handle_close-Holds : (sock : Connection) → Holds IsOrderly (handle_close sock)
unfolding handle_close
handle_close-Holds listening_socket = pure-Holds _ tt
handle_close-Holds (plain_socket j) = pure-Holds _ tt
handle_close-Holds (solver_socket i) =
    attempt-Holds _ (world-Holds [] _ λ qs. stop-Keeps (qs ++ []) i)
handle_close-Holds (lemma_socket j) = tell_lemma_server-Holds none
