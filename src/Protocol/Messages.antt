-- ===== src/Protocol/Messages.antt =====
-- The messages that the methods of `Solver` send: which command has which entries.
pub mod Entries
use smts.Prelude.{
  ℕ, ◌≡◌, refl, subst, String, Bool, true, false, not, ◌&&◌, ◌||◌, Option, none, some, List, [],
  ◌∷◌, ◌++◌, if◌then◌else◌, Memᴰ, lookup, erase, update_all, lookup-insert, string_key, Bool-cases,
  inl, inr, ok, err, Result, Option-cases, get_elem?, pop_last,
}
use package.text.Mathlib.Text.{◌==◌ as str_eq}
use smts.World.Effects.{modify, ◌>>=◌}
use smts.World.Objects.{Value, text, number, path, Header, Message, World}
use smts.World.Holds.{
  Holds, bind-Holds, reads-Holds, pure-Holds, modify-Holds, option-Holds, holds_rules,
}
use smts.Config.Constant
use smts.Tree.Defs.{Tree, new_or, init_marks, SolveStatus, update}
use smts.Solver.{
  send, set_solver, reset, mark_started, init, stop, terminate, solve, incremental,
  set_lemma_server, add_or_node, partition_target, ask_partitions,
}
use smts.Solver.Read
use smts.Solver.Read.{
  read, receive, receive_status, receive_partitions, settle_partitions, add_partitions,
  add_received, parts, is_current, has_key, has_text, status_named,
}
use smts.Protocol.{
  Step, connects, stopped, terminated, solves, moved, served, asked, heard, Reaches, start, step,
}
use smts.Protocol.Messages.Entries.{
  AllTyped, fits, has_times, is_number, is_path, is_text, is_typed, names_node,
}

sent_mem :
    (h : Header) (i : ℕ) (p : String) (l : List Message)
    → is_typed h ≡ true
    → ((m : Message) → Memᴰ m l → is_typed m.header ≡ true)
    → (m : Message) → Memᴰ m (l ++ record { receiver = i; header = h; payload = p } ∷ [])
    → is_typed m.header ≡ true
sent_mem h i p [] typed all m (Memᴰ.head e) = rw e typed
sent_mem h i p [] typed all m (Memᴰ.tail e) = elim e [ ]
sent_mem h i p (x ∷ l) typed all m (Memᴰ.head e) = all m (Memᴰ.head e)
sent_mem h i p (x ∷ l) typed all m (Memᴰ.tail e) =
    sent_mem h i p l typed (λ m k. all m (Memᴰ.tail k)) m e

send-AllTyped : (i : ℕ) (h : Header) (p : String) → is_typed h ≡ true → Holds AllTyped (send i h p)
unfolding send
send-AllTyped i h p typed = modify-Holds _ _ λ w all. sent_mem h i p w.sent typed all

init-AllTyped : (i : ℕ) (name : String) → Holds AllTyped (init i name)
unfolding init set_solver reset is_typed ◌>>=◌ lookup
init-AllTyped i name = search (holds_rules, send-AllTyped) depth 30

stop-AllTyped : (i : ℕ) → Holds AllTyped (stop i)
unfolding stop set_solver reset is_typed ◌>>=◌ lookup
stop-AllTyped i = search (holds_rules, send-AllTyped) depth 30

terminate-AllTyped : (i : ℕ) → Holds AllTyped (terminate i)
unfolding terminate is_typed ◌>>=◌ lookup
terminate-AllTyped i = search (holds_rules, send-AllTyped) depth 30

incremental-AllTyped : (i n now : ℕ) → Holds AllTyped (incremental i n now)
unfolding incremental set_solver mark_started is_typed ◌>>=◌ lookup
incremental-AllTyped i n now = search (holds_rules, send-AllTyped) depth 30

set_lemma_server-AllTyped :
    (i : ℕ) (listening : Option String) → Holds AllTyped (set_lemma_server i listening)
unfolding set_lemma_server is_typed ◌>>=◌ lookup
set_lemma_server-AllTyped i listening = search (holds_rules, send-AllTyped) depth 30

add_or_node-AllTyped : (p : ℕ) → Holds AllTyped (add_or_node p)
unfolding add_or_node
add_or_node-AllTyped p = record { at = λ w all. nothing_sent w all (new_or w.tree p "") }
  where
    nothing_sent :
        (w : World)
        → AllTyped w
        → (r : Result Tree)
        → AllTyped
            (elim r as (λ _. Result ℕ × World) [
              | ok t ↦
                  (ok w.tree.next, record w { tree = t; marks = init_marks w.marks w.tree.next })
              | err e ↦ (err e, w)
            ]).1
    nothing_sent w all (ok t) = all
    nothing_sent w all (err e) = all

ask_partitions-AllTyped : (i count : ℕ) → Holds AllTyped (ask_partitions i count none)
unfolding ask_partitions partition_target set_solver is_typed ◌>>=◌ lookup
ask_partitions-AllTyped i count = search (holds_rules, send-AllTyped, add_or_node-AllTyped) depth 30

-- What `solve` adds to the parameters
solve_typed :
    (parameters : Header) (name query : String) (at : List ℕ) (memory : ℕ)
    → is_typed (
        update_all parameters (
          (Constant.command, text Constant.solve)
          ∷ (Constant.name, text name)
          ∷ (Constant.node, path at)
          ∷ (Constant.query, text query)
          ∷ (Constant.max_memory, number memory)
          ∷ []))
      ≡ true
unfolding is_typed update_all
solve_typed parameters name query at memory = simp (lookup-insert)

solve-AllTyped :
    (i n : ℕ) (parameters : Header) (now : ℕ) → Holds AllTyped (solve i n parameters now)
unfolding solve set_solver mark_started
solve-AllTyped i n parameters now = bind-Holds _ _ _ (reads-Holds _ _) λ busy.
    bind-Holds _ _ _ (option-Holds _ busy _ _ (pure-Holds _ tt) λ _. stop-AllTyped i) λ _.
      bind-Holds _ _ _ (modify-Holds _ _ λ w all. all) λ _.
        bind-Holds _ _ _ (reads-Holds _ _) λ input. bind-Holds _ _ _ (reads-Holds _ _) λ name.
          bind-Holds _ _ _ (reads-Holds _ _) λ at. bind-Holds _ _ _ (reads-Holds _ _) λ memory.
            bind-Holds _ _ _ (send-AllTyped i _ _ (solve_typed parameters name input.1 at memory))
              λ _.
                bind-Holds _ _ _ (modify-Holds _ _ λ w all. all) λ _. modify-Holds _ _ λ w all. all

-- Reading sends nothing.
settled_sent :
    (o : ℕ) (done : Bool) (h : Header) (w : World) → (settle_partitions o done h w).1.sent ≡ w.sent
unfolding settle_partitions
settled_sent o false h w = refl
settled_sent o true h w = elim (Option-cases (get_elem? w.config.partition_policy 1)) [
  | inl e ↦ rw (e, settle_partitions) refl
  | inr (k, e) ↦ rw (e, settle_partitions) refl
]

received_sent :
    (o : ℕ) (h : Header) (payload : Option String) (w : World)
    → (receive_partitions o h payload w).1.sent ≡ w.sent
unfolding receive_partitions
received_sent o h payload w =
    let (t, m, filled) = add_partitions w.tree w.marks o (parts payload) in
    let done = Read.is_text payload && filled in
    settled_sent o done (if done then add_received t o h else h) (record w { tree = t; marks = m })

status_sent :
    (i n : ℕ) (h : Header) (w : World) (v : Option SolveStatus)
    → (elim v as (λ _. Result Header × World) [
      | none ↦ (ok h, w)
      | some s ↦ (ok h, receive_status i n s w)
    ]).1.sent
      ≡ w.sent
unfolding receive_status
status_sent i n h w none = refl
status_sent i n h w (some s) = refl

receive_sent :
    (i n : ℕ) (h : Header) (payload : Option String) (w : World)
    → (receive i n h payload w).1.sent ≡ w.sent
unfolding receive set_solver ◌>>=◌ modify
receive_sent i n h payload w =
    let told = status_sent i n h w (status_named (lookup Constant.report h)) in
    elim (Bool-cases (has_text (lookup Constant.report h) Constant.partitions)) [
      | inr other ↦ rw (other, receive) told
      | inl partitions ↦ elim (Option-cases (pop_last (w.solvers i).or_waiting)) [
        | inl none_waits ↦ rw (partitions, none_waits, receive) told
        | inr ((rest, o), waits) ↦
            rw (partitions, waits, receive)
              (received_sent o h payload (record w {
                solvers = update w.solvers i (record (w.solvers i) { or_waiting = rest });
              }))
      ]
    ]

read_sent :
    (i : ℕ) (h : Header) (payload : Option String) (w : World)
    → (read i h payload w).1.sent ≡ w.sent
unfolding read
read_sent i h payload w = elim (Bool-cases (not (has_key Constant.report h))) [
  | inl dropped ↦ rw (dropped, read) refl
  | inr report ↦ elim (Option-cases (w.solvers i).node) [
    | inl idle ↦ rw (report, idle, read) refl
    | inr (n, busy) ↦ elim (Bool-cases (not (has_key Constant.name h && has_key Constant.node h))) [
      | inl short ↦ rw (report, busy, short, read) refl
      | inr full ↦ rw (report, busy, full, read) (current n (is_current w.tree n h))
    ]
  ]
]
  where
    current :
        (n : ℕ) (r : Result Bool)
        → (elim r as (λ _. Result Header × World) [
          | err e ↦ (err e, w)
          | ok false ↦ (ok [], w)
          | ok true ↦ receive i n (erase Constant.name h) payload w
        ]).1.sent
          ≡ w.sent
    current n (err e) = refl
    current n (ok false) = refl
    current n (ok true) = receive_sent i n (erase Constant.name h) payload w

Step-AllTyped : {w v : World} → Step w v → AllTyped w → AllTyped v
Step-AllTyped {w} (connects i name) all = (init-AllTyped i name).at w all
Step-AllTyped {w} (stopped i) all = (stop-AllTyped i).at w all
Step-AllTyped {w} (terminated i) all = (terminate-AllTyped i).at w all
Step-AllTyped {w} (solves i n now ps lt) all = (solve-AllTyped i n ps now).at w all
Step-AllTyped {w} (moved i n now lt) all = (incremental-AllTyped i n now).at w all
Step-AllTyped {w} (served i listening) all = (set_lemma_server-AllTyped i listening).at w all
Step-AllTyped {w} (asked i count) all = (ask_partitions-AllTyped i count).at w all
Step-AllTyped {w} (heard i h payload) all =
    λ m k. all m (subst (Memᴰ m) (read_sent i h payload w) k)

-- If every message that has been sent fits its command, then so does every message in each world that
-- calls of the methods and arriving messages lead to: a message with a command has the entries that
-- belong to the command, each of the right kind, and one without is the greeting.
pub Reaches-AllTyped : {w v : World} → AllTyped w → Reaches w v → AllTyped v
Reaches-AllTyped all start = all
Reaches-AllTyped all (step before s) = Step-AllTyped s (Reaches-AllTyped all before)
