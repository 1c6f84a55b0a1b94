-- ===== src/Server/Loop/Deaf.antt =====
-- When the event loop no longer hears anything.
use smts.Prelude.{
  ℕ, ◌≡◌, refl, ap, sym, ◌∙◌, Bool, true, false, Option, some, List, [], ◌∷◌, ◌++◌, Memᴰ, nonempty,
  if◌then◌else◌, Result, ok, err, attribute_error, String, Bool-cases, inl, inr, nonempty-mem,
  ==_self,
}
use smts.World.Effects.{Exec, reads, proceed, ◌>>=◌}
use smts.World.Holds.{Holds, bind-Holds, reads-Holds, modify-Holds, for_each-Holds}
use smts.World.Objects.{World}
use smts.Server.{
  on_world, lemma_server, Server, Connection, listening_socket, plain_socket, solver_socket,
  lemma_socket,
}
use smts.Server.Sockets.{
  is_member, same_connection, without, remove_connection, close_connection, add_connection,
  tell_lemma_server, replace_lemma_server, add_lemma_server,
}
use smts.Server.Handlers.{Outside}
use smts.Server.Loop.{Arrival, select, serve_ready, run_until_timeout, run_forever}

same_self : (c : Connection) → same_connection c c ≡ true
same_self listening_socket = refl
same_self (plain_socket j) = ==_self j
same_self (solver_socket j) = ==_self j
same_self (lemma_socket j) = ==_self j

select_raises :
    (closed l : List Connection) (c : Connection)
    → Memᴰ c l
    → is_member c closed ≡ true
    → select closed l ≡ err attribute_error
unfolding select
select_raises closed [] c m shut = elim m [ ]
select_raises closed (d ∷ l) c (Memᴰ.head same) shut =
    rw (ap (λ x. is_member x closed) (sym same) ∙ shut, select) refl
select_raises closed (d ∷ l) c (Memᴰ.tail m) shut = elim (Bool-cases (is_member d closed)) [
  | inl also ↦ rw (also, select) refl
  | inr other ↦ rw (other, select) (select_raises closed l c m shut)
]

-- A part that returns without a change, and then the others.
quiet_first :
    (first : Result (Unit {0}) × Server) (rest : Exec Server (Unit {0})) (s : Server)
    → first ≡ (ok tt, s)
    → rest s ≡ (ok tt, s)
    → proceed first.0 (λ _. rest) first.1 ≡ (ok tt, s)
quiet_first first rest s quiet e = rw quiet e

either_way :
    (b : Bool) (m : Exec Server (Unit {0})) (s : Server)
    → m s ≡ (ok tt, s)
    → (if b then m s else (ok tt, s)) ≡ (ok tt, s)
either_way true m s e = e
either_way false m s e = refl

-- A closed connection that `select` is asked for.
abbrev pub IsShut : Connection → Server → Type 0
IsShut c s = Memᴰ c s.rlist × (is_member c s.closed ≡ true)

module _ (out : Outside) where
  deaf_round :
      (now : ℕ) (ready : List (Connection × Arrival)) (s : Server) (c : Connection)
      → Memᴰ c s.rlist
      → is_member c s.closed ≡ true
      → run_until_timeout out now ready s ≡ (ok tt, s)
  unfolding run_until_timeout serve_ready ◌>>=◌ reads
  deaf_round now ready s c m shut =
      let raised = select_raises s.closed s.rlist c m shut in
      let left = nonempty-mem s.rlist m in simp (left, raised, run_until_timeout, serve_ready)

  deaf_forever :
      (rounds : List (ℕ × List (Connection × Arrival))) (s : Server) (c : Connection)
      → IsShut c s
      → run_forever out rounds s ≡ (ok tt, s)
  unfolding run_forever ◌>>=◌
  deaf_forever [] s c (m, shut) = refl
  deaf_forever ((now, ready) ∷ rounds) s c (m, shut) =
      either_way (nonempty s.rlist)
        (run_until_timeout out now ready >>= λ _. run_forever out rounds) s
        (quiet_first (run_until_timeout out now ready s) (run_forever out rounds) s
          (deaf_round now ready s c m shut) (deaf_forever rounds s c (m, shut)))

-- Where a closed connection is left in `_rlist`.
on_world-IsShut : {A : Type 0} (c : Connection) (m : Exec World A) → Holds (IsShut c) (on_world m)
unfolding on_world
on_world-IsShut c m = record { at = λ s k. k }

mem-append : (c : Connection) (l l' : List Connection) → Memᴰ c l → Memᴰ c (l ++ l')
mem-append c [] l' m = elim m [ ]
mem-append c (d ∷ l) l' (Memᴰ.head e) = Memᴰ.head e
mem-append c (d ∷ l) l' (Memᴰ.tail m) = Memᴰ.tail (mem-append c l l' m)

is_member-append : (c : Connection) (l : List Connection) → is_member c (l ++ c ∷ []) ≡ true
unfolding is_member
is_member-append c [] = rw (same_self c, is_member) refl
is_member-append c (d ∷ l) = elim (Bool-cases (same_connection d c)) [
  | inl same ↦ rw (same, is_member) refl
  | inr other ↦ rw (other, is_member) (is_member-append c l)
]

-- Removing another connection.
without-mem :
    (c d : Connection) (l : List Connection)
    → same_connection c d ≡ false
    → Memᴰ c l
    → Memᴰ c (without d l)
unfolding without
without-mem c d [] other m = elim m [ ]
without-mem c d (x ∷ l) other (Memᴰ.head e) =
    rw (ap (λ y. same_connection y d) (sym e) ∙ other, without) (Memᴰ.head e)
without-mem c d (x ∷ l) other (Memᴰ.tail m) = elim (Bool-cases (same_connection x d)) [
  | inl same ↦ rw (same, without) m
  | inr differs ↦ rw (differs, without) (Memᴰ.tail (without-mem c d l other m))
]

remove_connection-IsShut :
    (c d : Connection) → same_connection c d ≡ false → Holds (IsShut c) (remove_connection d)
unfolding remove_connection
remove_connection-IsShut c d other = record {
  at = λ s (m, shut). elim (Bool-cases (is_member d s.rlist)) [
    | inl there ↦ rw (there, remove_connection) (without-mem c d s.rlist other m, shut)
    | inr gone ↦ rw (gone, remove_connection) (m, shut)
  ];
}

add_connection-IsShut : (c d : Connection) → Holds (IsShut c) (add_connection d)
unfolding add_connection
add_connection-IsShut c d = modify-Holds _ _ λ s (m, shut). (mem-append c s.rlist (d ∷ []) m, shut)

tell_lemma_server-IsShut :
    (c : Connection) (a : Option String) → Holds (IsShut c) (tell_lemma_server a)
unfolding tell_lemma_server
tell_lemma_server-IsShut c a =
    bind-Holds _ _ _ (reads-Holds _ _)
      λ everyone. for_each-Holds _ everyone _ λ i m. on_world-IsShut c _

-- The steps behind the closing of the lemma server before.
rest-IsShut :
    (l j : ℕ) (d : Connection) (a : String)
    → same_connection (lemma_socket l) d ≡ false
    → Holds (IsShut (lemma_socket l)) (replace_lemma_server j d a)
unfolding replace_lemma_server
rest-IsShut l j d a other =
    bind-Holds _ _ _ (remove_connection-IsShut (lemma_socket l) d other) λ _.
      bind-Holds _ _ _ (modify-Holds _ _ λ s k. k) λ _.
        bind-Holds _ _ _ (on_world-IsShut (lemma_socket l) _) λ _.
          bind-Holds _ _ _ (add_connection-IsShut (lemma_socket l) (lemma_socket j))
            λ _. tell_lemma_server-IsShut (lemma_socket l) (some a)

lemma_server-mem : (l : List Connection) (i : ℕ) → lemma_server l ≡ some i → Memᴰ (lemma_socket i) l
unfolding lemma_server
lemma_server-mem (listening_socket ∷ l) i e = Memᴰ.tail (lemma_server-mem l i e)
lemma_server-mem (plain_socket j ∷ l) i e = Memᴰ.tail (lemma_server-mem l i e)
lemma_server-mem (solver_socket j ∷ l) i e = Memᴰ.tail (lemma_server-mem l i e)
lemma_server-mem (lemma_socket j ∷ l) i e = Memᴰ.head (ap lemma_socket (cc))
lemma_server-mem [] i e = absurd (cc)

add_lemma_server-IsShut :
    (l j : ℕ) (d : Connection) (a : String) (s : Server)
    → lemma_server s.rlist ≡ some l
    → is_member (lemma_socket l) s.closed ≡ false
    → same_connection (lemma_socket l) d ≡ false
    → IsShut (lemma_socket l) (add_lemma_server j d a s).1
unfolding add_lemma_server close_connection ◌>>=◌ reads
add_lemma_server-IsShut l j d a s connected still_open other =
    rw (connected, still_open, close_connection, add_lemma_server)
      ((rest-IsShut l j d a other).at _
        (lemma_server-mem s.rlist l connected, is_member-append (lemma_socket l) s.closed))

-- If a lemma server connects (over a connection of its own) while another one is connected and not
-- closed, then the server never serves anybody again: whatever arrives in whatever rounds
-- afterwards, each of them ends in `select` with an exception that is swallowed, and nothing changes.
pub run_forever_deaf :
    (out : Outside) (rounds : List (ℕ × List (Connection × Arrival))) (l j : ℕ) (sock : Connection)
    (address : String) (s : Server)
    → lemma_server s.rlist ≡ some l
    → is_member (lemma_socket l) s.closed ≡ false
    → same_connection (lemma_socket l) sock ≡ false
    → run_forever out rounds (add_lemma_server j sock address s).1
      ≡ (ok tt, (add_lemma_server j sock address s).1)
run_forever_deaf out rounds l j sock address s connected still_open other =
    deaf_forever out rounds _ (lemma_socket l)
      (add_lemma_server-IsShut l j sock address s connected still_open other)
