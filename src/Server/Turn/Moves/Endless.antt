-- ===== src/Server/Turn/Moves/Endless.antt =====
-- When the `while` loop over the solvers that may go to new partitions ends, and when it never does.
use smts.Prelude.{
  Error, Memᴰ, ℕ, zero, suc, ◌≤◌, ◌≡◌, refl, subst, sym, ◌⊎◌, ◌+◌, List, [], ◌∷◌, length,
  List-cases, ◌∙◌, ap, Result, ok, err, arith, out_of_fuel, inl, inr,
}
use smts.Tree.Status.{childeren}
use smts.World.Effects.{Exec, reads, modify, pure, ◌>>=◌, for_each}
use smts.Server.{on_world}
use smts.Server.Turn.{Turn, on_server}
use smts.Solver.{incremental}
use smts.Solver.Quiet.{incremental-HasTree}
use smts.Server.Turn.Moves.{move_solver, place_movable, place_rounds}

-- If none of the partitions of `p` is open and some solver may move, then the loop
-- is still running after any number of rounds, and has changed nothing: the server hangs.
pub place_rounds_endless :
    (fuel p now : ℕ) (t : Turn) (i : ℕ) (rest : List ℕ)
    → t.movable_solvers ≡ i ∷ rest
    → childeren t.server.world.tree t.server.world.marks.status p ≡ ok []
    → place_rounds fuel p now t ≡ (err out_of_fuel, t)
unfolding place_rounds ◌>>=◌ reads for_each
place_rounds_endless zero p now t i rest waiting none_open = simp (waiting, place_rounds)
place_rounds_endless (suc f) p now t i rest waiting none_open =
    let later = place_rounds_endless f p now t i rest waiting none_open in
    simp (waiting, none_open, for_each, later, place_rounds)

-- The solvers that wait are sent in their order, each by one incremental message to one of the
-- partitions `childs`, until none is left or sending one raises.
pub data Sent (now : ℕ) (childs : List ℕ) : List ℕ → Turn → Result (Unit {0}) → Turn → Type 0 where
  all_sent : (t : Turn) → t.movable_solvers ≡ [] → Sent now childs [] t (ok tt) t
  raised :
      (i n : ℕ) (rest : List ℕ) (e : Error) (t t' : Turn)
      → Memᴰ n childs
      → on_server (on_world (incremental i n now)) (record t { movable_solvers = rest })
        ≡ (err e, t')
      → Sent now childs (i ∷ rest) t (err e) t'
  sent :
      (i n : ℕ) (rest : List ℕ) (t t' u : Turn) (r : Result (Unit {0}))
      → Memᴰ n childs
      → on_server (on_world (incremental i n now)) (record t { movable_solvers = rest })
        ≡ (ok tt, t')
      → Sent now childs rest t' r u
      → Sent now childs (i ∷ rest) t r u

-- What the loop over the partitions does from here on.
abbrev pub Sends : ℕ → List ℕ → Turn → Result (Unit {0}) × Turn → Type 0
Sends now childs t (r, u) = Sent now childs t.movable_solvers t r u

-- The partitions of `p` are those that are open.
abbrev Open : ℕ → List ℕ → Turn → Type 0
Open p childs t = childeren t.server.world.tree t.server.world.marks.status p ≡ ok childs

-- After a move the other solvers wait, and the partitions are open or not as before.
move_solver-kept :
    (now n i : ℕ) (t : Turn) (t' : Turn)
    → move_solver now n i t ≡ (ok tt, t')
    → (t'.movable_solvers ≡ t.movable_solvers)
      × ((p : ℕ)
          → childeren t'.server.world.tree t'.server.world.marks.status p
            ≡ childeren t.server.world.tree t.server.world.marks.status p)
unfolding move_solver on_server on_world
move_solver-kept now n i t t' e =
    let same : t' ≡ (move_solver now n i t).1 = sym (ap (λ q. q.1) e) in
    let still =
      (incremental-HasTree t.server.world.tree t.server.world.marks.status i n now).at
        t.server.world (refl, refl) in
    (
      ap (λ (u : Turn). u.movable_solvers) same,
      λ p.
          ap (λ (u : Turn). childeren u.server.world.tree u.server.world.marks.status p) same
          ∙ rw (still.0, still.1) refl,
    )

-- Without a solver that waits, nothing happens.
place_movable_idle :
    (now n : ℕ) (t : Turn) → t.movable_solvers ≡ [] → place_movable now n t ≡ (ok tt, t)
unfolding place_movable ◌>>=◌ reads pure
place_movable_idle now n t none_left = simp (none_left, place_movable)

place_movable_first :
    (now n i : ℕ) (rest : List ℕ) (t : Turn)
    → t.movable_solvers ≡ i ∷ rest
    → place_movable now n t ≡ move_solver now n i (record t { movable_solvers = rest })
unfolding place_movable ◌>>=◌ reads modify
place_movable_first now n i rest t waiting = simp (waiting, place_movable)

-- The first step of a round
round_ok :
    (now c : ℕ) (cs : List ℕ) (rest : Exec Turn (Unit {0})) (t v : Turn)
    → place_movable now c t ≡ (ok tt, v)
    → (for_each (c ∷ cs) (place_movable now) >>= λ _. rest) t
      ≡ (for_each cs (place_movable now) >>= λ _. rest) v
unfolding for_each ◌>>=◌
round_ok now c cs rest t v e = simp (e, for_each)

round_err :
    (now c : ℕ) (cs : List ℕ) (rest : Exec Turn (Unit {0})) (t v : Turn) (raised_error : Error)
    → place_movable now c t ≡ (err raised_error, v)
    → (for_each (c ∷ cs) (place_movable now) >>= λ _. rest) t ≡ (err raised_error, v)
unfolding for_each ◌>>=◌
round_err now c cs rest t v raised_error e = simp (e, for_each)

run_cases :
    (r : Result (Unit {0}) × Turn)
    → ((e : Error) × (v : Turn) × (r ≡ (err e, v))) ⊎ ((v : Turn) × (r ≡ (ok tt, v)))
run_cases (err e, v) = inl (e, v, refl)
run_cases (ok u, v) = inr (v, refl)

-- A round whose first move raises
raised-Sends :
    (now i c : ℕ) (childs cs others : List ℕ) (rest : Exec Turn (Unit {0})) (t v : Turn) (e : Error)
    → Memᴰ c childs
    → t.movable_solvers ≡ i ∷ others
    → move_solver now c i (record t { movable_solvers = others }) ≡ (err e, v)
    → Sends now childs t ((for_each (c ∷ cs) (place_movable now) >>= λ _. rest) t)
unfolding move_solver
raised-Sends now i c childs cs others rest t v e inside waiting failed =
    subst (Sends now childs t)
      (sym (round_err now c cs rest t v e (place_movable_first now c i others t waiting ∙ failed)))
      (subst (λ l. Sent now childs l t (err e) v) (sym waiting)
        (raised i c others e t v inside failed))

-- A round whose first move succeeds
sent-Sends :
    (now i c : ℕ) (childs cs others : List ℕ) (rest : Exec Turn (Unit {0})) (t v : Turn)
    → Memᴰ c childs
    → t.movable_solvers ≡ i ∷ others
    → move_solver now c i (record t { movable_solvers = others }) ≡ (ok tt, v)
    → Sends now childs v ((for_each cs (place_movable now) >>= λ _. rest) v)
    → Sends now childs t ((for_each (c ∷ cs) (place_movable now) >>= λ _. rest) t)
unfolding move_solver
sent-Sends now i c childs cs others rest t v inside waiting moved later =
    let kept = move_solver-kept now c i (record t { movable_solvers = others }) v moved in
    let after = (for_each cs (place_movable now) >>= λ _. rest) v in
    subst (Sends now childs t)
      (sym (round_ok now c cs rest t v (place_movable_first now c i others t waiting ∙ moved)))
      (subst (λ l. Sent now childs l t after.0 after.1) (sym waiting)
        (sent i c others t v after.1 after.0 inside moved
          (subst (λ l. Sent now childs l v after.0 after.1) kept.0 later)))

-- One round over partitions `cs`, and what follows it.
round-Sends :
    (p now k : ℕ) (childs cs : List ℕ) (rest : Exec Turn (Unit {0})) (t : Turn)
    → ((n : ℕ) → Memᴰ n cs → Memᴰ n childs)
    → length t.movable_solvers ≤ k + length cs
    → Open p childs t
    → ((u : Turn) → length u.movable_solvers ≤ k → Open p childs u → Sends now childs u (rest u))
    → Sends now childs t ((for_each cs (place_movable now) >>= λ _. rest) t)
unfolding for_each ◌>>=◌ pure reads
round-Sends p now k childs [] rest t inside few opened later = later t (omega arith) opened
round-Sends p now k childs (c ∷ cs) rest t inside few opened later =
    elim (List-cases t.movable_solvers) [
      | inl empty ↦
          subst (Sends now childs t)
            (sym (round_ok now c cs rest t t (place_movable_idle now c t empty)))
            (round-Sends p now k childs cs rest t (λ n m. inside n (Memᴰ.tail m))
              (omega (arith, ap length empty)) opened later)
      | inr (i, others, waiting) ↦
          let t0 : Turn = record t { movable_solvers = others } in
          elim (run_cases (move_solver now c i t0)) [
            | inl (e, v, failed) ↦
                raised-Sends now i c childs cs others rest t v e (inside c (Memᴰ.head refl)) waiting
                  failed
            | inr (v, moved) ↦
                let kept = move_solver-kept now c i t0 v moved in
                sent-Sends now i c childs cs others rest t v (inside c (Memᴰ.head refl)) waiting
                  moved
                  (round-Sends p now k childs cs rest v (λ n m. inside n (Memᴰ.tail m))
                    (omega (arith, ap length kept.0, ap length waiting)) (kept.1 p ∙ opened) later)
          ]
    ]

none_wait :
    (now : ℕ) (childs : List ℕ) (t : Turn) (run : Result (Unit {0}) × Turn)
    → t.movable_solvers ≡ []
    → run ≡ (ok tt, t)
    → Sends now childs t run
none_wait now childs t run empty e =
    subst (Sends now childs t) (sym e)
      (subst (λ l. Sent now childs l t (ok tt) t) (sym empty) (all_sent t empty))

ended :
    (fuel p now : ℕ) (t : Turn) → t.movable_solvers ≡ [] → place_rounds fuel p now t ≡ (ok tt, t)
unfolding place_rounds ◌>>=◌ reads pure
ended zero p now t empty = simp (empty, place_rounds)
ended (suc f) p now t empty = simp (empty, place_rounds)

round :
    (f p now : ℕ) (t : Turn) (i : ℕ) (rest childs : List ℕ)
    → t.movable_solvers ≡ i ∷ rest
    → childeren t.server.world.tree t.server.world.marks.status p ≡ ok childs
    → place_rounds (suc f) p now t
      ≡ (for_each childs (place_movable now) >>= λ _. place_rounds f p now) t
unfolding place_rounds ◌>>=◌ reads
round f p now t i rest childs waiting opened = simp (waiting, opened, place_rounds)

-- If some partition of `p` is open, then within as many rounds as solvers wait, the loop sends every
-- solver that waits, in their order, one incremental message to one of the open partitions of `p`; it
-- ends when no solver waits, or with the exception that sending one of them raises.
pub place_rounds-Sends :
    (fuel p now : ℕ) (t : Turn) (c : ℕ) (cs : List ℕ)
    → length t.movable_solvers ≤ fuel
    → childeren t.server.world.tree t.server.world.marks.status p ≡ ok (c ∷ cs)
    → Sends now (c ∷ cs) t (place_rounds fuel p now t)
unfolding place_rounds ◌>>=◌ reads pure
place_rounds-Sends zero p now t c cs le opened = elim (List-cases t.movable_solvers) [
  | inl empty ↦ none_wait now (c ∷ cs) t _ empty (ended 0 p now t empty)
  | inr (i, rest, waiting) ↦ absurd (omega (arith, ap length waiting))
]
place_rounds-Sends (suc f) p now t c cs le opened = elim (List-cases t.movable_solvers) [
  | inl empty ↦ none_wait now (c ∷ cs) t _ empty (ended (suc f) p now t empty)
  | inr (i, rest, waiting) ↦
      subst (Sends now (c ∷ cs) t) (sym (round f p now t i rest (c ∷ cs) waiting opened)) (
        round-Sends p now f (c ∷ cs) (c ∷ cs) (place_rounds f p now) t (λ n m. m) (omega arith)
          opened λ u le' opened'. place_rounds-Sends f p now u c cs le' opened')
]
