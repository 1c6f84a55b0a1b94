-- ===== src/Server/Partition/Outcome.antt =====
-- What a call of `partition` does.
use smts.Prelude.{
  ℕ, zero, suc, ◌≡◌, refl, sym, subst, ◌⊎◌, inl, inr, Bool, true, false, none, some, List, [], ◌∷◌,
  if◌then◌else◌, Memᴰ, ok, err, Result, length, ◌-◌,
}
use smts.Tree.Walk
use smts.World.Effects.{Exec, pure, reads, proceed, ◌>>=◌}
use smts.World.Objects.{World}
use smts.Solver.{ask_partitions}
use smts.Server.{Connection, solvers, with_node, level_children}
use smts.Server.Partition.{is_due, ask_first, ask_rounds, partition}

-- One of the solvers `is` is due, or need not be, and was asked for the partitions of the next level.
abbrev pub Asks : World → Bool → ℕ → List ℕ → ℕ → World → Type 0
Asks w force level is now v =
    (i : ℕ) × (count : ℕ) × Memᴰ i is
    × ((force ≡ true) ⊎ (is_due (w.solvers i).started w.config.partition_timeout now ≡ ok true))
    × (level_children w.config.partition_policy (suc level) ≡ ok count)
    × (v ≡ (ask_partitions i count none w).1)

-- Whether solver `i` need not be due, or is.
abbrev pub due_now : World → Bool → ℕ → ℕ → Result Bool
due_now w force now i =
    if force then ok true else is_due (w.solvers i).started w.config.partition_timeout now

-- None of the solvers `is` is due.
abbrev pub Nobody : World → Bool → List ℕ → ℕ → Type 0
Nobody w force is now = (i : ℕ) → Memᴰ i is → due_now w force now i ≡ ok false

-- The three ways to end: nobody was asked, for the reason `Q`; one solver was asked; an exception.
abbrev pub Outcome : Type 0 → World → Bool → ℕ → List ℕ → ℕ → Result Bool × World → Type 0
Outcome Q w force level is now (ok false, v) = (v ≡ w) × Q
Outcome Q w force level is now (ok true, v) = Asks w force level is now v
Outcome Q w force level is now (err e, v) = (v ≡ w) ⊎ Asks w force level is now v

Asks-cons :
    (w : World) (force : Bool) (level i : ℕ) (is : List ℕ) (now : ℕ) (v : World)
    → Asks w force level is now v
    → Asks w force level (i ∷ is) now v
Asks-cons w force level i is now v (j, count, m, due, c, e) = (j, count, Memᴰ.tail m, due, c, e)

Nobody-cons :
    (w : World) (force : Bool) (i : ℕ) (is : List ℕ) (now : ℕ)
    → due_now w force now i ≡ ok false
    → Nobody w force is now
    → Nobody w force (i ∷ is) now
Nobody-cons w force i is now d h j (Memᴰ.head e) =
    subst (λ k. due_now w force now k ≡ ok false) (sym e) d
Nobody-cons w force i is now d h j (Memᴰ.tail m) = h j m

Outcome-cons :
    (w : World) (force : Bool) (level i : ℕ) (is : List ℕ) (now : ℕ) (r : Result Bool) (v : World)
    → due_now w force now i ≡ ok false
    → Outcome (Nobody w force is now) w force level is now (r, v)
    → Outcome (Nobody w force (i ∷ is) now) w force level (i ∷ is) now (r, v)
Outcome-cons w force level i is now (ok false) v d h = (h.0, Nobody-cons w force i is now d h.1)
Outcome-cons w force level i is now (ok true) v d h = Asks-cons w force level i is now v h
Outcome-cons w force level i is now (err e) v d (inl h) = inl h
Outcome-cons w force level i is now (err e) v d (inr h) = inr (Asks-cons w force level i is now v h)

-- The end of a call of `ask_partitions`, after which nothing follows.
asked-Outcome :
    (Q : Type 0) (w : World) (force : Bool) (level i count : ℕ) (is : List ℕ) (now : ℕ)
    (r : Result (Unit {0}))
    → Asks w force level is now (ask_partitions i count none w).1
    → Outcome Q w force level is now (proceed r (λ _. pure true) (ask_partitions i count none w).1)
unfolding pure reads
asked-Outcome Q w force level i count is now (err e) h = inr h
asked-Outcome Q w force level i count is now (ok u) h = h

due_now-true :
    (force : Bool) (r : Result Bool)
    → (if force then ok true else r) ≡ ok true
    → (force ≡ true) ⊎ (r ≡ ok true)
due_now-true true r e = inl refl
due_now-true false r e = inr e

ask_first-Outcome :
    (w : World) (force : Bool) (level : ℕ) (is : List ℕ) (now : ℕ)
    → Outcome (Nobody w force is now) w force level is now (ask_first force level is now w)
unfolding ask_first ◌>>=◌ pure reads
ask_first-Outcome w force level [] now = (refl, λ i m. elim m [ ])
ask_first-Outcome w force level (i ∷ is) now =
    tested (due_now w force now i) (level_children w.config.partition_policy (suc level)) refl refl
      (ask_first-Outcome w force level is now)
  where
    tested :
        (due : Result Bool) (count : Result ℕ)
        → due_now w force now i ≡ due
        → level_children w.config.partition_policy (suc level) ≡ count
        → Outcome (Nobody w force is now) w force level is now (ask_first force level is now w)
        → Outcome
            (Nobody w force (i ∷ is) now)
            w
            force
            level
            (i ∷ is)
            now
            (ask_first force level (i ∷ is) now w)
    tested (err e) count d c rest = rw (d, ask_first) (inl refl)
    tested (ok false) count d c rest =
        rw (d, ask_first) (Outcome-cons w force level i is now _ _ d rest)
    tested (ok true) (err e) d c rest = rw (d, c, ask_first) (inl refl)
    tested (ok true) (ok count) d c rest =
        rw (d, c, ask_first)
          (asked-Outcome _ w force level i count (i ∷ is) now _
            (i, count, Memᴰ.head refl, due_now-true force _ d, c, refl))

-- Why nobody is asked: no partition is missing, or no solver of the node is due.
abbrev pub Rests : World → Bool → List ℕ → ℕ → ℕ → Type 0
Rests w force is now k = (k ≡ 0) ⊎ Nobody w force is now

Outcome-map :
    (Q Q' : Type 0) (w : World) (force : Bool) (level : ℕ) (is : List ℕ) (now : ℕ) (r : Result Bool)
    (v : World)
    → (Q → Q')
    → Outcome Q w force level is now (r, v)
    → Outcome Q' w force level is now (r, v)
Outcome-map Q Q' w force level is now (ok false) v f (same, q) = (same, f q)
Outcome-map Q Q' w force level is now (ok true) v f h = h
Outcome-map Q Q' w force level is now (err e) v f h = h

-- A round in which nobody was asked, and the rounds behind it.
round_end :
    (k : ℕ) (w : World) (force : Bool) (level : ℕ) (is : List ℕ) (now : ℕ) (rest : Exec World Bool)
    (r : Result Bool) (v : World)
    → Outcome (Nobody w force is now) w force level is now (r, v)
    → Outcome (Rests w force is now k) w force level is now (rest w)
    → Outcome
        (Rests w force is now (suc k))
        w
        force
        level
        is
        now
        (proceed r (λ asked. elim asked [ true ↦ pure true | false ↦ rest ]) v)
unfolding pure reads
round_end k w force level is now rest (err e) v h later = h
round_end k w force level is now rest (ok true) v h later = h
round_end k w force level is now rest (ok false) v (same, q) later =
    subst (λ u. Outcome (Rests w force is now (suc k)) w force level is now (rest u)) (sym same)
      (Outcome-map _ _ w force level is now (rest w).0 (rest w).1 (λ _. inr q) later)

ask_rounds-Outcome :
    (k : ℕ) (rlist : List Connection) (n : ℕ) (w : World) (force : Bool) (level now : ℕ)
    → Outcome
        (Rests w force (solvers rlist w.solvers (with_node (some n))) now k)
        w
        force
        level
        (solvers rlist w.solvers (with_node (some n)))
        now
        (ask_rounds k rlist n force level now w)
unfolding ask_rounds ◌>>=◌ pure reads
ask_rounds-Outcome zero rlist n w force level now = (refl, inl refl)
ask_rounds-Outcome (suc k) rlist n w force level now =
    let is = solvers rlist w.solvers (with_node (some n)) in
    round_end k w force level is now (ask_rounds k rlist n force level now) _ _
      (ask_first-Outcome w force level is now) (ask_rounds-Outcome k rlist n w force level now)

-- `partition` on a node at the given level, under a policy that says how many children it should get:
-- if it returns True, it has asked exactly one solver of the node, which is due or need not be,
-- for as many partitions as the policy says for the next level, and has done nothing else. If it
-- returns False, nothing has changed, and either no child is missing or none of the node's solvers
-- is due. If it raises, nothing has changed or one such solver was asked.
pub partition-Outcome :
    (rlist : List Connection) (n : ℕ) (w : World) (force : Bool) (level children now : ℕ)
    → Walk.level w.tree n ≡ ok level
    → level_children w.config.partition_policy level ≡ ok children
    → Outcome
        (Rests w force
          (solvers rlist w.solvers (with_node (some n)))
          now
          (children - length (w.tree.children n)))
        w
        force
        level
        (solvers rlist w.solvers (with_node (some n)))
        now
        (partition rlist n force now w)
unfolding partition ◌>>=◌ reads
partition-Outcome rlist n w force level children now at_level policy =
    rw (at_level, policy, partition)
      (ask_rounds-Outcome (children - length (w.tree.children n)) rlist n w force level now)
