-- ===== src/Tree/Status/Steps.antt =====
-- `_set_status` as the source's recursion: which node assigns its status to which, and what the
-- statuses are when the recursion is over.
use mathlib.Core.List.Memᴰ
use smts.Prelude.{
  zero, suc, ◌<◌, ℕ, ◌≡◌, refl, sym, subst, ◌∙◌, true, false, some, List, [], ◌∷◌, arith, all_of,
  all_of-mem, Bool-cases, Option-cases, inl, inr,
}
use smts.Tree.Defs.{Tree, SolveStatus, unknown, sat, unsat, is_and, update, live_parent}
use smts.Tree.Shape.{IsForest}
use smts.Tree.Status.{same_status, next_up, set_status}
use smts.Tree.Status.Moves.{same_status-eq, next_up-parent, set_status-unfold}

-- With the statuses `st`, of which `s` is that of `n`, `n` assigns its status to `p`: an OR node
-- does to its parent, and an AND node does if the status is sat, or if all children of the parent
-- have it.
pub data Passes (t : Tree) (st : ℕ → SolveStatus) (n : ℕ) (s : SolveStatus) (p : ℕ) : Type 0 where
  or_passes : is_and (t.class n) ≡ false → t.parent n ≡ some p → Passes t st n s p
  sat_passes : is_and (t.class n) ≡ true → live_parent t n ≡ some p → s ≡ sat → Passes t st n s p
  all_pass :
      is_and (t.class n) ≡ true
      → live_parent t n ≡ some p
      → ((c : ℕ) → Memᴰ.Memᴰ c (t.children p) → st c ≡ s)
      → Passes t st n s p

-- The assignment of `s` to `n` ends, and turns the statuses `st` into others.
pub data Assigns (t : Tree) : (ℕ → SolveStatus) → ℕ → SolveStatus → (ℕ → SolveStatus) → Type 0 where
  ends :
      (st : ℕ → SolveStatus) (n : ℕ) (s : SolveStatus)
      → ((p : ℕ) → ¬ Passes t (update st n s) n s p)
      → Assigns t st n s (update st n s)
  goes :
      (st st' : ℕ → SolveStatus) (n p : ℕ) (s : SolveStatus)
      → Passes t (update st n s) n s p
      → Assigns t (update st n s) p s st'
      → Assigns t st n s st'

all_of-same :
    (st : ℕ → SolveStatus) (s : SolveStatus) (cs : List ℕ)
    → ((c : ℕ) → Memᴰ.Memᴰ c cs → st c ≡ s)
    → all_of (λ c. same_status (st c) s) cs ≡ true
unfolding all_of
all_of-same st s [] h = refl
all_of-same st unknown (c ∷ cs) h =
    ground (arith, h c (Memᴰ.head refl), all_of-same st unknown cs (λ d m. h d (Memᴰ.tail m)))
all_of-same st sat (c ∷ cs) h =
    ground (arith, h c (Memᴰ.head refl), all_of-same st sat cs (λ d m. h d (Memᴰ.tail m)))
all_of-same st unsat (c ∷ cs) h =
    ground (arith, h c (Memᴰ.head refl), all_of-same st unsat cs (λ d m. h d (Memᴰ.tail m)))

-- The rule for one node is the one of the model.
Passes-next_up :
    (t : Tree) (st : ℕ → SolveStatus) (n p : ℕ) (s : SolveStatus)
    → Passes t st n s p
    → next_up t st n s ≡ some p
unfolding next_up
Passes-next_up t st n p s (or_passes c up) = ground (arith, c, up)
Passes-next_up t st n p s (sat_passes c up e) = rw (c, up, e) refl
Passes-next_up t st n p s (all_pass c up same) =
    ground (arith, c, up, all_of-same st s (t.children p) same)

pub next_up-Passes :
    (t : Tree) (st : ℕ → SolveStatus) (n p : ℕ) (s : SolveStatus)
    → next_up t st n s ≡ some p
    → Passes t st n s p
unfolding next_up
next_up-Passes t st n p s e = elim (Bool-cases (is_and (t.class n))) [
  | inr or ↦ or_passes or (ground (arith, or, e))
  | inl and ↦ elim (Bool-cases (same_status s sat)) [
    | inl is_sat ↦ sat_passes and (ground (arith, and, is_sat, e)) (same_status-eq s sat is_sat)
    | inr other ↦ all_pass and (ground (arith, and, other, e)) (λ c m.
        same_status-eq (st c) s
          (all_of-mem (λ x. same_status (st x) s) (t.children p) (ground (arith, and, other, e)) m))
  ]
]

assigned :
    (f : ℕ) (t : Tree) (st : ℕ → SolveStatus) (n : ℕ) (s : SolveStatus)
    → IsForest t
    → n < f
    → Assigns t st n s (set_status t st n s)
assigned zero t st n s w h = absurd (omega arith)
assigned (suc f) t st n s w h =
    let (stop, go) = set_status-unfold t st n s w in
    elim (Option-cases (next_up t (update st n s) n s)) [
      | inl none_next ↦
          subst (Assigns t st n s) (sym (stop none_next))
            (ends st n s λ p passes. cc (none_next, Passes-next_up t (update st n s) n p s passes))
      | inr (p, next) ↦
          let older = w.parent_lt n p (next_up-parent t (update st n s) n p s next) in
          subst (Assigns t st n s) (sym (go p next)) (
            goes st _ n p s (next_up-Passes t (update st n s) n p s next)
              (assigned f t (update st n s) p s w (omega arith)))
    ]

only_assigned :
    (t : Tree) (st st' : ℕ → SolveStatus) (n : ℕ) (s : SolveStatus)
    → IsForest t
    → Assigns t st n s st'
    → st' ≡ set_status t st n s
only_assigned t st _ n s w (ends _ _ _ none_passes) =
    let (stop, go) = set_status-unfold t st n s w in
    elim (Option-cases (next_up t (update st n s) n s)) [
      | inl none_next ↦ sym (stop none_next)
      | inr (p, next) ↦ absurd (none_passes p (next_up-Passes t (update st n s) n p s next))
    ]
only_assigned t st st' n s w (goes _ _ _ p _ passes later) =
    let (stop, go) = set_status-unfold t st n s w in
    only_assigned t (update st n s) st' p s w later
    ∙ sym (go p (Passes-next_up t (update st n s) n p s passes))

-- In a well-formed tree an assignment of a status ends, whatever the statuses are, by the rules of
-- the source: each node that is assigned the status writes it and then assigns it to its parent, an
-- OR node always, an AND node if the parent has children and either the status is sat or all these
-- children have it by then. It ends in exactly one way, with the statuses of `set_status`.
pub set_status-Assigns :
    (t : Tree) (st : ℕ → SolveStatus) (n : ℕ) (s : SolveStatus)
    → IsForest t
    → Assigns t st n s (set_status t st n s)
      × ((st' : ℕ → SolveStatus) → Assigns t st n s st' → st' ≡ set_status t st n s)
set_status-Assigns t st n s w =
    (assigned (suc n) t st n s w (omega arith), λ st' h. only_assigned t st st' n s w h)
