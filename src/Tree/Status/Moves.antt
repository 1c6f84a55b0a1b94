-- ===== src/Tree/Status/Moves.antt =====
-- The rounds of `_set_status`: where the status goes next, and that the fuel never runs out.
use smts.Prelude.{ℕ, zero, suc, ◌<◌, ◌≡◌, sym, ◌∙◌, true, none, some, arith, Option-cases, inl, inr}
use smts.Tree.Defs.{Tree, SolveStatus, unknown, sat, unsat, update}
use smts.Tree.Shape.{IsForest}
use smts.Tree.Status.{same_status, next_up, set_within, set_status}

pub same_status-eq : (a b : SolveStatus) → same_status a b ≡ true → a ≡ b
same_status-eq unknown b e = ground arith
same_status-eq sat b e = ground arith
same_status-eq unsat b e = ground arith

-- The status moves only to the parent.
pub next_up-parent :
    (t : Tree) (st : ℕ → SolveStatus) (n p : ℕ) (s : SolveStatus)
    → next_up t st n s ≡ some p
    → t.parent n ≡ some p
unfolding next_up
next_up-parent t st n p s e = ground arith

module _ (f : ℕ) (t : Tree) (st : ℕ → SolveStatus) (n : ℕ) where
  pub set_within-stop :
      (s : SolveStatus)
      → next_up t (update st n s) n s ≡ none
      → set_within (suc f) t st n s ≡ update st n s
  unfolding set_within
  set_within-stop s e = rw (e, set_within)

  pub set_within-go :
      (p : ℕ) (s : SolveStatus)
      → next_up t (update st n s) n s ≡ some p
      → set_within (suc f) t st n s ≡ set_within f t (update st n s) p s
  unfolding set_within
  set_within-go p s e = rw (e, set_within)

-- Any fuel above the number of the node gives the same statuses.
set_within-fuel :
    (f g : ℕ) (t : Tree) (st : ℕ → SolveStatus) (n : ℕ) (s : SolveStatus)
    → IsForest t
    → n < f
    → n < g
    → set_within f t st n s ≡ set_within g t st n s
set_within-fuel zero g t st n s w h k = absurd (omega arith)
set_within-fuel (suc f) zero t st n s w h k = absurd (omega arith)
set_within-fuel (suc f) (suc g) t st n s w h k =
    elim (Option-cases (next_up t (update st n s) n s)) [
      | inl stop ↦ set_within-stop f t st n s stop ∙ sym (set_within-stop g t st n s stop)
      | inr (p, go) ↦
          let older : p < n = w.parent_lt n p (next_up-parent t (update st n s) n p s go) in
          set_within-go f t st n p s go
          ∙ set_within-fuel f g t (update st n s) p s w (omega arith) (omega arith)
          ∙ sym (set_within-go g t st n p s go)
    ]

-- One round, without the fuel.
pub set_status-unfold :
    (t : Tree) (st : ℕ → SolveStatus) (n : ℕ) (s : SolveStatus)
    → IsForest t
    → (next_up t (update st n s) n s ≡ none → set_status t st n s ≡ update st n s)
      × ((p : ℕ)
          → next_up t (update st n s) n s ≡ some p
          → set_status t st n s ≡ set_status t (update st n s) p s)
unfolding set_status
set_status-unfold t st n s w = (
  set_within-stop n t st n s,
  λ p go.
      let older : p < n = w.parent_lt n p (next_up-parent t (update st n s) n p s go) in
      set_within-go n t st n p s go
      ∙ set_within-fuel n (suc p) t (update st n s) p s w (omega arith) (omega arith),
)
