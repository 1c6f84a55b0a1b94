-- ===== src/Tree/Status/Closing.antt =====
-- What an unsat report leaves behind: every AND node of the subtree is closed.
use mathlib.Core.List.Memᴰ
use smts.Prelude.{
  ℕ, zero, suc, ◌≡◌, ◌≢◌, refl, subst, ◌⊎◌, inl, inr, Bool, true, false, List, [], ◌∷◌, arith,
  Option-cases, ==_self,
}
use smts.Tree.Defs.{Tree, SolveStatus, unknown, sat, unsat, is_and, update}
use smts.Tree.Walk.{all}
use smts.Tree.Shape.{IsForest, Below}
use smts.Tree.Subtree.{mem-all_iff}
use smts.Tree.Status.{next_up, set_within, set_status, close_one, close_unsat, report}
use smts.Tree.Status.Moves.{set_within-stop, set_within-go}
use smts.Tree.Status.Meaning.{Agrees, IsSound, IsPartitioned, report-IsSound, Below-unsat}

-- An assignment gives a node the new status or leaves it alone.
set_within_cases :
    (f : ℕ) (t : Tree) (st : ℕ → SolveStatus) (n : ℕ) (s : SolveStatus) (m : ℕ)
    → (set_within f t st n s m ≡ s) ⊎ (set_within f t st n s m ≡ st m)
unfolding set_within
set_within_cases zero t st n s m = inr refl
set_within_cases (suc f) t st n s m = elim (Option-cases (next_up t (update st n s) n s)) [
  | inl stop ↦ rw (set_within-stop f t st n s stop) (ground arith)
  | inr (p, go) ↦
      rw (set_within-go f t st n p s go)
        (ground (arith, set_within_cases f t (update st n s) p s m))
]

pub set_status_cases :
    (t : Tree) (st : ℕ → SolveStatus) (n : ℕ) (s : SolveStatus) (m : ℕ)
    → (set_status t st n s m ≡ s) ⊎ (set_status t st n s m ≡ st m)
unfolding set_status
set_status_cases t st n s m = set_within_cases (suc n) t st n s m

pub set_status_self :
    (t : Tree) (st : ℕ → SolveStatus) (n : ℕ) (s : SolveStatus) → set_status t st n s n ≡ s
unfolding set_status
set_status_self t st n s = elim (Option-cases (next_up t (update st n s) n s)) [
  | inl stop ↦ rw (set_within-stop n t st n s stop) (rw (==_self n))
  | inr (p, go) ↦
      rw (set_within-go n t st n p s go)
        (ground (arith, set_within_cases n t (update st n s) p s n, ==_self n))
]

-- What is not unknown stays so while the subtree is closed.
close_one_keeps :
    (t : Tree) (st : ℕ → SolveStatus) (c m : ℕ) → st m ≢ unknown → close_one t st c m ≢ unknown
unfolding close_one
close_one_keeps t st c m h = ground (arith, set_status_cases t st c unsat m)

close_one_self :
    (t : Tree) (st : ℕ → SolveStatus) (c : ℕ)
    → is_and (t.class c) ≡ true
    → close_one t st c c ≢ unknown
unfolding close_one
close_one_self t st c a = ground (arith, set_status_self t st c unsat)

close_unsat_keeps :
    (t : Tree) (st : ℕ → SolveStatus) (cs : List ℕ) (m : ℕ)
    → st m ≢ unknown
    → close_unsat t st cs m ≢ unknown
unfolding close_unsat
close_unsat_keeps t st [] m h = h
close_unsat_keeps t st (c ∷ cs) m h =
    close_unsat_keeps t (close_one t st c) cs m (close_one_keeps t st c m h)

close_unsat_all :
    (t : Tree) (st : ℕ → SolveStatus) (cs : List ℕ) {m : ℕ}
    → Memᴰ.Memᴰ m cs
    → is_and (t.class m) ≡ true
    → close_unsat t st cs m ≢ unknown
unfolding close_unsat
close_unsat_all t st [] k a = elim k [ ]
close_unsat_all t st (c ∷ cs) {m} (Memᴰ.head e) a =
    close_unsat_keeps t (close_one t st c) cs m
      (subst (λ x. close_one t st x m ≢ unknown) e (close_one_self t st m a))
close_unsat_all t st (c ∷ cs) (Memᴰ.tail k) a = close_unsat_all t (close_one t st c) cs k a

-- After an unsat report no AND node of the subtree is unknown.
pub report_unsat_closes :
    (t : Tree) (st : ℕ → SolveStatus) (n m : ℕ)
    → IsForest t
    → Below t n m
    → is_and (t.class m) ≡ true
    → report t st n unsat m ≢ unknown
unfolding report
report_unsat_closes t st n m w b a =
    close_unsat_all t (set_status t st n unsat) (all t n) ((mem-all_iff t n m w).1 b) a

decided : (s : SolveStatus) (b : Bool) → Agrees s b → b ≡ false → s ≢ unknown → s ≡ unsat
decided unknown b a e h = absurd (h refl)
decided sat b a e h = cc
decided unsat b a e h = refl

-- In a sound tree a right unsat report makes every AND node of the subtree unsat.
pub report_unsat_all :
    (t : Tree) (truth : ℕ → Bool) (st : ℕ → SolveStatus) (n m : ℕ)
    → IsForest t
    → IsPartitioned t truth
    → IsSound truth st
    → truth n ≡ false
    → Below t n m
    → is_and (t.class m) ≡ true
    → report t st n unsat m ≡ unsat
report_unsat_all t truth st n m w laws h u b a =
    decided (report t st n unsat m) (truth m) (report-IsSound t truth st n unsat w laws h u m)
      (Below-unsat laws w b u) (report_unsat_closes t st n m w b a)
