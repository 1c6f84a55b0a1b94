-- ===== src/Tree/Status/Meaning.antt =====
-- Recorded statuses are right: what a node stands for, and that reports of right results keep
-- every recorded status right.
use mathlib.Core.List.Memᴰ
use smts.Prelude.{
  ℕ, zero, suc, ◌≡◌, refl, sym, subst, inl, inr, Bool, true, false, some, List, [], ◌∷◌, arith,
  nonempty, all_of-mem, Bool-cases, Option-cases, ◌==◌, ==_iff, ◌&&◌,
}
use smts.Tree.Defs.{Tree, SolveStatus, unknown, sat, unsat, is_and, update}
use smts.Tree.Walk.{all}
use smts.Tree.Shape.{IsForest, Below, here, down}
use smts.Tree.Subtree.{mem-all_iff}
use smts.Tree.Status.Moves.{same_status-eq, next_up-parent, set_within-stop, set_within-go}
use smts.Tree.Status.{same_status, next_up, set_within, set_status, close_one, close_unsat, report}

-- What the solvers guarantee of the partitions that they send: `truth n` is whether the formula of
-- `n` is satisfiable. An OR node stands for its parent's formula; a partition implies the formula
-- that it was made from; if all partitions of a received set are unsatisfiable, so is the formula.
pub record IsPartitioned (t : Tree) (truth : ℕ → Bool) : Type 0 where
  pub split : (o p : ℕ) → is_and (t.class o) ≡ false → t.parent o ≡ some p → truth o ≡ truth p
  pub strengthen :
      (n p : ℕ) → is_and (t.class n) ≡ true → t.parent n ≡ some p → truth n ≡ true → truth p ≡ true
  pub cover :
      (p : ℕ)
      → is_and (t.class p) ≡ false
      → nonempty (t.children p) ≡ true
      → ((c : ℕ) → Memᴰ.Memᴰ c (t.children p) → truth c ≡ false)
      → truth p ≡ false

-- A status says nothing, or the truth.
abbrev pub Agrees : SolveStatus → Bool → Type 0
Agrees unknown b = Unit
Agrees sat b = b ≡ true
Agrees unsat b = b ≡ false

abbrev pub IsSound : (ℕ → Bool) → (ℕ → SolveStatus) → Type 0
IsSound truth st = (n : ℕ) → Agrees (st n) (truth n)

module _ {t : Tree} {truth : ℕ → Bool} (laws : IsPartitioned t truth) (w : IsForest t) where
  update-IsSound :
      (st : ℕ → SolveStatus) (n : ℕ) (s : SolveStatus)
      → IsSound truth st
      → Agrees s (truth n)
      → IsSound truth (update st n s)
  update-IsSound st n s h a m = elim (Bool-cases (n == m)) [
    | inl same ↦ rw same (subst (λ k. Agrees s (truth k)) ((==_iff n m).0 same) a)
    | inr other ↦ rw other (h m)
  ]

  -- The step to the next node is right for that node.
  next_up-Agrees :
      (st : ℕ → SolveStatus) (n p : ℕ) (s : SolveStatus)
      → next_up t st n s ≡ some p
      → IsSound truth st
      → Agrees s (truth n)
      → Agrees s (truth p)
  unfolding next_up
  next_up-Agrees st n p unknown e h a = tt
  next_up-Agrees st n p sat e h a = ground (arith, laws.split n p, laws.strengthen n p)
  next_up-Agrees st n p unsat e h a = elim (Bool-cases (is_and (t.class n))) [
    | inr or ↦ ground (arith, laws.split n p)
    | inl and ↦
        laws.cover p (ground (arith, w.alternate n p, next_up-parent t st n p unsat e))
          (ground arith)
          (λ c m.
            subst (λ x. Agrees x (truth c))
              (same_status-eq (st c) unsat
                (all_of-mem (λ x. same_status (st x) unsat) (t.children p) (ground arith) m))
              (h c))
  ]

  set_within-IsSound :
      (f : ℕ) (st : ℕ → SolveStatus) (n : ℕ) (s : SolveStatus)
      → IsSound truth st
      → Agrees s (truth n)
      → IsSound truth (set_within f t st n s)
  unfolding set_within
  set_within-IsSound zero st n s h a = h
  set_within-IsSound (suc f) st n s h a =
      let h' : IsSound truth (update st n s) = update-IsSound st n s h a in
      elim (Option-cases (next_up t (update st n s) n s)) [
        | inl stop ↦ subst (IsSound truth) (sym (set_within-stop f t st n s stop)) h'
        | inr (p, go) ↦ subst (IsSound truth) (sym (set_within-go f t st n p s go)) (
            set_within-IsSound f (update st n s) p s h'
              (next_up-Agrees (update st n s) n p s go h' a))
      ]

  set_status-IsSound :
      (st : ℕ → SolveStatus) (n : ℕ) (s : SolveStatus)
      → IsSound truth st
      → Agrees s (truth n)
      → IsSound truth (set_status t st n s)
  unfolding set_status
  set_status-IsSound st n s h a = set_within-IsSound (suc n) st n s h a

  -- Below an unsatisfiable node every node is.
  pub Below-unsat : {n m : ℕ} → Below t n m → truth n ≡ false → truth m ≡ false
  Below-unsat here u = u
  Below-unsat (down {p} {n = m} b e k) u = elim (Bool-cases (is_and (t.class m))) [
    | inl and ↦ ground (arith, laws.strengthen m p, Below-unsat b u)
    | inr or ↦ ground (arith, laws.split m p, Below-unsat b u)
  ]

  close_one-IsSound :
      (st : ℕ → SolveStatus) (c : ℕ)
      → truth c ≡ false
      → IsSound truth st
      → IsSound truth (close_one t st c)
  unfolding close_one
  close_one-IsSound st c u h =
      elim (Bool-cases (same_status (st c) unknown && is_and (t.class c))) [
        | inl waits ↦ rw waits (set_status-IsSound st c unsat h u)
        | inr done ↦ rw done h
      ]

  close_unsat-IsSound :
      (st : ℕ → SolveStatus) (cs : List ℕ)
      → ((c : ℕ) → Memᴰ.Memᴰ c cs → truth c ≡ false)
      → IsSound truth st
      → IsSound truth (close_unsat t st cs)
  unfolding close_unsat
  close_unsat-IsSound st [] u h = h
  close_unsat-IsSound st (c ∷ cs) u h =
      close_unsat-IsSound (close_one t st c) cs (λ d m. u d (Memᴰ.tail m))
        (close_one-IsSound st c (u c (Memᴰ.head refl)) h)

-- If the partitions are right and a right result is reported, every recorded status stays right.
pub report-IsSound :
    (t : Tree) (truth : ℕ → Bool) (st : ℕ → SolveStatus) (n : ℕ) (s : SolveStatus)
    → IsForest t
    → IsPartitioned t truth
    → IsSound truth st
    → Agrees s (truth n)
    → IsSound truth (report t st n s)
unfolding report
report-IsSound t truth st n unknown w laws h a = set_status-IsSound laws w st n unknown h a
report-IsSound t truth st n sat w laws h a = set_status-IsSound laws w st n sat h a
report-IsSound t truth st n unsat w laws h a =
    close_unsat-IsSound laws w (set_status t st n unsat) (all t n)
      (λ c m. Below-unsat laws w ((mem-all_iff t n c w).0 m) a)
      (set_status-IsSound laws w st n unsat h a)
