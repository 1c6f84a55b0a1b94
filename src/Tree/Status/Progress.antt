-- ===== src/Tree/Status/Progress.antt =====
-- No result gets stuck: what the statuses below an OR node decide is recorded.
use smts.Prelude.{
  ℕ, zero, suc, ◌<◌, ◌≡◌, ◌≢◌, refl, sym, subst, inl, inr, true, List, [], ◌∷◌, arith, Bool-cases,
  Option-cases, ◌&&◌, all_of, nonempty,
}
use smts.Tree.Defs.{Tree, SolveStatus, unknown, sat, unsat, is_and, update, no_marks}
use smts.Tree.Walk.{all}
use smts.Tree.Shape.{IsForest, IsAttached}
use smts.Tree.Status.{same_status, next_up, set_within, set_status, close_one, close_unsat, report}
use smts.Tree.Status.Moves.{set_within-stop, set_within-go, next_up-parent}
use smts.Tree.Status.Pending.{
  IsPropagated, IsPending, IsDue, pending_stop, IsPending-go, IsDue-go, parent-IsAttached,
}

module _ {t : Tree} (w : IsForest t) where
  set_within-IsPropagated :
      (f : ℕ) (st : ℕ → SolveStatus) (n : ℕ) (s : SolveStatus)
      → s ≢ unknown
      → n < f
      → (s ≡ sat → IsAttached t n)
      → IsPending t st n
      → IsDue t st n s
      → IsPropagated t (set_within f t st n s)
  set_within-IsPropagated zero st n s k fits at h due = absurd (omega arith)
  set_within-IsPropagated (suc f) st n s k fits at h due =
      elim (Option-cases (next_up t (update st n s) n s)) [
        | inl stop ↦
            subst (IsPropagated t) (sym (set_within-stop f t st n s stop))
              (pending_stop w st n s k h stop)
        | inr (p, go) ↦
            let up = next_up-parent t (update st n s) n p s go in
            subst (IsPropagated t) (sym (set_within-go f t st n p s go)) (
              set_within-IsPropagated f (update st n s) p s k (omega (arith, w.parent_lt n p up))
                (λ is_sat. parent-IsAttached w n p up (at is_sat))
                (IsPending-go w st n p s k h due up)
                (IsDue-go w (update st n s) n p s k up at (ground arith) go))
      ]

  set_status-IsPropagated :
      (st : ℕ → SolveStatus) (n : ℕ) (s : SolveStatus)
      → s ≢ unknown
      → is_and (t.class n) ≡ true
      → (s ≡ sat → IsAttached t n)
      → IsPropagated t st
      → IsPropagated t (set_status t st n s)
  unfolding set_status
  set_status-IsPropagated st n s k and at h =
      set_within-IsPropagated (suc n) st n s k (omega arith) at
        (record {
          any_sat = λ o c or m e _ _. h.any_sat o c or m e;
          all_unsat = λ o or c e _ _. h.all_unsat o or c e;
          upward = λ o p or up e _ _. h.upward o p or up e;
        })
        (record { sat_child = λ c or m e. absurd (cc); unsat_children = λ or c e. absurd (cc) })

  close_unsat-IsPropagated :
      (st : ℕ → SolveStatus) (cs : List ℕ)
      → IsPropagated t st
      → IsPropagated t (close_unsat t st cs)
  unfolding close_unsat close_one
  close_unsat-IsPropagated st [] h = h
  close_unsat-IsPropagated st (c ∷ cs) h =
      close_unsat-IsPropagated (close_one t st c) cs
        (elim (Bool-cases (same_status (st c) unknown && is_and (t.class c))) [
          | inl waits ↦ rw waits (
              set_status-IsPropagated st c unsat (λ e. cc) (ground (arith, waits))
                (λ e. absurd (cc)) h)
          | inr done ↦ rw done h
        ])

-- After `sat` or `unsat` is reported for an AND node that stands in the tree, what the children of
-- the OR nodes decide is recorded, if it was before: an OR node with a sat child is sat, one with
-- children that are all unsat is unsat, and the parent of an OR node with a result has a result.
pub report-IsPropagated :
    (t : Tree) (st : ℕ → SolveStatus) (n : ℕ) (s : SolveStatus)
    → IsForest t
    → s ≢ unknown
    → is_and (t.class n) ≡ true
    → IsAttached t n
    → IsPropagated t st
    → IsPropagated t (report t st n s)
unfolding report
report-IsPropagated t st n unknown w k and at h = absurd (k refl)
report-IsPropagated t st n sat w k and at h = set_status-IsPropagated w st n sat k and (λ _. at) h
report-IsPropagated t st n unsat w k and at h =
    close_unsat-IsPropagated w (set_status t st n unsat) (all t n)
      (set_status-IsPropagated w st n unsat k and (λ _. at) h)

-- Where nothing is known yet, nothing is stuck.
all_unknown :
    (cs : List ℕ)
    → nonempty cs ≡ true
    → all_of (λ c. same_status (no_marks.status c) unsat) cs ≢ true
unfolding all_of
all_unknown [] h = cc
all_unknown (c ∷ cs) h = λ e. cc

pub no_marks-IsPropagated : (t : Tree) → IsPropagated t no_marks.status
no_marks-IsPropagated t = record {
  any_sat = λ o c or m e. cc;
  all_unsat = λ o or some_child e. absurd (all_unknown (t.children o) some_child e);
  upward = λ o p or up h. absurd (h refl);
}
