-- ===== src/Tree/Status/Pending.antt =====
-- What the statuses below an OR node decide, and what is left of it while an assignment moves up.
use mathlib.Core.List.Memᴰ
use smts.Prelude.{
  all_of-mem, ℕ, ◌≡◌, ◌≢◌, refl, sym, subst, ◌∙◌, ◌⊎◌, inl, inr, true, false, Option, none, some,
  List, [], ◌∷◌, arith, Bool-cases, ◌==◌, all_of, nonempty, nonempty-mem,
}
use smts.Tree.Defs.{Tree, SolveStatus, unknown, sat, unsat, is_and, update}
use smts.Tree.Shape.{IsForest, Below, here, down, IsAttached}
use smts.Tree.Status.{same_status, next_up}
use smts.Tree.Status.Moves.{same_status-eq}
use smts.Tree.Status.Steps.{or_passes, sat_passes, all_pass, next_up-Passes}

-- An OR node with a sat child is sat, one with children that are all unsat is unsat, and the parent
-- of an OR node that has a result has one too.
pub record IsPropagated (t : Tree) (st : ℕ → SolveStatus) : Type 0 where
  pub any_sat :
      (o c : ℕ) → is_and (t.class o) ≡ false → Memᴰ.Memᴰ c (t.children o) → st c ≡ sat → st o ≡ sat
  pub all_unsat :
      (o : ℕ)
      → is_and (t.class o) ≡ false
      → nonempty (t.children o) ≡ true
      → all_of (λ c. same_status (st c) unsat) (t.children o) ≡ true
      → st o ≡ unsat
  pub upward :
      (o p : ℕ) → is_and (t.class o) ≡ false → t.parent o ≡ some p → st o ≢ unknown → st p ≢ unknown

-- The same, but for what the assignment to `n` that is under way still has to settle.
pub record IsPending (t : Tree) (st : ℕ → SolveStatus) (n : ℕ) : Type 0 where
  pub any_sat :
      (o c : ℕ)
      → is_and (t.class o) ≡ false
      → Memᴰ.Memᴰ c (t.children o)
      → st c ≡ sat
      → o ≢ n
      → c ≢ n
      → st o ≡ sat
  pub all_unsat :
      (o : ℕ)
      → is_and (t.class o) ≡ false
      → nonempty (t.children o) ≡ true
      → all_of (λ c. same_status (st c) unsat) (t.children o) ≡ true
      → o ≢ n
      → t.parent n ≢ some o
      → st o ≡ unsat
  pub upward :
      (o p : ℕ)
      → is_and (t.class o) ≡ false
      → t.parent o ≡ some p
      → st o ≢ unknown
      → o ≢ n
      → p ≢ n
      → st p ≢ unknown

-- The status `s` that is about to be assigned to `n` is what the children of an OR node decide.
pub record IsDue (t : Tree) (st : ℕ → SolveStatus) (n : ℕ) (s : SolveStatus) : Type 0 where
  pub sat_child :
      (c : ℕ) → is_and (t.class n) ≡ false → Memᴰ.Memᴰ c (t.children n) → st c ≡ sat → s ≡ sat
  pub unsat_children :
      is_and (t.class n) ≡ false
      → nonempty (t.children n) ≡ true
      → all_of (λ c. same_status (st c) unsat) (t.children n) ≡ true
      → s ≡ unsat

dec_some : (o : Option ℕ) (p : ℕ) → (o ≡ some p) ⊎ (o ≢ some p)
dec_some none p = inr (λ e. cc)
dec_some (some q) p = elim (Bool-cases (q == p)) [
  | inl e ↦ inl (ground arith)
  | inr e ↦ inr (ground arith)
]

dec_eq : (a b : ℕ) → (a ≡ b) ⊎ (a ≢ b)
dec_eq a b = ground arith

all_of-update :
    (st : ℕ → SolveStatus) (n : ℕ) (s : SolveStatus) (cs : List ℕ)
    → ((c : ℕ) → Memᴰ.Memᴰ c cs → c ≢ n)
    → all_of (λ c. same_status (update st n s c) unsat) cs
      ≡ all_of (λ c. same_status (st c) unsat) cs
unfolding all_of
all_of-update st n s [] h = refl
all_of-update st n s (c ∷ cs) h =
    ground (arith, h c (Memᴰ.head refl), all_of-update st n s cs (λ d m. h d (Memᴰ.tail m)))

sat_unsat : sat ≢ unsat
sat_unsat e = cc

-- Children that all have a status and are all unsat
unsat_first :
    {st : ℕ → SolveStatus} {s : SolveStatus} (cs : List ℕ)
    → nonempty cs ≡ true
    → ((c : ℕ) → Memᴰ.Memᴰ c cs → st c ≡ s)
    → all_of (λ c. same_status (st c) unsat) cs ≡ true
    → s ≡ unsat
unfolding all_of
unsat_first [] h same e = absurd (cc)
unsat_first {st} (c ∷ cs) h same e =
    sym (same c (Memᴰ.head refl)) ∙ same_status-eq (st c) unsat (ground (arith, e))

module _ {t : Tree} (w : IsForest t) where
  -- What `all_unsat` asks of `o` is the same before and after a write to a node elsewhere.
  unsat_elsewhere :
      (st : ℕ → SolveStatus) (n : ℕ) (s : SolveStatus) (o : ℕ)
      → t.parent n ≢ some o
      → all_of (λ c. same_status (update st n s c) unsat) (t.children o) ≡ true
      → all_of (λ c. same_status (st c) unsat) (t.children o) ≡ true
  unsat_elsewhere st n s o far e =
      sym (
        all_of-update st n s (t.children o)
          (λ c m same. far (subst (λ x. t.parent x ≡ some o) same (w.parent_of_child o c m))))
      ∙ e

  -- An assignment that stops is not one that its parent waits for.
  stop_unsat :
      (st : ℕ → SolveStatus) (n o : ℕ) (s : SolveStatus)
      → s ≢ unknown
      → is_and (t.class o) ≡ false
      → nonempty (t.children o) ≡ true
      → t.parent n ≡ some o
      → all_of (λ c. same_status (st c) unsat) (t.children o) ≡ true
      → next_up t st n s ≢ none
  unfolding next_up
  stop_unsat st n o unknown k or c up e = absurd (k refl)
  stop_unsat st n o sat k or c up e = ground (arith, w.alternate n o)
  stop_unsat st n o unsat k or c up e = ground (arith, w.alternate n o)

  stop_sat :
      (st : ℕ → SolveStatus) (n o : ℕ)
      → is_and (t.class o) ≡ false
      → nonempty (t.children o) ≡ true
      → t.parent n ≡ some o
      → next_up t st n sat ≢ none
  unfolding next_up
  stop_sat st n o or c up = ground (arith, w.alternate n o)

  -- An assignment that stops has settled everything.
  pub pending_stop :
      (st : ℕ → SolveStatus) (n : ℕ) (s : SolveStatus)
      → s ≢ unknown
      → IsPending t st n
      → next_up t (update st n s) n s ≡ none
      → IsPropagated t (update st n s)
  unfolding next_up
  pending_stop st n s k h stop = record {
    any_sat = λ o c or m e. elim (dec_eq c n) [
      | inl same ↦ ground (
        arith,
        w.parent_of_child o c m,
        stop_sat (update st n s) n o or (nonempty-mem (t.children o) m),
      )
      | inr other ↦ ground (arith, h.any_sat o c or m, w.top_and n)
    ];
    all_unsat = λ o or some_child e. elim (dec_some (t.parent n) o) [
      | inl up ↦ absurd (stop_unsat (update st n s) n o s k or some_child up e stop)
      | inr far ↦
          ground (arith, h.all_unsat o or some_child (unsat_elsewhere st n s o far e), w.top_and n)
    ];
    upward = λ o p or up e. ground (arith, h.upward o p or up);
  }

  -- The assignment to the parent settles the rest.
  pub IsPending-go :
      (st : ℕ → SolveStatus) (n p : ℕ) (s : SolveStatus)
      → s ≢ unknown
      → IsPending t st n
      → IsDue t st n s
      → t.parent n ≡ some p
      → IsPending t (update st n s) p
  IsPending-go st n p s k h due up = record {
    any_sat = λ o c or m e far other.
        ground (arith, w.parent_of_child o c m, h.any_sat o c or m, due.sat_child c);
    all_unsat = λ o or some_child e far other.
        let before = unsat_elsewhere st n s o (λ x. far (ground arith)) e in
        elim (dec_eq o n) [
          | inl same ↦ ground (
            arith,
            due.unsat_children (subst (λ x. is_and (t.class x) ≡ false) same or)
                (subst (λ x. nonempty (t.children x) ≡ true) same some_child)
                (subst (λ x. all_of (λ c. same_status (st c) unsat) (t.children x) ≡ true) same
                  before),
            same,
          )
          | inr apart ↦ ground (arith, h.all_unsat o or some_child before)
        ];
    upward = λ o q or e d far other. ground (arith, h.upward o q or e);
  }

  -- An attached node is among the children of its parent, which is attached.
  up-Below :
      {a : ℕ} (n p : ℕ)
      → Below t a n
      → t.parent a ≡ none
      → t.parent n ≡ some p
      → Memᴰ.Memᴰ n (t.children p) × Below t a p
  up-Below n p here top up = absurd (cc)
  up-Below n p (down {p = q} b e m) top up =
      let same : q ≡ p = ground arith in
      (subst (λ x. Memᴰ.Memᴰ n (t.children x)) same m, subst (Below t _) same b)

  pub parent-IsAttached : (n p : ℕ) → t.parent n ≡ some p → IsAttached t n → IsAttached t p
  parent-IsAttached n p up at =
      subst (λ r. Below t r p) (w.root_step n p up) (up-Below n p at (w.root_top n) up).1

  -- A status that is passed on to an OR node is what its children decide.
  pub IsDue-go :
      (st : ℕ → SolveStatus) (n p : ℕ) (s : SolveStatus)
      → s ≢ unknown
      → t.parent n ≡ some p
      → (s ≡ sat → IsAttached t n)
      → st n ≡ s
      → next_up t st n s ≡ some p
      → IsDue t st p s
  IsDue-go st n p s k up at self go = elim (next_up-Passes t st n p s go) [
    | or_passes or _ ↦ record {
      sat_child = λ c below m e. absurd (ground (arith, w.alternate n p up));
      unsat_children = λ below c e. absurd (ground (arith, w.alternate n p up));
    }
    | sat_passes and _ is_sat ↦ record {
      sat_child = λ c below m e. is_sat;
      unsat_children = λ below c e. absurd (
          sat_unsat (
            sym (self ∙ is_sat)
            ∙ same_status-eq (st n) unsat (
                all_of-mem (λ x. same_status (st x) unsat) (t.children p) e
                  (up-Below n p (at is_sat) (w.root_top n) up).0)));
    }
    | all_pass and _ same ↦ record {
      sat_child = λ c below m e. sym (same c m) ∙ e;
      unsat_children = λ below some_child e. unsat_first (t.children p) some_child same e;
    }
  ]
