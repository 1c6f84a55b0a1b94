-- ===== src/Formula/Incremental.antt =====
-- `SMT.to_string` brings a solver's assertion stack to the node: from an empty solver, and from any
-- other node of the tree.
use mathlib.Core.List.{reverse-cons}
use smts.Prelude.{
  ℕ, zero, suc, ◌+◌, ◌<◌, ◌≡◌, refl, sym, subst, ap, ◌∙◌, true, false, none, some, List, [], ◌∷◌,
  ◌++◌, arith, if◌then◌else◌, Bool-cases, inl, inr, reverse, reverse-append, ==_self, ◌⊎◌, ok,
}
use smts.Tree.Defs.{Tree, is_and}
use smts.Tree.Walk.{is_ancestor}
use smts.Tree.Shape.{IsForest, Below, here, down, IsAttached, Below-root}
use smts.Tree.Subtree.{Below-le}
use smts.Tree.Paths.{is_ancestor_iff}
use smts.Formula.{Line, text, pop, repeat_pop, climb, entries, gather, smt_lines}
use smts.Formula.Stack.{Frames, run, run-append, frames, frames_some, frames-top, frames-child}

module _ {t : Tree} (w : IsForest t) where
  -- What is gathered for one node turns its parent's frames into its own.
  entries-run :
      (root n p : ℕ)
      → t.parent root ≡ none
      → t.parent n ≡ some p
      → run (reverse (entries t root n)) (frames t p) ≡ some (frames t n)
  unfolding run
  entries-run root n p top up = elim (Bool-cases (is_and (t.class n))) [
    | inl and ↦ rw (and, frames-child t n p w up) (ground arith)
    | inr or ↦ rw (or, frames-child t n p w up) (ground arith)
  ]

  entries-append-run :
      (root n p : ℕ) (g : List Line) (fs : Frames)
      → t.parent root ≡ none
      → t.parent n ≡ some p
      → run (reverse g) fs ≡ some (frames t p)
      → run (reverse (entries t root n ++ g)) fs ≡ some (frames t n)
  entries-append-run root n p g fs top up runs = rw (reverse-append (entries t root n) g) (
      run-append (reverse g) (reverse (entries t root n)) fs (frames t p) runs
      ∙ entries-run root n p top up)

  -- The pushes lead from the frames of `c` to those of a node below.
  gather-run :
      (f root : ℕ) {c n : ℕ}
      → t.parent root ≡ none
      → Below t c n
      → n < f
      → (g : List Line) × (gather f t root (some c) (some n) ≡ ok g)
        × (run (reverse g) (frames t c) ≡ some (frames t n))
  unfolding gather run
  gather-run zero root top b h = absurd (omega arith)
  gather-run (suc f) root {c} top here h = ([], ground (arith, ==_self c), refl)
  gather-run (suc f) root {c} top (down {p} {n} b up m) h =
      let (g, found, runs) = gather-run f root top b (omega (arith, w.parent_lt n p up)) in
      (
        entries t root n ++ g,
        ground (arith, found, up, Below-le w b, w.parent_lt n p up),
        entries-append-run root n p g (frames t c) top up runs,
      )

  -- From an empty solver the root's text comes first.
  gather-run_all :
      (f root : ℕ) {n : ℕ}
      → t.parent root ≡ none
      → Below t root n
      → n < f
      → (g : List Line) × (gather f t root none (some n) ≡ ok g)
        × (run (reverse g) ([] ∷ []) ≡ some (frames t n))
  unfolding gather run
  gather-run_all zero root top b h = absurd (omega arith)
  gather-run_all (suc f) root top here h = (
    text (t.smt root) ∷ [],
    ground (arith, top, w.top_and root top, ==_self root),
    rw (frames-top t root top) refl,
  )
  gather-run_all (suc f) root top (down {p} {n} b up m) h =
      let (g, found, runs) = gather-run_all f root top b (omega (arith, w.parent_lt n p up)) in
      (
        entries t root n ++ g,
        ground (arith, found, up),
        entries-append-run root n p g ([] ∷ []) top up runs,
      )

  IsAttached-to : {root n : ℕ} → t.parent root ≡ none → Below t root n → IsAttached t n
  IsAttached-to {root} {n} top b =
      subst (λ r. Below t r n) (sym (Below-root w b ∙ w.root_self root top)) b

  -- Leaving an AND node pops its frame; an OR node has none.
  pop-run :
      (s p : ℕ)
      → t.parent s ≡ some p
      → run (repeat_pop (if is_and (t.class s) then 1 else 0)) (frames t s) ≡ some (frames t p)
  unfolding run
  pop-run s p up =
      let (g, fs, e) = frames_some t p w in
      elim (Bool-cases (is_and (t.class s))) [
        | inl and ↦ rw (and, frames-child t s p w up, and, e) refl
        | inr or ↦ rw (or, frames-child t s p w up, or) refl
      ]

  repeat_pop-add : (i j : ℕ) → repeat_pop (i + j) ≡ repeat_pop i ++ repeat_pop j
  repeat_pop-add zero j = ap repeat_pop (omega arith)
  repeat_pop-add (suc i) j =
      let e : suc i + j ≡ suc (i + j) = omega arith in
      ap repeat_pop e ∙ ap (λ l. pop ∷ l) (repeat_pop-add i j)

  pop-run_then :
      (s p j : ℕ) {fs : Frames}
      → t.parent s ≡ some p
      → run (repeat_pop j) (frames t p) ≡ some fs
      → run (repeat_pop ((if is_and (t.class s) then 1 else 0) + j)) (frames t s) ≡ some fs
  pop-run_then s p j up runs =
      let i : ℕ = if is_and (t.class s) then 1 else 0 in
      rw (repeat_pop-add i j)
        (run-append (repeat_pop i) (repeat_pop j) (frames t s) (frames t p) (pop-run s p up) ∙ runs)

  above_cases :
      {root s n : ℕ}
      → t.parent root ≡ none
      → Below t root s
      → Below t root n
      → (is_ancestor t s n ≡ ok true) × Below t s n ⊎ (is_ancestor t s n ≡ ok false) × ¬ Below t s n
  above_cases {s = s} {n = n} top x y =
      let same : t.root s ≡ t.root n = Below-root w x ∙ sym (Below-root w y) in
      let (b, answer, correct) =
        is_ancestor_iff t s n w (IsAttached-to top x) (IsAttached-to top y) same in
      elim (Bool-cases b) [
        | inl above ↦ inl (ground arith, correct.0 above)
        | inr aside ↦ inr (ground arith, λ z. cc (correct.1 z))
      ]

  -- The first loop ends at a node above `n`, and its pops lead to the frames of that node.
  climb-run :
      (f root n k : ℕ) {s : ℕ}
      → t.parent root ≡ none
      → Below t root n
      → Below t root s
      → s < f
      → (c : ℕ) × (j : ℕ) × (climb f t s n k ≡ ok (c, j + k))
        × Below t c n
        × (run (repeat_pop j) (frames t s) ≡ some (frames t c))
  unfolding climb run
  climb-run zero root n k top y x h = absurd (omega arith)
  climb-run (suc f) root n k top y here h = elim (above_cases top here y) [
    | inl (answer, z) ↦ (root, 0, ground (arith, answer), y, refl)
    | inr (_, apart) ↦ absurd (apart y)
  ]
  climb-run (suc f) root n k top y (down {p} {n = s} b up m) h =
      elim (above_cases top (down b up m) y) [
        | inl (answer, z) ↦ (s, 0, ground (arith, answer), z, refl)
        | inr (answer, _) ↦
            let k' : ℕ = if is_and (t.class s) then suc k else k in
            let (c, j, found, z, runs) =
              climb-run f root n k' top y b (omega (arith, w.parent_lt s p up)) in
            (
              c,
              (if is_and (t.class s) then 1 else 0) + j,
              ground (arith, answer, up, found),
              z,
              pop-run_then s p j up runs,
            )
      ]

repeat_pop-snoc : (j : ℕ) → repeat_pop j ++ pop ∷ [] ≡ pop ∷ repeat_pop j
repeat_pop-snoc zero = refl
repeat_pop-snoc (suc j) = ap (λ l. pop ∷ l) (repeat_pop-snoc j)

reverse-repeat_pop : (j : ℕ) → reverse (repeat_pop j) ≡ repeat_pop j
reverse-repeat_pop zero = refl
reverse-repeat_pop (suc j) =
    reverse-cons pop (repeat_pop j)
    ∙ ap (λ l. l ++ pop ∷ []) (reverse-repeat_pop j)
    ∙ repeat_pop-snoc j

-- From an empty solver, the text for a node builds the frames of the node.
pub smt_lines-full :
    (t : Tree) (n : ℕ)
    → IsForest t
    → IsAttached t n
    → (ls : List Line) × (smt_lines t (t.root n) n none ≡ ok ls)
      × (run ls ([] ∷ []) ≡ some (frames t n))
unfolding smt_lines
smt_lines-full t n w y =
    let (g, found, runs) = gather-run_all w (suc n) (t.root n) (w.root_top n) y (omega arith) in
    (reverse g, ground (arith, found), runs)

-- From the frames of any node of the tree, the incremental text leads to those of the node asked
-- for, whatever lies between the two.
pub smt_lines-incremental :
    (t : Tree) (s n : ℕ)
    → IsForest t
    → IsAttached t s
    → IsAttached t n
    → t.root s ≡ t.root n
    → (ls : List Line) × (smt_lines t (t.root n) n (some s) ≡ ok ls)
      × (run ls (frames t s) ≡ some (frames t n))
unfolding smt_lines
smt_lines-incremental t s n w x y same =
    let (c, j, climbed, z, pops) =
      climb-run w (suc s) (t.root n) n 0 (w.root_top n) y (subst (λ r. Below t r s) same x)
        (omega arith) in
    let (g, found, runs) = gather-run w (suc n) (t.root n) (w.root_top n) z (omega arith) in
    (
      reverse (g ++ repeat_pop j),
      ground (arith, climbed, found),
      rw (reverse-append g (repeat_pop j), reverse-repeat_pop j)
          (run-append (repeat_pop j) (reverse g) (frames t s) (frames t c) pops ∙ runs),
    )
