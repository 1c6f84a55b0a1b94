-- ===== src/Formula/Stack.antt =====
-- A solver's assertion stack: what the commands do to it, and what it holds for a node.
use smts.Prelude.{
  ℕ, zero, suc, ◌<◌, ◌≡◌, String, Option, none, some, List, [], ◌∷◌, ◌++◌, arith, if◌then◌else◌,
  Option-cases, Bool-cases, inl, inr,
}
use smts.Tree.Defs.{Tree, is_and}
use smts.Tree.Shape.{IsForest}
use smts.Formula.{Line, text, push, pop}

-- The frames, innermost first; each holds its assertions, the last one first.
abbrev pub Frames : Type 0
Frames = List (List String)

-- A text is asserted in the innermost frame. The base frame cannot be popped.
abbrev pub step : Line → Frames → Option Frames
step (text s) (f ∷ fs) = some ((s ∷ f) ∷ fs)
step (text s) [] = none
step push fs = some ([] ∷ fs)
step pop (f ∷ g ∷ fs) = some (g ∷ fs)
step pop _ = none

unfoldable pub run : List Line → Frames → Option Frames
run [] fs = some fs
run (l ∷ ls) fs = elim (step l fs) [ none ↦ none | some fs' ↦ run ls fs' ]

-- One frame for each AND node on the way up from the node.
unfoldable pub frames_within : ℕ → Tree → ℕ → Frames
frames_within zero t n = []
frames_within (suc f) t n = elim (t.parent n) [
  | none ↦ (t.smt n ∷ []) ∷ []
  | some p ↦
      if is_and (t.class n) then (t.smt n ∷ []) ∷ frames_within f t p else frames_within f t p
]

unfoldable pub frames : Tree → ℕ → Frames
unfolding frames_within
frames t n = frames_within (suc n) t n

frames_within-fuel :
    (f g : ℕ) (t : Tree) (n : ℕ)
    → IsForest t
    → n < f
    → n < g
    → frames_within f t n ≡ frames_within g t n
unfolding frames_within
frames_within-fuel zero g t n w h k = absurd (omega arith)
frames_within-fuel (suc f) zero t n w h k = absurd (omega arith)
frames_within-fuel (suc f) (suc g) t n w h k = elim (Option-cases (t.parent n)) [
  | inl top ↦ ground arith
  | inr (p, up) ↦
      let older : p < n = w.parent_lt n p up in
      ground (arith, frames_within-fuel f g t p w (omega arith) (omega arith))
]

frames_within_some :
    (f : ℕ) (t : Tree) (n : ℕ)
    → IsForest t
    → n < f
    → (g : List String) × (fs : Frames) × (frames_within f t n ≡ g ∷ fs)
unfolding frames_within
frames_within_some zero t n w h = absurd (omega arith)
frames_within_some (suc f) t n w h = elim (Option-cases (t.parent n)) [
  | inl top ↦ (t.smt n ∷ [], [], ground arith)
  | inr (p, up) ↦
      let older : p < n = w.parent_lt n p up in
      let (g, fs, e) = frames_within_some f t p w (omega arith) in
      elim (Bool-cases (is_and (t.class n))) [
        | inl and ↦ (t.smt n ∷ [], frames_within f t p, ground arith)
        | inr or ↦ (g, fs, ground arith)
      ]
]

-- No stack is empty.
pub frames_some :
    (t : Tree) (n : ℕ) → IsForest t → (g : List String) × (fs : Frames) × (frames t n ≡ g ∷ fs)
unfolding frames
frames_some t n w = frames_within_some (suc n) t n w (omega arith)

pub frames-top : (t : Tree) (n : ℕ) → t.parent n ≡ none → frames t n ≡ (t.smt n ∷ []) ∷ []
unfolding frames
frames-top t n top = ground arith

pub frames-child :
    (t : Tree) (n p : ℕ)
    → IsForest t
    → t.parent n ≡ some p
    → frames t n ≡ (if is_and (t.class n) then (t.smt n ∷ []) ∷ frames t p else frames t p)
unfolding frames
frames-child t n p w up =
    let older : p < n = w.parent_lt n p up in
    ground (arith, frames_within-fuel n (suc p) t p w (omega arith) (omega arith))

pub run-append :
    (ls ms : List Line) (fs gs : Frames) → run ls fs ≡ some gs → run (ls ++ ms) fs ≡ run ms gs
unfolding run
run-append [] ms fs gs e = ground arith
run-append (l ∷ ls) ms fs gs e = elim (Option-cases (step l fs)) [
  | inl stuck ↦ ground arith
  | inr (fs', go) ↦ ground (arith, run-append ls ms fs' gs (ground arith))
]
