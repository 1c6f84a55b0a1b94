-- ===== src/Tree/Walk.antt =====
-- The methods that walk over a tree: `path`, `path_to_node`, `is_ancestor`, `all`, `level`
-- and `Root.child`.
use mathlib.Core.List.{flat_map}
use smts.Prelude.{
  ℕ, zero, suc, Bool, true, false, ◌&&◌, none, some, List, [], ◌∷◌, reverse, length, index,
  get_elem?, ◌==◌, ltb, if◌then◌else◌, Result, ok, err, ◌>>=◌, or_raise, value_error, index_error,
  out_of_fuel,
}
use smts.Tree.Defs.{Tree, is_and, live_parent}

-- The loop of `path`, innermost index first. A parent is older than its children, so that the loop
-- makes at most `n` rounds from `n`.
unfoldable pub path_up : ℕ → Tree → ℕ → Result (List ℕ)
path_up zero t n = err out_of_fuel
path_up (suc f) t n = elim (live_parent t n) [
  | none ↦ ok []
  | some p ↦ do
    i ← or_raise value_error (index n (t.children p))
    rest ← path_up f t p
    ok (i ∷ rest)
]

-- `node.path()`
unfoldable pub path : Tree → ℕ → Result (List ℕ)
unfolding path_up
path t n = do is ← path_up (suc n) t n; ok (reverse is)

-- The loop of `path_to_node`: the AND parents, innermost first.
unfoldable pub and_parents : ℕ → Tree → ℕ → List ℕ
and_parents zero t n = []
and_parents (suc f) t n = elim (live_parent t n) [
  | none ↦ []
  | some p ↦ if is_and (t.class p) then p ∷ and_parents f t p else and_parents f t p
]

unfoldable pub path_to_node : Tree → ℕ → List ℕ
unfolding and_parents
path_to_node t n = reverse (n ∷ and_parents (suc n) t n)

-- The loop of `is_ancestor` over `range(len(selfp))`.
unfoldable pub same_prefix : List ℕ → List ℕ → Bool
same_prefix [] b = true
same_prefix (x ∷ a) [] = false
same_prefix (x ∷ a) (y ∷ b) = x == y && same_prefix a b

-- `self.is_ancestor(node)`
unfoldable pub is_ancestor : Tree → ℕ → ℕ → Result Bool
unfolding path same_prefix
is_ancestor t s n =
    if t.root s == t.root n
    then (do
      a ← path t s
      b ← path t n
      ok (if ltb (length b) (length a) then false else same_prefix a b))
    else err value_error

-- `node.level`
unfoldable pub level : Tree → ℕ → Result ℕ
unfolding path
level t n = do a ← path t n; ok (length a)

-- `root.child(path)`
unfoldable pub child : Tree → ℕ → List ℕ → Result ℕ
child t n [] = ok n
child t n (i ∷ is) = do m ← or_raise index_error (get_elem? (t.children n) i); child t m is

-- `node.all()`, with fuel for the depth. A child is younger than its parent.
unfoldable pub all_within : ℕ → Tree → ℕ → List ℕ
all_within zero t n = []
all_within (suc f) t n = n ∷ flat_map (all_within f t) (t.children n)

unfoldable pub all : Tree → ℕ → List ℕ
unfolding all_within
all t n = all_within (suc t.next) t n
