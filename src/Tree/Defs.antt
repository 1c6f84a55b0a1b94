-- ===== src/Tree/Defs.antt =====
-- The objects of a partition tree: `Node`, `AndNode`, `OrNode`, `Root` and its subclasses.
-- A reference to a node is a number, and an attribute is a column: `t.parent n` is `n._parent`.
-- The attributes that only the constructors and `clear` write stand in `Tree`, the others in `Marks`.
use smts.Prelude.{
  ℕ, suc, String, Bool, true, false, Option, none, some, List, [], ◌∷◌, ◌++◌, ◌==◌, nonempty,
  if◌then◌else◌, Result, ok, err, type_error,
}
use smts.Json.{Json}

pub data SolveStatus : Type 0 where
  unknown sat unsat : SolveStatus

-- The subclass of `Root` that `parse` chooses.
pub data Format : Type 0 where
  smt_lib : Format
  fixedpoint : (query : Json) → Format
  mcmt : Format

-- The class of a node. `root` is an `AndNode` with a name.
pub data Class : Type 0 where
  and_node or_node : Class
  root_node : Format → (name : String) → Class

-- `isinstance(node, AndNode)`
abbrev pub is_and : Class → Bool
is_and or_node = false
is_and _ = true

pub record Tree : Type 0 where
  pub next : ℕ
  pub class : ℕ → Class
  pub parent : ℕ → Option ℕ
  pub root : ℕ → ℕ
  pub smt : ℕ → String
  pub children : ℕ → List ℕ

pub record Marks : Type 0 where
  pub status : ℕ → SolveStatus
  pub started : ℕ → Option ℕ
  pub assumed_timout : ℕ → Bool
  pub partitioning : ℕ → Bool
  pub processed : ℕ → Bool
  pub is_timeout : ℕ → Bool

-- `f[p] = v`
abbrev pub update {ℓ} : {A : Type ℓ} → (ℕ → A) → ℕ → A → ℕ → A
update f p v q = if p == q then v else f q

abbrev pub no_nodes : Tree
no_nodes = record {
  next = 0;
  class = λ _. and_node;
  parent = λ _. none;
  root = λ n. n;
  smt = λ _. "";
  children = λ _. [];
}

abbrev pub no_marks : Marks
no_marks = record {
  status = λ _. unknown;
  started = λ _. none;
  assumed_timout = λ _. false;
  partitioning = λ _. false;
  processed = λ _. false;
  is_timeout = λ _. false;
}

-- `Node.__init__`: with a parent the node is appended to its children and takes over its root.
unfoldable pub init_node : Tree → Class → Option ℕ → String → Tree
init_node t c none s = record t {
  next = suc t.next;
  class = update t.class t.next c;
  parent = update t.parent t.next none;
  root = update t.root t.next t.next;
  smt = update t.smt t.next s;
  children = update t.children t.next [];
}
init_node t c (some p) s = record t {
  next = suc t.next;
  class = update t.class t.next c;
  parent = update t.parent t.next (some p);
  root = update t.root t.next (t.root p);
  smt = update t.smt t.next s;
  children = update (update t.children p (t.children p ++ t.next ∷ [])) t.next [];
}

-- The attributes that the constructors give a value of their own: all start as in `no_marks`.
unfoldable pub init_marks : Marks → ℕ → Marks
init_marks m n = record m {
  status = update m.status n unknown;
  started = update m.started n none;
  assumed_timout = update m.assumed_timout n false;
  partitioning = update m.partitioning n false;
  processed = update m.processed n false;
  is_timeout = update m.is_timeout n false;
}

-- `AndNode.__init__`: the parent is an `OrNode` or None.
unfoldable pub new_and : Tree → Option ℕ → String → Result Tree
unfolding init_node
new_and t none s = ok (init_node t and_node none s)
new_and t (some p) s =
    if is_and (t.class p) then err type_error else ok (init_node t and_node (some p) s)

-- `OrNode.__init__`: the parent is an `AndNode`.
unfoldable pub new_or : Tree → ℕ → String → Result Tree
unfolding init_node
new_or t p s = if is_and (t.class p) then ok (init_node t or_node (some p) s) else err type_error

-- `Root.__init__`
unfoldable pub new_root : Tree → Format → String → String → Tree
unfolding init_node
new_root t f name s = init_node t (root_node f name) none s

-- `Node.clear`: the children keep their reference to the parent.
unfoldable pub clear : Tree → ℕ → Tree
clear t n = record t { children = update t.children n [] }

-- `bool(node)` is `len(node) > 0`, since `Node` defines `__len__`.
abbrev pub truthy : Tree → ℕ → Bool
truthy t n = nonempty (t.children n)

-- The parent in `while node.parent` and `if node.parent`: None also if the parent has no children.
abbrev pub live_parent : Tree → ℕ → Option ℕ
live_parent t n = elim (t.parent n) [ none ↦ none | some p ↦ if truthy t p then some p else none ]
