-- ===== src/Server/Chart/Drawing/Parents.antt =====
-- When `render_vTree` can draw the table: a node has its name from its parent.
use package.text.Mathlib.Text.{◌==◌ as str_eq}
use package.text.Mathlib.TextEquality.{eq_iff}
use smts.Prelude.{
  ℕ, zero, suc, String, Bool, true, false, ◌&&◌, ◌||◌, Option, none, some, List, [], ◌∷◌, ◌++◌, ok,
  err, key_error, Dict, lookup, insert, string_key, has, names, listed, has-insert, listed-keys,
  listed-append, ltb, ◌≡◌, ◌⊎◌, inl, inr, refl, sym, subst, ◌∙◌, arith, Bool-cases, Option-cases,
}
use smts.Server.Chart.{Entry}
use smts.Server.Chart.Drawing.{
  Aliases, Drawn, Command, part_node, part_alias, draw_parts, draw_partitions, last_solved,
  draw_entry, draw_nodes, gold_commands, last_commands, render_tree,
}

-- The keys of the parts that the partitions of a node have
unfoldable pub parts_from : String → ℕ → ℕ → ℕ → List String
unfolding part_node
parts_from key index x zero = []
parts_from key index x (suc n) = part_node key index x ∷ parts_from key index (suc x) n

unfoldable pub children_of : String → ℕ → List ℕ → List String
unfolding parts_from
children_of key index [] = []
children_of key index (n ∷ ns) = parts_from key index 0 n ++ children_of key (suc index) ns

-- Each node is known at the beginning, or a child of a node that stands before it.
unfoldable pub is_drawable : List String → Dict String Entry → Bool
unfolding children_of listed
is_drawable known [] = true
is_drawable known ((key, e) ∷ d) =
    listed key known && is_drawable (children_of key 0 e.partitions ++ known) d

has-draw_parts :
    (d : Dict String Entry) (key : String) (index x n : ℕ) (aliases : Aliases) (k : String)
    → has k (draw_parts d key index x n aliases).0
      ≡ (listed k (parts_from key index x n) || has k aliases)
unfolding draw_parts parts_from listed
has-draw_parts d key index x zero aliases k = refl
has-draw_parts d key index x (suc n) aliases k =
    let part = part_node key index x in
    let more = insert part (part_alias index x) aliases in
    has-draw_parts d key index (suc x) n more k
    ∙ ground (arith, has-insert part k (part_alias index x) aliases)

has-draw_partitions :
    (d : Dict String Entry) (key : String) (index : ℕ) (ns : List ℕ) (aliases : Aliases)
    (k : String)
    → has k (draw_partitions d key index ns aliases).0
      ≡ (listed k (children_of key index ns) || has k aliases)
unfolding draw_partitions children_of listed
has-draw_partitions d key index [] aliases k = refl
has-draw_partitions d key index (n ∷ ns) aliases k =
    has-draw_partitions d key (suc index) ns (draw_parts d key index 0 n aliases).0 k
    ∙ ground (
      arith,
      has-draw_parts d key index 0 n aliases k,
      listed-append k (parts_from key index 0 n) (children_of key (suc index) ns),
    )

-- The last solved node stands in the table, and has a name.
abbrev Named : Dict String Entry → Drawn → Type 0
Named d drawn =
    (key : String) → drawn.last.0 ≡ some key → (has key d ≡ true) × (has key drawn.aliases ≡ true)

has-lookup {ℓ} :
    {V : Type ℓ} (k : String) (d : Dict String V) → has k d ≡ true → (v : V) × (lookup k d ≡ some v)
unfolding has
has-lookup k d h = elim (Option-cases (lookup k d)) [
  | inl e ↦ absurd (ground (arith, h, e))
  | inr (v, e) ↦ (v, e)
]

lookup-has {ℓ} :
    {V : Type ℓ} (k : String) (d : Dict String V) {v : V} → lookup k d ≡ some v → has k d ≡ true
unfolding has
lookup-has k d e = rw e refl

lookup-lacks {ℓ} :
    {V : Type ℓ} (k : String) (d : Dict String V) → lookup k d ≡ none → has k d ≡ false
unfolding has
lookup-lacks k d e = rw e refl

has_head : (k : String) (e : Entry) (d : Dict String Entry) → has k ((k, e) ∷ d) ≡ true
unfolding has lookup
has_head k e d = rw ((eq_iff k k).1 refl) refl

has_tail :
    (k j : String) (e : Entry) (d : Dict String Entry) → has k d ≡ true → has k ((j, e) ∷ d) ≡ true
unfolding has lookup
has_tail k j e d h = elim (Bool-cases (str_eq j k)) [ inl s ↦ rw s refl | inr s ↦ rw s h ]

last_commands-Named :
    (d : Dict String Entry) (drawn : Drawn)
    → Named d drawn
    → (gold : List Command) × (last_commands d drawn ≡ ok gold)
unfolding last_commands
last_commands-Named d drawn named = elim (Option-cases drawn.last.0) [
  | inl e ↦ ([], rw (e, last_commands) refl)
  | inr (key, e) ↦
      let (in_table, in_aliases) = named key e in
      let (entry, at) = has-lookup key d in_table in
      let (alias, known) = has-lookup key drawn.aliases in_aliases in
      (gold_commands key drawn.last.1 alias entry, rw (e, at, known, last_commands) refl)
]

last_solved_one :
    (key : String) (e : Entry) (p : Option String × ℕ) (k : String)
    → (last_solved key e p).0 ≡ some k
    → (key ≡ k) ⊎ (p.0 ≡ some k)
unfolding last_solved
last_solved_one key e (last, rank) k h = elim (Bool-cases (str_eq e.box_color "green")) [
  | inr other ↦ inr (ground (arith, other, h))
  | inl green ↦ elim (Bool-cases (ltb rank e.rank)) [
    | inl higher ↦ inl (ground (arith, green, higher, h))
    | inr lower ↦ inr (ground (arith, green, lower, h))
  ]
]

-- What is known behind a node
has-draw_entry :
    (d : Dict String Entry) (key : String) (e : Entry) (alias : String) (known : List String)
    (drawn : Drawn)
    → ((k : String) → has k drawn.aliases ≡ listed k known)
    → (k : String)
    → has k (draw_entry d key e alias drawn).aliases
      ≡ listed k (children_of key 0 e.partitions ++ known)
unfolding draw_entry
has-draw_entry d key e alias known drawn same k =
    has-draw_partitions d key 0 e.partitions drawn.aliases k
    ∙ ground (arith, same k, listed-append k (children_of key 0 e.partitions) known)

Named-draw_entry :
    (d : Dict String Entry) (key : String) (e : Entry) (alias : String) (drawn : Drawn)
    → has key d ≡ true
    → has key drawn.aliases ≡ true
    → Named d drawn
    → Named d (draw_entry d key e alias drawn)
unfolding draw_entry
Named-draw_entry d key e alias drawn in_table in_aliases named k h =
    let kept : has k drawn.aliases ≡ true
        → has k (draw_partitions d key 0 e.partitions drawn.aliases).0 ≡ true =
      λ before. ground (arith, before, has-draw_partitions d key 0 e.partitions drawn.aliases k) in
    elim (last_solved_one key e drawn.last k h) [
      | inl is ↦ (
        subst (λ j. has j d ≡ true) is in_table,
        kept (subst (λ j. has j drawn.aliases ≡ true) is in_aliases),
      )
      | inr old ↦ ((named k old).0, kept (named k old).1)
    ]

-- The loop runs through if the nodes that are left have names when their turn comes.
draw_nodes-is_drawable :
    (d entries : Dict String Entry) (known : List String) (drawn : Drawn)
    → ((k : String) → has k entries ≡ true → has k d ≡ true)
    → ((k : String) → has k drawn.aliases ≡ listed k known)
    → Named d drawn
    → (is_drawable known entries ≡ true
        → (r : Drawn) × (draw_nodes d entries drawn ≡ ok r) × Named d r)
      × (is_drawable known entries ≡ false → draw_nodes d entries drawn ≡ err key_error)
unfolding draw_nodes is_drawable
draw_nodes-is_drawable d [] known drawn inside same named =
    (λ h. (drawn, refl, named), λ h. absurd (cc))
draw_nodes-is_drawable d ((key, e) ∷ entries) known drawn inside same named =
    elim (Option-cases (lookup key drawn.aliases)) [
      | inl absent ↦
          let unknown : listed key known ≡ false =
            sym (same key) ∙ lookup-lacks key drawn.aliases absent in
          (λ h. absurd (ground (arith, h, unknown)), λ h. rw (absent, draw_nodes) refl)
      | inr (alias, found) ↦
          let in_aliases = lookup-has key drawn.aliases found in
          let in_table = inside key (has_head key e entries) in
          let (runs, fails) =
            draw_nodes-is_drawable d entries (children_of key 0 e.partitions ++ known)
              (draw_entry d key e alias drawn) (λ k h. inside k (has_tail k key e entries h))
              (has-draw_entry d key e alias known drawn same)
              (Named-draw_entry d key e alias drawn in_table in_aliases named) in
          let is_known : listed key known ≡ true = sym (same key) ∙ in_aliases in
          (
            λ h.
                let (r, done, fine) = runs (ground (arith, h, is_known)) in
                (r, rw (found, draw_nodes) done, fine),
            λ h. rw (found, draw_nodes) (fails (ground (arith, h, is_known))),
          )
    ]

-- `render_vTree` draws a table if each of its nodes has an alias at the beginning or is a child of a node
-- that stands before it in the table, and otherwise it raises KeyError.
pub render_tree-is_drawable :
    (caption : String) (d : Dict String Entry) (aliases : Aliases)
    → (is_drawable (names aliases) d ≡ true
        → (r : Aliases × List Command) × (render_tree caption d aliases ≡ ok r))
      × (is_drawable (names aliases) d ≡ false → render_tree caption d aliases ≡ err key_error)
unfolding render_tree
render_tree-is_drawable caption d aliases =
    let begin : Drawn = record { aliases = aliases; last = (none, 0); commands = [] } in
    let (runs, fails) =
      draw_nodes-is_drawable d d (names aliases) begin (λ k h. h) (λ k. sym (listed-keys k aliases))
        (λ key h. absurd (cc)) in
    (
      λ h.
          let (drawn, done, named) = runs h in
          let (gold, last) = last_commands-Named d drawn named in
          (
            (drawn.aliases, Command.attr caption ∷ drawn.commands ++ gold ++ Command.view ∷ []),
            rw (done, last) refl,
          ),
      λ h. rw (fails h) refl,
    )
