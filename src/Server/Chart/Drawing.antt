-- ===== src/Server/Chart/Drawing.antt =====
-- `ParallelizationServer.render_vTree`: the calls of graphviz for the table of the tree, in their order. The
-- caption (the settings, the number of solvers and the time) is an argument. What was drawn before an
-- exception is lost here.
pub mod Parents
use package.text.Mathlib.Text.{◌==◌ as str_eq}
use smts.Prelude.{
  ℕ, zero, suc, ◌+◌, ◌-◌, ◌%◌, String, Bool, true, false, not, Option, none, some, List, [], ◌∷◌,
  ◌++◌, ◌==◌, ltb, if◌then◌else◌, Result, ok, err, key_error, or_raise, ◌>>=◌, Dict, lookup, insert,
  string_key, ℤ, pos, negsuc, show_nat, show_int, line, has,
}
use smts.Config.Constant
use smts.Server.Entrust.{text_length, text_take}
use smts.Server.Chart.{Entry}

-- The calls of the object `v_tree`. Its edges have a color and may have a label.
pub data Command : Type 0 where
  attr : String → Command
  node : String → String → Option String → Command
  edge : String → String → String → Option String → Command
  view : Command

abbrev pub Aliases : Type 0
Aliases = Dict String String

abbrev is_positive : ℤ → Bool
is_positive (pos n) = ltb 0 n
is_positive (negsuc n) = false

abbrev is_negative : ℤ → Bool
is_negative (pos n) = false
is_negative (negsuc n) = true

-- `error_color`
unfoldable pub error_color : Entry → String
error_color e =
    if is_negative e.balance
    then "red"
    else if str_eq e.box_color "green"
    then (if is_positive e.balance then "red" else e.box_color)
    else e.box_color

-- The record label of a node, with its rank or without
unfoldable pub node_label : String → String → Entry → String
unfolding line show_nat
node_label rank_str alias e = line (
    "<f0> "
    ∷ show_nat e.starts
    ∷ " - "
    ∷ show_nat e.pushes
    ∷ "|<f1> "
    ∷ rank_str
    ∷ alias
    ∷ "|<f2>"
    ∷ show_nat e.other_branch
    ∷ " - "
    ∷ show_nat e.same_branch
    ∷ [])

unfoldable pub rank_text : ℕ → String
unfolding line show_nat
rank_text rank = line ("(" ∷ show_nat rank ∷ ") " ∷ [])

-- `part_node_alias`
unfoldable pub part_alias : ℕ → ℕ → String
unfolding line show_nat
part_alias index x = line ("[" ∷ show_nat index ∷ ", " ∷ show_nat x ∷ "]" ∷ [])

-- `part_node`
unfoldable pub part_node : String → ℕ → ℕ → String
unfolding line show_nat part_alias
part_node key index x =
    if str_eq key "[]"
    then part_alias index x
    else line
        (text_take (text_length key - 1) key ∷ ", " ∷ show_nat index ∷ ", " ∷ show_nat x ∷ "]" ∷ [])

-- The calls for one part of a partition
unfoldable pub part_commands : Dict String Entry → String → ℕ → ℕ → List Command
unfolding part_node part_alias has line
part_commands d key index x =
    let part = part_node key index x in
    let label = line ("<f0> |<f1> " ∷ part_alias index x ∷ "|<f2>" ∷ []) in
    node (line (Constant.node ∷ part ∷ [])) label (if has part d then none else some "blue")
    ∷ edge (line (Constant.node ∷ key ∷ ":f1" ∷ [])) (line (Constant.node ∷ part ∷ ":f1" ∷ []))
        (if index % 2 == 0 then "blue" else "black") none
    ∷ []

-- `for x in range(partition)`, from x on
unfoldable pub draw_parts :
    Dict String Entry → String → ℕ → ℕ → ℕ → Aliases → Aliases × List Command
unfolding part_commands part_node part_alias insert
draw_parts d key index x zero aliases = (aliases, [])
draw_parts d key index x (suc n) aliases =
    let rest =
      draw_parts d key index (suc x) n
        (insert (part_node key index x) (part_alias index x) aliases) in
    (rest.0, part_commands d key index x ++ rest.1)

-- The loop over the partitions of a node, from an index on
unfoldable pub draw_partitions :
    Dict String Entry → String → ℕ → List ℕ → Aliases → Aliases × List Command
unfolding draw_parts
draw_partitions d key index [] aliases = (aliases, [])
draw_partitions d key index (n ∷ ns) aliases =
    let (known, commands) = draw_parts d key index 0 n aliases in
    let rest = draw_partitions d key (suc index) ns known in (rest.0, commands ++ rest.1)

-- The node itself, and the edge that carries its balance
unfoldable pub entry_commands : String → Entry → String → List Command
unfolding error_color node_label rank_text show_int line
entry_commands key e alias =
    node (line (Constant.node ∷ key ∷ []))
      (node_label (if str_eq e.box_color "green" then rank_text e.rank else "") alias e)
      (some (error_color e))
    ∷ edge (line (Constant.node ∷ key ∷ ":f2" ∷ [])) (line (Constant.node ∷ key ∷ ":f2" ∷ []))
        "white" (some (line ("(" ∷ show_int e.balance ∷ ")" ∷ [])))
    ∷ []

-- `lastSolvedNode` and `rank`
unfoldable pub last_solved : String → Entry → Option String × ℕ → Option String × ℕ
last_solved key e (last, rank) =
    if str_eq e.box_color "green"
    then (if ltb rank e.rank then (some key, e.rank) else (last, rank))
    else (last, rank)

-- What the loop over the nodes leaves
pub record Drawn : Type 0 where
  pub aliases : Aliases
  pub last : Option String × ℕ
  pub commands : List Command

-- A node, with the parts of its partitions
unfoldable pub draw_entry : Dict String Entry → String → Entry → String → Drawn → Drawn
unfolding entry_commands draw_partitions last_solved
draw_entry d key e alias drawn =
    let parts = draw_partitions d key 0 e.partitions drawn.aliases in
    record {
      aliases = parts.0;
      last = last_solved key e drawn.last;
      commands = drawn.commands ++ entry_commands key e alias ++ parts.1;
    }

-- The loop over the nodes
unfoldable pub draw_nodes : Dict String Entry → Dict String Entry → Drawn → Result Drawn
unfolding draw_entry lookup
draw_nodes d [] drawn = ok drawn
draw_nodes d ((key, e) ∷ entries) drawn = elim (lookup key drawn.aliases) [
  | none ↦ err key_error
  | some alias ↦ draw_nodes d entries (draw_entry d key e alias drawn)
]

unfoldable pub gold_commands : String → ℕ → String → Entry → List Command
unfolding node_label rank_text line
gold_commands key rank alias e =
    node (line (Constant.node ∷ key ∷ [])) (node_label (rank_text rank) alias e) (some "#DFA500")
    ∷ []

-- The node with the highest rank is drawn once more, in gold.
unfoldable pub last_commands : Dict String Entry → Drawn → Result (List Command)
unfolding gold_commands lookup
last_commands d drawn = elim drawn.last.0 [
  | none ↦ ok []
  | some key ↦ elim (lookup key d) [
    | none ↦ err key_error
    | some e ↦ elim (lookup key drawn.aliases) [
      | none ↦ err key_error
      | some alias ↦ ok (gold_commands key drawn.last.1 alias e)
    ]
  ]
]

-- `render_vTree`, with the aliases that it leaves
unfoldable pub render_tree : String → Dict String Entry → Aliases → Result (Aliases × List Command)
unfolding draw_nodes last_commands
render_tree caption d aliases = do
  drawn ← draw_nodes d d (record { aliases = aliases; last = (none, 0); commands = [] })
  gold ← last_commands d drawn
  ok (drawn.aliases, attr caption ∷ drawn.commands ++ gold ++ view ∷ [])
