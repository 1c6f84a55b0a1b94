-- ===== src/Tests/Charts.antt =====
-- Reports of solvers in the picture of the tree.
use smts.Prelude.{
  true, false, List, Dict, String, ok, err, key_error, names, listed, line, show_nat, refl, some,
  ◌≡◌, [], ◌∷◌, string_key, pos,
}
use smts.World.Objects.{text, Header}
use smts.Config.Constant
use smts.Server.Chart.{Entry, new_entry, Chart, collect, entry_of}
use smts.Server.Chart.Reading.{received_count}
use smts.Server.Chart.Balance.{Told, collect-IsBalanced}
use smts.Server.Chart.Drawing.{Aliases, part_node, part_alias, Command, render_tree}
use smts.Server.Chart.Drawing.Parents.{
  children_of, parts_from, is_drawable, render_tree-is_drawable,
}

abbrev empty_chart : Chart
empty_chart = record { rank = 0; node_dict = [] }

abbrev root_header : Header
root_header = (Constant.node, text "[]") ∷ []

unfoldable abbrev started : Chart
unfolding collect
started = (collect "start" root_header empty_chart).1

abbrev below_header : Header
below_header = (Constant.node_, text "[0, 1]") ∷ []

-- The solver moves from the root to a node below it.
moved : (entry_of "[]" (collect "at [] now" below_header started).1.node_dict).balance ≡ pos 0
unfolding started
moved = refl

read_count : received_count "4: received 12 partitions" ≡ some 12
unfolding received_count
read_count = refl

collect-IsBalanced_example :
    Told 1 "at [] now" below_header (collect "at [] now" below_header started)
unfolding started
collect-IsBalanced_example = collect-IsBalanced "at [] now" below_header 1 started refl

abbrev root_alias : Aliases
root_alias = ("[]", "[]") ∷ []

-- The partitions of the root were recorded before the node below it, or were not.
abbrev split_table : Dict String Entry
split_table =
    ("[]", record new_entry { partitions = 2 ∷ [] })
    ∷ ("[0, 1]", record new_entry { box_color = "green"; rank = 1 })
    ∷ []

abbrev whole_table : Dict String Entry
whole_table = ("[]", new_entry) ∷ ("[0, 1]", new_entry) ∷ []

split_table_drawable : is_drawable ("[]" ∷ []) split_table ≡ true
unfolding is_drawable children_of parts_from listed part_node part_alias line show_nat
split_table_drawable = refl

whole_table_fails : render_tree "" whole_table root_alias ≡ err key_error
unfolding render_tree
whole_table_fails = refl

render_tree-is_drawable_example :
    (is_drawable ("[]" ∷ []) split_table ≡ true
      → (r : Aliases × List Command) × (render_tree "" split_table root_alias ≡ ok r))
    × (is_drawable ("[]" ∷ []) split_table ≡ false
        → render_tree "" split_table root_alias ≡ err key_error)
unfolding names
render_tree-is_drawable_example = render_tree-is_drawable "" split_table root_alias
