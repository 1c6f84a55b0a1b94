-- ===== src/Server/Chart.antt =====
-- `ParallelizationServer.collectData_vTree`: what the reports of solvers add to the picture of the
-- tree. The lists of actions in the entries stay empty, and are left out.
pub mod Balance
pub mod Drawing
pub mod Reading
use Prim.Native.Char.{code}
use package.text.Mathlib.Text.{◌==◌ as str_eq}
use smts.Prelude.{
  ℕ, zero, suc, ◌+◌, ◌-◌, ◌*◌, String, Bool, true, false, not, ◌&&◌, ◌||◌, Option, none, some, List,
  [], ◌∷◌, ◌++◌, ◌==◌, leb, is_none, nonempty, if◌then◌else◌, Result, ok, err, key_error,
  attribute_error, Dict, lookup, insert, string_key, ℤ, pos, ◌+ℤ◌, ◌-ℤ◌,
}
use smts.World.Effects.{Exec}
use smts.World.Objects.{Value, text, Header}
use smts.Config.Constant
use smts.Server.Chart.Reading.{brackets, received_count}
use smts.Server.Entrust.{text_length, text_take, text_tail}

-- An entry of `node_dict`, by the names of its components in the picture.
pub record Entry : Type 0 where
  pub starts : ℕ
  pub other_branch : ℕ
  pub rank : ℕ
  pub box_color : String
  pub edge_color : String
  pub partitions : List ℕ
  pub same_branch : ℕ
  pub pushes : ℕ
  pub balance : ℤ

abbrev pub new_entry : Entry
new_entry = record {
  starts = 0;
  other_branch = 0;
  rank = 0;
  box_color = "white";
  edge_color = "white";
  partitions = [];
  same_branch = 0;
  pushes = 0;
  balance = pos 0;
}

-- `self.rank` and `self.node_dict`
pub record Chart : Type 0 where
  pub rank : ℕ
  pub node_dict : Dict String Entry

-- The local variables that a message sets.
pub record Change : Type 0 where
  pub start : ℕ
  pub push : ℕ
  pub pop_same : ℕ
  pub pop_different : ℕ
  pub box_color : String
  pub edge_color : String
  pub partition : ℕ

abbrev pub no_change : Change
no_change = record {
  start = 0;
  push = 0;
  pop_same = 0;
  pop_different = 0;
  box_color = "";
  edge_color = "";
  partition = 0;
}

-- `path[1:len(path)-1]`
abbrev pub inner : String → String
inner path = text_take (text_length path - 2) (text_tail path)

-- Where the solver moves from `current` to `target`, by the texts of their paths.
unfoldable pub movement : String → String → Change
movement current target =
    let prefix = inner current in
    let full = inner target in
    if str_eq prefix full
    then no_change
    else if str_eq prefix (text_take (text_length prefix) full)
    then record no_change { push = 1 }
    else if str_eq full (text_take (text_length full) prefix)
    then record no_change { pop_same = 1 }
    else record no_change { pop_different = 1 }

-- A result, which raises the rank
abbrev pub is_result : String → Bool
is_result message =
    is_none (received_count message) && (str_eq message "unsat" || str_eq message "sat")

unfoldable pub change_of : String → String → Option String → Change
unfolding received_count movement
change_of message current target = elim (received_count message) [
  | some n ↦ record no_change { edge_color = "blue"; partition = n }
  | none ↦
      if str_eq message "unsat" || str_eq message "sat"
      then record no_change { box_color = "green" }
      else if str_eq message "start"
      then record no_change { start = 1; edge_color = "red" }
      else elim target [ none ↦ no_change | some t ↦ movement current t ]
]

-- `if not key in self.node_dict`
unfoldable pub ensure : String → Dict String Entry → Dict String Entry
unfolding lookup insert
ensure key d = elim (lookup key d) [ none ↦ insert key new_entry d | some _ ↦ d ]

-- `self.node_dict[key]`, which is there by `ensure`
unfoldable pub entry_of : String → Dict String Entry → Entry
unfolding lookup
entry_of key d = elim (lookup key d) [ none ↦ new_entry | some e ↦ e ]

abbrev pub total : Change → ℕ
total c = c.start + c.push + c.pop_same + c.pop_different

-- The new entry of the node that the message is about
unfoldable pub arrive : ℕ → Change → Entry → Entry
unfolding ◌+ℤ◌
arrive rank c e = record {
  starts = e.starts + c.start;
  other_branch = e.other_branch + c.pop_different;
  rank = rank;
  box_color = c.box_color;
  edge_color = c.edge_color;
  partitions = if c.partition == 0 then e.partitions else e.partitions ++ c.partition ∷ [];
  same_branch = e.same_branch + c.pop_same;
  pushes = e.pushes + c.push;
  balance = e.balance +ℤ pos (total c);
}

-- The new entry of the node that the solver comes from
unfoldable pub leave : Change → Entry → Entry
unfolding ◌-ℤ◌
leave c e = record e { balance = e.balance -ℤ pos (if c.start == 0 then total c else 0) }

-- What the wire delivers is a text.
abbrev pub path_text : Value → Result String
path_text (text t) = ok t
path_text _ = err attribute_error

-- `header[NODE_]` if it is there, or else `header[NODE]`
unfoldable pub target_of : Header → Result String
unfolding lookup
target_of header = elim (lookup Constant.node_ header) [
  | some v ↦ path_text v
  | none ↦ elim (lookup Constant.node header) [ some v ↦ path_text v | none ↦ err key_error ]
]

-- An empty header names no node.
unfoldable pub target_path : Header → Result (Option String)
unfolding target_of
target_path [] = ok none
target_path (h ∷ header) = elim (target_of (h ∷ header)) [ err e ↦ err e | ok t ↦ ok (some t) ]

-- The path in the message, or that of the root
unfoldable pub current_path : String → String
unfolding brackets
current_path message = elim (brackets message) [ none ↦ "[]" | some path ↦ path ]

-- The entries after a message about `target`
unfoldable pub record_move :
    ℕ → Change → String → Option String → Dict String Entry → Dict String Entry
unfolding ensure entry_of insert arrive leave
record_move rank c current none d = ensure current d
record_move rank c current (some target) d =
    let d = ensure current (ensure target d) in
    let d = insert target (arrive rank c (entry_of target d)) d in
    insert current (leave c (entry_of current d)) d

-- `collectData_vTree(sock, message, header)`
unfoldable pub collect : String → Header → Exec Chart (Unit {0})
unfolding target_path current_path change_of record_move
collect message header s = elim (target_path header) [
  | err e ↦ (err e, s)
  | ok target ↦
      let current = current_path message in
      let rank = if is_result message then s.rank + 1 else s.rank in
      (
        ok tt,
        record {
          rank = rank;
          node_dict =
              record_move rank (change_of message current target) current target s.node_dict;
        },
      )
]
