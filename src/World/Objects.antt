-- ===== src/World/Objects.antt =====
-- The objects, and access to their attributes.
use smts.Prelude.{ℕ, String, Option, List, Dict, Result, ok, err, attribute_error}
use smts.Tree.Defs.{Tree, Marks, root_node}
use smts.Config.{Config}

-- A value in a message header: a text, a number, a path or, inside the server, a node.
pub data Value : Type 0 where
  text : String → Value
  number : ℕ → Value
  path : List ℕ → Value
  node : ℕ → Value

abbrev pub Header : Type 0
Header = Dict String Value

pub record Message : Type 0 where
  pub receiver : ℕ
  pub header : Header
  pub payload : String

-- The attributes of a `Solver`. The socket below it is its number.
pub record Solver : Type 0 where
  pub name : String
  pub node : Option ℕ
  pub started : Option ℕ
  pub or_waiting : List ℕ
  pub parameters : Header

pub record World : Type 0 where
  pub tree : Tree
  pub marks : Marks
  pub solvers : ℕ → Solver
  pub config : Config
  pub sent : List Message

-- `node.root.name`
unfoldable pub root_name : Tree → ℕ → Result String
root_name t n = elim (t.class (t.root n)) [ root_node f name ↦ ok name | _ ↦ err attribute_error ]
