-- ===== src/Dummy.antt =====
-- The test client of server/dummy_solver.py: `solver` with its loop over the messages. Its solving
-- process, the solver that prints clauses and the random choice of lemmas are arguments. What it does
-- not need of the messages is printed, and left out here.
pub mod Answers
pub mod Input
pub mod Typed
use Prim.Native.Char.{code}
use Prim.Native.String.{◌++◌ as str_append}
use package.text.Mathlib.Text.{◌==◌ as str_eq}
use smts.Prelude.{
  int, put_before, ℕ, zero, suc, ◌-◌, ◌+◌, ◌*◌, ◌==◌, String, Bool, true, false, not, ◌&&◌, ◌||◌,
  Option, none, some, List, [], ◌∷◌, ◌++◌, is_none, leb, if◌then◌else◌, Result, ok, err, key_error,
  type_error, value_error, or_raise, lookup, insert, erase, string_key, show_nat, show_path,
  is_empty,
}
use smts.Json.{Json, array, Items, smt_lines_of}
use smts.World.Effects.{Exec, reads, modify, pure, ◌>>=◌, ◌>>◌, when}
use smts.World.Objects.{Value, text, number, path, Header}
use smts.Config.Constant
use smts.Solver.Read.{has_key}
use smts.Instances.{before}

-- The local variables of `solver`, whether the process `p` is there, and the messages that were sent.
pub record Dummy : Type 0 where
  pub busy : Bool
  pub name : Option String
  pub node : Option String
  pub query : Option String
  pub smt : Option String
  pub clauses : Option Items
  pub sent : List (Header × String)

abbrev pub hello : Header
hello = (Constant.solver, text "dummy solver") ∷ []

unfoldable pub begin : Dummy
begin = record {
  busy = false;
  name = none;
  node = none;
  query = none;
  smt = none;
  clauses = none;
  sent = (hello, "") ∷ [];
}

-- `header[key]`: what arrives is a text.
unfoldable pub item : String → Header → Result String
unfolding lookup
item key header = elim (lookup key header) [
  | none ↦ err key_error
  | some (text s) ↦ ok s
  | some _ ↦ err type_error
]

-- `str(value)` of a variable that may be None
abbrev pub shown : Option String → String
shown none = "None"
shown (some s) = s

unfoldable pub write : Header → String → Exec Dummy (Unit {0})
write header message = modify λ s. record s { sent = s.sent ++ (header, message) ∷ [] }

-- `'\0'.join(['true' for _ in range(n)])`
unfoldable pub trues : ℕ → String
trues zero = ""
trues (suc zero) = "true"
trues (suc (suc n)) = put_before "true\0" (trues (suc n))

-- `stop`
abbrev pub stopped : Dummy → Dummy
stopped s = record s {
  busy = false;
  name = none;
  node = none;
  query = none;
  smt = none;
  clauses = none;
}

-- `solve` and `incremental`. An exception ends the client.
unfoldable pub begin_solving : Bool → Header → String → Exec Dummy (Unit {0})
unfolding item lookup
begin_solving afresh header message = do
  name ← reads λ s. item Constant.name header
  node ←
      reads
        λ s. item (if has_key Constant.node_ header then Constant.node_ else Constant.node) header
  query ← reads λ s. if has_key Constant.query header then item Constant.query header else ok ""
  input ← reads λ s.
      if afresh
      then ok message
      else elim s.smt [ none ↦ err type_error | some before ↦ ok (str_append before message) ]
  modify λ s. record s {
    busy = true;
    name = some name;
    node = some node;
    query = some query;
    smt = some input;
  }

-- `partition`: as many trivial partitions as are asked for
unfoldable pub send_partitions : Header → Exec Dummy (Unit {0})
unfolding item int trues write
send_partitions header = do
  asked ← reads λ s. item Constant.partitions header
  n ← reads λ s. int asked
  name ← reads λ s. ok (shown s.name)
  node ← reads λ s. ok (shown s.node)
  write
      ((Constant.name, text name)
        ∷ (Constant.node, text node)
        ∷ (Constant.report, text Constant.partitions)
        ∷ [])
      (trues n)

-- The process ends with a result, and reports it.
unfoldable pub report : String → Exec Dummy (Unit {0})
unfolding write
report status = do
  working ← reads λ s. ok s.busy
  name ← reads λ s. ok (shown s.name)
  node ← reads λ s. ok (shown s.node)
  when working (
      write
        ((Constant.name, text name)
          ∷ (Constant.node, text node)
          ∷ (Constant.report, text status)
          ∷ [])
        "")

-- `header["report"] = header["command"]; header.pop('command')`
unfoldable pub as_report : String → Header → Header
unfolding insert erase
as_report command header = erase Constant.command (insert Constant.report (text command) header)

module _ (clauses_of : String → String) (smt2json : String → Result Items)
    (learn : Items → Result Json) where
  -- `get_cnf`, which returns the text of the clauses
  unfoldable pub get_cnf : Exec Dummy String
  get_cnf = do
    input ← reads λ s. ok (
        str_append (elim s.smt [ none ↦ "" | some t ↦ t ])
          (elim s.query [ none ↦ "" | some t ↦ t ]))
    clauses ← reads λ s. smt2json (clauses_of input)
    modify λ s. record s { clauses = some clauses }
    pure (clauses_of input)

  -- `cnf-clauses`
  unfoldable pub send_clauses : String → Header → String → Exec Dummy (Unit {0})
  unfolding get_cnf as_report write item
  send_clauses command header message = do
    query ← reads λ s. if has_key Constant.query header then item Constant.query header else ok ""
    when (has_key Constant.query header)
        (modify λ s. record s { query = some query; smt = some message })
    cnf ← get_cnf
    write (as_report command header) cnf

  -- `cnf-learnts`
  unfoldable pub send_learnts : String → Header → Exec Dummy (Unit {0})
  unfolding get_cnf as_report write
  send_learnts command header = do
    missing ← reads λ s. ok (is_none s.clauses)
    when missing (do get_cnf; pure tt)
    clauses ← reads λ s. or_raise type_error s.clauses
    learnts ← reads λ s. learn clauses
    write (as_report command header) (smt_lines_of (Items.cons learnts Items.nil))

  -- The branches on the command. The test for `cnf-clauses` is whether the command is a part of it.
  unfoldable pub obey : String → Header → String → Exec Dummy (Unit {0})
  unfolding begin_solving send_partitions send_clauses send_learnts before
  obey command header message =
      if str_eq command Constant.solve
      then begin_solving true header message
      else if str_eq command Constant.incremental
      then begin_solving false header message
      else if str_eq command Constant.partition
      then send_partitions header
      else if not (is_none (before command "cnf-clauses"))
      then send_clauses command header message
      else if str_eq command "cnf-learnts"
      then send_learnts command header
      else pure tt

  -- One round of the loop
  unfoldable pub hear : Header → String → Exec Dummy (Unit {0})
  unfolding obey item
  hear header message = do
    command ← reads λ s. item Constant.command header
    stops ← reads λ s. ok (s.busy && str_eq command Constant.stop)
    if stops then modify stopped else obey command header message
