-- ===== src/Dummy/Input.antt =====
-- What the test client solves, and whether its reports fit.
use Prim.Native.String.{◌++◌ as str_append}
use package.text.Mathlib.Text.{◌==◌ as str_eq}
use package.text.Mathlib.TextEquality.{eq_iff}
use smts.Prelude.{
  ℕ, ◌≡◌, refl, String, true, some, List, [], ◌∷◌, ◌++◌, Result, ok, lookup, string_key, show_path,
  if◌then◌else◌, Memᴰ,
}
use smts.Json.{Json, Items}
use smts.Tree.Defs.{Tree}
use smts.Tree.Walk
use smts.World.Effects.{Exec, reads, modify, pure, ◌>>=◌, when, for_each}
use smts.World.Objects.{text, Header, root_name}
use smts.Config.Constant
use smts.Solver.Read.{is_current, has_key}
use smts.Dummy.{Dummy, item, write, begin_solving, report, obey, hear}
use smts.Dummy.Answers.{answer, and_false}

str_self : (x : String) → str_eq x x ≡ true
str_self x = (eq_iff x x).1 refl

-- A header with a command, and what `solver` takes from it: the name, the path and the query.
pub record IsInput (command name node : String) (header : Header) : Type 0 where
  pub commands : lookup Constant.command header ≡ some (text command)
  pub names : lookup Constant.name header ≡ some (text name)
  pub leads :
      item (if has_key Constant.node_ header then Constant.node_ else Constant.node) header
      ≡ ok node
  pub query : String
  pub asks :
      (if has_key Constant.query header then item Constant.query header else ok "") ≡ ok query

-- The client once it solves `smt`
abbrev pub solving : String → String → String → String → Dummy → Dummy
solving name node query smt s = record s {
  busy = true;
  name = some name;
  node = some node;
  query = some query;
  smt = some smt;
}

module _ (clauses_of : String → String) (smt2json : String → Result Items)
    (learn : Items → Result Json) where
  pub hear-solve :
      (header : Header) (message name node : String) (s : Dummy)
      → (g : IsInput Constant.solve name node header)
      → hear clauses_of smt2json learn header message s
        ≡ (ok tt, solving name node g.query message s)
  unfolding hear obey begin_solving ◌>>=◌ reads modify item
  hear-solve header message name node s g =
      simp (g.commands, g.names, g.leads, g.asks, and_false, hear, obey, begin_solving, item)

  hear-incremental :
      (header : Header) (message name node input : String) (s : Dummy)
      → (g : IsInput Constant.incremental name node header) → s.smt ≡ some input
      → hear clauses_of smt2json learn header message s
        ≡ (ok tt, solving name node g.query (str_append input message) s)
  unfolding hear obey begin_solving ◌>>=◌ reads modify item
  hear-incremental header message name node input s g has_input =
      simp (
        g.commands, g.names, g.leads, g.asks, has_input, and_false, hear, obey, begin_solving, item,
      )

  -- The input behind a list of further messages
  abbrev pub texts : String → List (Header × String) → String
  texts input [] = input
  texts input ((_, message) ∷ l) = texts (str_append input message) l

  abbrev pub hear_all : List (Header × String) → Exec Dummy (Unit {0})
  hear_all l = for_each l λ e. hear clauses_of smt2json learn e.0 e.1

  increments :
      (l : List (Header × String)) (input : String) (s : Dummy)
      → s.smt ≡ some input
      → ((e : Header × String)
          → Memᴰ e l
          → (name : String) × (node : String) × IsInput Constant.incremental name node e.0)
      → ((hear_all l s).0 ≡ ok tt) × ((hear_all l s).1.smt ≡ some (texts input l))
  unfolding for_each pure reads ◌>>=◌
  increments [] input s has_input inputs = (refl, has_input)
  increments ((h, message) ∷ l) input s has_input inputs =
      let (name, node, g) = inputs (h, message) (Memᴰ.head refl) in
      rw (hear-incremental h message name node input s g has_input) (
        increments l (str_append input message)
          (solving name node g.query (str_append input message) s) refl
          λ e m. inputs e (Memᴰ.tail m))

  -- A `solve` message and any number of `incremental` messages behind it are all taken, whatever the
  -- client did before, and then its input is the texts of these messages, one behind the other.
  pub hear_texts :
      (header : Header) (message name node : String) (l : List (Header × String)) (s : Dummy)
      → IsInput Constant.solve name node header
      → ((e : Header × String)
          → Memᴰ e l
          → (name : String) × (node : String) × IsInput Constant.incremental name node e.0)
      → ((hear_all ((header, message) ∷ l) s).0 ≡ ok tt)
        × ((hear_all ((header, message) ∷ l) s).1.smt ≡ some (texts message l))
  unfolding for_each ◌>>=◌
  hear_texts header message name node l s g inputs =
      rw (hear-solve header message name node s g)
        (increments l message (solving name node g.query message s) refl inputs)

  -- A result that the client reports for a node that it was told to solve is taken by the server for a
  -- result of that node, if the message had the node's name and its path as `str` writes it.
  pub report-is_current :
      (t : Tree) (n : ℕ) (name : String) (at : List ℕ) (header : Header) (message status : String)
      (s : Dummy)
      → root_name t n ≡ ok name
      → Walk.path t n ≡ ok at
      → IsInput Constant.solve name (show_path at) header
      → (h : Header) × ((hear clauses_of smt2json learn header message >>= λ _. report status) s ≡ (
        ok tt,
        (let s' = (hear clauses_of smt2json learn header message s).1 in
            record s' { sent = s'.sent ++ (h, "") ∷ [] }),
      ))
        × (is_current t n h ≡ ok true)
  unfolding report write ◌>>=◌ reads modify when is_current lookup
  report-is_current t n name at header message status s is_name is_at g = (
    answer status (solving name (show_path at) g.query message s),
    rw (hear-solve header message name (show_path at) s g) refl,
    simp (is_name, is_at, str_self, is_current),
  )
