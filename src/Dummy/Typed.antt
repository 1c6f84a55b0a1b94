-- ===== src/Dummy/Typed.antt =====
-- The test client understands every message that fits its command.
pub mod Found
use package.text.Mathlib.Text.{◌==◌ as str_eq}
use package.text.Mathlib.TextEquality.{eq_iff}
use smts.Prelude.{
  ℕ, ◌≡◌, ◌≢◌, refl, sym, ap, ◌∙◌, subst, ◌⊎◌, inl, inr, String, Bool, true, false, ◌&&◌, Option,
  none, some, List, Result, ok, err, type_error, lookup, string_key, if◌then◌else◌, arith,
  Bool-cases, Option-cases, int-show_nat,
}
use smts.Json.{Json, Items}
use smts.World.Effects.{reads, modify, pure, ◌>>=◌}
use smts.World.Objects.{Value, text, number, path, Header}
use smts.Config.Constant
use smts.Instances.{before, starts_with}
use smts.Solver.Read.{has_key}
use smts.Protocol.Messages.Entries.{is_text, is_number, is_path, names_node, fits, is_typed}
use smts.Protocol.Delivery.{delivered_value, wire_text, deliver, lookup-deliver}
use smts.Dummy.{Dummy, item, write, begin_solving, send_partitions, obey, hear}
use smts.Dummy.Answers.{and_false}
use smts.Dummy.Input.{IsInput, hear-solve}
use smts.Dummy.Typed.Found.{a_number, found, input}

-- A message with command `c` is taken without an exception, or it is an increment and the client
-- has no input, which raises TypeError.
abbrev pub Hears : String → Dummy → Result (Unit {0}) → Type 0
Hears c s r =
    ((r ≡ ok tt) × ((c ≡ Constant.incremental) → s.smt ≢ none))
    ⊎ ((r ≡ err type_error) × (c ≡ Constant.incremental) × (s.smt ≡ none))

module _ (node_text : ℕ → String) (clauses_of : String → String) (smt2json : String → Result Items)
    (learn : Items → Result Json) where
  hear-solve_typed :
      (h : Header) (message : String) (s : Dummy)
      → lookup Constant.command h ≡ some (text Constant.solve)
      → names_node h ≡ true
      → (hear clauses_of smt2json learn (deliver node_text h) message s).0 ≡ ok tt
  hear-solve_typed h message s is_c named =
      let (name, at, g) = input node_text Constant.solve h is_c named in
      ap (λ x. x.0) (hear-solve clauses_of smt2json learn (deliver node_text h) message name at s g)

  hear-incremental_typed :
      (h : Header) (message : String) (s : Dummy)
      → lookup Constant.command h ≡ some (text Constant.incremental)
      → names_node h ≡ true
      → Hears Constant.incremental s
          (hear clauses_of smt2json learn (deliver node_text h) message s).0
  unfolding hear obey begin_solving ◌>>=◌ reads modify item
  hear-incremental_typed h message s is_c named =
      let (name, at, g) = input node_text Constant.incremental h is_c named in
      elim (Option-cases s.smt) [
        | inl nothing ↦ inr (
          simp (
            g.commands, g.names, g.leads, g.asks, nothing, and_false, hear, obey, begin_solving,
            item,
          ),
          refl,
          nothing,
        )
        | inr (old, has_input) ↦ inl (
          simp (
            g.commands, g.names, g.leads, g.asks, has_input, and_false, hear, obey, begin_solving,
            item,
          ),
          λ _ nothing. cc,
        )
      ]

  hear_partition_typed :
      (h : Header) (message : String) (s : Dummy)
      → lookup Constant.command h ≡ some (text Constant.partition)
      → is_number (lookup Constant.partitions h) ≡ true
      → (hear clauses_of smt2json learn (deliver node_text h) message s).0 ≡ ok tt
  unfolding hear obey send_partitions write ◌>>=◌ reads modify item wire_text
  hear_partition_typed h message s is_c counted =
      let (n, count) = a_number (lookup Constant.partitions h) counted in
      let commands = found node_text Constant.command h is_c in
      let asked = found node_text Constant.partitions h count in
      simp (commands, asked, int-show_nat n, and_false, hear, obey, item, send_partitions)

  -- A command that the client has no branch for, or one to stop
  hear_other_typed :
      (c : String) (h : Header) (message : String) (s : Dummy)
      → lookup Constant.command h ≡ some (text c)
      → obey clauses_of smt2json learn c (deliver node_text h) message ≡ pure tt
      → (hear clauses_of smt2json learn (deliver node_text h) message s).0 ≡ ok tt
  unfolding hear ◌>>=◌ reads modify item pure wire_text
  hear_other_typed c h message s is_c nothing =
      let commands = found node_text Constant.command h is_c in
      elim (Bool-cases (s.busy && str_eq c Constant.stop)) [
        | inl stops ↦ simp (commands, stops, hear, item)
        | inr goes ↦ simp (commands, goes, nothing, hear, item)
      ]

  by_command :
      (c word : String) (h : Header)
      → str_eq c word ≡ true
      → lookup Constant.command h ≡ some (text c)
      → lookup Constant.command h ≡ some (text word)
  by_command c word h same is_c = is_c ∙ ap (λ x. some (text x)) ((eq_iff c word).0 same)

  ignores_lemmas :
      (h : Header) (message : String)
      → obey clauses_of smt2json learn Constant.lemmas h message ≡ pure tt
  unfolding obey before starts_with
  ignores_lemmas h message = refl

  ignores_stop :
      (h : Header) (message : String)
      → obey clauses_of smt2json learn Constant.stop h message ≡ pure tt
  unfolding obey before starts_with
  ignores_stop h message = refl

  ignores_terminate :
      (h : Header) (message : String)
      → obey clauses_of smt2json learn Constant.terminate h message ≡ pure tt
  unfolding obey before starts_with
  ignores_terminate h message = refl

  -- Any other command is taken.
  takes :
      (c word : String) (s : Dummy) (r : Result (Unit {0}))
      → str_eq word Constant.incremental ≡ false
      → c ≡ word
      → r ≡ ok tt
      → Hears c s r
  takes c word s r other is e = inl (
    e,
    λ more. absurd (ground (arith, other, (eq_iff word Constant.incremental).1 (sym is ∙ more))),
  )

  -- A command that is neither `solve` nor an increment
  other_taken :
      (h : Header) (c message : String) (s : Dummy)
      → lookup Constant.command h ≡ some (text c)
      → fits (some (text c)) h ≡ true
      → str_eq c Constant.solve ≡ false
      → str_eq c Constant.incremental ≡ false
      → (hear clauses_of smt2json learn (deliver node_text h) message s).0 ≡ ok tt
  other_taken h c message s is_c fitting not_solve not_more =
      elim (Bool-cases (str_eq c Constant.partition)) [
        | inl split ↦
            hear_partition_typed h message s (by_command c Constant.partition h split is_c)
              (ground (arith, fitting, not_solve, not_more, split))
        | inr not_split ↦ elim (Bool-cases (str_eq c Constant.lemmas)) [
          | inl lemmas ↦
              hear_other_typed Constant.lemmas h message s
                (by_command c Constant.lemmas h lemmas is_c)
                (ignores_lemmas (deliver node_text h) message)
          | inr not_lemmas ↦ elim (Bool-cases (str_eq c Constant.stop)) [
            | inl stop ↦
                hear_other_typed Constant.stop h message s (by_command c Constant.stop h stop is_c)
                  (ignores_stop (deliver node_text h) message)
            | inr not_stop ↦
                hear_other_typed Constant.terminate h message s
                  (by_command c Constant.terminate h
                    (ground (arith, fitting, not_solve, not_more, not_split, not_lemmas, not_stop))
                    is_c)
                  (ignores_terminate (deliver node_text h) message)
          ]
        ]
      ]

  -- A delivered message of the protocol that has a command is taken by the client without an
  -- exception, unless it is an increment and the client has no input, which raises TypeError; in
  -- particular the client finds every entry that it looks for.
  pub hear-IsTyped :
      (h : Header) (c message : String) (s : Dummy)
      → lookup Constant.command h ≡ some (text c)
      → is_typed h ≡ true
      → Hears c s (hear clauses_of smt2json learn (deliver node_text h) message s).0
  unfolding is_typed
  hear-IsTyped h c message s is_c typed =
      let fitting : fits (some (text c)) h ≡ true = subst (λ o. fits o h ≡ true) is_c typed in
      elim (Bool-cases (str_eq c Constant.solve)) [
        | inl solve ↦ takes c Constant.solve s _ refl ((eq_iff c Constant.solve).0 solve) (
            hear-solve_typed h message s (by_command c Constant.solve h solve is_c)
              (ground (arith, fitting, solve)))
        | inr not_solve ↦ elim (Bool-cases (str_eq c Constant.incremental)) [
          | inl more ↦
              subst
                (λ word.
                  Hears word s (hear clauses_of smt2json learn (deliver node_text h) message s).0)
                (sym ((eq_iff c Constant.incremental).0 more))
                (hear-incremental_typed h message s (by_command c Constant.incremental h more is_c)
                  (ground (arith, fitting, not_solve, more)))
          | inr not_more ↦ inl (
            other_taken h c message s is_c fitting not_solve not_more,
            λ e. absurd (ground (arith, not_more, (eq_iff c Constant.incremental).1 e)),
          )
        ]
      ]
