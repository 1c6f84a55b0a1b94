-- ===== src/Instances/Fixedpoint/Rules.antt =====
-- What `partition` makes of the rules of a problem.
use Prim.Native.String.{◌++◌ as str_append}
use package.text.Mathlib.Text.{◌==◌ as str_eq}
use smts.Prelude.{
  ℕ, zero, suc, ◌≡◌, refl, ap, ◌∙◌, sym, String, Bool, true, false, not, ◌&&◌, none, some, List, [],
  ◌∷◌, is_none, if◌then◌else◌, show_nat, arith, Option-cases, Bool-cases, inl, inr,
}
use smts.Json.{Json, str, array, Items, nil, cons}
use smts.Instances.Fixedpoint.{same_json, replace_head, split_rules}

-- Whether the head of a rule, below its lets, is the query
unfoldable pub is_for : Json → Json → Bool
is_for query (array (cons (str head) (cons a (cons b rest)))) =
    let below = is_for query b in
    if str_eq head "let" then below else str_eq head "=>" && same_json b query
is_for query _ = false

abbrev pub is_rule_for : Json → Json → Bool
is_rule_for query (array (cons (str word) (cons body rest))) =
    str_eq word "rule" && is_for query body
is_rule_for query _ = false

abbrev pub count_rules : Json → Items → ℕ
count_rules query nil = 0
count_rules query (cons i l) =
    let rest = count_rules query l in if is_rule_for query i then suc rest else rest

abbrev pub count_items : Items → ℕ
count_items nil = 0
count_items (cons i l) = suc (count_items l)

-- `k` names from the number `n` on
abbrev pub numbered : String → ℕ → ℕ → List String
numbered name n zero = []
numbered name n (suc k) = str_append name (show_nat n) ∷ numbered name (suc n) k

is_none-if : (b : Bool) (x : Json) → is_none (if b then some x else none) ≡ not b
is_none-if true x = refl
is_none-if false x = refl

replace_head_iff :
    (query : Json) (name : String) (body : Json)
    → is_none (replace_head query name body) ≡ not (is_for query body)
unfolding replace_head is_for
replace_head_iff query name (str s) = refl
replace_head_iff query name (array nil) = refl
replace_head_iff query name (array (cons (str head) nil)) = refl
replace_head_iff query name (array (cons (str head) (cons a nil))) = refl
replace_head_iff query name (array (cons (str head) (cons a (cons b rest)))) =
    elim (Bool-cases (str_eq head "let")) [
      | inl is_let ↦
          let below = replace_head_iff query name b in
          elim (Option-cases (replace_head query name b)) [
            | inl gone ↦ rw (is_let, gone, replace_head, is_for) (ap is_none (sym gone) ∙ below)
            | inr (b', there) ↦
                rw (is_let, there, replace_head, is_for) (ap is_none (sym there) ∙ below)
          ]
      | inr other ↦ rw other (is_none-if (str_eq head "=>" && same_json b query) _)
    ]
replace_head_iff query name (array (cons (array l) rest)) = refl

-- The rule is for the query if its head is replaced.
found :
    (query : Json) (name : String) (body body' : Json)
    → replace_head query name body ≡ some body'
    → is_for query body ≡ true
found query name body body' there =
    let told = replace_head_iff query name body in ground (arith, told, there)

not_found :
    (query : Json) (name : String) (body : Json)
    → replace_head query name body ≡ none
    → is_for query body ≡ false
not_found query name body gone =
    let told = replace_head_iff query name body in ground (arith, told, gone)

-- The new queries are the old one with the numbers from `n` on, one for each rule for the query, in
-- order; and there are as many items as before.
pub split_rules_lem :
    (format : Json → String) (query : Json) (n : ℕ) (l : Items)
    → ((split_rules format query n l).1 ≡ numbered (format query) n (count_rules query l))
      × (count_items (split_rules format query n l).0 ≡ count_items l)
unfolding split_rules
split_rules_lem format query n nil = (refl, refl)
split_rules_lem format query n (cons (str s) l) =
    let rest = split_rules_lem format query n l in (rest.0, ap suc rest.1)
split_rules_lem format query n (cons (array nil) l) =
    let rest = split_rules_lem format query n l in (rest.0, ap suc rest.1)
split_rules_lem format query n (cons (array (cons (str word) nil)) l) =
    let rest = split_rules_lem format query n l in (rest.0, ap suc rest.1)
split_rules_lem format query n (cons (array (cons (array i) r)) l) =
    let rest = split_rules_lem format query n l in (rest.0, ap suc rest.1)
split_rules_lem format query n (cons (array (cons (str word) (cons body r))) l) =
    let kept = split_rules_lem format query n l in
    let split = split_rules_lem format query (suc n) l in
    let name = str_append (format query) (show_nat n) in
    elim (Bool-cases (str_eq word "rule")) [
      | inr other ↦ rw (other, split_rules) (kept.0, ap suc kept.1)
      | inl is_rule ↦ elim (Option-cases (replace_head query name body)) [
        | inl gone ↦
            rw (is_rule, gone, not_found query name body gone, split_rules) (kept.0, ap suc kept.1)
        | inr (body', there) ↦
            rw (is_rule, there, found query name body body' there, split_rules)
              (ap (λ l. name ∷ l) split.0, ap suc split.1)
      ]
    ]
