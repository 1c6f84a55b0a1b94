-- ===== src/Dummy/Typed/Found.antt =====
-- What the test client finds in a message that fits its command.
use smts.Prelude.{
  ℕ, ◌≡◌, refl, ap, ◌∙◌, inl, inr, String, Bool, true, false, Option, none, some, List, ok, lookup,
  string_key, if◌then◌else◌, arith, Option-cases,
}
use smts.World.Objects.{Value, text, number, path, Header}
use smts.Config.Constant
use smts.Solver.Read.{has_key}
use smts.Protocol.Messages.Entries.{is_text, is_number, is_path, names_node}
use smts.Protocol.Delivery.{delivered_value, wire_text, deliver, lookup-deliver}
use smts.Dummy.{item}
use smts.Dummy.Input.{IsInput}

a_text : (o : Option Value) → is_text o ≡ true → (s : String) × (o ≡ some (text s))
a_text none h = absurd (cc)
a_text (some (text s)) h = (s, refl)
a_text (some (number n)) h = absurd (cc)
a_text (some (path p)) h = absurd (cc)
a_text (some (Value.node n)) h = absurd (cc)

a_path : (o : Option Value) → is_path o ≡ true → (p : List ℕ) × (o ≡ some (path p))
a_path none h = absurd (cc)
a_path (some (text s)) h = absurd (cc)
a_path (some (number n)) h = absurd (cc)
a_path (some (path p)) h = (p, refl)
a_path (some (Value.node n)) h = absurd (cc)

pub a_number : (o : Option Value) → is_number o ≡ true → (n : ℕ) × (o ≡ some (number n))
a_number none h = absurd (cc)
a_number (some (text s)) h = absurd (cc)
a_number (some (number n)) h = (n, refl)
a_number (some (path p)) h = absurd (cc)
a_number (some (Value.node n)) h = absurd (cc)

module _ (node_text : ℕ → String) where
  pub found :
      (k : String) (h : Header) {v : Value}
      → lookup k h ≡ some v
      → lookup k (deliver node_text h) ≡ some (text (wire_text node_text v))
  found k h e = rw (lookup-deliver node_text k h, e) refl

  pub item_found :
      (k : String) (h : Header) {v : Value}
      → lookup k h ≡ some v
      → item k (deliver node_text h) ≡ ok (wire_text node_text v)
  unfolding item
  item_found k h e = rw (found k h e, item) refl

  there_is : Option Value → Bool
  there_is none = false
  there_is (some v) = true

  has_key_lem : (k : String) (h : Header) → has_key k (deliver node_text h) ≡ there_is (lookup k h)
  unfolding there_is
  has_key_lem k h = elim (Option-cases (lookup k h)) [
    | inl missing ↦ rw missing (
        ap (λ o. elim o as (λ _. Bool) [ none ↦ false | some _ ↦ true ])
          (lookup-deliver node_text k h ∙ ap (delivered_value node_text) missing))
    | inr (v, there) ↦
        rw there
          (ap (λ o. elim o as (λ _. Bool) [ none ↦ false | some _ ↦ true ]) (found k h there))
  ]

  -- An entry that may be missing
  pub item_or :
      (k : String) (h : Header)
      → (s : String) × ((if has_key k (deliver node_text h)
            then item k (deliver node_text h)
            else ok "")
          ≡ ok s)
  unfolding there_is
  item_or k h =
      let among = λ (b : Bool). if b then item k (deliver node_text h) else ok "" in
      elim (Option-cases (lookup k h)) [
        | inl missing ↦ ("", ap among (has_key_lem k h ∙ ap there_is missing))
        | inr (v, there) ↦ (
          wire_text node_text v,
          ap among (has_key_lem k h ∙ ap there_is there) ∙ item_found k h there,
        )
      ]

  pub leads_to :
      (h : Header) (v : Value)
      → lookup Constant.node h ≡ some v
      → (s : String) × (item
            (if has_key Constant.node_ (deliver node_text h) then Constant.node_ else Constant.node)
            (deliver node_text h)
          ≡ ok s)
  unfolding there_is
  leads_to h v there =
      let among =
        λ (b : Bool). item (if b then Constant.node_ else Constant.node) (deliver node_text h) in
      elim (Option-cases (lookup Constant.node_ h)) [
        | inl missing ↦ (
          wire_text node_text v,
          ap among (has_key_lem Constant.node_ h ∙ ap there_is missing)
              ∙ item_found Constant.node h there,
        )
        | inr (u, moves) ↦ (
          wire_text node_text u,
          ap among (has_key_lem Constant.node_ h ∙ ap there_is moves)
              ∙ item_found Constant.node_ h moves,
        )
      ]

  pub input :
      (c : String) (h : Header)
      → lookup Constant.command h ≡ some (text c)
      → names_node h ≡ true
      → (name : String) × (node : String) × IsInput c name node (deliver node_text h)
  unfolding wire_text
  input c h is_c named =
      let (name, has_name) = a_text (lookup Constant.name h) (ground (arith, named)) in
      let (p, has_node) = a_path (lookup Constant.node h) (ground (arith, named)) in
      let (at, leads) = leads_to h (path p) has_node in
      let (q, asks) = item_or Constant.query h in
      (
        name,
        at,
        record {
          commands = found Constant.command h is_c;
          names = found Constant.name h has_name;
          leads = leads;
          query = q;
          asks = asks;
        },
      )
