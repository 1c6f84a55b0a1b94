-- ===== src/Protocol/Delivery.antt =====
-- What becomes of a header on its way: `Socket._bytes` (server/net.py) writes every value as a text.
use smts.Prelude.{
  ℕ, ◌≡◌, refl, String, Option, none, some, [], ◌∷◌, show_nat, show_path, lookup, string_key,
  Bool-cases, inl, inr,
}
use smts.World.Objects.{Value, text, number, path, node, Header}

-- `node_text` is what `str` makes of a node; none is sent.
module _ (node_text : ℕ → String) where
  unfoldable pub wire_text : Value → String
  unfolding show_nat show_path
  wire_text (text s) = s
  wire_text (number n) = show_nat n
  wire_text (path p) = show_path p
  wire_text (node n) = node_text n

  unfoldable pub deliver : Header → Header
  unfolding wire_text
  deliver [] = []
  deliver ((k, v) ∷ h) = (k, text (wire_text v)) ∷ deliver h

  abbrev pub delivered_value : Option Value → Option Value
  delivered_value none = none
  delivered_value (some v) = some (text (wire_text v))

  pub lookup-deliver :
      (k : String) (h : Header) → lookup k (deliver h) ≡ delivered_value (lookup k h)
  unfolding lookup deliver
  lookup-deliver k [] = refl
  lookup-deliver k ((j, v) ∷ h) = elim (Bool-cases (string_key.same j k)) [
    | inl same ↦ rw (same, lookup, deliver) refl
    | inr other ↦ rw (other, lookup, deliver) (lookup-deliver k h)
  ]
