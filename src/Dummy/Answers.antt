-- ===== src/Dummy/Answers.antt =====
-- What the test client answers is what the server expects.
use smts.Prelude.{
  int, put_before, ℕ, zero, suc, ◌≡◌, refl, ap, ◌∙◌, String, Bool, false, some, List, [], ◌∷◌, ◌++◌,
  Result, ok, lookup, string_key, split_nul, arith, ◌&&◌,
}
use smts.Json.{Json, Items}
use smts.World.Effects.{reads, modify, ◌>>=◌}
use smts.World.Objects.{text, Header}
use smts.Config.Constant
use smts.Dummy.{Dummy, item, trues, shown, write, send_partitions, obey, hear}

abbrev pub replicate : ℕ → String → List String
replicate zero s = []
replicate (suc n) s = s ∷ replicate n s

split_true : (s : String) → split_nul (put_before "true\0" s) ≡ "true" ∷ split_nul s
unfolding split_nul
split_true s = refl

trues-split : (n : ℕ) → split_nul (trues (suc n)) ≡ replicate (suc n) "true"
unfolding trues split_nul
trues-split zero = refl
trues-split (suc n) = split_true (trues (suc n)) ∙ ap (λ l. "true" ∷ l) (trues-split n)

-- The header of the partitions that are sent, and of a result
abbrev pub answer : String → Dummy → Header
answer what s =
    (Constant.name, text (shown s.name))
    ∷ (Constant.node, text (shown s.node))
    ∷ (Constant.report, text what)
    ∷ []

pub and_false : (b : Bool) → (b && false) ≡ false
and_false b = ground arith

module _ (clauses_of : String → String) (smt2json : String → Result Items)
    (learn : Items → Result Json) where
  -- Asked for one or more partitions, the client sends one message, about the node that it works on,
  -- which the server splits into just as many partitions.
  pub hear_partition :
      (header : Header) (message asked : String) (n : ℕ) (s : Dummy)
      → lookup Constant.command header ≡ some (text Constant.partition)
      → lookup Constant.partitions header ≡ some (text asked)
      → int asked ≡ ok (suc n)
      → (p : String) × (hear clauses_of smt2json learn header message s
          ≡ (ok tt, record s { sent = s.sent ++ (answer Constant.partitions s, p) ∷ [] }))
        × (split_nul p ≡ replicate (suc n) "true")
  unfolding hear obey item send_partitions write ◌>>=◌ reads modify
  hear_partition header message asked n s is_partition count is_n = (
    trues (suc n),
    simp (is_partition, count, is_n, and_false, hear, obey, item, send_partitions),
    trues-split n,
  )
