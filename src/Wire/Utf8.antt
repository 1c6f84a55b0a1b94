-- ===== src/Wire/Utf8.antt =====
-- `str.encode('utf8')` and `bytes.decode()`, which `Socket` calls: strict UTF-8 over code points.
use smts.Prelude.{
  ℕ, zero, suc, ◌+◌, ◌-◌, ◌*◌, ◌/◌, ◌%◌, ◌<◌, ◌≤◌, ◌≡◌, refl, Bool, true, ◌&&◌, not, List, [], ◌∷◌,
  ◌++◌, arith, ltb, leb, if◌then◌else◌, Result, ok, err, unicode_error, ◌>>=◌, >>=-eq-ok, ok-eq,
  Bool-cases, inl, inr, ltb→lt, ltb→le, ◌∙◌, subst,
}

abbrev pub Bytes : Type 0
Bytes = List ℕ

-- A code point that has an encoding.
unfoldable pub is_scalar : ℕ → Bool
is_scalar c = ltb c 0x110000 && not (leb 0xd800 c && leb c 0xdfff)

unfoldable pub encode_char : ℕ → Bytes
encode_char c =
    if ltb c 0x80
    then c ∷ []
    else if ltb c 0x800
    then (192 + c / 64) ∷ (128 + c % 64) ∷ []
    else if ltb c 0x10000
    then (224 + c / 4096) ∷ (128 + c / 64 % 64) ∷ (128 + c % 64) ∷ []
    else (240 + c / 262144) ∷ (128 + c / 4096 % 64) ∷ (128 + c / 64 % 64) ∷ (128 + c % 64) ∷ []

-- `text.encode('utf8')`
unfoldable pub encode : List ℕ → Result Bytes
unfolding is_scalar encode_char
encode [] = ok []
encode (c ∷ s) =
    if is_scalar c then (do bs ← encode s; ok (encode_char c ++ bs)) else err unicode_error

-- The decoder between two bytes: how many continuation bytes it wants, the bits so far, and the
-- least code point that may be written in this length.
unfoldable pub decode_from : ℕ → ℕ → ℕ → Bytes → Result (List ℕ)
unfolding is_scalar
decode_from zero acc least [] = ok []
decode_from (suc k) acc least [] = err unicode_error
decode_from zero acc least (b ∷ bs) =
    let plain = decode_from 0 0 0 bs in
    let two = decode_from 1 (b - 192) 0x80 bs in
    let three = decode_from 2 (b - 224) 0x800 bs in
    let four = decode_from 3 (b - 240) 0x10000 bs in
    if ltb b 0x80
    then plain >>= (λ s. ok (b ∷ s))
    else if ltb b 194
    then err unicode_error
    else if ltb b 224
    then two
    else if ltb b 240
    then three
    else if ltb b 245
    then four
    else err unicode_error
decode_from (suc zero) acc least (b ∷ bs) =
    let rest = decode_from 0 0 0 bs in
    let c = acc * 64 + (b - 128) in
    if leb 128 b && ltb b 192 && leb least c && is_scalar c
    then rest >>= (λ s. ok (c ∷ s))
    else err unicode_error
decode_from (suc (suc k)) acc least (b ∷ bs) =
    let rest = decode_from (suc k) (acc * 64 + (b - 128)) least bs in
    if leb 128 b && ltb b 192 then rest else err unicode_error

-- `bytes.decode()`
unfoldable pub decode : Bytes → Result (List ℕ)
unfolding decode_from
decode bs = decode_from 0 0 0 bs

-- One lemma for each kind of byte.
module _ (acc least b : ℕ) (bs : Bytes) where
  decode-ascii : b < 128 → decode_from 0 acc least (b ∷ bs) ≡ (decode bs >>= (λ s. ok (b ∷ s)))
  unfolding decode_from decode
  decode-ascii h = ground arith

  decode-two :
      194 ≤ b → b < 224 → decode_from 0 acc least (b ∷ bs) ≡ decode_from 1 (b - 192) 0x80 bs
  unfolding decode_from
  decode-two h k = ground arith

  decode-three :
      224 ≤ b → b < 240 → decode_from 0 acc least (b ∷ bs) ≡ decode_from 2 (b - 224) 0x800 bs
  unfolding decode_from
  decode-three h k = ground arith

  decode-four :
      240 ≤ b → b < 245 → decode_from 0 acc least (b ∷ bs) ≡ decode_from 3 (b - 240) 0x10000 bs
  unfolding decode_from
  decode-four h k = ground arith

  decode-more :
      (k : ℕ)
      → 128 ≤ b
      → b < 192
      → decode_from (suc (suc k)) acc least (b ∷ bs)
        ≡ decode_from (suc k) (acc * 64 + (b - 128)) least bs
  unfolding decode_from
  decode-more k h h' = ground arith

  decode-last :
      (c : ℕ)
      → c ≡ acc * 64 + (b - 128)
      → 128 ≤ b
      → b < 192
      → least ≤ c
      → is_scalar c ≡ true
      → decode_from 1 acc least (b ∷ bs) ≡ (decode bs >>= (λ s. ok (c ∷ s)))
  unfolding decode_from decode
  decode-last c e h h' m s = rw (← e) (ground arith)

-- The encodings by length.
module _ (c : ℕ) (bs : Bytes) (h : is_scalar c ≡ true) where
  decode-encode_two :
      128 ≤ c
      → c < 2048
      → decode ((192 + c / 64) ∷ (128 + c % 64) ∷ bs) ≡ (decode bs >>= (λ s. ok (c ∷ s)))
  unfolding decode
  decode-encode_two low high =
      decode-two 0 0 (192 + c / 64) ((128 + c % 64) ∷ bs) (omega arith) (omega arith)
      ∙ decode-last (192 + c / 64 - 192) 128 (128 + c % 64) bs c (omega arith) (omega arith)
          (omega arith) (omega arith) h

  decode-encode_three :
      2048 ≤ c
      → c < 65536
      → decode ((224 + c / 4096) ∷ (128 + c / 64 % 64) ∷ (128 + c % 64) ∷ bs)
        ≡ (decode bs >>= (λ s. ok (c ∷ s)))
  unfolding decode
  decode-encode_three low high =
      decode-three 0 0 (224 + c / 4096) ((128 + c / 64 % 64) ∷ (128 + c % 64) ∷ bs) (omega arith)
        (omega arith)
      ∙ decode-more (224 + c / 4096 - 224) 2048 (128 + c / 64 % 64) ((128 + c % 64) ∷ bs) 0
          (omega arith) (omega arith)
      ∙ decode-last ((224 + c / 4096 - 224) * 64 + (128 + c / 64 % 64 - 128)) 2048 (128 + c % 64) bs
          c (omega arith) (omega arith) (omega arith) (omega arith) h

  decode-encode_four :
      65536 ≤ c
      → c < 1114112
      → decode
          ((240 + c / 262144) ∷ (128 + c / 4096 % 64) ∷ (128 + c / 64 % 64) ∷ (128 + c % 64) ∷ bs)
        ≡ (decode bs >>= (λ s. ok (c ∷ s)))
  unfolding decode
  decode-encode_four low high =
      let b1 : ℕ = 128 + c / 4096 % 64 in
      let b2 : ℕ = 128 + c / 64 % 64 in
      let a0 : ℕ = 240 + c / 262144 - 240 in
      let a1 : ℕ = a0 * 64 + (b1 - 128) in
      decode-four 0 0 (240 + c / 262144) (b1 ∷ b2 ∷ (128 + c % 64) ∷ bs) (omega arith) (omega arith)
      ∙ decode-more a0 65536 b1 (b2 ∷ (128 + c % 64) ∷ bs) 1 (omega arith) (omega arith)
      ∙ decode-more a1 65536 b2 ((128 + c % 64) ∷ bs) 0 (omega arith) (omega arith)
      ∙ decode-last (a1 * 64 + (b2 - 128)) 65536 (128 + c % 64) bs c (omega arith) (omega arith)
          (omega arith) (omega arith) h

is_scalar-lt : (c : ℕ) → is_scalar c ≡ true → c < 1114112
unfolding is_scalar
is_scalar-lt c h = ground arith

decode-encode_char :
    (c : ℕ) (bs : Bytes)
    → is_scalar c ≡ true
    → decode (encode_char c ++ bs) ≡ (decode bs >>= (λ s. ok (c ∷ s)))
unfolding encode_char
decode-encode_char c bs h = elim (Bool-cases (ltb c 0x80)) [
  | inl one ↦ rw one (unfold decode in decode-ascii 0 0 c bs (ltb→lt c 0x80 one))
  | inr past ↦ elim (Bool-cases (ltb c 0x800)) [
    | inl two ↦ rw (past, two) (decode-encode_two c bs h (ltb→le c 0x80 past) (ltb→lt c 0x800 two))
    | inr past2 ↦ elim (Bool-cases (ltb c 0x10000)) [
      | inl three ↦
          rw (past, past2, three)
            (decode-encode_three c bs h (ltb→le c 0x800 past2) (ltb→lt c 0x10000 three))
      | inr past3 ↦
          rw (past, past2, past3)
            (decode-encode_four c bs h (ltb→le c 0x10000 past3) (is_scalar-lt c h))
    ]
  ]
]

-- What was encoded is decoded to the same text.
pub decode-encode : (s : List ℕ) (bs : Bytes) → encode s ≡ ok bs → decode bs ≡ ok s
unfolding encode
decode-encode [] bs h = rw (← (ok-eq h)) (unfold decode decode_from in refl)
decode-encode (c ∷ s) bs h = elim (Bool-cases (is_scalar c)) [
  | inl scalar ↦
      let (tail, done, e) =
        >>=-eq-ok (encode s) (λ bs'. ok (encode_char c ++ bs')) (rw scalar at h) in
      subst (λ b. decode b ≡ ok (c ∷ s)) (ok-eq e)
        (decode-encode_char c tail scalar ∙ rw (decode-encode s tail done))
  | inr other ↦ cc (rw other at h)
]
