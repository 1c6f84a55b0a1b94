-- ===== src/Wire/Socket/Frames.antt =====
-- Reading through any split of the bytes into chunks.
use smts.Prelude.{
  ℕ, zero, suc, ◌-◌, ◌≤◌, ◌<◌, ◌≡◌, refl, sym, ap, ◌∙◌, ◌≢◌, List, [], ◌∷◌, ◌++◌, arith,
  append_assoc, leb, ok, length, take, drop, take-append-drop, length-take, Bool-cases, inl, inr,
  leb→le, length-append,
}
use smts.Wire.Utf8.{Bytes}
use smts.Wire.Socket.{Stream, recv, recv_all}

-- All bytes of the stream, in order.
unfoldable pub bytes_of : Stream → Bytes
bytes_of [] = []
bytes_of (c ∷ cs) = c ++ bytes_of cs

-- `recv` never hands out an empty chunk before the connection is closed.
abbrev pub HasNoEmpty : Stream → Type 0
HasNoEmpty [] = Unit
HasNoEmpty (c ∷ cs) = (c ≢ []) × HasNoEmpty cs

-- The four bytes of the length arrive in one chunk.
abbrev pub IsReady : Stream → Type 0
IsReady [] = ⊥
IsReady (c ∷ cs) = 4 ≤ length c

pub split_append {ℓ} :
    {A : Type ℓ} (b p xs ys : List A)
    → b ++ p ≡ xs ++ ys
    → length b ≤ length xs
    → (rest : List A) × (xs ≡ b ++ rest) × (p ≡ rest ++ ys)
split_append [] p xs ys e h = (xs, refl, e)
split_append (x ∷ b) p [] ys e h = absurd (omega arith)
split_append (x ∷ b) p (y ∷ xs) ys e h =
    let (rest, e1, e2) = split_append b p xs ys (ground arith) (omega arith) in
    (rest, ground arith, e2)

drop_ne : (n : ℕ) (c : Bytes) → n < length c → drop n c ≢ []
drop_ne zero [] h e = absurd (omega arith)
drop_ne zero (x ∷ c) h e = cc
drop_ne (suc n) [] h e = absurd (omega arith)
drop_ne (suc n) (x ∷ c) h e = drop_ne n c (omega arith) e

-- What one `recv` takes off a stream that is not closed.
recv_some :
    (k : ℕ) (c : Bytes) (cs : Stream)
    → HasNoEmpty (c ∷ cs)
    → (b : ℕ) × (bs : Bytes) × (s : Stream) × (recv (suc k) (c ∷ cs) ≡ (b ∷ bs, s))
      × (length (b ∷ bs) ≤ suc k)
      × (c ++ bytes_of cs ≡ (b ∷ bs) ++ bytes_of s)
      × HasNoEmpty s
unfolding recv bytes_of
recv_some k [] cs h = absurd (h.0 refl)
recv_some k (x ∷ c) cs h = elim (Bool-cases (leb (length (x ∷ c)) (suc k))) [
  | inl fits ↦ (x, c, cs, rw fits, leb→le _ _ fits, refl, h.1)
  | inr long ↦ (
    x,
    take k c,
    drop k c ∷ cs,
    rw long,
    omega (arith, length-take k c (ground arith)),
    ap (λ l. x ∷ l)
        (ap (λ l. l ++ bytes_of cs) (sym (take-append-drop k c))
          ∙ append_assoc (take k c) (drop k c) (bytes_of cs)),
    (drop_ne k c (ground arith), h.1),
  )
]

-- The loop of `read` collects the next `length xs` bytes, however they are split.
pub recv_all-bytes_of :
    (f n : ℕ) (s : Stream) (xs ys : Bytes)
    → n ≤ f
    → n ≡ length xs
    → bytes_of s ≡ xs ++ ys
    → HasNoEmpty s
    → (s' : Stream) × (recv_all f n s ≡ ok (xs, s')) × (bytes_of s' ≡ ys) × HasNoEmpty s'
unfolding recv_all bytes_of
recv_all-bytes_of f zero s [] ys h n e ne = (s, refl, e, ne)
recv_all-bytes_of f zero s (x ∷ xs) ys h n e ne = absurd (omega arith)
recv_all-bytes_of zero (suc k) s xs ys h n e ne = absurd (omega arith)
recv_all-bytes_of (suc f) (suc k) [] [] ys h n e ne = absurd (omega arith)
recv_all-bytes_of (suc f) (suc k) [] (x ∷ xs) ys h n e ne = cc
recv_all-bytes_of (suc f) (suc k) (c ∷ cs) xs ys h n e ne =
    let (b, bs, s, found, fits, cut, ne') = recv_some k c cs ne in
    let (rest, e1, e2) = split_append (b ∷ bs) (bytes_of s) xs ys (sym cut ∙ e) (omega arith) in
    let (s', done, left, ne'') =
      recv_all-bytes_of f (suc k - length (b ∷ bs)) s rest ys (omega arith)
        (omega (arith, ap length e1, length-append (b ∷ bs) rest)) e2 ne' in
    (s', ground (arith, found, done, e1), left, ne'')

pub split_exact {ℓ} :
    {A : Type ℓ} (b p xs ys : List A)
    → b ++ p ≡ xs ++ ys
    → length b ≡ length xs
    → (b ≡ xs) × (p ≡ ys)
split_exact [] p [] ys e h = (refl, e)
split_exact [] p (y ∷ xs) ys e h = absurd (omega arith)
split_exact (x ∷ b) p [] ys e h = absurd (omega arith)
split_exact (x ∷ b) p (y ∷ xs) ys e h =
    let (e1, e2) = split_exact b p xs ys (ground arith) (omega arith) in (ground arith, e2)

-- The first `recv` gets the four bytes of the length.
pub recv-first :
    (s : Stream)
    → IsReady s
    → HasNoEmpty s
    → (first : Bytes) × (s' : Stream) × (recv 4 s ≡ (first, s'))
      × (length first ≡ 4)
      × (bytes_of s ≡ first ++ bytes_of s')
      × HasNoEmpty s'
unfolding recv bytes_of
recv-first [] h ne = absurd h
recv-first (c ∷ cs) h ne = elim (Bool-cases (leb (length c) 4)) [
  | inl fits ↦ (c, cs, rw fits, ground arith, refl, ne.1)
  | inr long ↦ (
    take 4 c,
    drop 4 c ∷ cs,
    rw long,
    length-take 4 c h,
    ap (λ l. l ++ bytes_of cs) (sym (take-append-drop 4 c))
        ∙ append_assoc (take 4 c) (drop 4 c) (bytes_of cs),
    (drop_ne 4 c (ground arith), ne.1),
  )
]
