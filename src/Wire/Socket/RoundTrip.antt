-- ===== src/Wire/Socket/RoundTrip.antt =====
-- What one end writes, the other end reads.
use smts.Prelude.{
  ℕ, zero, suc, ◌≤◌, ◌<◌, ◌≡◌, refl, sym, ap, subst, ◌∙◌, [], ◌∷◌, ◌++◌, arith, append_assoc,
  append-nil, ok, length, take-append, drop-append, length-append, >>=-eq-ok, ok-eq, ◌>>=◌,
  NodupKeys, lookup, insert, lookup-insert, insert-new, codes_key, same_codes_iff, none,
}
use smts.Wire.Utf8.{Bytes, encode, decode, decode-encode}
use smts.Wire.Socket.{
  Text, Header, Stream, recv, recv_all, pack_u32, unpack_u32, take_item, parse_header, pack_entry,
  write_entry, write_entries, write, read,
}
use smts.Wire.Socket.Frames.{
  bytes_of, HasNoEmpty, IsReady, split_exact, recv-first, recv_all-bytes_of,
}

-- The entry that was packed holds both lengths.
pack_entry-eq-ok :
    (k v e : Bytes)
    → pack_entry k v ≡ ok e
    → (0 < length k) × (e ≡ (length k ∷ k) ++ (length v ∷ v))
unfolding pack_entry
pack_entry-eq-ok k v e h = ground arith

take_item-append : (k rest : Bytes) → take_item ((length k ∷ k) ++ rest) ≡ ok (k, rest)
unfolding take_item
take_item-append k rest = rw (take-append k rest, drop-append k rest)

-- One round of the header loop.
parse_header-entry :
    (f : ℕ) (k v rest : Bytes) (key value : Text) (acc : Header)
    → 0 < length k
    → decode k ≡ ok key
    → decode v ≡ ok value
    → parse_header (suc f) ((length k ∷ k) ++ ((length v ∷ v) ++ rest)) acc
      ≡ parse_header f rest (insert key value acc)
unfolding parse_header
parse_header-entry f [] v rest key value acc some_key dk dv = absurd (omega arith)
parse_header-entry f (x ∷ k) v rest key value acc some_key dk dv =
    ground
      (arith, take_item-append (x ∷ k) ((length v ∷ v) ++ rest), take_item-append v rest, dk, dv)

parse_header-write_entry :
    (f : ℕ) (key value : Text) (e rest : Bytes) (acc : Header)
    → write_entry key value ≡ ok e
    → parse_header (suc f) (e ++ rest) acc ≡ parse_header f rest (insert key value acc)
unfolding write_entry
parse_header-write_entry f key value e rest acc h =
    let (k, ek, h1) = >>=-eq-ok (encode key) (λ k. encode value >>= λ v. pack_entry k v) h in
    let (v, ev, h2) = >>=-eq-ok (encode value) (λ v. pack_entry k v) h1 in
    let (some_key, shape) = pack_entry-eq-ok k v e h2 in
    rw (shape, append_assoc (length k ∷ k) (length v ∷ v) rest)
      (parse_header-entry f k v rest key value acc some_key (decode-encode key k ek)
        (decode-encode value v ev))

-- No key of `h` is in `acc` yet.
abbrev Fresh : Header → Header → Type 0
Fresh acc [] = Unit
Fresh acc ((k, v) ∷ h) = (lookup k acc ≡ none) × Fresh acc h

Fresh-insert :
    (k v : Text) (acc h : Header) → lookup k h ≡ none → Fresh acc h → Fresh (insert k v acc) h
unfolding lookup
Fresh-insert k v acc [] n fresh = tt
Fresh-insert k v acc ((j, w) ∷ h) n (here, later) = (
  ground (arith, lookup-insert k j v acc, same_codes_iff j k, same_codes_iff k j),
  Fresh-insert k v acc h (ground arith) later,
)

Fresh-nil : (h : Header) → Fresh [] h
unfolding lookup
Fresh-nil [] = tt
Fresh-nil ((k, v) ∷ h) = (refl, Fresh-nil h)

-- The header loop reads back all the entries.
parse_header-write_entries :
    (f : ℕ) (h acc : Header) (bs payload : Bytes)
    → write_entries h ≡ ok bs
    → length h < f
    → NodupKeys h
    → Fresh acc h
    → parse_header f (bs ++ 0 ∷ payload) acc ≡ ok (acc ++ h, payload)
unfolding write_entries
parse_header-write_entries zero h acc bs payload e fits nodup fresh = absurd (omega arith)
parse_header-write_entries (suc f) [] acc bs payload e fits nodup fresh =
    subst (λ b. parse_header (suc f) (b ++ 0 ∷ payload) acc ≡ ok (acc ++ [], payload)) (ok-eq e)
      (unfold parse_header in rw append-nil)
parse_header-write_entries (suc f) ((k, v) ∷ h) acc bs payload e fits (new, nodup) (n, fresh) =
    let (entry, ee, e1) =
      >>=-eq-ok (write_entry k v) (λ x. write_entries h >>= λ r. ok (x ++ r)) e in
    let (rest, er, e2) = >>=-eq-ok (write_entries h) (λ r. ok (entry ++ r)) e1 in
    subst (λ b. parse_header (suc f) (b ++ 0 ∷ payload) acc ≡ ok (acc ++ (k, v) ∷ h, payload))
      (ok-eq e2)
      (rw (append_assoc entry rest (0 ∷ payload)) (
        parse_header-write_entry f k v entry (rest ++ 0 ∷ payload) acc ee
        ∙ parse_header-write_entries f h (insert k v acc) rest payload er (omega arith) nodup
            (Fresh-insert k v acc h new fresh)
        ∙ rw (insert-new k v acc n, append_assoc acc ((k, v) ∷ []) h)))

length-write_entry : (k v : Text) (e : Bytes) → write_entry k v ≡ ok e → 0 < length e
unfolding write_entry
length-write_entry key value e h =
    let (k, ek, h1) = >>=-eq-ok (encode key) (λ k. encode value >>= λ v. pack_entry k v) h in
    let (v, ev, h2) = >>=-eq-ok (encode value) (λ v. pack_entry k v) h1 in
    let (some_key, shape) = pack_entry-eq-ok k v e h2 in rw shape (omega arith)

length-write_entries : (h : Header) (bs : Bytes) → write_entries h ≡ ok bs → length h ≤ length bs
unfolding write_entries
length-write_entries [] bs e = omega arith
length-write_entries ((k, v) ∷ h) bs e =
    let (entry, ee, e1) =
      >>=-eq-ok (write_entry k v) (λ x. write_entries h >>= λ r. ok (x ++ r)) e in
    let (rest, er, e2) = >>=-eq-ok (write_entries h) (λ r. ok (entry ++ r)) e1 in
    omega (
      arith,
      ap length (ok-eq e2),
      length-append entry rest,
      length-write_entry k v entry ee,
      length-write_entries h rest er,
    )

unpack-pack_u32 : (n : ℕ) → n < 4294967296 → unpack_u32 (pack_u32 n) ≡ ok n
unfolding unpack_u32 pack_u32
unpack-pack_u32 n h = ap ok (omega arith)

-- What is behind a successful `write`.
write-eq-ok :
    (h : Header) (payload bs : Bytes)
    → write h payload ≡ ok bs
    → (entries : Bytes) × (write_entries h ≡ ok entries)
      × (length (entries ++ 0 ∷ payload) < 4294967296)
      × (bs ≡ pack_u32 (length (entries ++ 0 ∷ payload)) ++ (entries ++ 0 ∷ payload))
unfolding write
write-eq-ok h payload bs e =
    let (entries, found, e') = >>=-eq-ok (write_entries h) _ e in
    (entries, found, ground arith, ground arith)

length-pack_u32 : (n : ℕ) → length (pack_u32 n) ≡ 4
unfolding pack_u32
length-pack_u32 n = refl

-- The steps of a `read` that succeeds.
read-steps :
    (s s1 s2 : Stream) (first dump payload : Bytes) (n : ℕ) (h : Header)
    → recv 4 s ≡ (first, s1)
    → length first ≡ 4
    → unpack_u32 first ≡ ok n
    → recv_all n n s1 ≡ ok (dump, s2)
    → parse_header (suc (length dump)) dump [] ≡ ok (h, payload)
    → read s ≡ ok (h, payload, s2)
unfolding read
read-steps s s1 s2 first dump payload n h e four unpacked collected parsed = ground arith

-- A message with distinct keys that was written is read back as it was, header and payload, however
-- the connection splits its bytes behind the first four, and what follows it stays in the stream.
pub read-write :
    (h : Header) (payload bs more : Bytes) (s : Stream)
    → write h payload ≡ ok bs
    → bytes_of s ≡ bs ++ more
    → NodupKeys h
    → IsReady s
    → HasNoEmpty s
    → (s' : Stream) × (read s ≡ ok (h, payload, s')) × (bytes_of s' ≡ more) × HasNoEmpty s'
read-write h payload bs more s written sent nodup ready ne =
    let (entries, found, small, shape) = write-eq-ok h payload bs written in
    let (first, s1, e1, four, cut, ne1) = recv-first s ready ne in
    let dump : Bytes = entries ++ 0 ∷ payload in
    let n : ℕ = length dump in
    let (same, behind) =
      split_exact first (bytes_of s1) (pack_u32 n) (dump ++ more)
        (sym cut ∙ sent ∙ ap (λ b. b ++ more) shape ∙ append_assoc (pack_u32 n) dump more)
        (four ∙ sym (length-pack_u32 n)) in
    let (s2, e2, left, ne2) = recv_all-bytes_of n n s1 dump more (omega arith) refl behind ne1 in
    let parsed =
      parse_header-write_entries (suc n) h [] entries payload found
        (omega (arith, length-write_entries h entries found, length-append entries (0 ∷ payload)))
        nodup (Fresh-nil h) in
    let unpacked = unpack-pack_u32 n small in
    (
      s2,
      read-steps s s1 s2 first dump payload n h e1 four (ap unpack_u32 same ∙ unpacked) e2 parsed,
      left,
      ne2,
    )
