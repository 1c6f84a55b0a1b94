-- ===== src/Wire/Socket.antt =====
-- `Socket.read` and `Socket.write`. The stream that a socket reads from is the list of the chunks
-- that arrive; `recv` never joins two of them, and an empty list is a closed connection.
pub mod Frames
pub mod RoundTrip
use smts.Prelude.{
  ℕ, zero, suc, ◌+◌, ◌-◌, ◌*◌, ◌/◌, ◌%◌, ◌^◌, Bool, true, false, Option, none, some, List, [], ◌∷◌,
  ◌++◌, ltb, leb, ◌==◌, if◌then◌else◌, Result, ok, err, value_error, struct_error,
  connection_aborted, out_of_fuel, ◌>>=◌, length, take, drop, Dict, insert, codes_key,
}
use smts.Wire.Utf8.{Bytes, encode, decode}

abbrev pub Text : Type 0
Text = List ℕ

abbrev pub Header : Type 0
Header = Dict Text Text

abbrev pub Stream : Type 0
Stream = List Bytes

-- `struct.pack('!I', n)` and `struct.unpack('!I', bs)`
unfoldable pub pack_u32 : ℕ → Bytes
pack_u32 n = (n / 16777216 % 256) ∷ (n / 65536 % 256) ∷ (n / 256 % 256) ∷ (n % 256) ∷ []

unfoldable pub unpack_u32 : Bytes → Result ℕ
unpack_u32 (a ∷ b ∷ c ∷ d ∷ []) = ok (a * 16777216 + b * 65536 + c * 256 + d)
unpack_u32 _ = err struct_error

-- `self._sock.recv(n)`
unfoldable pub recv : ℕ → Stream → Bytes × Stream
recv n [] = ([], [])
recv n (c ∷ cs) = if leb (length c) n then (c, cs) else (take n c, drop n c ∷ cs)

-- `while len(content) < length`, with the number of bytes that are missing.
unfoldable pub recv_all : ℕ → ℕ → Stream → Result (Bytes × Stream)
unfolding recv
recv_all f zero s = ok ([], s)
recv_all zero (suc k) s = err out_of_fuel
recv_all (suc f) (suc k) s =
    let (buffer, s') = recv (suc k) s in
    elim buffer [
      | [] ↦ err connection_aborted
      | b ∷ bs ↦ do r ← recv_all f (suc k - length (b ∷ bs)) s'; ok ((b ∷ bs) ++ r.0, r.1)
    ]

-- One length byte and the slice behind it; a slice past the end is cut short.
unfoldable pub take_item : Bytes → Result (Bytes × Bytes)
take_item [] = err struct_error
take_item (n ∷ bs) = ok (take n bs, drop n bs)

-- `while content[i:i + 1] != b'\x00'`: one key and one value in each round.
unfoldable pub parse_header : ℕ → Bytes → Header → Result (Header × Bytes)
unfolding take_item
parse_header zero bs h = err out_of_fuel
parse_header (suc f) (zero ∷ bs) h = ok (h, bs)
parse_header (suc f) bs h = do
  key ← take_item bs
  value ← take_item key.1
  k ← decode key.0
  v ← decode value.0
  parse_header f value.1 (insert k v h)

-- `sock.read()` on an open socket: header, payload and what is left of the stream.
unfoldable pub read : Stream → Result (Header × Bytes × Stream)
unfolding recv recv_all unpack_u32 parse_header
read s =
    let (first, s') = recv 4 s in
    if length first == 4
    then (do
      n ← unpack_u32 first
      r ← recv_all n n s'
      p ← parse_header (suc (length r.0)) r.0 []
      ok (p.0, p.1, r.1))
    else err connection_aborted

unfoldable pub pack_entry : Bytes → Bytes → Result Bytes
pack_entry k v =
    if length k == 0
    then err value_error
    else if ltb 255 (length k)
    then err struct_error
    else if ltb 255 (length v)
    then err struct_error
    else ok ((length k ∷ k) ++ (length v ∷ v))

-- One entry of the header: both texts are encoded before the key is tested.
unfoldable pub write_entry : Text → Text → Result Bytes
unfolding pack_entry
write_entry key value = do k ← encode key; v ← encode value; pack_entry k v

unfoldable pub write_entries : Header → Result Bytes
unfolding write_entry
write_entries [] = ok []
write_entries ((key, value) ∷ h) = do
  e ← write_entry key value
  rest ← write_entries h
  ok (e ++ rest)

-- `sock.write(header, payload)`: the bytes that are sent, all by one `send`.
unfoldable pub write : Header → Bytes → Result Bytes
unfolding write_entries pack_u32
write h payload = do
  entries ← write_entries h
  let dump = entries ++ 0 ∷ payload
  if leb (2 ^ 32) (length dump) then err value_error else ok (pack_u32 (length dump) ++ dump)
