-- ===== src/Tests/Messages.antt =====
-- Messages on the wire.
use smts.Prelude.{◌≡◌, refl, ok, [], ◌∷◌, arith, insert, lookup}
use smts.Wire.Utf8.{Bytes, encode, decode}
use smts.Wire.Socket.{Header, Stream, read, write}
use smts.Wire.Socket.Frames.{bytes_of, HasNoEmpty}
use smts.Wire.Socket.RoundTrip.{read-write}

-- {'k': 'é'}
abbrev small_header : Header
small_header = (107 ∷ [], 233 ∷ []) ∷ []

abbrev small_bytes : Bytes
small_bytes = 0 ∷ 0 ∷ 0 ∷ 7 ∷ 1 ∷ 107 ∷ 2 ∷ 195 ∷ 169 ∷ 0 ∷ 65 ∷ []

small_written : write small_header (65 ∷ []) ≡ ok small_bytes
unfolding write encode
small_written = refl

abbrev small_stream : Stream
small_stream = (0 ∷ 0 ∷ 0 ∷ 7 ∷ 1 ∷ []) ∷ (107 ∷ 2 ∷ 195 ∷ []) ∷ (169 ∷ 0 ∷ 65 ∷ 9 ∷ []) ∷ []

read_sample : read small_stream ≡ ok (small_header, 65 ∷ [], (9 ∷ []) ∷ [])
unfolding read insert decode
read_sample = refl

read-write_example :
    (s' : Stream) × (read small_stream ≡ ok (small_header, 65 ∷ [], s'))
    × (bytes_of s' ≡ 9 ∷ [])
    × HasNoEmpty s'
unfolding bytes_of lookup
read-write_example =
    read-write small_header (65 ∷ []) small_bytes (9 ∷ []) small_stream small_written refl
      (refl, tt) (omega arith) ((λ e. cc), ((λ e. cc), ((λ e. cc), tt)))
