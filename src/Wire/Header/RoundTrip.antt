-- ===== src/Wire/Header/RoundTrip.antt =====
-- Reading back the bytes of a header.
use tateyama_bootstrap.Prelude.{ℕ, zero, suc, ◌/◌, ◌^◌, ◌<◌, ◌≡◌, refl, List, ◌++◌, arith, length}
use tateyama_bootstrap.Wire.Header.{
  to_bytes, MessageHeader, message_to_buffer, message_of_buffer, ResponseHeader, response_to_buffer,
  response_of_buffer, LengthHeader, length_to_buffer, length_of_buffer,
}

pub length-to_bytes : (n v : ℕ) → length (to_bytes n v) ≡ n
unfolding to_bytes
length-to_bytes zero v = refl
length-to_bytes (suc n) v = omega (arith, length-to_bytes n (v / 256))

-- A message header survives the wire, whatever follows it, if its fields fit their widths.
pub message_of_buffer-to_buffer :
    (h : MessageHeader) (rest : List ℕ)
    → h.idx < 2 ^ 16
    → h.length < 2 ^ 32
    → message_of_buffer (message_to_buffer h ++ rest) ≡ h
unfolding message_of_buffer message_to_buffer
message_of_buffer-to_buffer h rest p q = ground arith

-- A response header survives the wire, whatever follows it, if its fields fit their widths.
pub response_of_buffer-to_buffer :
    (h : ResponseHeader) (rest : List ℕ)
    → h.idx < 2 ^ 16
    → h.msg_type < 2 ^ 16
    → h.length < 2 ^ 32
    → response_of_buffer (response_to_buffer h ++ rest) ≡ h
unfolding response_of_buffer response_to_buffer
response_of_buffer-to_buffer h rest p q r = ground arith

-- A length header survives the wire, whatever follows it, if its field fits its width.
pub length_of_buffer-to_buffer :
    (h : LengthHeader) (rest : List ℕ)
    → h.length < 2 ^ 32
    → length_of_buffer (length_to_buffer h ++ rest) ≡ h
unfolding length_of_buffer length_to_buffer
length_of_buffer-to_buffer h rest p = ground arith
