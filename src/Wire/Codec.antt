-- ===== src/Wire/Codec.antt =====
-- The template parameter `T` of `simple_wire<T>` in src/tateyama/transport/wire.h: what the wire
-- uses of a header type, with the three header types that fill it.
use tateyama_bootstrap.Prelude.{
  ℕ, ◌^◌, ◌<◌, ◌≤◌, ◌≡◌, refl, Bool, true, ◌&&◌, List, ◌++◌, arith, length, ltb,
}
use tateyama_bootstrap.Wire.Header.{
  MessageHeader, message_header_size, message_to_buffer, message_of_buffer, ResponseHeader,
  response_header_size, response_to_buffer, response_of_buffer, LengthHeader, length_header_size,
  length_to_buffer, length_of_buffer,
}
use tateyama_bootstrap.Wire.Header.RoundTrip.{
  message_of_buffer-to_buffer, response_of_buffer-to_buffer, length_of_buffer-to_buffer,
}

-- `T::size`, `get_length()`, `get_buffer()` and the constructor from a buffer. `fits` says that
-- the fields are within their widths, as the fields of a C++ object always are.
pub record Codec (H : Type 0) : Type 0 where
  pub size : ℕ
  pub get_length : H → ℕ
  pub to_buffer : H → List ℕ
  pub of_buffer : List ℕ → H
  pub fits : H → Bool
  pub size_pos : 0 < size
  pub size_small : size ≤ 8
  pub length-to_buffer : (h : H) → length (to_buffer h) ≡ size
  pub length_bound : (h : H) → fits h ≡ true → get_length h < 2 ^ 32
  pub of_buffer-to_buffer :
      (h : H) (rest : List ℕ) → fits h ≡ true → of_buffer (to_buffer h ++ rest) ≡ h

abbrev pub message_fits : MessageHeader → Bool
message_fits h = ltb h.idx (2 ^ 16) && ltb h.length (2 ^ 32)

pub length-message_to_buffer :
    (h : MessageHeader) → length (message_to_buffer h) ≡ message_header_size
unfolding message_to_buffer
length-message_to_buffer h = refl

pub message_length_fits : (h : MessageHeader) → message_fits h ≡ true → h.length < 2 ^ 32
message_length_fits h e = ground arith

pub message_round :
    (h : MessageHeader) (rest : List ℕ)
    → message_fits h ≡ true
    → message_of_buffer (message_to_buffer h ++ rest) ≡ h
message_round h rest e = message_of_buffer-to_buffer h rest (ground arith) (ground arith)

abbrev pub message_codec : Codec MessageHeader
message_codec = record {
  size = message_header_size;
  get_length = λ h. h.length;
  to_buffer = message_to_buffer;
  of_buffer = message_of_buffer;
  fits = message_fits;
  size_pos = omega arith;
  size_small = omega arith;
  length-to_buffer = length-message_to_buffer;
  length_bound = message_length_fits;
  of_buffer-to_buffer = message_round;
}

abbrev pub response_fits : ResponseHeader → Bool
response_fits h = ltb h.idx (2 ^ 16) && (ltb h.msg_type (2 ^ 16) && ltb h.length (2 ^ 32))

pub length-response_to_buffer :
    (h : ResponseHeader) → length (response_to_buffer h) ≡ response_header_size
unfolding response_to_buffer
length-response_to_buffer h = refl

pub response_length_fits : (h : ResponseHeader) → response_fits h ≡ true → h.length < 2 ^ 32
response_length_fits h e = ground arith

pub response_round :
    (h : ResponseHeader) (rest : List ℕ)
    → response_fits h ≡ true
    → response_of_buffer (response_to_buffer h ++ rest) ≡ h
response_round h rest e =
    response_of_buffer-to_buffer h rest (ground arith) (ground arith) (ground arith)

abbrev pub response_codec : Codec ResponseHeader
response_codec = record {
  size = response_header_size;
  get_length = λ h. h.length;
  to_buffer = response_to_buffer;
  of_buffer = response_of_buffer;
  fits = response_fits;
  size_pos = omega arith;
  size_small = omega arith;
  length-to_buffer = length-response_to_buffer;
  length_bound = response_length_fits;
  of_buffer-to_buffer = response_round;
}

abbrev pub length_fits : LengthHeader → Bool
length_fits h = ltb h.length (2 ^ 32)

pub length-length_to_buffer : (h : LengthHeader) → length (length_to_buffer h) ≡ length_header_size
unfolding length_to_buffer
length-length_to_buffer h = refl

pub length_length_fits : (h : LengthHeader) → length_fits h ≡ true → h.length < 2 ^ 32
length_length_fits h e = ground arith

pub length_round :
    (h : LengthHeader) (rest : List ℕ)
    → length_fits h ≡ true
    → length_of_buffer (length_to_buffer h ++ rest) ≡ h
length_round h rest e = length_of_buffer-to_buffer h rest (ground arith)

abbrev pub length_codec : Codec LengthHeader
length_codec = record {
  size = length_header_size;
  get_length = λ h. h.length;
  to_buffer = length_to_buffer;
  of_buffer = length_of_buffer;
  fits = length_fits;
  size_pos = omega arith;
  size_small = omega arith;
  length-to_buffer = length-length_to_buffer;
  length_bound = length_length_fits;
  of_buffer-to_buffer = length_round;
}
