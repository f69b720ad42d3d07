-- ===== src/Wire/Header.antt =====
-- The three message headers at the top of src/tateyama/transport/wire.h, as bytes.
-- `memcpy` of an integer is taken in little-endian order, the order of the supported machines.
pub mod RoundTrip
use tateyama_bootstrap.Prelude.{
  ℕ, zero, suc, ◌+◌, ◌/◌, ◌%◌, ◌^◌, ◌*◌, List, [], ◌∷◌, ◌++◌, take, drop,
}

-- The `n` bytes of an integer.
pub to_bytes : ℕ → ℕ → List ℕ
to_bytes zero v = []
to_bytes (suc n) v = (v % 256) ∷ to_bytes n (v / 256)

-- The integer that bytes stand for.
pub of_bytes : List ℕ → ℕ
of_bytes [] = 0
of_bytes (b ∷ bs) = b + 256 * of_bytes bs

-- `memcpy(&field, buffer + offset, n)`.
pub read_field : ℕ → ℕ → List ℕ → ℕ
unfolding of_bytes
read_field offset n buffer = of_bytes (take n (drop offset buffer))

-- `message_header`: a 16-bit slot index and a 32-bit length.
pub record MessageHeader : Type 0 where
  pub idx : ℕ
  pub length : ℕ

abbrev pub message_header_size : ℕ
message_header_size = 6

abbrev pub terminate_request : ℕ
terminate_request = 0xffff

unfoldable pub message_to_buffer : MessageHeader → List ℕ
unfolding to_bytes
message_to_buffer h = to_bytes 2 h.idx ++ to_bytes 4 h.length

unfoldable pub message_of_buffer : List ℕ → MessageHeader
unfolding read_field
message_of_buffer buffer = record { idx = read_field 0 2 buffer; length = read_field 2 4 buffer }

-- `response_header`: a 16-bit slot index, a 16-bit message type and a 32-bit length.
pub record ResponseHeader : Type 0 where
  pub idx : ℕ
  pub msg_type : ℕ
  pub length : ℕ

abbrev pub response_header_size : ℕ
response_header_size = 8

unfoldable pub response_to_buffer : ResponseHeader → List ℕ
unfolding to_bytes
response_to_buffer h = to_bytes 2 h.idx ++ (to_bytes 2 h.msg_type ++ to_bytes 4 h.length)

unfoldable pub response_of_buffer : List ℕ → ResponseHeader
unfolding read_field
response_of_buffer buffer = record {
  idx = read_field 0 2 buffer;
  msg_type = read_field 2 2 buffer;
  length = read_field 4 4 buffer;
}

-- `length_header`: a 32-bit length. The constructor from `std::size_t` truncates.
pub record LengthHeader : Type 0 where
  pub length : ℕ

abbrev pub length_header_size : ℕ
length_header_size = 4

unfoldable pub length_header : ℕ → LengthHeader
length_header n = record { length = n % 2 ^ 32 }

unfoldable pub length_to_buffer : LengthHeader → List ℕ
unfolding to_bytes
length_to_buffer h = to_bytes 4 h.length

unfoldable pub length_of_buffer : List ℕ → LengthHeader
unfolding read_field
length_of_buffer buffer = record { length = read_field 0 4 buffer }
