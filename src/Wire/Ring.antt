-- ===== src/Wire/Ring.antt =====
-- The byte ring under `simple_wire` of src/tateyama/transport/wire.h: its counters, its address
-- arithmetic and the two copies that go round the end of the buffer.
-- An address is its offset from `base`; a `memcpy` past the buffer's end writes nothing there.
pub mod Window
pub mod Copy
pub mod Counters
pub mod Patch
use tateyama_bootstrap.Prelude.{
  ℕ, zero, suc, ◌+◌, ◌-◌, ◌%◌, ◌^◌, List, [], ◌∷◌, ◌++◌, length, set, take, drop, leb, ltb,
  if◌then◌else◌,
}

-- The state that both sides of a wire share. `pushed` and `poped` count bytes since the start.
pub record Ring : Type 0 where
  pub buffer : List ℕ
  pub capacity : ℕ
  pub pushed : ℕ
  pub poped : ℕ

-- `std::atomic_ulong::fetch_add`, and `std::size_t` subtraction.
abbrev pub add_size : ℕ → ℕ → ℕ
add_size a b = (a + b) % 2 ^ 64

abbrev pub sub_size : ℕ → ℕ → ℕ
sub_size a b = (2 ^ 64 + a - b) % 2 ^ 64

unfoldable pub stored : Ring → ℕ
stored r = sub_size r.pushed r.poped

unfoldable pub room : Ring → ℕ
unfolding stored
room r = sub_size r.capacity (stored r)

unfoldable pub index : Ring → ℕ → ℕ
index r n = n % r.capacity

unfoldable pub max_payload_length : ℕ → Ring → ℕ
max_payload_length header_size r = sub_size r.capacity header_size

unfoldable pub min_size : ℕ → ℕ → ℕ
min_size a b = if ltb b a then b else a

-- `read_address(base, offset)` and `buffer_address(base, n)`.
unfoldable pub read_address : Ring → ℕ → ℕ
unfolding index
read_address r offset = index r (add_size r.poped offset)

unfoldable pub buffer_address : Ring → ℕ → ℕ
unfolding index
buffer_address r n = index r n

-- `memcpy(base + i, xs, |xs|)`.
unfoldable pub copy_in : List ℕ → ℕ → List ℕ → List ℕ
copy_in buffer i [] = buffer
copy_in buffer i (x ∷ xs) = copy_in (set buffer i x) (suc i) xs

-- `memcpy(to, base + i, n)`.
unfoldable pub copy_out : List ℕ → ℕ → ℕ → List ℕ
copy_out buffer i n = take n (drop i buffer)

-- `write_in_buffer(base, top, from, length)`.
unfoldable pub write_in_buffer : List ℕ → ℕ → ℕ → List ℕ → ℕ → List ℕ
write_in_buffer buffer capacity top from len =
    let first_part = capacity - top in
    if leb (top + len) capacity
    then copy_in buffer top (take len from)
    else copy_in (copy_in buffer top (take first_part from)) 0
        (take (len - first_part) (drop first_part from))

-- `read_from_buffer(to, base, from, length)`: the bytes that it leaves at `to`.
unfoldable pub read_from_buffer : List ℕ → ℕ → ℕ → ℕ → List ℕ
unfolding copy_out
read_from_buffer buffer capacity from len =
    let first_part = capacity - from in
    if leb (from + len) capacity
    then copy_out buffer from len
    else copy_out buffer from first_part ++ copy_out buffer 0 (len - first_part)

-- `copy_header(base)`: the bytes from which the header is built, in either case.
unfoldable pub header_bytes : ℕ → Ring → List ℕ
unfolding copy_out
header_bytes header_size r =
    let first_part = r.capacity - index r r.poped in
    if leb (read_address r 0 + header_size) r.capacity
    then copy_out r.buffer (read_address r 0) header_size
    else copy_out r.buffer (read_address r 0) first_part
      ++ copy_out r.buffer 0 (header_size - first_part)
