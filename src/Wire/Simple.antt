-- ===== src/Wire/Simple.antt =====
-- `simple_wire<T>` of src/tateyama/transport/wire.h: `write` and `read`; `payload` is in Payload.
-- A wait on a condition is an attempt that does not go through: the caller makes the attempt
-- again when the other side has moved, which is when the source notifies it.
pub mod Turns
pub mod Reads
pub mod Payload
use tateyama_bootstrap.Prelude.{
  ℕ, zero, suc, ◌+◌, ◌-◌, List, [], ◌∷◌, ◌++◌, Bool, true, false, not, ◌&&◌, Option, none, some,
  drop, ltb, if◌then◌else◌, length,
}
use tateyama_bootstrap.Wire.Codec.{Codec}
use tateyama_bootstrap.Wire.Ring.{
  Ring, stored, room, index, max_payload_length, min_size, read_address, buffer_address, add_size,
  write_in_buffer, read_from_buffer, header_bytes, copy_out,
}

-- How one turn of the loop in `write` ends: it waits in `wait_to_write`; it returns since the
-- wire is closed; or it has written, with the bytes still to be sent.
pub data Attempt : Type 0 where
  waits : Attempt
  returns : Attempt
  wrote : Ring → ℕ → List ℕ → Attempt

module _ {H : Type 0} (codec : Codec H) where
  -- The first turn of `write`: the header with as much of the payload as fits a ring.
  unfoldable pub write_first : Ring → Bool → H → List ℕ → Attempt
  unfolding min_size buffer_address index
  write_first r closed header from =
      let len = codec.get_length header + codec.size in
      let msg_length = min_size len r.capacity in
      let with_header =
        write_in_buffer r.buffer r.capacity (buffer_address r r.pushed) (codec.to_buffer header)
          codec.size in
      let with_payload =
        if ltb codec.size msg_length
        then write_in_buffer with_header r.capacity
            (buffer_address r (add_size r.pushed codec.size)) from (msg_length - codec.size)
        else with_header in
      if ltb (room r) msg_length && not closed
      then waits
      else if closed
      then returns
      else wrote (record r { buffer = with_payload; pushed = add_size r.pushed msg_length })
          (len - msg_length) (drop (msg_length - codec.size) from)

-- A further turn of `write`.
unfoldable pub write_next : Ring → Bool → ℕ → List ℕ → Attempt
unfolding min_size buffer_address index
write_next r closed len from =
    let msg_length = min_size len r.capacity in
    if ltb (room r) msg_length && not closed
    then waits
    else if closed
    then returns
    else wrote
        (record r {
          buffer = write_in_buffer r.buffer r.capacity (buffer_address r r.pushed) from msg_length;
          pushed = add_size r.pushed msg_length;
        })
        (len - msg_length) (drop msg_length from)

-- What a turn of `read` leaves: the ring, the bytes that it has copied, and how many are left.
pub record Chunk : Type 0 where
  pub ring : Ring
  pub bytes : List ℕ
  pub left : ℕ

-- The first turn of `read`, for a header that announces `len` bytes. It does not wait.
unfoldable pub read_first : ℕ → Ring → ℕ → Chunk
unfolding min_size max_payload_length
read_first header_size r len =
    let msg_length = min_size len (max_payload_length header_size r) in
    record {
      ring = record r { poped = add_size r.poped (header_size + msg_length) };
      bytes = read_from_buffer r.buffer r.capacity (read_address r header_size) msg_length;
      left = len - msg_length;
    }

-- A further turn of `read`; `none` where it waits on `c_empty_`.
unfoldable pub read_next : Ring → ℕ → Option Chunk
unfolding min_size
read_next r len =
    let msg_length = min_size len r.capacity in
    if ltb (stored r) msg_length
    then none
    else some (record {
      ring = record r { poped = add_size r.poped msg_length };
      bytes = read_from_buffer r.buffer r.capacity (read_address r 0) msg_length;
      left = len - msg_length;
    })
