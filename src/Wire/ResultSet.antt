-- ===== src/Wire/ResultSet.antt =====
-- `unidirectional_simple_wire` of src/tateyama/transport/wire.h, the wire for the records of a
-- result set: the server writes a record in parts and marks its end by `flush`; the client looks at
-- it in place and disposes of it. A wait on `c_full_` is a turn that does not go through.
pub mod Chunk
pub mod Head
pub mod Session
pub mod Invariant
pub mod Steps
pub mod Serving
pub mod Copying
pub mod Taking
pub mod Delivery
pub mod Room
pub mod Overrun
mod Tests
use tateyama_bootstrap.Prelude.{
  ℕ, ◌+◌, ◌-◌, ◌*◌, ◌/◌, ◌==◌, List, [], ◌∷◌, ◌++◌, Bool, true, false, not, ◌&&◌, ◌||◌, Option,
  none, some, length, leb, ltb, if◌then◌else◌,
}
use tateyama_bootstrap.Wire.Header.{
  LengthHeader, length_header, length_header_size, length_to_buffer, length_of_buffer,
}
use tateyama_bootstrap.Wire.Ring.{
  Ring, stored, room, read_address, buffer_address, add_size, sub_size, write_in_buffer,
  header_bytes, copy_out,
}

pub record ResultWire : Type 0 where
  pub ring : Ring
  pub pushed_valid : ℕ
  pub closed : Bool
  pub continued : Bool

unfoldable pub stored_valid : ResultWire → ℕ
stored_valid w = sub_size w.pushed_valid w.ring.poped

unfoldable pub has_record : ResultWire → Bool
unfolding stored_valid
has_record w = ltb 0 (stored_valid w)

-- `wait_to_resultset_write(length)`: whether the wait is over.
unfoldable pub wait_to_resultset_write : ResultWire → ℕ → Bool
wait_to_resultset_write w len = leb len (room w.ring) || w.closed

unfoldable pub check_room : ResultWire → ℕ → Bool
check_room w len =
    if w.continued then leb len (room w.ring) else leb (len + length_header_size) (room w.ring)

-- `none` while it waits.
unfoldable pub wait_room : ResultWire → ℕ → Option Bool
unfolding wait_to_resultset_write
wait_room w len =
    let needed = if w.continued then len else len + length_header_size in
    if wait_to_resultset_write w needed then some w.closed else none

-- `brand_new()`, after which `write` sets `continued_`: room for a header is passed over.
unfoldable pub brand_new : ResultWire → Option ResultWire
unfolding wait_to_resultset_write
brand_new w =
    if ltb (room w.ring) length_header_size && not (wait_to_resultset_write w length_header_size)
    then none
    else some (record w {
      ring = record w.ring { pushed = add_size w.ring.pushed length_header_size };
      continued = true;
    })

-- The private `write(base, from, length)`.
unfoldable pub write_part : ResultWire → List ℕ → Option ResultWire
unfolding wait_to_resultset_write buffer_address
write_part w from =
    if ltb (room w.ring) (length from) && not (wait_to_resultset_write w (length from))
    then none
    else some (record w {
      ring = record w.ring {
        buffer =
            write_in_buffer w.ring.buffer w.ring.capacity (buffer_address w.ring w.ring.pushed) from
              (length from);
        pushed = add_size w.ring.pushed (length from);
      };
    })

-- Where the server stands in `write(from, length)`: before `brand_new()`, or before the copy.
pub data Server : Type 0 where
  idle : Server
  starting : List ℕ → Server
  copying : List ℕ → Server

unfoldable pub write : ResultWire → List ℕ → Server
write w from =
    if not w.closed && ltb 0 (length from)
    then (if w.continued then copying from else starting from)
    else idle

abbrev pub part_after : List ℕ → Option ResultWire → Option ResultWire
part_after from none = none
part_after from (some w) = write_part w from

-- The copy of `write(from, length)`, from where `write` has taken it; `none` if it waits.
unfoldable pub write_from : ResultWire → Server → Option ResultWire
write_from w idle = some w
write_from w (starting from) = part_after from (brand_new w)
write_from w (copying from) = write_part w from

-- The private `flush(base)`: the header goes to the place that was passed over for it.
unfoldable pub flush_record : ResultWire → ResultWire
unfolding buffer_address
flush_record w =
    let header =
      length_header (sub_size w.ring.pushed (add_size w.pushed_valid length_header_size)) in
    record w {
      ring = record w.ring {
        buffer =
            write_in_buffer w.ring.buffer w.ring.capacity (buffer_address w.ring w.pushed_valid)
              (length_to_buffer header) length_header_size;
      };
      pushed_valid = w.ring.pushed;
      continued = false;
    }

unfoldable pub flush : ResultWire → ResultWire
unfolding flush_record
flush w = if w.continued then flush_record w else w

-- Two views into the buffer, each an address and a length; `wrap_around` is empty in most cases.
pub record Views : Type 0 where
  pub first_address : ℕ
  pub first_length : ℕ
  pub wrap_address : ℕ
  pub wrap_length : ℕ

-- The length in the header that `copy_header` fetches.
unfoldable pub header_received : ResultWire → ℕ
header_received w = (length_of_buffer (header_bytes length_header_size w.ring)).length

unfoldable pub get_chunk : ResultWire → Views
unfolding header_received read_address
get_chunk w =
    let len = header_received w in
    let cap = w.ring.capacity in
    let start = add_size w.ring.poped length_header_size in
    let buffer_end = (w.pushed_valid / cap) * cap in
    let first = sub_size buffer_end start in
    if start / cap == sub_size (add_size start len) 1 / cap
    then record {
      first_address = read_address w.ring length_header_size;
      first_length = len;
      wrap_address = 0;
      wrap_length = 0;
    }
    else record {
      first_address = read_address w.ring length_header_size;
      first_length = first;
      wrap_address = read_address w.ring (add_size length_header_size first);
      wrap_length = sub_size len first;
    }

-- What a client reads through the views.
unfoldable pub seen : List ℕ → Views → List ℕ
unfolding copy_out
seen buffer v =
    copy_out buffer v.first_address v.first_length ++ copy_out buffer v.wrap_address v.wrap_length

unfoldable pub dispose_record : ResultWire → ResultWire
unfolding header_received
dispose_record w = record w {
  ring = record w.ring {
    poped = add_size w.ring.poped (add_size (header_received w) length_header_size);
  };
}

unfoldable pub set_closed : ResultWire → ResultWire
set_closed w = record w { closed = true }
