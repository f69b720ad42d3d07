-- ===== src/Wire/ResultSet/Tests.antt =====
-- A result set wire of ten bytes, with a record that goes over the end of the buffer.
use tateyama_bootstrap.Prelude.{
  ℕ, ◌-◌, ◌<◌, ◌≡◌, refl, List, [], ◌∷◌, ◌++◌, Bool, true, false, some, arith,
}
use tateyama_bootstrap.Wire.Header.{length_header, length_to_buffer, length_of_buffer}
use tateyama_bootstrap.Wire.Ring.{
  Ring, room, stored, header_bytes, read_address, buffer_address, write_in_buffer, copy_in,
  copy_out,
}
use tateyama_bootstrap.Wire.Ring.Counters.{IsValid}
use tateyama_bootstrap.Wire.ResultSet.{
  ResultWire, Views, check_room, write, write_from, write_part, brand_new, flush, flush_record,
  has_record, stored_valid, get_chunk, header_received, dispose_record, seen,
  wait_to_resultset_write,
}
use tateyama_bootstrap.Wire.ResultSet.Session.{
  Op, writes, flushes, run, server_turn, client_turn, records,
}
use tateyama_bootstrap.Wire.ResultSet.Delivery.{
  start, rounds, received-run-records, received-run-all_records,
}
use tateyama_bootstrap.Wire.ResultSet.Room.{Inside, run-Inside, is_some, check_room-is_some}
use tateyama_bootstrap.Wire.ResultSet.Overrun.{write_part-overruns}
use tateyama_bootstrap.Wire.Ring.Window.{window}
use tateyama_bootstrap.Prelude.{drop}

abbrev small_ring : Ring
small_ring = record {
  buffer = 0 ∷ 0 ∷ 0 ∷ 0 ∷ 0 ∷ 0 ∷ 0 ∷ 0 ∷ 0 ∷ 0 ∷ [];
  capacity = 10;
  pushed = 14;
  poped = 14;
}

small_ring-IsValid : IsValid small_ring
small_ring-IsValid = omega arith

abbrev two_records : List Op
two_records =
    writes (11 ∷ 12 ∷ []) ∷ writes (13 ∷ []) ∷ flushes ∷ flushes ∷ writes (21 ∷ []) ∷ flushes ∷ []

two_records-run :
    (run (rounds 15) (start small_ring two_records)).received ≡ (11 ∷ 12 ∷ 13 ∷ []) ∷ (21 ∷ []) ∷ []
unfolding run server_turn client_turn write brand_new write_part flush flush_record has_record
    stored_valid get_chunk header_received dispose_record seen wait_to_resultset_write length_header
    length_to_buffer length_of_buffer room stored header_bytes read_address buffer_address
    write_in_buffer copy_in copy_out
two_records-run = refl

received-run-records_example :
    (rest : List (List ℕ)) × (records [] two_records
      ≡ (run (true ∷ false ∷ true ∷ true ∷ true ∷ []) (start small_ring two_records)).received
        ++ rest)
received-run-records_example =
    received-run-records small_ring two_records (true ∷ false ∷ true ∷ true ∷ true ∷ [])
      small_ring-IsValid refl (omega arith) (omega arith) (omega arith) (omega arith)

received-run-all_records_example :
    (run (rounds 50) (start small_ring two_records)).received ≡ (11 ∷ 12 ∷ 13 ∷ []) ∷ (21 ∷ []) ∷ []
received-run-all_records_example =
    received-run-all_records small_ring two_records 50 small_ring-IsValid refl (omega arith)
      (omega arith) (omega arith) (omega arith) (omega arith)

-- The server writes and flushes the first record, and the client looks.
abbrev until_held : List Bool
until_held = true ∷ true ∷ true ∷ true ∷ true ∷ true ∷ false ∷ []

abbrev wrapped : Views
wrapped = record { first_address = 8; first_length = 2; wrap_address = 0; wrap_length = 1 }

run-Inside_example : Inside 10 wrapped
unfolding run server_turn client_turn write brand_new write_part flush flush_record has_record
    stored_valid get_chunk header_received dispose_record seen wait_to_resultset_write length_header
    length_to_buffer length_of_buffer room stored header_bytes read_address buffer_address
    write_in_buffer copy_in copy_out
run-Inside_example =
    run-Inside small_ring two_records until_held wrapped small_ring-IsValid refl (omega arith)
      (omega arith) (omega arith) (omega arith) refl

abbrev open_wire : ResultWire
open_wire = record { ring = small_ring; pushed_valid = 14; closed = false; continued = false }

check_room-is_some_example :
    check_room open_wire 7
    ≡ is_some (write_from open_wire (write open_wire (1 ∷ 2 ∷ 3 ∷ 4 ∷ 5 ∷ 6 ∷ 7 ∷ [])))
check_room-is_some_example =
    check_room-is_some open_wire (1 ∷ 2 ∷ 3 ∷ 4 ∷ 5 ∷ 6 ∷ 7 ∷ []) small_ring-IsValid refl
      (omega arith) (omega arith)

abbrev closed_wire : ResultWire
closed_wire = record {
  ring = record small_ring { pushed = 20 };
  pushed_valid = 20;
  closed = true;
  continued = true;
}

closed_ring-IsValid : IsValid closed_wire.ring
closed_ring-IsValid = omega arith

write_part-overruns_example :
    (t : ResultWire) × (write_part closed_wire (1 ∷ 2 ∷ 3 ∷ 4 ∷ 5 ∷ []) ≡ some t)
    × (10 < t.ring.pushed - t.ring.poped)
    × (window t.ring.buffer 10 14 (5 - room closed_wire.ring)
        ≡ drop (room closed_wire.ring) (1 ∷ 2 ∷ 3 ∷ 4 ∷ 5 ∷ []))
unfolding room stored
write_part-overruns_example =
    write_part-overruns closed_wire (1 ∷ 2 ∷ 3 ∷ 4 ∷ 5 ∷ []) closed_ring-IsValid refl (omega arith)
      (omega arith) (omega arith)
