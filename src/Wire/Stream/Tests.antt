-- ===== src/Wire/Stream/Tests.antt =====
-- A request longer than its wire, and a short one behind it.
use tateyama_bootstrap.Prelude.{◌≡◌, refl, List, [], ◌∷◌, ◌++◌, Bool, true, false, arith}
use tateyama_bootstrap.Wire.Header.{MessageHeader, message_to_buffer, message_of_buffer}
use tateyama_bootstrap.Wire.Codec.{message_codec}
use tateyama_bootstrap.Wire.Ring.{
  Ring, room, header_bytes, read_address, write_in_buffer, copy_in, read_from_buffer,
}
use tateyama_bootstrap.Wire.Ring.Counters.{IsValid}
use tateyama_bootstrap.Wire.Simple.{write_first, write_next, read_first, read_next}
use tateyama_bootstrap.Wire.Stream.{Message, run, write_turn, read_turn}
use tateyama_bootstrap.Wire.Stream.Invariant.{AllGood}
use tateyama_bootstrap.Wire.Stream.Delivery.{start, rounds, received-run-prefix, received-run-all}

abbrev small_ring : Ring
small_ring = record {
  buffer = 0 ∷ 0 ∷ 0 ∷ 0 ∷ 0 ∷ 0 ∷ 0 ∷ 0 ∷ [];
  capacity = 8;
  pushed = 13;
  poped = 13;
}

abbrev requests : List (Message MessageHeader)
requests =
    record { header = record { idx = 3; length = 5 }; payload = 11 ∷ 12 ∷ 13 ∷ 14 ∷ 15 ∷ [] }
    ∷ record { header = record { idx = 4; length = 1 }; payload = 21 ∷ [] }
    ∷ []

small_ring-IsValid : IsValid small_ring
small_ring-IsValid = omega arith

requests_good : AllGood message_codec requests
requests_good = ((refl, refl), ((refl, refl), tt))

abbrev few_turns : List Bool
few_turns = true ∷ true ∷ false ∷ false ∷ true ∷ []

few_turns_run :
    (run message_codec
      (true ∷ false ∷ false ∷ true ∷ false ∷ [])
      (start small_ring requests)).received
    ≡ record { header = record { idx = 3; length = 5 }; payload = 11 ∷ 12 ∷ 13 ∷ 14 ∷ 15 ∷ [] } ∷ []
unfolding run write_turn read_turn write_first write_next read_first read_next message_to_buffer
    message_of_buffer room header_bytes read_address write_in_buffer copy_in read_from_buffer
few_turns_run = refl

received-run-prefix_example :
    (rest : List (Message MessageHeader)) × (requests
      ≡ (run message_codec few_turns (start small_ring requests)).received ++ rest)
unfolding message_to_buffer
received-run-prefix_example =
    received-run-prefix message_codec small_ring requests few_turns small_ring-IsValid refl
      (omega arith) requests_good (omega arith)

received-run-all_example :
    (run message_codec (rounds 60) (start small_ring requests)).received ≡ requests
unfolding message_to_buffer
received-run-all_example =
    received-run-all message_codec small_ring requests 60 small_ring-IsValid refl (omega arith)
      requests_good (omega arith) (omega arith)
