-- ===== src/Wire/Tests.antt =====
-- Headers, copies that go over the end of a buffer, and wires with a message.
use tateyama_bootstrap.Prelude.{◌≡◌, refl, [], ◌∷◌, arith, true, false}
use tateyama_bootstrap.Wire.Header.{response_of_buffer}
use tateyama_bootstrap.Wire.Ring.{Ring, copy_out, stored, read_address, header_bytes}
use tateyama_bootstrap.Wire.Ring.Counters.{IsValid}
use tateyama_bootstrap.Wire.Simple.{read_first}
use tateyama_bootstrap.Wire.Simple.Payload.{payload, dispose, payload-eq-read}
use tateyama_bootstrap.Wire.Endpoints.{MessageWire, sees, ResponseWire, await, await-reads_past}

-- A ring with the header and the payload of a message, from 2 on.
abbrev full_ring : Ring
full_ring = record {
  buffer = 7 ∷ 8 ∷ 3 ∷ 0 ∷ 1 ∷ 0 ∷ 0 ∷ 0 ∷ 66 ∷ 5 ∷ [];
  capacity = 10;
  pushed = 19;
  poped = 12;
}

full_ring-IsValid : IsValid full_ring
full_ring-IsValid = omega arith

payload-eq-read_example :
    (copy_out full_ring.buffer 8 1 ≡ (read_first 6 full_ring 1).bytes)
    × (dispose 7 full_ring ≡ (read_first 6 full_ring 1).ring)
    × ((read_first 6 full_ring 1).left ≡ 0)
unfolding payload stored read_address
payload-eq-read_example = payload-eq-read full_ring-IsValid 6 1 8 7 (omega arith) (omega arith) refl

abbrev requests_in : MessageWire
requests_in = record {
  ring = full_ring;
  termination_requested = false;
  onetime_notification = false;
  closed = false;
}

-- A wire that is closed, with nothing in it.
abbrev closed_responses : ResponseWire
closed_responses = record {
  ring = record full_ring { pushed = 12 };
  closed = true;
  shutdown = false;
}

closed_responses-IsValid : IsValid closed_responses.ring
closed_responses-IsValid = omega arith

await-reads_past_example :
    (await false closed_responses ≡ sees (record { idx = 0; msg_type = 0; length = 0 }))
    × (await false (record closed_responses { ring = (read_first 8 closed_responses.ring 0).ring })
        ≡ sees (response_of_buffer (header_bytes 8 (read_first 8 closed_responses.ring 0).ring)))
unfolding stored
await-reads_past_example =
    await-reads_past false closed_responses closed_responses-IsValid (omega arith) refl
