-- ===== src/Wire/Endpoints.antt =====
-- `unidirectional_message_wire` and `unidirectional_response_wire` of
-- src/tateyama/transport/wire.h: the two ends of a session's wires. A wait is an outcome of its own,
-- after which the caller looks again; `expired` says that the time limit of the wait has passed.
use tateyama_bootstrap.Prelude.{
  ℕ, ◌+◌, ◌≤◌, ◌<◌, ◌≡◌, ◌⊎◌, inl, inr, ap, ◌∙◌, List, length, Bool, true, false, arith, leb,
  if◌then◌else◌, ◌||◌, Bool-cases, if-true, if-false, le→leb, lt→not-leb,
}
use tateyama_bootstrap.Reason.{Error, runtime_error, server, connection_timeout}
use tateyama_bootstrap.Wire.Header.{
  MessageHeader, message_header_size, message_of_buffer, terminate_request, ResponseHeader,
  response_header_size, response_of_buffer,
}
use tateyama_bootstrap.Wire.Codec.{message_codec, response_codec}
use tateyama_bootstrap.Wire.Ring.{Ring, stored, min_size, room, header_bytes}
use tateyama_bootstrap.Wire.Ring.Counters.{IsValid}
use tateyama_bootstrap.Wire.Simple.{Attempt, waits, write_first, read_first}
use tateyama_bootstrap.Wire.Simple.Turns.{write_first_waits, length-message_bytes}

pub record MessageWire : Type 0 where
  pub ring : Ring
  pub termination_requested : Bool
  pub onetime_notification : Bool
  pub closed : Bool

-- A look for a header.
pub data Look (H : Type 0) : Type 0 where
  sees : H → Look H
  fails : Error → Look H
  looks_again : Look H

unfoldable pub peep : Bool → MessageWire → Look MessageHeader × MessageWire
peep expired w =
    if leb message_header_size (stored w.ring)
    then (sees (message_of_buffer (header_bytes message_header_size w.ring)), w)
    else if w.termination_requested
    then (
      sees (record { idx = terminate_request; length = 0 }),
      record w { termination_requested = false },
    )
    else if w.onetime_notification
    then (fails (runtime_error server), w)
    else if expired
    then (fails (runtime_error connection_timeout), w)
    else (looks_again, w)

unfoldable pub notify : MessageWire → MessageWire
notify w = record w { onetime_notification = true }

unfoldable pub close_requests : MessageWire → MessageWire
close_requests w = record w { closed = true }

unfoldable pub terminate : MessageWire → MessageWire
terminate w = record w { termination_requested = true }

-- The first turn of `write`.
unfoldable pub write_message : MessageWire → MessageHeader → List ℕ → Attempt
write_message w header from = write_first message_codec w.ring w.closed header from

pub record ResponseWire : Type 0 where
  pub ring : Ring
  pub closed : Bool
  pub shutdown : Bool

unfoldable pub await : Bool → ResponseWire → Look ResponseHeader
await expired w =
    if leb response_header_size (stored w.ring)
    then sees (response_of_buffer (header_bytes response_header_size w.ring))
    else if w.closed || w.shutdown
    then sees (record { idx = 0; msg_type = 0; length = 0 })
    else if expired
    then fails (runtime_error connection_timeout)
    else looks_again

unfoldable pub close_responses : ResponseWire → ResponseWire
close_responses w = record w { closed = true }

unfoldable pub notify_shutdown : ResponseWire → ResponseWire
notify_shutdown w = record w { shutdown = true }

unfoldable pub force_close : ResponseWire → ResponseWire
force_close w = record w { closed = true }

unfoldable pub check_shutdown : ResponseWire → Bool
check_shutdown w = w.shutdown

unfoldable pub is_writable : ResponseWire → ResponseHeader → Bool
is_writable w header = leb header.length (room w.ring)

unfoldable pub write_response : ResponseWire → ResponseHeader → List ℕ → Attempt
write_response w header from = write_first response_codec w.ring w.closed header from

-- A request to terminate comes after the messages that are in the wire: while a header is there it
-- is what `peep` sees, and the request stays; then `peep` sees the request, once.
pub peep-terminate :
    (expired : Bool) (w : MessageWire)
    → ((message_header_size ≤ stored w.ring)
        × (peep expired (terminate w)
            ≡ (sees (message_of_buffer (header_bytes message_header_size w.ring)), terminate w)))
      ⊎ ((stored w.ring < message_header_size)
          × (peep expired (terminate w) ≡ (
            sees (record { idx = terminate_request; length = 0 }),
            record w { termination_requested = false },
          )))
unfolding peep terminate
peep-terminate expired w = elim (Bool-cases (leb message_header_size (stored w.ring))) [
  | inl e ↦ inl (ground (arith, e), rw e)
  | inr e ↦ inr (ground (arith, e), rw e)
]

-- `is_writable` counts the payload alone: of a response whose payload has just room in the wire, but
-- not with its header, it says that it can be written, and `write` waits.
pub is_writable-waits :
    (w : ResponseWire) (header : ResponseHeader) (from : List ℕ)
    → IsValid w.ring
    → w.closed ≡ false
    → header.length ≡ length from
    → header.length ≤ room w.ring
    → room w.ring < header.length + response_header_size
    → header.length + response_header_size ≤ w.ring.capacity
    → (is_writable w header ≡ true) × (write_response w header from ≡ waits)
unfolding is_writable write_response
is_writable-waits w header from v c e h short fits = (
  ground (arith, h),
  ap (λ b. write_first response_codec w.ring b header from) c
      ∙ write_first_waits response_codec v header from e
          (omega (arith, e, short, fits, length-message_bytes response_codec header from)),
)

read_first-past :
    {r : Ring}
    → IsValid r
    → stored r < response_header_size
    → response_header_size ≤ stored (read_first response_header_size r 0).ring
unfolding read_first min_size stored
read_first-past {r} v h = ground (arith, v, h)

-- The header with which `await` tells of a closed wire is not in the wire: `read` moves `poped_` over
-- it all the same, and then the next `await` takes whatever bytes stand in the buffer for a header.
pub await-reads_past :
    (expired : Bool) (w : ResponseWire)
    → IsValid w.ring
    → stored w.ring < response_header_size
    → (w.closed || w.shutdown) ≡ true
    → (await expired w ≡ sees (record { idx = 0; msg_type = 0; length = 0 }))
      × (await expired (record w { ring = (read_first response_header_size w.ring 0).ring })
          ≡ sees (
              response_of_buffer (
                header_bytes response_header_size (read_first response_header_size w.ring 0).ring)))
unfolding await
await-reads_past expired w v h c = (
  if-false _ _ (lt→not-leb (stored w.ring) response_header_size h) ∙ if-true _ _ c,
  if-true _ _ (
      le→leb response_header_size (stored (read_first response_header_size w.ring 0).ring)
        (read_first-past v h)),
)
