-- ===== src/Wire/Stream.antt =====
-- A writer and a reader on one wire of src/tateyama/transport/wire.h, turn by turn, in any order:
-- the writer sends messages by `write`, and the reader peeps each header and reads its payload by
-- `read`, as the containers of src/tateyama/transport/client_wire.h use the wire.
pub mod Chunks
pub mod Invariant
pub mod Writing
pub mod Reading
pub mod Delivery
mod Tests
use tateyama_bootstrap.Prelude.{
  ℕ, zero, suc, ◌+◌, ◌≤◌, List, [], ◌∷◌, ◌++◌, Bool, true, false, Option, none, some, leb,
  if◌then◌else◌, ◌==◌,
}
use tateyama_bootstrap.Wire.Codec.{Codec}
use tateyama_bootstrap.Wire.Ring.{Ring, stored, header_bytes}
use tateyama_bootstrap.Wire.Simple.{
  Attempt, waits, returns, wrote, write_first, write_next, Chunk, read_first, read_next,
}

pub record Message (H : Type 0) : Type 0 where
  pub header : H
  pub payload : List ℕ

-- The locals of `write` between two turns: `length`, and what `from` points to.
pub data Writer : Type 0 where
  idle : Writer
  writing : ℕ → List ℕ → Writer

-- The locals of the reader: the header that it has peeped; then the `length` of `read`, and the
-- bytes that it has copied.
pub data Reader (H : Type 0) : Type 0 where
  ready : Reader H
  peeped : H → Reader H
  reading : H → ℕ → List ℕ → Reader H

pub record System (H : Type 0) : Type 0 where
  pub ring : Ring
  pub closed : Bool
  pub writer : Writer
  pub reader : Reader H
  pub todo : List (Message H)
  pub received : List (Message H)

abbrev pub writer_after : ℕ → List ℕ → Writer
writer_after left rest = if left == 0 then idle else writing left rest

module _ {H : Type 0} where
  -- Where the attempt leaves the writer, whose later messages are `ms`; `none` while it waits.
  abbrev pub after_write : System H → List (Message H) → Attempt → Option (System H)
  after_write s ms waits = none
  after_write s ms returns = some (record s { writer = idle; todo = ms })
  after_write s ms (wrote r left rest) =
      some (record s { ring = r; writer = writer_after left rest; todo = ms })

  -- Where a chunk leaves the reader of a message whose first bytes it has.
  abbrev pub after_read : System H → H → List ℕ → Chunk → System H
  after_read s header got c =
      if c.left == 0
      then record s {
        ring = c.ring;
        reader = ready;
        received = s.received ++ record { header = header; payload = got ++ c.bytes } ∷ [];
      }
      else record s { ring = c.ring; reader = reading header c.left (got ++ c.bytes) }

  abbrev pub or_stay : System H → Option (System H) → System H
  or_stay s none = s
  or_stay s (some t) = t

module _ {H : Type 0} (codec : Codec H) where
  abbrev pub write_turn_of : System H → Writer → List (Message H) → Option (System H)
  write_turn_of s idle [] = none
  write_turn_of s idle (m ∷ ms) =
      after_write s ms (write_first codec s.ring s.closed m.header m.payload)
  write_turn_of s (writing left from) ms = after_write s ms (write_next s.ring s.closed left from)

  -- One turn of the writer; `none` if it waits or has nothing to send.
  pub write_turn : System H → Option (System H)
  write_turn s = write_turn_of s s.writer s.todo

  abbrev pub read_turn_of : System H → Reader H → Option (System H)
  read_turn_of s ready =
      if leb codec.size (stored s.ring)
      then some (record s { reader = peeped (codec.of_buffer (header_bytes codec.size s.ring)) })
      else none
  read_turn_of s (peeped header) =
      some (after_read s header [] (read_first codec.size s.ring (codec.get_length header)))
  read_turn_of s (reading header left got) = elim (read_next s.ring left) [
    | none ↦ none
    | some c ↦ some (after_read s header got c)
  ]

  -- One turn of the reader: `peep`, or a turn of `read`; `none` if it waits.
  pub read_turn : System H → Option (System H)
  read_turn s = read_turn_of s s.reader

  -- A schedule: at `true` the writer has a turn, at `false` the reader.
  pub run : List Bool → System H → System H
  run [] s = s
  run (true ∷ turns) s = run turns (or_stay s (write_turn s))
  run (false ∷ turns) s = run turns (or_stay s (read_turn s))
