-- ===== src/Wire/Stream/Invariant.antt =====
-- What holds between any two turns of the writer and the reader of a wire.
use tateyama_bootstrap.Prelude.{
  ℕ, ◌+◌, ◌^◌, ◌<◌, ◌≡◌, sym, ap, ◌∙◌, List, [], ◌∷◌, ◌++◌, true, false, append-nil, append_assoc,
  length,
}
use tateyama_bootstrap.Wire.Codec.{Codec}
use tateyama_bootstrap.Wire.Ring.Counters.{IsValid, contents}
use tateyama_bootstrap.Wire.Simple.Turns.{message_bytes}
use tateyama_bootstrap.Wire.Stream.{
  Message, Writer, idle, writing, Reader, ready, peeped, reading, System,
}
use tateyama_bootstrap.Wire.Stream.Chunks.{flat, chunks}

-- The bytes that the writer has begun to send and has not written.
abbrev pub unsent : Writer → List ℕ
unsent idle = []
unsent (writing left from) = from

abbrev pub WriterOk : Writer → Type 0
WriterOk idle = Unit {0}
WriterOk (writing left from) = (left ≡ length from) × (0 < left)

module _ {H : Type 0} (codec : Codec H) where
  abbrev pub bytes_of : Message H → List ℕ
  bytes_of m = message_bytes codec m.header m.payload

  -- The header fits its fields, and announces the payload's length.
  abbrev pub IsGood : Message H → Type 0
  IsGood m = (codec.fits m.header ≡ true) × (codec.get_length m.header ≡ length m.payload)

  abbrev pub AllGood : List (Message H) → Type 0
  AllGood [] = Unit {0}
  AllGood (m ∷ ms) = IsGood m × AllGood ms

  abbrev pub total : List (Message H) → ℕ
  total [] = 0
  total (m ∷ ms) = length (bytes_of m) + total ms

  abbrev pub plans : ℕ → List (Message H) → List (List ℕ)
  plans cap [] = []
  plans cap (m ∷ ms) = chunks cap (bytes_of m) ++ plans cap ms

  -- How the reader stands to the bytes of its message that it has not read, and to the messages
  -- that are begun behind it.
  abbrev pub ReaderOk : Reader H → List ℕ → List (Message H) → Type 0
  ReaderOk ready unread started = unread ≡ []
  ReaderOk (peeped h) unread started =
      (unread ≡ [])
      × ((m : Message H) × (ms : List (Message H)) × (started ≡ m ∷ ms) × (m.header ≡ h))
  ReaderOk (reading h left got) unread started = (left ≡ length unread) × (0 < left)

  -- A peeped header stands in the wire with the rest of its chunk.
  abbrev pub PeepedOk : Reader H → List (List ℕ) → Type 0
  PeepedOk ready inflight = Unit {0}
  PeepedOk (peeped h) inflight = 0 < length inflight
  PeepedOk (reading h left got) inflight = Unit {0}

  -- The message that the reader is in the middle of.
  abbrev pub current : Reader H → List ℕ → List (Message H)
  current ready unread = []
  current (peeped h) unread = []
  current (reading h left got) unread = record { header = h; payload = got ++ unread } ∷ []

  -- `cap` is the wire's capacity, and `sent` all messages that the writer is to send.
  pub record Inv (cap : ℕ) (sent : List (Message H)) (s : System H) : Type 0 where
    pub valid : IsValid s.ring
    pub sized : s.ring.capacity ≡ cap
    pub is_open : s.closed ≡ false
    pub inflight : List (List ℕ)
    pub unread : List ℕ
    pub started : List (Message H)
    pub held : contents s.ring ≡ flat inflight
    pub plan : inflight ++ chunks cap (unsent s.writer) ≡ chunks cap unread ++ plans cap started
    pub writer_ok : WriterOk s.writer
    pub reader_ok : ReaderOk s.reader unread started
    pub peeped_ok : PeepedOk s.reader inflight
    pub order : sent ≡ s.received ++ (current s.reader unread ++ (started ++ s.todo))
    pub started_good : AllGood started
    pub todo_good : AllGood s.todo
    pub budget : s.ring.pushed + length (unsent s.writer) + total s.todo < 2 ^ 64

  pub plans-append :
      (cap : ℕ) (ms : List (Message H)) (m : Message H)
      → plans cap (ms ++ m ∷ []) ≡ plans cap ms ++ chunks cap (bytes_of m)
  plans-append cap [] m = append-nil (chunks cap (bytes_of m))
  plans-append cap (n ∷ ms) m =
      ap (◌++◌ (chunks cap (bytes_of n))) (plans-append cap ms m)
      ∙ sym (append_assoc (chunks cap (bytes_of n)) (plans cap ms) (chunks cap (bytes_of m)))

  pub AllGood-append :
      (ms : List (Message H)) (m : Message H) → AllGood ms → IsGood m → AllGood (ms ++ m ∷ [])
  AllGood-append [] m g h = (h, tt)
  AllGood-append (n ∷ ms) m g h = (g.0, AllGood-append ms m g.1 h)
