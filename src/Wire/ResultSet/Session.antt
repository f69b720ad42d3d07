-- ===== src/Wire/ResultSet/Session.antt =====
-- A server and a client on one result set wire of src/tateyama/transport/wire.h, turn by turn, in
-- any order: the server writes parts of records and flushes, and the client takes each record by
-- `get_chunk` and `dispose`, as src/tateyama/transport/client_wire.h does.
use tateyama_bootstrap.Prelude.{
  ℕ, ◌+◌, ◌*◌, ◌≤◌, List, [], ◌∷◌, ◌++◌, Bool, true, false, Option, none, some, length,
  if◌then◌else◌,
}
use tateyama_bootstrap.Wire.ResultSet.{
  ResultWire, Server, idle, starting, copying, write, brand_new, write_part, flush, Views,
  has_record, get_chunk, seen, dispose_record,
}

-- What the server does with a wire.
pub data Op : Type 0 where
  writes : List ℕ → Op
  flushes : Op

-- The client looks for a record, or holds the views of one.
pub data Client : Type 0 where
  looking : Client
  holding : Views → Client

pub record System : Type 0 where
  pub wire : ResultWire
  pub server : Server
  pub client : Client
  pub todo : List Op
  pub received : List (List ℕ)

abbrev pub after_new : System → List ℕ → Option ResultWire → Option System
after_new s from none = none
after_new s from (some w) = some (record s { wire = w; server = copying from })

abbrev pub after_part : System → Option ResultWire → Option System
after_part s none = none
after_part s (some w) = some (record s { wire = w; server = idle })

abbrev pub server_turn_of : System → Server → List Op → Option System
server_turn_of s idle [] = none
server_turn_of s idle (writes from ∷ ops) =
    some (record s { server = write s.wire from; todo = ops })
server_turn_of s idle (flushes ∷ ops) = some (record s { wire = flush s.wire; todo = ops })
server_turn_of s (starting from) ops = after_new s from (brand_new s.wire)
server_turn_of s (copying from) ops = after_part s (write_part s.wire from)

-- One turn of the server; `none` if it waits or has nothing to do.
unfoldable pub server_turn : System → Option System
server_turn s = server_turn_of s s.server s.todo

abbrev pub client_turn_of : System → Client → Option System
client_turn_of s looking =
    if has_record s.wire then some (record s { client = holding (get_chunk s.wire) }) else none
client_turn_of s (holding v) = some (record s {
  wire = dispose_record s.wire;
  client = looking;
  received = s.received ++ seen s.wire.ring.buffer v ∷ [];
})

-- One turn of the client; `none` if there is no record. What it takes is what it sees at the end,
-- when it disposes of the record.
unfoldable pub client_turn : System → Option System
client_turn s = client_turn_of s s.client

abbrev pub or_stay : System → Option System → System
or_stay s none = s
or_stay s (some t) = t

-- A schedule: at `true` the server has a turn, at `false` the client.
unfoldable pub run : List Bool → System → System
run [] s = s
run (true ∷ turns) s = run turns (or_stay s (server_turn s))
run (false ∷ turns) s = run turns (or_stay s (client_turn s))

-- The records that the server is asked for: the bytes between two flushes, where there are some.
-- The first argument has the bytes of the record that is begun.
abbrev pub records : List ℕ → List Op → List (List ℕ)
records begun [] = []
records begun (writes from ∷ ops) = records (begun ++ from) ops
records [] (flushes ∷ ops) = records [] ops
records (b ∷ bs) (flushes ∷ ops) = (b ∷ bs) ∷ records [] ops

-- Each record has room in a wire of `cap` bytes, when `n` bytes of the first are there already.
abbrev pub AllFit : ℕ → ℕ → List Op → Type 0
AllFit cap n [] = Unit {0}
AllFit cap n (writes from ∷ ops) = (n + length from + 4 ≤ cap) × AllFit cap (n + length from) ops
AllFit cap n (flushes ∷ ops) = AllFit cap 0 ops

-- More than the bytes, headers included, and more than the turns that they take.
abbrev pub cost : List Op → ℕ
cost [] = 0
cost (writes from ∷ ops) = 11 + 2 * length from + cost ops
cost (flushes ∷ ops) = 1 + cost ops
