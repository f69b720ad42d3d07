-- ===== src/Wire/ResultSet/Invariant.antt =====
-- What holds between any two turns of the server and the client of a result set wire.
use tateyama_bootstrap.Prelude.{
  ℕ, ◌+◌, ◌*◌, ◌-◌, ◌^◌, ◌≤◌, ◌<◌, ◌≡◌, refl, sym, ap, ◌∙◌, List, [], ◌∷◌, ◌++◌, Bool, true, false,
  Option, some, append-nil, append_assoc, arith, length,
}
use tateyama_bootstrap.Wire.Ring.Counters.{IsValid, contents}
use tateyama_bootstrap.Wire.ResultSet.{Server, idle, starting, copying}
use tateyama_bootstrap.Wire.ResultSet.Chunk.{views_of}
use tateyama_bootstrap.Wire.ResultSet.Head.{encoded}
use tateyama_bootstrap.Wire.ResultSet.Session.{
  Op, flushes, Client, looking, holding, System, records, AllFit, cost,
}

abbrev pub all_encoded : List (List ℕ) → List ℕ
all_encoded [] = []
all_encoded (xs ∷ xss) = encoded xs ++ all_encoded xss

-- The bytes behind the flushed records: room for a header, and what has been written behind it.
abbrev pub open_bytes : Bool → List ℕ → List ℕ → List ℕ
open_bytes true slack begun = slack ++ begun
open_bytes false slack begun = []

abbrev pub unsent : Server → List ℕ
unsent idle = []
unsent (starting from) = from
unsent (copying from) = from

-- `continued_` is set from the first byte of a record to its flush.
abbrev pub ServerOk : Bool → List ℕ → Server → Type 0
ServerOk false begun idle = begun ≡ []
ServerOk true begun idle = 0 < length begun
ServerOk false begun (starting from) = (begun ≡ []) × (0 < length from)
ServerOk true begun (starting from) = ⊥
ServerOk false begun (copying from) = ⊥
ServerOk true begun (copying from) = 0 < length from

-- The views that a client holds are those of the oldest record.
abbrev pub ClientOk : Client → ℕ → ℕ → List (List ℕ) → Type 0
ClientOk looking cap poped unread = Unit {0}
ClientOk (holding vs) cap poped [] = ⊥
ClientOk (holding vs) cap poped (xs ∷ xss) = vs ≡ views_of cap (poped + 4) (length xs)

abbrev pub AllPos : List (List ℕ) → Type 0
AllPos [] = Unit {0}
AllPos (xs ∷ xss) = (0 < length xs) × AllPos xss

abbrev pub server_cost : Server → ℕ
server_cost idle = 0
server_cost (starting from) = 10 + 2 * length from
server_cost (copying from) = 1 + 2 * length from

abbrev pub phase : Client → ℕ
phase looking = 1
phase (holding vs) = 0

-- What is still to be done: it falls with every turn that goes through.
abbrev pub weight : System → ℕ
weight s =
    2 * (s.wire.ring.pushed - s.wire.ring.poped)
    + server_cost s.server
    + cost s.todo
    + phase s.client

-- `cap` is the wire's capacity, and `all` all records that the server is to send.
pub record Inv (cap : ℕ) (all : List (List ℕ)) (s : System) : Type 0 where
  pub valid : IsValid s.wire.ring
  pub sized : s.wire.ring.capacity ≡ cap
  pub is_open : s.wire.closed ≡ false
  pub unread : List (List ℕ)
  pub begun : List ℕ
  pub slack : List ℕ
  pub slack_size : length slack ≡ 4
  pub held : contents s.wire.ring ≡ all_encoded unread ++ open_bytes s.wire.continued slack begun
  pub marked : s.wire.pushed_valid ≡ s.wire.ring.poped + length (all_encoded unread)
  pub server_ok : ServerOk s.wire.continued begun s.server
  pub client_ok : ClientOk s.client cap s.wire.ring.poped unread
  pub positive : AllPos unread
  pub order : all ≡ s.received ++ (unread ++ records (begun ++ unsent s.server) s.todo)
  pub fit_now : length begun + length (unsent s.server) + 4 ≤ cap
  pub fit : AllFit cap (length begun + length (unsent s.server)) s.todo
  pub budget : s.wire.ring.pushed + server_cost s.server + cost s.todo < 2 ^ 64

-- A turn that goes through keeps the invariant and leaves less to do.
abbrev pub Moved : ℕ → List (List ℕ) → System → Option System → Type 0
Moved cap all s o = (t : System) × (o ≡ some t) × Inv cap all t × (weight t < weight s)

pub all_encoded-append :
    (xss : List (List ℕ)) (xs : List ℕ)
    → all_encoded (xss ++ xs ∷ []) ≡ all_encoded xss ++ encoded xs
all_encoded-append [] xs = append-nil (encoded xs)
all_encoded-append (ys ∷ xss) xs =
    ap (◌++◌ (encoded ys)) (all_encoded-append xss xs)
    ∙ sym (append_assoc (encoded ys) (all_encoded xss) (encoded xs))

pub AllPos-append :
    (xss : List (List ℕ)) (xs : List ℕ) → AllPos xss → 0 < length xs → AllPos (xss ++ xs ∷ [])
AllPos-append [] xs h p = (p, tt)
AllPos-append (ys ∷ xss) xs h p = (h.0, AllPos-append xss xs h.1 p)

pub ClientOk-append :
    (c : Client) (cap poped : ℕ) (xss : List (List ℕ)) (xs : List ℕ)
    → ClientOk c cap poped xss
    → ClientOk c cap poped (xss ++ xs ∷ [])
ClientOk-append looking cap poped xss xs h = tt
ClientOk-append (holding vs) cap poped [] xs h = absurd h
ClientOk-append (holding vs) cap poped (ys ∷ xss) xs h = h

pub records-flush :
    (begun : List ℕ) (ops : List Op)
    → 0 < length begun
    → records begun (flushes ∷ ops) ≡ begun ∷ records [] ops
records-flush [] ops h = absurd (omega arith)
records-flush (b ∷ bs) ops h = refl
