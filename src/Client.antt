-- ===== src/Client.antt =====
-- The client's end of a session in src/tateyama/transport/client_wire.h: `session_wire_container` with
-- its slots, in which the responses to several requests wait to be taken. The response wire is the
-- list of the responses that it delivers, in order; one thread at a time receives.
pub mod Slots
pub mod Taking
pub mod Receiving
pub mod Searching
pub mod Race
pub mod Chunks
mod Tests
use tateyama_bootstrap.Prelude.{
  ℕ, zero, suc, ◌+◌, ◌==◌, List, [], ◌∷◌, Bool, true, false, ◌&&◌, Option, none, some, get_elem?,
  set, replicate, ltb, if◌then◌else◌,
}
use tateyama_bootstrap.Reason.{Error, runtime_error, out_of_range, internal, Result, ok, throws}

-- A response on the wire.
pub record Response : Type 0 where
  pub idx : ℕ
  pub msg_type : ℕ
  pub message : List ℕ

abbrev pub response_bodyhead : ℕ
response_bodyhead = 2

abbrev pub slot_size : ℕ
slot_size = 16

-- The counters of a slot stay at 2 and below, so that their width plays no part.
pub record Slot : Type 0 where
  pub in_use : Bool
  pub received : ℕ
  pub consumed : ℕ
  pub expected : ℕ
  pub body_message : List ℕ
  pub body_head_message : List ℕ

abbrev pub empty_slot : Slot
empty_slot = record {
  in_use = false;
  received = 0;
  consumed = 0;
  expected = 0;
  body_message = [];
  body_head_message = [];
}

-- What it returns, and the slot.
unfoldable pub test_and_set_in_use : Slot → Bool × Slot
test_and_set_in_use s = (s.in_use, record s { in_use = true })

unfoldable pub valid : Slot → Bool
valid s = ltb s.consumed s.received

-- `expected_` after the first response has come.
unfoldable pub expect : ℕ → Slot → Slot
expect msg_type s =
    if s.expected == 0
    then record s { expected = if msg_type == response_bodyhead then 2 else 1 }
    else s

-- `pre_receive`, the read into the string that it gives, and `post_receive`.
unfoldable pub store : Response → Slot → Slot
unfolding expect
store r s =
    let t = expect r.msg_type s in
    if (t.expected == 2) && (t.received == 0)
    then record t { body_head_message = r.message; received = t.received + 1 }
    else record t { body_message = r.message; received = t.received + 1 }

unfoldable pub finish_receive : Slot → Slot
finish_receive s = empty_slot

unfoldable pub receive_and_consume : ℕ → Slot → Slot
unfolding expect finish_receive
receive_and_consume msg_type s =
    let t = expect msg_type s in
    if (t.expected == 2) && (t.received == 0)
    then record t { received = t.received + 1; consumed = t.consumed + 1 }
    else finish_receive t

-- The message and the slot.
unfoldable pub consume : Slot → List ℕ × Slot
unfolding finish_receive
consume s =
    if (s.expected == 2) && (s.consumed == 0)
    then (s.body_head_message, record s { consumed = s.consumed + 1 })
    else (s.body_message, finish_receive s)

abbrev pub one_later : Slot → Result (ℕ × List Slot) → Result (ℕ × List Slot)
one_later s (throws e) = throws e
one_later s (ok (k, rest)) = ok (k, s ∷ rest)

-- `search_slot` over the slots from `i` on: the index that it returns, and the slots.
unfoldable pub search_from : ℕ → List Slot → Result (ℕ × List Slot)
unfolding test_and_set_in_use
search_from i [] = throws (runtime_error internal)
search_from i (s ∷ slots) =
    let later = search_from (suc i) slots in
    if (test_and_set_in_use s).0
    then one_later ((test_and_set_in_use s).1) later
    else ok (i, (test_and_set_in_use s).1 ∷ slots)

unfoldable pub search_slot : List Slot → Result (ℕ × List Slot)
unfolding search_from
search_slot slots = search_from 0 slots

-- What `receive` comes to: a message, with the slots and the responses that are left on the wire;
-- or it waits for more responses.
pub data Received : Type 0 where
  returned : List ℕ → List Slot → List Response → Received
  waits : List Slot → Received
  fails : Error → Received

-- A message that another turn has put into the slot is taken; otherwise the wire is read.
abbrev pub look : Option Slot → ℕ → List Slot → List Response → (Slot → Received) → Received
look none k slots rs read = fails out_of_range
look (some s) k slots rs read =
    if valid s then returned ((consume s).0) (set slots k ((consume s).1)) rs else read s

abbrev pub put_by : Option Slot → List Slot → Response → (List Slot → Received) → Received
put_by none slots r next = fails out_of_range
put_by (some t) slots r next = next (set slots r.idx (store r t))

-- A response that is read from the wire: it is for this slot, or goes to its own.
unfoldable pub dispatch :
    ℕ → List Slot → Response → List Response → (List Slot → Received) → Slot → Received
dispatch k slots r rs next s =
    if r.idx == k
    then returned r.message (set slots k (receive_and_consume r.msg_type s)) rs
    else put_by (get_elem? slots r.idx) slots r next

-- `receive` for the slot at `k`.
unfoldable pub receive : ℕ → List Slot → List Response → Received
unfolding dispatch
receive k slots [] = look (get_elem? slots k) k slots [] (λ s. waits slots)
receive k slots (r ∷ rs) =
    let next = λ (later : List Slot). receive k later rs in
    look (get_elem? slots k) k slots (r ∷ rs) (dispatch k slots r rs next)
