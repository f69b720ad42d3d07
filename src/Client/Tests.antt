-- ===== src/Client/Tests.antt =====
-- Two requests whose responses come mixed: a head and a body for the second, and one for the first.
use tateyama_bootstrap.Prelude.{
  zero, suc, ◌≡◌, refl, subst, List, [], ◌∷◌, Option, some, none, arith, get_elem?, set, true,
  false,
}
use tateyama_bootstrap.Client.{
  Response, Slot, empty_slot, valid, expect, store, finish_receive, receive_and_consume, dispatch,
  receive, returned, waits, consume, search_slot,
}
use tateyama_bootstrap.Client.Slots.{fresh, IsAt, SlotOk, kept}
use tateyama_bootstrap.Client.Receiving.{for_slot, AllOk, Got, receive-Got}
use tateyama_bootstrap.Client.Searching.{Searched, search_slot-Searched}
use tateyama_bootstrap.Client.Race.{dispatch-loses_head}
use tateyama_bootstrap.Client.Chunks.{Container, chunk, get_chunk, dispose, get_chunk-dispose}
use tateyama_bootstrap.Wire.Header.{length_header, length_to_buffer}
use tateyama_bootstrap.Wire.Ring.Counters.{IsValid, contents}
use tateyama_bootstrap.Wire.ResultSet.{ResultWire}
use tateyama_bootstrap.Wire.Pool.Active.{active}

abbrev busy_slot : Slot
busy_slot = record empty_slot { in_use = true }

abbrev two_slots : List Slot
two_slots = busy_slot ∷ busy_slot ∷ []

abbrev mixed : List Response
mixed =
    record { idx = 1; msg_type = 2; message = 7 ∷ [] }
    ∷ record { idx = 0; msg_type = 1; message = 8 ∷ [] }
    ∷ record { idx = 1; msg_type = 1; message = 9 ∷ [] }
    ∷ []

receive-mixed :
    receive 0 two_slots mixed
    ≡ returned
        (8 ∷ [])
        (empty_slot
          ∷ record busy_slot { expected = 2; received = 1; body_head_message = 7 ∷ [] }
          ∷ [])
        (record { idx = 1; msg_type = 1; message = 9 ∷ [] } ∷ [])
unfolding receive dispatch valid store expect receive_and_consume finish_receive
receive-mixed = refl

abbrev FromSome : (Slot → Type 0) → Option Slot → Type 0
FromSome P none = Unit {0}
FromSome P (some t) = P t

two_slots-AllOk : AllOk two_slots mixed
two_slots-AllOk zero s e =
    subst (λ o. FromSome (λ t. SlotOk t (for_slot 0 mixed)) o) e
      (fresh, record { expects = refl; receives = refl; consumes = refl; coming = tt })
two_slots-AllOk (suc zero) s e =
    subst (λ o. FromSome (λ t. SlotOk t (for_slot 1 mixed)) o) e
      (fresh, record { expects = refl; receives = refl; consumes = refl; coming = refl })
two_slots-AllOk (suc (suc j)) s e = absurd (let g = e in cc)

receive-Got_example : Got 1 two_slots mixed (7 ∷ []) ((9 ∷ []) ∷ []) (receive 1 two_slots mixed)
unfolding kept
receive-Got_example =
    receive-Got mixed 1 two_slots (7 ∷ []) ((9 ∷ []) ∷ []) (omega arith) (omega arith)
      two_slots-AllOk refl

abbrev head : Response
head = record { idx = 1; msg_type = 2; message = 7 ∷ [] }

abbrev body : Response
body = record { idx = 1; msg_type = 1; message = 9 ∷ [] }

busy_slot-IsAt : IsAt fresh busy_slot (head ∷ body ∷ [])
busy_slot-IsAt = record { expects = refl; receives = refl; consumes = refl; coming = refl }

dispatch-loses_head_example :
    (valid busy_slot ≡ false)
    × (dispatch 0 two_slots head (body ∷ []) waits busy_slot
        ≡ waits (set two_slots 1 (store head busy_slot)))
    × ((consume (store head busy_slot)).0 ≡ 7 ∷ [])
    × (dispatch 1 (set two_slots 1 (store head busy_slot)) body [] waits (store head busy_slot)
        ≡ returned (9 ∷ []) (set (set two_slots 1 (store head busy_slot)) 1 empty_slot) [])
dispatch-loses_head_example =
    dispatch-loses_head busy_slot head body busy_slot-IsAt 1 0 two_slots busy_slot [] waits waits
      refl refl (omega arith) refl

search_slot-Searched_example :
    Searched 0 (busy_slot ∷ empty_slot ∷ []) (search_slot (busy_slot ∷ empty_slot ∷ []))
search_slot-Searched_example = search_slot-Searched (busy_slot ∷ empty_slot ∷ [])

-- A record whose header goes over the end of the buffer.
abbrev wire : ResultWire
wire = record {
  ring = record {
    buffer = 0 ∷ 0 ∷ 11 ∷ 12 ∷ 13 ∷ 0 ∷ 0 ∷ 0 ∷ 3 ∷ 0 ∷ [];
    capacity = 10;
    pushed = 15;
    poped = 8;
  };
  pushed_valid = 15;
  closed = false;
  continued = false;
}

wire-IsValid : IsValid wire.ring
wire-IsValid = omega arith

abbrev unused : Container
unused = record { current_wire = none; wrap_around = [] }

get_chunk-dispose_example :
    (d : Container) × (get_chunk unused (wire ∷ []) ((active 0, true) ∷ [])
      ≡ chunk (11 ∷ 12 ∷ 13 ∷ []) d)
    × ((left : List ResultWire) × (v : ResultWire) × (dispose d (wire ∷ [])
          ≡ some (record d { current_wire = none }, left))
        × (get_elem? left 0 ≡ some v)
        × (contents v.ring ≡ []))
unfolding length_header length_to_buffer
get_chunk-dispose_example =
    get_chunk-dispose unused (wire ∷ []) [] true 0 wire (11 ∷ 12 ∷ 13 ∷ []) [] refl refl
      wire-IsValid refl (omega arith) (omega arith) (omega arith) (omega arith)
