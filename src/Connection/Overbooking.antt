-- ===== src/Connection/Overbooking.antt =====
-- When more admins than have slots of their own hold slots, `try_pop` of src/tateyama/transport/wire.h
-- counts free slots that are not there.
use mathlib.Core.List.{Mem}
use mathlib.Core.List.Perm
use tateyama_bootstrap.Prelude.{
  ℕ, ◌<◌, ◌≡◌, refl, ap, subst, inl, inr, List, [], ◌++◌, arith, length,
}
use tateyama_bootstrap.Reason.{ok}
use tateyama_bootstrap.Connection.Queue.{ConnectionQueue, request}
use tateyama_bootstrap.Connection.Slots.{slots_of, mem-range_from}
use tateyama_bootstrap.Connection.Rings.{head-below, push-unmarked, try_pop_cases}
use tateyama_bootstrap.Connection.Invariant.{Inv, waiting, free}
use tateyama_bootstrap.Connection.Requests.{length-free, next_slot, entered}

-- When no slot is free, and more admin requests and sessions are there than admin slots, a request
-- that is no admin's goes through all the same, and gets a slot with which a client waits or which
-- a session has.
pub request-overbooks :
    {n : ℕ} {connected : List ℕ} {c : ConnectionQueue} (v : Inv n connected c)
    → free c ≡ []
    → c.admin_slots < c.q_free.admin_slots_in_use
    → (sid : ℕ) × (c' : ConnectionQueue) × (request c ≡ ok (sid, c'))
      × Mem sid (slots_of (waiting c) ++ slots_of connected)
unfolding request
request-overbooks {n} {connected} {c} v none_free many =
    elim (try_pop_cases v.free_ring v.in_use_small) [
      | inl (full, e) ↦
          absurd (omega (arith, full, many, ap length none_free, length-free v, v.free_ring.behind))
      | inr (room, e) ↦ (
        next_slot v,
        entered v (next_slot v) c.q_free.admin_slots_in_use,
        rw (e, push-unmarked v.requested_ring (next_slot v) refl),
        subst (λ l. Mem (next_slot v) (l ++ (slots_of (waiting c) ++ slots_of connected))) none_free
            ((Perm.mem_iff v.partition).1 (
              mem-range_from 0 n (next_slot v) (omega arith)
                (omega (arith, head-below v.free_ring v.below)))),
      )
    ]
