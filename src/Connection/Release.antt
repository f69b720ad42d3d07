-- ===== src/Connection/Release.antt =====
-- `reject` and `disconnect` of `connection_queue` in src/tateyama/transport/wire.h give a slot back
-- to the free ones.
use mathlib.Core.List.{Perm, mem-append_right}
use tateyama_bootstrap.Prelude.{
  ℕ, ◌+◌, ◌-◌, ◌%◌, ◌<◌, ◌≡◌, inl, inr, refl, ap, ap₂, ◌∙◌, subst, List, [], ◌∷◌, ◌++◌, arith,
  length, length-append, lt→ltb, set, Bool-cases,
}
use tateyama_bootstrap.Reason.{ok}
use tateyama_bootstrap.Connection.Indexes.{IndexQueue, is_admin, reset_admin, push}
use tateyama_bootstrap.Connection.Queue.{
  ConnectionQueue, reject, disconnect, session_id_indicating_error,
}
use tateyama_bootstrap.Connection.Slots.{
  range, slots_of, slots_of-append, admins, admins-append, AllBelow-set,
}
use tateyama_bootstrap.Connection.Rings.{
  held, grown, grown-IsRing, held-grown, push-unmarked, push-marked,
}
use tateyama_bootstrap.Connection.Invariant.{Inv, waiting, free, give_slot}
use tateyama_bootstrap.Connection.Requests.{
  IsYoung, Pushes, length-free, All64-append, All64-left, All64-right,
}
use tateyama_bootstrap.Connection.Answers.{
  plain, slot-Mem, All64-drop, admins-drop, in_range, reject-eq-accept-disconnect, accept_lem,
}

-- What is left when the session `sid` has gone: its slot is the last of the free ones.
pub record Released (n : ℕ) (left : List ℕ) (c : ConnectionQueue) (sid : ℕ) (c' : ConnectionQueue)
    : Type 0 where
  pub inv : Inv n left c'
  pub pushes : Pushes 1 0 c c'
  pub same_waiting : waiting c' ≡ waiting c
  pub freed : free c' ≡ free c ++ reset_admin sid ∷ []
  pub same_answers : c'.v_requested ≡ c.v_requested

module _ {n : ℕ} {c : ConnectionQueue} (sid : ℕ) (cs ds : List ℕ)
    (v : Inv n (cs ++ sid ∷ ds) c) where
  slot_below : reset_admin sid < n
  slot_below =
      in_range v (reset_admin sid) (mem-append_right (slots_of (waiting c)) (slot-Mem sid cs ds))

  counted :
      admins (waiting c ++ (cs ++ sid ∷ ds)) ≡ admins (waiting c ++ (cs ++ ds)) + admins (sid ∷ [])
  counted = omega (
    arith,
    admins-append (waiting c) (cs ++ sid ∷ ds),
    admins-append (waiting c) (cs ++ ds),
    admins-drop sid cs ds,
  )

  one_less : length (cs ++ sid ∷ ds) ≡ length (cs ++ ds) + 1
  one_less = omega (arith, length-append cs (sid ∷ ds), length-append cs ds)

  has_place : c.q_free.pushed + c.admin_slots < c.q_free.poped + n
  has_place = omega (arith, one_less, v.count, length-free v, v.free_ring.behind)

  -- The free slots with that of `sid`.
  released_queue : IndexQueue
  released_queue = record (grown v.free_ring (reset_admin sid)) {
    admin_slots_in_use = c.q_free.admin_slots_in_use - admins (sid ∷ []);
  }

  push-back : push sid c.admin_slots c.q_free ≡ ok released_queue
  unfolding released_queue
  push-back = elim (Bool-cases (is_admin sid)) [
    | inl marked ↦
        push-marked v.free_ring sid (rw (marked, lt→ltb 0 c.admin_slots v.some_admin))
        ∙ rw (
          marked,
          (let e : (c.q_free.admin_slots_in_use + 255) % 256 ≡ c.q_free.admin_slots_in_use - 1 =
                omega (
                  arith,
                  v.in_use_small,
                  v.in_use,
                  counted,
                  (let one : admins (sid ∷ []) ≡ 1 = rw marked in one),
                ) in
              e),
        )
    | inr unmarked ↦
        push-unmarked v.free_ring sid (rw (unmarked, lt→ltb 0 c.admin_slots v.some_admin))
        ∙ rw (
          unmarked,
          plain sid unmarked,
          (let z : c.q_free.admin_slots_in_use - 0 ≡ c.q_free.admin_slots_in_use = omega arith in
              z),
        )
  ]

  released : ConnectionQueue
  released = record c { q_free = released_queue }

  released-Inv : IsYoung n c → Inv n (cs ++ ds) released
  unfolding released released_queue
  released-Inv y =
      let ring = grown-IsRing v.free_ring (reset_admin sid) has_place (omega (arith, y.0)) in
      let fs = held-grown v.free_ring (reset_admin sid) has_place in
      record {
        free_ring = record {
          capacity = ring.capacity;
          places = ring.places;
          positive = ring.positive;
          behind = ring.behind;
          within = ring.within;
          young = ring.young;
        };
        requested_ring = v.requested_ring;
        filled = omega (arith, v.filled);
        answers = v.answers;
        some_admin = v.some_admin;
        few_admin = v.few_admin;
        below = AllBelow-set n c.q_free.queue _ (reset_admin sid) v.below slot_below;
        wide =
            All64-append (waiting c) (cs ++ ds) (All64-left (waiting c) (cs ++ sid ∷ ds) v.wide)
              (All64-drop sid cs ds (All64-right (waiting c) (cs ++ sid ∷ ds) v.wide));
        count =
            omega (
              arith,
              v.count,
              one_less,
              ap length fs,
              length-append (free c) (reset_admin sid ∷ []),
            );
        in_use = omega (arith, v.in_use, counted);
        in_use_small = omega (arith, v.in_use_small);
        partition =
            rw (fs, slots_of-append)
              (give_slot n (reset_admin sid) (free c) (slots_of (waiting c)) (slots_of cs)
                (slots_of ds)
                (subst (λ l. Perm (free c ++ (slots_of (waiting c) ++ l)) (range n))
                  (slots_of-append cs (sid ∷ ds)) v.partition));
      }

  -- To disconnect a session frees its slot, and leaves everything else as it is.
  pub disconnect_lem :
      IsYoung n c
      → (c' : ConnectionQueue) × (disconnect sid c ≡ ok c') × Released n (cs ++ ds) c sid c'
  unfolding disconnect released released_queue
  disconnect_lem y = (
    released,
    rw push-back,
    record {
      inv = released-Inv y;
      pushes = record { free_pushed = refl; requested_pushed = omega arith; same_slots = refl };
      same_waiting = refl;
      freed = held-grown v.free_ring (reset_admin sid) has_place;
      same_answers = refl;
    },
  )

-- To reject the oldest request frees its slot, and tells its client so by the id of an error.
pub reject_lem :
    {n : ℕ} {connected : List ℕ} {c : ConnectionQueue} (v : Inv n connected c) (sid : ℕ)
    (ws : List ℕ)
    → IsYoung n c
    → waiting c ≡ sid ∷ ws
    → (c' : ConnectionQueue) × (reject sid c ≡ ok c')
      × Inv n connected c'
      × Pushes 1 0 c c'
      × (waiting c' ≡ ws)
      × (free c' ≡ free c ++ reset_admin sid ∷ [])
      × (c'.v_requested ≡ set c.v_requested (reset_admin sid) session_id_indicating_error)
reject_lem {n} {connected} {c} v sid ws y e =
    let (c1, accepts, a) = accept_lem v sid session_id_indicating_error ws e in
    let (c2, frees, b) = disconnect_lem sid [] connected a.inv (a.young y) in
    (
      c2,
      reject-eq-accept-disconnect sid c ∙ rw (accepts, frees),
      b.inv,
      record {
        free_pushed = omega (arith, b.pushes.free_pushed, a.pushes.free_pushed);
        requested_pushed = omega (arith, b.pushes.requested_pushed, a.pushes.requested_pushed);
        same_slots = b.pushes.same_slots ∙ a.pushes.same_slots;
      },
      b.same_waiting ∙ a.waiting_left,
      b.freed ∙ ap (λ l. l ++ reset_admin sid ∷ []) (ap₂ held a.same_free a.pushes.same_slots),
      b.same_answers ∙ a.answer,
    )
