-- ===== src/Connection/Answers.antt =====
-- `accept`, `reject` and `disconnect` of `connection_queue` in src/tateyama/transport/wire.h: the
-- slot of a request goes to a session, and comes back.
use mathlib.Core.List.{Mem, Perm, mem-append_right, mem-append_left, mem-cons}
use mathlib.Core.Logic.Or
use mathlib.Core.List.Perm
use tateyama_bootstrap.Prelude.{
  ℕ, ◌+◌, ◌<◌, ◌≡◌, refl, sym, ap, ◌∙◌, subst, List, [], ◌∷◌, ◌++◌, false, arith, length, set,
  length-set, get_or,
}
use tateyama_bootstrap.Reason.{ok, ◌>>=◌}
use tateyama_bootstrap.Connection.Indexes.{is_admin, reset_admin}
use tateyama_bootstrap.Connection.Queue.{
  ConnectionQueue, slot, accept, reject, disconnect, session_id_indicating_error,
}
use tateyama_bootstrap.Connection.Slots.{range, range_from-below, slots_of, admins}
use tateyama_bootstrap.Connection.Rings.{
  held, head, shrunk, shrunk-IsRing, held-shrunk, front-eq-head, pop-eq-shrunk, set_at-eq-ok,
}
use tateyama_bootstrap.Connection.Invariant.{Inv, waiting, free, All64, answer_slot}
use tateyama_bootstrap.Connection.Requests.{
  IsYoung, Pushes, length-waiting, All64-append, All64-left, All64-right,
}

-- Without its mark a slot is the slot.
pub plain : (sid : ℕ) → is_admin sid ≡ false → reset_admin sid ≡ sid
unfolding is_admin reset_admin
plain sid h = ground (arith, h)

pub slot-Mem : (sid : ℕ) (xs ys : List ℕ) → Mem (reset_admin sid) (slots_of (xs ++ sid ∷ ys))
slot-Mem sid [] ys = mem-cons.1 (Or.inl refl)
slot-Mem sid (x ∷ xs) ys = mem-cons.1 (Or.inr (slot-Mem sid xs ys))

-- A list of requests without the request `sid` in its middle.
pub All64-drop : (sid : ℕ) (xs ys : List ℕ) → All64 (xs ++ sid ∷ ys) → All64 (xs ++ ys)
All64-drop sid [] ys a = a.1
All64-drop sid (x ∷ xs) ys a = (a.0, All64-drop sid xs ys a.1)

pub admins-drop :
    (sid : ℕ) (xs ys : List ℕ) → admins (xs ++ sid ∷ ys) ≡ admins (xs ++ ys) + admins (sid ∷ [])
admins-drop sid [] ys = ground arith
admins-drop sid (x ∷ xs) ys = ground (arith, admins-drop sid xs ys)

pub reject-eq-accept-disconnect :
    (sid : ℕ) (c : ConnectionQueue)
    → reject sid c ≡ accept sid session_id_indicating_error c >>= disconnect sid
unfolding reject accept disconnect
reject-eq-accept-disconnect sid c = ground (arith)

-- What an accepted request leaves: the oldest one is a session now, and its client finds the id.
pub record Accepted (n : ℕ) (connected : List ℕ) (c : ConnectionQueue) (ws : List ℕ)
    (sid session_id : ℕ) (c' : ConnectionQueue) : Type 0 where
  pub inv : Inv n (sid ∷ connected) c'
  pub waiting_left : waiting c' ≡ ws
  pub same_free : c'.q_free ≡ c.q_free
  pub pushes : Pushes 0 0 c c'
  pub young : IsYoung n c → IsYoung n c'
  pub answer : c'.v_requested ≡ set c.v_requested (reset_admin sid) session_id

module _ {n : ℕ} {connected : List ℕ} {c : ConnectionQueue} (v : Inv n connected c) where
  -- A request or session has one of the slots.
  pub in_range : (x : ℕ) → Mem x (slots_of (waiting c) ++ slots_of connected) → x < n
  in_range x m =
      omega
        (arith, range_from-below 0 n x ((Perm.mem_iff v.partition).0 (mem-append_right (free c) m)))

  waits-in_range : (sid : ℕ) (ws : List ℕ) → waiting c ≡ sid ∷ ws → reset_admin sid < n
  waits-in_range sid ws e = in_range (reset_admin sid) (
      mem-append_left (slots_of connected)
        (subst (λ l. Mem (reset_admin sid) (slots_of l)) (sym e) (slot-Mem sid [] ws)))

  waits-head :
      (sid : ℕ) (ws : List ℕ)
      → waiting c ≡ sid ∷ ws
      → c.q_requested.poped < c.q_requested.pushed + 0
  waits-head sid ws e = omega (arith, ap length e, length-waiting v)

  head-waiting :
      (sid : ℕ) (ws : List ℕ)
      → waiting c ≡ sid ∷ ws
      → (head v.requested_ring ≡ sid) × (held (shrunk v.requested_ring) 0 ≡ ws)
  head-waiting sid ws e =
      let both : head v.requested_ring ∷ held (shrunk v.requested_ring) 0 ≡ sid ∷ ws =
        sym (held-shrunk v.requested_ring (waits-head sid ws e)) ∙ e in
      (ap (λ l. get_or l 0 0) both, cc)

  -- `slot` gives the oldest request.
  pub slot-oldest : (sid : ℕ) (ws : List ℕ) → waiting c ≡ sid ∷ ws → slot c ≡ ok sid
  unfolding slot
  slot-oldest sid ws e = front-eq-head v.requested_ring ∙ ap ok (head-waiting sid ws e).0

  accepted : ℕ → ℕ → ConnectionQueue
  accepted sid session_id = record c {
    q_requested = shrunk v.requested_ring;
    v_requested = set c.v_requested (reset_admin sid) session_id;
  }

  accepted-Inv :
      (sid session_id : ℕ) (ws : List ℕ)
      → waiting c ≡ sid ∷ ws
      → Inv n (sid ∷ connected) (accepted sid session_id)
  unfolding accepted
  accepted-Inv sid session_id ws e =
      let left = (head-waiting sid ws e).1 in
      let ring = shrunk-IsRing v.requested_ring (waits-head sid ws e) in
      let wide = subst (λ l. All64 (l ++ connected)) e v.wide in
      record {
        free_ring = v.free_ring;
        requested_ring = ring;
        filled = v.filled;
        answers = length-set c.v_requested (reset_admin sid) session_id ∙ v.answers;
        some_admin = v.some_admin;
        few_admin = v.few_admin;
        below = v.below;
        wide = rw left (
            All64-append ws (sid ∷ connected) (All64-left ws connected wide.1)
              (wide.0, All64-right ws connected wide.1));
        count = omega (arith, v.count, ap length left, ap length e);
        in_use =
            v.in_use
            ∙ ap (λ w. admins (w ++ connected)) e
            ∙ sym (
                ap (λ w. admins (w ++ sid ∷ connected)) left
                ∙ ground (arith, admins-drop sid ws connected));
        in_use_small = v.in_use_small;
        partition = rw left (
            answer_slot n (reset_admin sid) (free c) (slots_of ws) (slots_of connected) (
              subst (λ l. Perm (free c ++ (slots_of l ++ slots_of connected)) (range n)) e
                v.partition));
      }

  -- To accept the oldest request makes it a session, and leaves the others waiting.
  pub accept_lem :
      (sid session_id : ℕ) (ws : List ℕ)
      → waiting c ≡ sid ∷ ws
      → (c' : ConnectionQueue) × (accept sid session_id c ≡ ok c')
        × Accepted n connected c ws sid session_id c'
  unfolding accept accepted
  accept_lem sid session_id ws e = (
    accepted sid session_id,
    rw (
      set_at-eq-ok c.v_requested (reset_admin sid) session_id
          (omega (arith, v.answers, waits-in_range sid ws e)),
      pop-eq-shrunk v.requested_ring,
    ),
    record {
      inv = accepted-Inv sid session_id ws e;
      waiting_left = (head-waiting sid ws e).1;
      same_free = refl;
      pushes = record {
        free_pushed = omega arith;
        requested_pushed = omega arith;
        same_slots = refl;
      };
      young = λ y. y;
      answer = refl;
    },
  )
