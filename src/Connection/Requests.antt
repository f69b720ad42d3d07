-- ===== src/Connection/Requests.antt =====
-- `request` and `request_admin` of `connection_queue` in src/tateyama/transport/wire.h: when they
-- are refused, and that a slot which they give is nobody else's.
use mathlib.Core.List.{Mem, Nodup, Nodup-cons, Perm, mem-append_right}
use mathlib.Core.List.Perm
use tateyama_bootstrap.Prelude.{
  ℕ, ◌+◌, ◌-◌, ◌*◌, ◌%◌, ◌^◌, ◌≤◌, ◌<◌, ◌≡◌, refl, sym, ap, ◌∙◌, subst, ◌⊎◌, inl, inr, List, [],
  ◌∷◌, ◌++◌, Bool, true, false, arith, length, length-append,
}
use tateyama_bootstrap.Reason.{ok, throws, runtime_error, internal}
use tateyama_bootstrap.Wire.Ring.Window.{length-window}
use tateyama_bootstrap.Connection.Indexes.{is_admin, set_admin, reset_admin}
use tateyama_bootstrap.Connection.Queue.{ConnectionQueue, request, request_admin}
use tateyama_bootstrap.Connection.Slots.{
  range, slots_of, slots_of-append, admins, admins-append, marks, range_from-Nodup,
}
use tateyama_bootstrap.Connection.Rings.{
  held, head, shrunk, shrunk-IsRing, held-shrunk, head-below, grown, grown-IsRing, held-grown,
  push-unmarked, try_pop_cases, try_pop_admin_cases,
}
use tateyama_bootstrap.Connection.Invariant.{
  Inv, waiting, free, All64, normals, admins-le-length, take_slot,
}

pub All64-append : (xs ys : List ℕ) → All64 xs → All64 ys → All64 (xs ++ ys)
All64-append [] ys a b = b
All64-append (x ∷ xs) ys a b = (a.0, All64-append xs ys a.1 b)

pub All64-left : (xs ys : List ℕ) → All64 (xs ++ ys) → All64 xs
All64-left [] ys a = tt
All64-left (x ∷ xs) ys a = (a.0, All64-left xs ys a.1)

pub All64-right : (xs ys : List ℕ) → All64 (xs ++ ys) → All64 ys
All64-right [] ys a = a
All64-right (x ∷ xs) ys a = All64-right xs ys a.1

-- Neither counter is near the end of its range.
abbrev pub IsYoung : ℕ → ConnectionQueue → Type 0
IsYoung n c =
    (c.q_free.pushed + 1 + c.admin_slots + n < 2 ^ 63) × (c.q_requested.pushed + 1 + n < 2 ^ 63)

-- The counters and the admin slots of `c'` against those of `c`.
pub record Pushes (to_free to_requested : ℕ) (c c' : ConnectionQueue) : Type 0 where
  pub free_pushed : c'.q_free.pushed ≡ c.q_free.pushed + to_free
  pub requested_pushed : c'.q_requested.pushed ≡ c.q_requested.pushed + to_requested
  pub same_slots : c'.admin_slots ≡ c.admin_slots

module _ {n : ℕ} {connected : List ℕ} {c : ConnectionQueue} (v : Inv n connected c) where
  pub length-free : length (free c) ≡ c.q_free.pushed + c.admin_slots - c.q_free.poped
  length-free =
      length-window c.q_free.queue c.q_free.capacity c.q_free.poped
        (c.q_free.pushed + c.admin_slots - c.q_free.poped)

  pub length-waiting : length (waiting c) ≡ c.q_requested.pushed + 0 - c.q_requested.poped
  length-waiting =
      length-window c.q_requested.queue c.q_requested.capacity c.q_requested.poped
        (c.q_requested.pushed + 0 - c.q_requested.poped)

  -- The slot that a request takes.
  abbrev pub next_slot : ℕ
  next_slot = head v.free_ring

  -- The queue after the slot at the head has gone to the request `sid`.
  abbrev pub entered : ℕ → ℕ → ConnectionQueue
  entered sid in_use = record c {
    q_free = record (shrunk v.free_ring) { admin_slots_in_use = in_use };
    q_requested = grown v.requested_ring sid;
  }

  pub waiting-entered :
      (sid in_use : ℕ) → 0 < length (free c) → waiting (entered sid in_use) ≡ waiting c ++ sid ∷ []
  waiting-entered sid in_use h =
      held-grown v.requested_ring sid
        (omega (arith, v.count, length-waiting, v.requested_ring.behind))

  pub entered-Inv :
      (sid in_use : ℕ)
      → IsYoung n c
      → 0 < length (free c)
      → reset_admin sid ≡ next_slot
      → sid < 2 ^ 64
      → in_use ≡ admins (waiting c ++ connected) + admins (sid ∷ [])
      → in_use < 256
      → Inv n connected (entered sid in_use)
  entered-Inv sid in_use y h slot wide used small =
      let more : c.q_free.poped < c.q_free.pushed + c.admin_slots = omega (arith, length-free) in
      let ws = waiting-entered sid in_use h in
      let fs = held-shrunk v.free_ring more in
      let ring = shrunk-IsRing v.free_ring more in
      record {
        free_ring = record {
          capacity = ring.capacity;
          places = ring.places;
          positive = ring.positive;
          behind = ring.behind;
          within = ring.within;
          young = ring.young;
        };
        requested_ring =
            grown-IsRing v.requested_ring sid
              (omega (arith, v.count, length-waiting, v.requested_ring.behind))
              (omega (arith, y.1));
        filled = v.filled;
        answers = v.answers;
        some_admin = v.some_admin;
        few_admin = v.few_admin;
        below = v.below;
        wide = rw ws (
            All64-append (waiting c ++ sid ∷ []) connected
              (All64-append (waiting c) (sid ∷ []) (All64-left (waiting c) connected v.wide)
                (wide, tt))
              (All64-right (waiting c) connected v.wide));
        count = rw ws (omega (arith, v.count, ap length fs, length-append (waiting c) (sid ∷ [])));
        in_use =
            used
            ∙ sym (
                ap (λ w. admins (w ++ connected)) ws
                ∙ omega (
                  arith,
                  admins-append (waiting c ++ sid ∷ []) connected,
                  admins-append (waiting c) (sid ∷ []),
                  admins-append (waiting c) connected,
                ));
        in_use_small = small;
        partition =
            rw (ws, slots_of-append, slot)
              (take_slot n next_slot _ (slots_of (waiting c)) (slots_of connected) (
                subst (λ l. Perm (l ++ (slots_of (waiting c) ++ slots_of connected)) (range n)) fs
                  v.partition));
      }

  -- The slot at the head is no one's.
  pub next_slot_fresh :
      0 < length (free c) → ¬ Mem next_slot (slots_of (waiting c) ++ slots_of connected)
  next_slot_fresh h m =
      let fs = held-shrunk v.free_ring (omega (arith, length-free)) in
      let apart : Nodup (free c ++ (slots_of (waiting c) ++ slots_of connected)) =
        Perm.nodup (Perm.symm v.partition) (range_from-Nodup 0 n) in
      let alone = subst (λ l. Nodup (l ++ (slots_of (waiting c) ++ slots_of connected))) fs apart in
      (Nodup-cons.0 alone).0 (mem-append_right (held (shrunk v.free_ring) c.admin_slots) m)

  small_slot : next_slot < n
  small_slot = head-below v.free_ring v.below

  sums :
      (length (waiting c ++ connected) ≡ length (waiting c) + length connected)
      × (admins (waiting c ++ connected) ≤ length (waiting c ++ connected))
  sums = (length-append (waiting c) connected, admins-le-length (waiting c ++ connected))

  -- What a request that goes through leaves: its slot was no one's, and it waits behind the others.
  pub record Granted (admin : Bool) (sid : ℕ) (c' : ConnectionQueue) : Type 0 where
    pub inv : Inv n connected c'
    pub pushes : Pushes 0 1 c c'
    pub waits_last : waiting c' ≡ waiting c ++ sid ∷ []
    pub mark : is_admin sid ≡ admin
    pub fresh : ¬ Mem (reset_admin sid) (slots_of (waiting c) ++ slots_of connected)

  entered-Granted :
      (admin : Bool) (sid in_use : ℕ)
      → IsYoung n c
      → 0 < length (free c)
      → reset_admin sid ≡ next_slot
      → sid < 2 ^ 64
      → is_admin sid ≡ admin
      → in_use ≡ admins (waiting c ++ connected) + admins (sid ∷ [])
      → in_use < 256
      → Granted admin sid (entered sid in_use)
  entered-Granted admin sid in_use y h slot wide mark used small = record {
    inv = entered-Inv sid in_use y h slot wide used small;
    pushes = record { free_pushed = omega arith; requested_pushed = refl; same_slots = refl };
    waits_last = waiting-entered sid in_use h;
    mark = mark;
    fresh = rw slot (next_slot_fresh h);
  }

  -- A normal request is refused exactly when as many normal requests and sessions are there as
  -- there are slots beside the admins' own. Otherwise it gets a slot that is no one's, and waits
  -- behind the others. No more admins may be there than have slots of their own.
  pub request_cases :
      IsYoung n c
      → c.q_free.admin_slots_in_use ≤ c.admin_slots
      → ((n ≤ c.admin_slots + normals connected c) × (request c ≡ throws (runtime_error internal)))
        ⊎ ((c.admin_slots + normals connected c < n)
            × ((sid : ℕ) × (c' : ConnectionQueue) × (request c ≡ ok (sid, c'))
                × Granted false sid c'))
  unfolding request
  request_cases y few = elim (try_pop_cases v.free_ring v.in_use_small) [
    | inl (full, e) ↦ inl (omega (arith, full, v.in_use, v.count, length-free, sums), rw e)
    | inr (room, e) ↦
        let more : 0 < length (free c) = omega (arith, length-free) in
        let (plain, slot, _, _, _) =
          marks next_slot (omega (arith, small_slot, v.free_ring.young)) in
        inr (
          omega (arith, room, v.in_use, v.count, length-free, sums),
          (
            next_slot,
            entered next_slot c.q_free.admin_slots_in_use,
            rw (e, push-unmarked v.requested_ring next_slot refl),
            entered-Granted false next_slot c.q_free.admin_slots_in_use y more slot
                (omega (arith, small_slot, v.free_ring.young)) plain
                (rw plain (omega (arith, v.in_use))) v.in_use_small,
          ),
        )
  ]

  -- An admin request is refused exactly when the normal requests and sessions, with the admins'
  -- counted twice, are as many as the slots. Otherwise it gets a slot that is no one's, with the
  -- admin mark, and waits behind the others.
  pub request_admin_cases :
      IsYoung n c
      → c.q_free.admin_slots_in_use + 1 < 256
      → ((n ≤ normals connected c + 2 * c.q_free.admin_slots_in_use)
          × (request_admin c ≡ throws (runtime_error internal)))
        ⊎ ((normals connected c + 2 * c.q_free.admin_slots_in_use < n)
            × ((sid : ℕ) × (c' : ConnectionQueue) × (request_admin c ≡ ok (sid, c'))
                × Granted true sid c'))
  unfolding request_admin
  request_admin_cases y few =
      elim (try_pop_admin_cases v.free_ring (omega (arith, v.in_use, v.count, v.filled, sums))
        v.in_use_small) [
          | inl (full, e) ↦ inl (omega (arith, full, v.in_use, v.count, length-free, sums), rw e)
          | inr (room, e) ↦
              let more : 0 < length (free c) = omega (arith, length-free, room) in
              let (_, _, marked, slot, wide) =
                marks next_slot (omega (arith, small_slot, v.free_ring.young)) in
              inr (
                omega (arith, room, v.in_use, v.count, length-free, sums),
                (
                  set_admin next_slot,
                  entered (set_admin next_slot) ((c.q_free.admin_slots_in_use + 1) % 256),
                  rw (e, push-unmarked v.requested_ring (set_admin next_slot) refl),
                  entered-Granted true (set_admin next_slot)
                      ((c.q_free.admin_slots_in_use + 1) % 256) y more slot wide marked
                      (rw marked (omega (arith, v.in_use, few))) (omega arith),
                ),
              )
        ]
