-- ===== src/Connection/Tests.antt =====
-- A `connection_queue` of two normal slots and one admin slot.
use mathlib.Core.List.{Mem, Nodup, Perm}
use mathlib.Core.List.Perm
use tateyama_bootstrap.Prelude.{
  ℕ, ◌+◌, ◌*◌, set, ◌^◌, ◌<◌, ◌≤◌, ◌≡◌, refl, ◌⊎◌, [], ◌∷◌, ◌++◌, true, false, arith,
}
use tateyama_bootstrap.Reason.{ok, throws, runtime_error, internal}
use tateyama_bootstrap.Connection.Indexes.{
  IndexQueue, fill, fill_from, push, try_pop, try_pop_admin, pop, front, index, is_admin, set_admin,
  reset_admin,
}
use tateyama_bootstrap.Connection.Indexes
use tateyama_bootstrap.Connection.Queue.{
  ConnectionQueue, create, request, request_admin, slot, accept, reject, disconnect,
  session_id_indicating_error,
}
use tateyama_bootstrap.Connection.Slots.{slots_of, range}
use tateyama_bootstrap.Connection.Invariant.{Inv, waiting, free, normals}
use tateyama_bootstrap.Connection.Reached.{
  Reached, created, requested, requested_admin, accepted, disconnected, reached-slots_apart,
}
use tateyama_bootstrap.Connection.Requests.{Granted, Pushes, request_cases, request_admin_cases}
use tateyama_bootstrap.Connection.Answers.{Accepted, accept_lem}
use tateyama_bootstrap.Connection.Release.{reject_lem}
use tateyama_bootstrap.Connection.Overbooking.{request-overbooks}

abbrev start : ConnectionQueue
start = record {
  q_free = record {
    queue = 0 ∷ 1 ∷ 2 ∷ [];
    capacity = 3;
    admin_slots_in_use = 0;
    pushed = 2;
    poped = 0;
  };
  q_requested = record {
    queue = 0 ∷ 0 ∷ 0 ∷ [];
    capacity = 3;
    admin_slots_in_use = 0;
    pushed = 0;
    poped = 0;
  };
  v_requested = 0 ∷ 0 ∷ 0 ∷ [];
  terminate = false;
  admin_slots = 1;
  s_terminated = 0;
  session_id = 0;
}

start_created : create 2 1 ≡ ok start
unfolding create Indexes.create fill fill_from
start_created = refl

abbrev after_admin : ConnectionQueue
after_admin = record start {
  q_free = record {
    queue = 0 ∷ 1 ∷ 2 ∷ [];
    capacity = 3;
    admin_slots_in_use = 1;
    pushed = 2;
    poped = 1;
  };
  q_requested = record {
    queue = 2 ^ 63 ∷ 0 ∷ 0 ∷ [];
    capacity = 3;
    admin_slots_in_use = 0;
    pushed = 1;
    poped = 0;
  };
}

abbrev after_normal : ConnectionQueue
after_normal = record start {
  q_free = record {
    queue = 0 ∷ 1 ∷ 2 ∷ [];
    capacity = 3;
    admin_slots_in_use = 1;
    pushed = 2;
    poped = 2;
  };
  q_requested = record {
    queue = 2 ^ 63 ∷ 1 ∷ 0 ∷ [];
    capacity = 3;
    admin_slots_in_use = 0;
    pushed = 2;
    poped = 0;
  };
}

abbrev after_accept : ConnectionQueue
after_accept = record after_normal {
  q_requested = record {
    queue = 2 ^ 63 ∷ 1 ∷ 0 ∷ [];
    capacity = 3;
    admin_slots_in_use = 0;
    pushed = 2;
    poped = 1;
  };
  v_requested = 7 ∷ 0 ∷ 0 ∷ [];
}

abbrev after_disconnect : ConnectionQueue
after_disconnect = record after_accept {
  q_free = record {
    queue = 0 ∷ 1 ∷ 2 ∷ [];
    capacity = 3;
    admin_slots_in_use = 0;
    pushed = 3;
    poped = 2;
  };
}

-- An admin request, a normal one, the admin's session, and its end.
unfoldable history : Reached 2 1 4 [] after_disconnect
unfolding request request_admin try_pop try_pop_admin push index is_admin set_admin reset_admin slot
    front accept pop disconnect create Indexes.create fill fill_from
history =
    disconnected after_accept (2 ^ 63) [] []
      (accepted after_normal (2 ^ 63) 7
        (requested after_admin 1 (requested_admin start (2 ^ 63) (created refl) refl) refl)
        (omega arith) refl refl)
      refl

reached-slots_apart_example :
    Perm (free after_disconnect ++ (slots_of (waiting after_disconnect) ++ slots_of [])) (range 3)
    × Nodup (free after_disconnect ++ (slots_of (waiting after_disconnect) ++ slots_of []))
unfolding history
reached-slots_apart_example =
    reached-slots_apart 2 1 (omega arith) (omega arith) (omega arith) 4 [] after_disconnect history
      (omega arith, (omega arith, tt)) (omega arith)

-- Two admin requests and a normal one hold all three slots.
abbrev full : ConnectionQueue
full = record start {
  q_free = record {
    queue = 0 ∷ 1 ∷ 2 ∷ [];
    capacity = 3;
    admin_slots_in_use = 2;
    pushed = 2;
    poped = 3;
  };
  q_requested = record {
    queue = 2 ^ 63 ∷ (2 ^ 63 + 1) ∷ 2 ∷ [];
    capacity = 3;
    admin_slots_in_use = 0;
    pushed = 3;
    poped = 0;
  };
}

full-Inv : Inv 3 [] full
unfolding is_admin reset_admin
full-Inv = record {
  free_ring = record {
    capacity = refl;
    places = refl;
    positive = omega arith;
    behind = omega arith;
    within = omega arith;
    young = omega arith;
  };
  requested_ring = record {
    capacity = refl;
    places = refl;
    positive = omega arith;
    behind = omega arith;
    within = omega arith;
    young = omega arith;
  };
  filled = omega arith;
  answers = refl;
  some_admin = omega arith;
  few_admin = omega arith;
  below = (omega arith, (omega arith, (omega arith, tt)));
  wide = (omega arith, (omega arith, (omega arith, tt)));
  count = refl;
  in_use = refl;
  in_use_small = omega arith;
  partition = Perm.refl (range 3);
}

-- The state `full` is what two admin requests and a normal one lead to.
full_reached :
    (c1 : ConnectionQueue) × (c2 : ConnectionQueue) × (request_admin start ≡ ok (2 ^ 63, c1))
    × (request_admin c1 ≡ ok (2 ^ 63 + 1, c2))
    × (request c2 ≡ ok (2, full))
unfolding request request_admin try_pop try_pop_admin push index is_admin set_admin reset_admin
full_reached = (
  after_admin,
  record start {
    q_free = record {
      queue = 0 ∷ 1 ∷ 2 ∷ [];
      capacity = 3;
      admin_slots_in_use = 2;
      pushed = 2;
      poped = 2;
    };
    q_requested = record {
      queue = 2 ^ 63 ∷ (2 ^ 63 + 1) ∷ 0 ∷ [];
      capacity = 3;
      admin_slots_in_use = 0;
      pushed = 2;
      poped = 0;
    };
  },
  refl,
  refl,
  refl,
)

request-overbooks_example :
    (sid : ℕ) × (c' : ConnectionQueue) × (request full ≡ ok (sid, c'))
    × Mem sid (slots_of (waiting full) ++ slots_of [])
request-overbooks_example = request-overbooks full-Inv refl (omega arith)

start-Inv : Inv 3 [] start
unfolding is_admin reset_admin
start-Inv = record {
  free_ring = record {
    capacity = refl;
    places = refl;
    positive = omega arith;
    behind = omega arith;
    within = omega arith;
    young = omega arith;
  };
  requested_ring = record {
    capacity = refl;
    places = refl;
    positive = omega arith;
    behind = omega arith;
    within = omega arith;
    young = omega arith;
  };
  filled = omega arith;
  answers = refl;
  some_admin = omega arith;
  few_admin = omega arith;
  below = (omega arith, (omega arith, (omega arith, tt)));
  wide = tt;
  count = refl;
  in_use = refl;
  in_use_small = omega arith;
  partition = Perm.refl (range 3);
}

request_cases_example :
    ((3 ≤ 1 + normals [] start) × (request start ≡ throws (runtime_error internal)))
    ⊎ ((1 + normals [] start < 3)
        × ((sid : ℕ) × (c' : ConnectionQueue) × (request start ≡ ok (sid, c'))
            × Granted start-Inv false sid c'))
request_cases_example = request_cases start-Inv (omega arith, omega arith) (omega arith)

request_admin_cases_example :
    ((3 ≤ normals [] start + 2 * 0) × (request_admin start ≡ throws (runtime_error internal)))
    ⊎ ((normals [] start + 2 * 0 < 3)
        × ((sid : ℕ) × (c' : ConnectionQueue) × (request_admin start ≡ ok (sid, c'))
            × Granted start-Inv true sid c'))
request_admin_cases_example = request_admin_cases start-Inv (omega arith, omega arith) (omega arith)

accept_lem_example :
    (c' : ConnectionQueue) × (accept (2 ^ 63) 7 full ≡ ok c')
    × Accepted 3 [] full ((2 ^ 63 + 1) ∷ 2 ∷ []) (2 ^ 63) 7 c'
accept_lem_example = accept_lem full-Inv (2 ^ 63) 7 ((2 ^ 63 + 1) ∷ 2 ∷ []) refl

reject_lem_example :
    (c' : ConnectionQueue) × (reject (2 ^ 63) full ≡ ok c')
    × Inv 3 [] c'
    × Pushes 1 0 full c'
    × (waiting c' ≡ (2 ^ 63 + 1) ∷ 2 ∷ [])
    × (free c' ≡ free full ++ reset_admin (2 ^ 63) ∷ [])
    × (c'.v_requested ≡ set full.v_requested (reset_admin (2 ^ 63)) session_id_indicating_error)
reject_lem_example =
    reject_lem full-Inv (2 ^ 63) ((2 ^ 63 + 1) ∷ 2 ∷ []) (omega arith, omega arith) refl
