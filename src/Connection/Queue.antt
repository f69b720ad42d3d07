-- ===== src/Connection/Queue.antt =====
-- `connection_queue` and its `element` of src/tateyama/transport/wire.h.
use tateyama_bootstrap.Prelude.{
  ℕ, ◌+◌, ◌%◌, ◌^◌, ◌-◌, List, Bool, true, false, not, Option, none, some, replicate, ◌==◌,
  if◌then◌else◌,
}
use tateyama_bootstrap.Reason.{
  Error, runtime_error, Result, ok, throws, ◌>>=◌, connection, connection_timeout,
}
use tateyama_bootstrap.Connection.Indexes
use tateyama_bootstrap.Connection.Indexes.{IndexQueue, get_at, set_at, reset_admin}

abbrev pub session_id_indicating_error : ℕ
session_id_indicating_error = 2 ^ 64 - 1

-- `v_requested` holds the `session_id_` of each `element`; 0 says that there is no answer yet.
pub record ConnectionQueue : Type 0 where
  pub q_free : IndexQueue
  pub q_requested : IndexQueue
  pub v_requested : List ℕ
  pub terminate : Bool
  pub admin_slots : ℕ
  pub s_terminated : ℕ
  pub session_id : ℕ

unfoldable pub create : ℕ → ℕ → Result ConnectionQueue
create n as_n = do
  free ← Indexes.fill as_n (Indexes.create (n + as_n))
  ok (record {
    q_free = free;
    q_requested = Indexes.create (n + as_n);
    v_requested = replicate (n + as_n) 0;
    terminate = false;
    admin_slots = as_n;
    s_terminated = 0;
    session_id = 0;
  })

unfoldable pub request : ConnectionQueue → Result (ℕ × ConnectionQueue)
request c = do
  (sid, free) ← Indexes.try_pop c.q_free
  requested ← Indexes.push sid 0 c.q_requested
  ok (sid, record c { q_free = free; q_requested = requested })

unfoldable pub request_admin : ConnectionQueue → Result (ℕ × ConnectionQueue)
request_admin c = do
  (sid, free) ← Indexes.try_pop_admin c.admin_slots c.q_free
  requested ← Indexes.push sid 0 c.q_requested
  ok (sid, record c { q_free = free; q_requested = requested })

-- How `wait` stands when the client looks at its element: `waits` until it is notified. A wait
-- with a time limit may throw instead, and then too the element is reused.
pub data Waited : Type 0 where
  waits : Waited
  answered : ℕ → ConnectionQueue → Waited
  fails : Error → ConnectionQueue → Waited

-- `expired` says that the time limit of this call has passed.
unfoldable pub wait : ℕ → Bool → ConnectionQueue → Waited
wait sid expired c =
    if c.terminate
    then fails (runtime_error connection) c
    else elim (get_at c.v_requested (reset_admin sid)) [
      | throws e ↦ fails e c
      | ok answer ↦ elim (set_at c.v_requested (reset_admin sid) 0) [
        | throws e ↦ fails e c
        | ok reused ↦
            if not (answer == 0)
            then answered answer (record c { v_requested = reused })
            else if expired
            then fails (runtime_error connection_timeout) (record c { v_requested = reused })
            else waits
      ]
    ]

unfoldable pub check : ℕ → ConnectionQueue → Result Bool
check sid c = do answer ← get_at c.v_requested (reset_admin sid); ok (not (answer == 0))

-- The new session id, or 0 if nothing is requested.
unfoldable pub listen : ConnectionQueue → ℕ × ConnectionQueue
listen c =
    if Indexes.wait c.q_requested
    then ((c.session_id + 1) % 2 ^ 64, record c { session_id = (c.session_id + 1) % 2 ^ 64 })
    else (0, c)

unfoldable pub slot : ConnectionQueue → Result ℕ
slot c = Indexes.front c.q_requested

unfoldable pub accept : ℕ → ℕ → ConnectionQueue → Result ConnectionQueue
accept sid session_id c = do
  answers ← set_at c.v_requested (reset_admin sid) session_id
  ok (record c { q_requested = Indexes.pop c.q_requested; v_requested = answers })

unfoldable pub reject : ℕ → ConnectionQueue → Result ConnectionQueue
reject sid c = do
  answers ← set_at c.v_requested (reset_admin sid) session_id_indicating_error
  free ← Indexes.push sid c.admin_slots c.q_free
  ok (record c { q_free = free; q_requested = Indexes.pop c.q_requested; v_requested = answers })

unfoldable pub disconnect : ℕ → ConnectionQueue → Result ConnectionQueue
disconnect sid c = do
  free ← Indexes.push sid c.admin_slots c.q_free
  ok (record c { q_free = free })

-- `request_terminate` sets the flag, and then waits for `confirm_terminated`.
unfoldable pub request_terminate : ConnectionQueue → ConnectionQueue
request_terminate c = record c { terminate = true }

unfoldable pub terminate_wait : ConnectionQueue → Option ConnectionQueue
terminate_wait c =
    if c.s_terminated == 0 then none else some (record c { s_terminated = c.s_terminated - 1 })

unfoldable pub confirm_terminated : ConnectionQueue → ConnectionQueue
confirm_terminated c = record c { s_terminated = c.s_terminated + 1 }

unfoldable pub pending_requests : ConnectionQueue → ℕ
pending_requests c = Indexes.size c.q_requested
