-- ===== src/Connection/Indexes.antt =====
-- `connection_queue::index_queue` of src/tateyama/transport/wire.h, and the admin mark of a slot.
-- Each operation runs under the queue's mutex, so it is one step: the compare-and-exchange of
-- `try_pop` succeeds at once. An `interprocess::vector::at` out of range throws; what has been
-- changed before such a throw is not modelled.
use tateyama_bootstrap.Prelude.{
  ℕ, zero, suc, ◌+◌, ◌-◌, ◌%◌, ◌^◌, List, Bool, ◌&&◌, none, some, length, get_elem?, set, replicate,
  ltb, leb, if◌then◌else◌,
}
use tateyama_bootstrap.Reason.{runtime_error, out_of_range, Result, ok, throws, ◌>>=◌, internal}

-- `vector::at`, read and written.
abbrev pub get_at : List ℕ → ℕ → Result ℕ
get_at xs i = elim (get_elem? xs i) [ none ↦ throws out_of_range | some x ↦ ok x ]

abbrev pub set_at : List ℕ → ℕ → ℕ → Result (List ℕ)
set_at xs i x = if ltb i (length xs) then ok (set xs i x) else throws out_of_range

-- The highest of the 64 bits of a slot marks an admin request.
abbrev pub admin_bit : ℕ
admin_bit = 2 ^ 63

unfoldable pub is_admin : ℕ → Bool
is_admin slot = leb admin_bit slot

unfoldable pub set_admin : ℕ → ℕ
unfolding is_admin
set_admin slot = if is_admin slot then slot else slot + admin_bit

unfoldable pub reset_admin : ℕ → ℕ
reset_admin slot = slot % admin_bit

pub record IndexQueue : Type 0 where
  pub queue : List ℕ
  pub capacity : ℕ
  pub admin_slots_in_use : ℕ
  pub pushed : ℕ
  pub poped : ℕ

unfoldable pub index : IndexQueue → ℕ → ℕ
index q n = n % q.capacity

unfoldable pub create : ℕ → IndexQueue
create size = record {
  queue = replicate (size % 2 ^ 32) 0;
  capacity = size % 2 ^ 32;
  admin_slots_in_use = 0;
  pushed = 0;
  poped = 0;
}

-- The loop of `fill`: `queue_.at(i) = i` for the `n` indices from `i` on.
unfoldable pub fill_from : ℕ → ℕ → List ℕ → Result (List ℕ)
fill_from zero i xs = ok xs
fill_from (suc n) i xs = elim (set_at xs i i) [
  | throws e ↦ throws e
  | ok ys ↦ fill_from n (suc i) ys
]

unfoldable pub fill : ℕ → IndexQueue → Result IndexQueue
unfolding fill_from
fill admin_slots q = do
  filled ← fill_from q.capacity 0 q.queue
  ok (record q { queue = filled; pushed = (2 ^ 32 + q.capacity - admin_slots) % 2 ^ 32 })

unfoldable pub push : ℕ → ℕ → IndexQueue → Result IndexQueue
unfolding index is_admin reset_admin
push sid admin_slots q =
    let place = index q ((q.pushed + admin_slots) % 2 ^ 64) in
    if ltb 0 admin_slots && is_admin sid
    then (do
      queue ← set_at q.queue place (reset_admin sid)
      ok (record q {
        queue = queue;
        admin_slots_in_use = (q.admin_slots_in_use + 255) % 256;
        pushed = (q.pushed + 1) % 2 ^ 64;
      }))
    else do
      queue ← set_at q.queue place sid
      ok (record q { queue = queue; pushed = (q.pushed + 1) % 2 ^ 64 })

-- `try_pop()`, for a request that is no admin's.
unfoldable pub try_pop : IndexQueue → Result (ℕ × IndexQueue)
unfolding index
try_pop q =
    if leb ((q.pushed + q.admin_slots_in_use) % 2 ^ 64) q.poped
    then throws (runtime_error internal)
    else do
      sid ← get_at q.queue (index q q.poped)
      ok (sid, record q { poped = (q.poped + 1) % 2 ^ 64 })

-- `try_pop(admin_slots)`. The difference is an `int`, which may be negative.
unfoldable pub try_pop_admin : ℕ → IndexQueue → Result (ℕ × IndexQueue)
unfolding index set_admin
try_pop_admin admin_slots q =
    if leb ((q.pushed + (2 ^ 64 + admin_slots - q.admin_slots_in_use)) % 2 ^ 64) q.poped
    then throws (runtime_error internal)
    else do
      sid ← get_at q.queue (index q q.poped)
      ok (
        set_admin sid,
        record q {
          poped = (q.poped + 1) % 2 ^ 64;
          admin_slots_in_use = (q.admin_slots_in_use + 1) % 256;
        },
      )

-- What `wait` returns, whether it is notified, told to terminate, or timed out.
unfoldable pub wait : IndexQueue → Bool
wait q = ltb q.poped q.pushed

unfoldable pub pop : IndexQueue → IndexQueue
pop q = record q { poped = (q.poped + 1) % 2 ^ 64 }

unfoldable pub front : IndexQueue → Result ℕ
unfolding index
front q = get_at q.queue (index q q.poped)

unfoldable pub size : IndexQueue → ℕ
size q = (2 ^ 64 + q.pushed - q.poped) % 2 ^ 64
