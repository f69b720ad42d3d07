-- ===== src/Request/Elapsed.antt =====
-- The time that `request list` shows for a request.
use tateyama_bootstrap.Prelude.{ℕ, ◌≡◌, ◌+◌, ◌*◌, ◌^◌, ◌≤◌, ◌<◌, arith, subst, sym}
use tateyama_bootstrap.Request.{Now, milliseconds, Running, elapsed}

-- The point in time in nanoseconds.
abbrev pub nanoseconds : Now → ℕ
nanoseconds t = t.secs * 1000000000 + t.ns

milliseconds_near :
    (t : Now)
    → (milliseconds t * 1000000 ≤ nanoseconds t + 500000)
      × (nanoseconds t + 500000 < milliseconds t * 1000000 + 1000000)
unfolding milliseconds
milliseconds_near t = (omega arith, omega arith)

elapsed_after :
    (t : Now) (e : Running)
    → e.started_time ≤ milliseconds t
    → milliseconds t < 2 ^ 64
    → elapsed t e + e.started_time ≡ milliseconds t
unfolding elapsed
elapsed_after t e started fits = omega arith

-- For a request that has started, the elapsed time that request list shows ends at the present to
-- within half a millisecond.
pub elapsed_near :
    (t : Now) (e : Running)
    → e.started_time ≤ milliseconds t
    → milliseconds t < 2 ^ 64
    → ((elapsed t e + e.started_time) * 1000000 ≤ nanoseconds t + 500000)
      × (nanoseconds t + 500000 < (elapsed t e + e.started_time) * 1000000 + 1000000)
elapsed_near t e started fits =
    subst
      (λ m.
        (m * 1000000 ≤ nanoseconds t + 500000) × (nanoseconds t + 500000 < m * 1000000 + 1000000))
      (sym (elapsed_after t e started fits)) (milliseconds_near t)
