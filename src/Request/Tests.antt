-- ===== src/Request/Tests.antt =====
-- Runs of the request commands.
use tateyama_bootstrap.Prelude.{
  ℕ, ◌≡◌, refl, ◌+◌, ◌*◌, ◌≤◌, ◌<◌, List, [], ◌∷◌, true, false, Option, some, arith,
}
use tateyama_bootstrap.Reason.{absent}
use tateyama_bootstrap.Process.Os.{ok, start, finish}
use tateyama_bootstrap.Session.{success, error, answers, unreadable}
use tateyama_bootstrap.Request.{
  Flags, Running, monitored, request_info, returns, Now, milliseconds, elapsed, request_list,
  request_payload, extract_statement_info, responds, request_extract_sql,
}
use tateyama_bootstrap.Request.Elapsed.{nanoseconds, elapsed_near}
use tateyama_bootstrap.Request.Outcomes.{Tells, Decides, good, good_sql, watched, requests-Tells}

-- Half a second after the epoch's second 3.
abbrev now : Now
now = record { secs = 3; ns = 500000000 }

abbrev running : Running
running = record {
  session_id = 1;
  request_id = 2;
  service_id = 3;
  payload_size = 4;
  started_time = 1000;
}

abbrev quiet : Flags
quiet = record { quiet = true; monitor = false }

request_list-running :
    request_list (watched quiet) now (answers (success (running ∷ [])))
    ≡ returns ok (monitored start ∷ request_info running 2500 ∷ monitored (finish absent) ∷ [])
unfolding request_list milliseconds
request_list-running = refl

elapsed_near_example :
    ((elapsed now running + running.started_time) * 1000000 ≤ nanoseconds now + 500000)
    × (nanoseconds now + 500000 < (elapsed now running + running.started_time) * 1000000 + 1000000)
unfolding milliseconds
elapsed_near_example = elapsed_near now running (omega arith) (omega arith)

abbrev same : List ℕ → List ℕ
same t = t

abbrev decoded : List ℕ → Option (List ℕ)
decoded t = some t

requests-Tells_example :
    (Tells (request_list (watched quiet) now (answers (success (running ∷ []))))
      × Decides
          (good (answers (success (running ∷ []))))
          (request_list (watched quiet) now (answers (success (running ∷ [])))))
    × (Tells (request_payload same (watched quiet) unreadable)
        × Decides (good {A = List ℕ} unreadable) (request_payload same (watched quiet) unreadable))
    × (Tells
          (request_extract_sql decoded (watched quiet) [] (responds (extract_statement_info error)))
        × Decides (good_sql (responds (extract_statement_info error))) (
            request_extract_sql decoded
              (watched quiet)
              []
              (responds (extract_statement_info error))))
requests-Tells_example =
    requests-Tells same decoded quiet now (answers (success (running ∷ []))) unreadable []
      (responds (extract_statement_info error)) tt tt tt ([], refl)
