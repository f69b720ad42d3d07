-- ===== src/Request.antt =====
-- The request commands of src/tateyama/request/request.cpp. What the transport gives for a request is
-- an argument, as it is for the session commands, and so are the base64 texts of Boost and the clock.
pub mod Outcomes
pub mod Elapsed
mod Tests
use tateyama_bootstrap.Prelude.{
  ℕ, ◌+◌, ◌-◌, ◌*◌, ◌/◌, ◌%◌, ◌^◌, List, [], ◌∷◌, ◌++◌, Bool, true, false, not, Option, none, some,
  if◌then◌else◌,
}
use tateyama_bootstrap.Reason.{Reason, absent, server, payload_broken}
use tateyama_bootstrap.Process.Os.{ReturnCode, ok, err, Record, start, finish}
use tateyama_bootstrap.Session.{Answer, success, error, other, Reply, answers, unreadable, throws}

pub record Flags : Type 0 where
  pub quiet : Bool
  pub monitor : Bool

-- `RequestInfo`, with the time of its start in milliseconds.
pub record Running : Type 0 where
  pub session_id : ℕ
  pub request_id : ℕ
  pub service_id : ℕ
  pub payload_size : ℕ
  pub started_time : ℕ

-- What a command writes: the two lines of the headings, a row of numbers with the widths of its
-- columns, a text, or a record to the monitor file.
pub data Event : Type 0 where
  heading : Event
  row : List (ℕ × ℕ) → Event
  text : List ℕ → Event
  monitored : Record → Event
  request_info : Running → ℕ → Event
  payload_info : List ℕ → Event
  sql_info : Option (List ℕ) → Option (List ℕ) → Event

pub data Ended : Type 0 where
  returns : ReturnCode → List Event → Ended
  escapes : List Event → Ended

abbrev pub to_monitor : Flags → Event → List Event
to_monitor f e = if f.monitor then e ∷ [] else []

abbrev pub to_screen : Flags → Event → List Event
to_screen f e = if f.quiet then [] else e ∷ []

abbrev pub failed : Flags → Reason → Ended
failed f r = returns err (to_monitor f (monitored start) ++ to_monitor f (monitored (finish r)))

-- The end of a command that succeeds, with what it has written.
abbrev pub finished : Flags → List Event → Ended
finished f es =
    returns ok (to_monitor f (monitored start) ++ (es ++ to_monitor f (monitored (finish absent))))

-- The three commands have one frame, which differs in what they write for a success.
abbrev pub replied : {A : Type 0} → Flags → (A → List Event) → Reply A → Ended
replied f shown (answers (success a)) = finished f (shown a)
replied f shown (answers error) = failed f server
replied f shown (answers other) = failed f payload_broken
replied f shown unreadable = failed f payload_broken
replied f shown (throws r) = failed f r

-- A point in time: seconds, and nanoseconds above them.
pub record Now : Type 0 where
  pub secs : ℕ
  pub ns : ℕ

unfoldable pub milliseconds : Now → ℕ
milliseconds t = t.secs * 1000 + (t.ns + 500000) / 1000000

-- The difference is a `std::size_t`.
unfoldable pub elapsed : Now → Running → ℕ
unfolding milliseconds
elapsed t e = (milliseconds t + 2 ^ 64 - e.started_time) % 2 ^ 64

unfoldable pub request_row : Flags → Now → Running → List Event
unfolding elapsed
request_row f t e =
    to_screen f (
      row (
        (10, e.session_id)
        ∷ (12, e.request_id)
        ∷ (12, e.service_id)
        ∷ (14, e.payload_size)
        ∷ (19, elapsed t e)
        ∷ []))
    ++ to_monitor f (request_info e (elapsed t e))

unfoldable pub request_rows : Flags → Now → List Running → List Event
unfolding request_row
request_rows f t [] = []
request_rows f t (e ∷ es) = request_row f t e ++ request_rows f t es

unfoldable pub request_list : Flags → Now → Reply (List Running) → Ended
unfolding request_rows
request_list f t reply = replied f (λ es. to_screen f heading ++ request_rows f t es) reply

unfoldable pub request_payload : (List ℕ → List ℕ) → Flags → Reply (List ℕ) → Ended
request_payload encode f reply =
    replied f
      (λ data_of.
        to_screen f (text (encode data_of)) ++ to_monitor f (payload_info (encode data_of)))
      reply

-- `ExtractStatementInfo_Success`, and the response that may be of another type.
pub record Statement : Type 0 where
  pub transaction_id : Option (List ℕ)
  pub sql : Option (List ℕ)

pub data SqlResponse : Type 0 where
  extract_statement_info : Answer Statement → SqlResponse
  another : SqlResponse

abbrev pub sql_line : Flags → Option (List ℕ) → List Event
sql_line f none = []
sql_line f (some sql) = to_screen f (text sql)

abbrev pub statement_shown : Flags → Statement → List Event
statement_shown f s = sql_line f s.sql ++ to_monitor f (sql_info s.transaction_id s.sql)

-- What comes of the request for a statement; `unreadable` and `another` end alike.
pub data SqlReply : Type 0 where
  responds : SqlResponse → SqlReply
  no_response : SqlReply
  breaks : Reason → SqlReply

abbrev pub extracted : Flags → SqlReply → Ended
extracted f (responds (extract_statement_info a)) = replied f (statement_shown f) (answers a)
extracted f (responds another) = failed f payload_broken
extracted f no_response = failed f payload_broken
extracted f (breaks r) = failed f r

-- The payload is decoded first; an exception of the decoder is no `tgctl::runtime_error`.
abbrev pub when_decoded : Flags → SqlReply → Option (List ℕ) → Ended
when_decoded f reply none = escapes (to_monitor f (monitored start))
when_decoded f reply (some payload) = extracted f reply

unfoldable pub request_extract_sql : (List ℕ → Option (List ℕ)) → Flags → List ℕ → SqlReply → Ended
request_extract_sql decode f payload reply = when_decoded f reply (decode payload)
