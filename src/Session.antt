-- ===== src/Session.antt =====
-- The session commands of src/tateyama/session/session.cpp. What the transport gives for a request is
-- an argument: an answer of the server, nothing that can be read, or a `tgctl::runtime_error`. So is
-- the text of a point in time, which the operating system gives.
pub mod Labels
pub mod Order
pub mod Outcomes
mod Tests
use tateyama_bootstrap.Prelude.{
  ℕ, zero, suc, ◌+◌, ◌-◌, ◌*◌, ◌^◌, ◌%◌, ◌==◌, List, [], ◌∷◌, ◌++◌, map, Bool, true, false, not,
  ◌&&◌, ◌||◌, Option, none, some, length, replicate, leb, ltb, if◌then◌else◌,
}
use tateyama_bootstrap.Reason.{Reason, absent, server, payload_broken}
use tateyama_bootstrap.Process.Os.{ReturnCode, ok, err, Record, start, finish}

-- `SessionInfo`: texts are lists of characters.
pub record Entry : Type 0 where
  pub session_id : List ℕ
  pub label : List ℕ
  pub application : List ℕ
  pub user : List ℕ
  pub start_at : ℕ
  pub connection_type : List ℕ
  pub connection_info : List ℕ

pub data Answer (A : Type 0) : Type 0 where
  success : A → Answer A
  error : Answer A
  other : Answer A

-- What comes of the request.
pub data Reply (A : Type 0) : Type 0 where
  answers : Answer A → Reply A
  unreadable : Reply A
  throws : Reason → Reply A

-- What a command writes: a line, or a record to the monitor file.
pub data Event : Type 0 where
  line : List ℕ → Event
  monitored : Record → Event
  session_info : Entry → Event

-- A command returns, or an exception that it does not catch leaves it.
pub data Ended : Type 0 where
  returns : ReturnCode → List Event → Ended
  escapes : List Event → Ended

pub record Flags : Type 0 where
  pub monitor : Bool
  pub verbose : Bool
  pub id : Bool
  pub graceful : Bool
  pub forceful : Bool

abbrev pub to_monitor : Flags → Event → List Event
to_monitor f e = if f.monitor then e ∷ [] else []

abbrev pub blank : ℕ
blank = 32

abbrev pub tab : ℕ
tab = 9

unfoldable pub same_text : List ℕ → List ℕ → Bool
same_text [] [] = true
same_text [] (b ∷ bs) = false
same_text (a ∷ as') [] = false
same_text (a ∷ as') (b ∷ bs) = (a == b) && same_text as' bs

unfoldable pub contains : ℕ → List ℕ → Bool
contains c [] = false
contains c (x ∷ xs) = (x == c) || contains c xs

-- `labels.count(label)`, for a label that is not empty.
unfoldable pub count_label : List ℕ → List Entry → ℕ
unfolding same_text
count_label label [] = 0
count_label label (e ∷ es) = (if same_text label e.label then 1 else 0) + count_label label es

-- Whether a session is listed by its id rather than its label.
unfoldable pub by_id : Flags → List Entry → Entry → Bool
unfolding contains count_label same_text
by_id f es e =
    (length e.label == 0)
    || (contains blank e.label
        || (contains tab e.label || (f.id || ltb 1 (count_label e.label es))))

unfoldable pub short_line : Flags → List Entry → Entry → List ℕ
unfolding by_id contains count_label same_text
short_line f es e = (if by_id f es e then e.session_id else e.label) ++ blank ∷ []

-- `std::setw` on the left.
unfoldable pub setw : ℕ → List ℕ → List ℕ
setw n text = text ++ replicate (n - length text) blank

-- The number in a text, as `std::stol` reads it: blanks, a sign, and digits up to another character.
abbrev pub is_space : ℕ → Bool
is_space c = (c == blank) || (leb tab c && leb c 13)

abbrev pub is_digit : ℕ → Bool
is_digit c = leb 48 c && leb c 57

unfoldable pub digits : ℕ → List ℕ → ℕ
digits n [] = n
digits n (c ∷ cs) = let rest = digits (10 * n + (c - 48)) cs in if is_digit c then rest else n

unfoldable pub unsigned : List ℕ → Option ℕ
unfolding digits
unsigned [] = none
unsigned (c ∷ cs) = if is_digit c then some (digits 0 (c ∷ cs)) else none

-- A number that fits `long`, as the `std::size_t` key of the map.
abbrev pub positive_key : Option ℕ → Option ℕ
positive_key none = none
positive_key (some n) = if ltb n (2 ^ 63) then some n else none

abbrev pub negative_key : Option ℕ → Option ℕ
negative_key none = none
negative_key (some n) = if leb n (2 ^ 63) then some ((2 ^ 64 - n) % 2 ^ 64) else none

unfoldable pub signed : List ℕ → Option ℕ
unfolding unsigned digits
signed [] = none
signed (c ∷ cs) =
    if c == 45
    then negative_key (unsigned cs)
    else if c == 43
    then positive_key (unsigned cs)
    else positive_key (unsigned (c ∷ cs))

unfoldable pub stol : List ℕ → Option ℕ
unfolding signed unsigned digits
stol [] = none
stol (c ∷ cs) = let rest = stol cs in if is_space c then rest else signed (c ∷ cs)

-- `stol(e_session_id.substr(1))`.
unfoldable pub session_number : Entry → Option ℕ
unfolding stol signed unsigned digits
session_number e = elim e.session_id [ [] ↦ none | c ∷ cs ↦ stol cs ]

-- `output.emplace(key, text)` in a `std::map`.
abbrev pub Output : Type 0
Output = List (ℕ × List ℕ)

unfoldable pub emplace : ℕ → List ℕ → Output → Output
emplace k v [] = (k, v) ∷ []
emplace k v ((j, u) ∷ m) =
    let rest = emplace k v m in
    if ltb k j then (k, v) ∷ (j, u) ∷ m else if k == j then (j, u) ∷ m else (j, u) ∷ rest

unfoldable pub printed : Output → List Event
printed [] = []
printed ((k, text) ∷ m) = line text ∷ printed m

-- The columns of the verbose list.
unfoldable pub widest : ℕ → List ℕ → ℕ
widest n [] = n
widest n (m ∷ ms) = widest (if ltb n m then m else n) ms

-- The headings of the columns.
pub record Headings : Type 0 where
  pub id : List ℕ
  pub label : List ℕ
  pub application : List ℕ
  pub user : List ℕ
  pub start : List ℕ
  pub type : List ℕ
  pub remote : List ℕ

abbrev pub headings : Headings
headings = record {
  id = 105 ∷ 100 ∷ [];
  label = 108 ∷ 97 ∷ 98 ∷ 101 ∷ 108 ∷ [];
  application = 97 ∷ 112 ∷ 112 ∷ 108 ∷ 105 ∷ 99 ∷ 97 ∷ 116 ∷ 105 ∷ 111 ∷ 110 ∷ [];
  user = 117 ∷ 115 ∷ 101 ∷ 114 ∷ [];
  start = 115 ∷ 116 ∷ 97 ∷ 114 ∷ 116 ∷ [];
  type = 116 ∷ 121 ∷ 112 ∷ 101 ∷ [];
  remote = 114 ∷ 101 ∷ 109 ∷ 111 ∷ 116 ∷ 101 ∷ [];
}

-- How the rows of a list end: with what is to be printed and what has been written to the monitor
-- file, or in an exception of `stol` or `substr`.
pub data Rows : Type 0 where
  rows : Output → List Event → Rows
  breaks : List Event → Rows

abbrev pub numbered : (ℕ → Rows) → Option ℕ → Rows
numbered next none = breaks []
numbered next (some n) = next n

abbrev pub after_info : List Event → Rows → Rows
after_info es (rows output later) = rows output (es ++ later)
after_info es (breaks later) = breaks (es ++ later)

abbrev pub failed : Flags → Reason → Ended
failed f r = returns err (to_monitor f (monitored start) ++ to_monitor f (monitored (finish r)))

-- The four commands have one frame: what is done with an answer that is a success, and the reasons
-- of the failures.
abbrev pub replied : {A : Type 0} → Flags → (A → Ended) → Reply A → Ended
replied f good (answers (success a)) = good a
replied f good (answers error) = failed f server
replied f good (answers other) = failed f payload_broken
replied f good unreadable = failed f payload_broken
replied f good (throws r) = failed f r

module _ (timepoint : ℕ → List ℕ) where
  abbrev pub column : List ℕ → (Entry → List ℕ) → List Entry → ℕ
  column heading field es = widest (length heading) (map (λ e. length (field e)) es)

  -- A line of the verbose list, of the headings or of a session; the last column has no margin.
  unfoldable pub long_line : List Entry → Headings → List ℕ
  unfolding setw widest
  long_line es h =
      setw (column headings.id (λ e. e.session_id) es + 2) h.id
      ++ (setw (column headings.label (λ e. e.label) es + 2) h.label
          ++ (setw (column headings.application (λ e. e.application) es + 2) h.application
              ++ (setw (column headings.user (λ e. e.user) es + 2) h.user
                  ++ (setw (column headings.start (λ e. timepoint e.start_at) es + 2) h.start
                      ++ (setw (column headings.type (λ e. e.connection_type) es + 2) h.type
                          ++ setw (column headings.remote (λ e. e.connection_info) es) h.remote)))))

  abbrev pub fields : Entry → Headings
  fields e = record {
    id = e.session_id;
    label = e.label;
    application = e.application;
    user = e.user;
    start = timepoint e.start_at;
    type = e.connection_type;
    remote = e.connection_info;
  }

  unfoldable pub row_of : Flags → List Entry → Entry → List ℕ
  unfolding long_line short_line by_id contains count_label same_text setw widest
  row_of f es e = if f.verbose then long_line es (fields e) else short_line f es e

  -- The loop over the sessions, of which `es` are all.
  unfoldable pub list_rows : Flags → List Entry → List Entry → Output → Rows
  unfolding session_number stol signed unsigned digits row_of emplace long_line short_line by_id
      contains count_label same_text setw widest
  list_rows f es [] output = rows output []
  list_rows f es (e ∷ todo) output =
      numbered
        (λ (n : ℕ).
          after_info (to_monitor f (session_info e))
            (list_rows f es todo (emplace n (row_of f es e) output)))
        (session_number e)

  -- The end of a list: the lines, and the record of a success.
  abbrev pub list_ended : Flags → List Entry → Rows → Ended
  list_ended f es (rows output infos) = returns ok (
      to_monitor f (monitored start)
      ++ ((if f.verbose then line (long_line es headings) ∷ [] else [])
          ++ (infos ++ (printed output ++ to_monitor f (monitored (finish absent))))))
  list_ended f es (breaks infos) = escapes (
      to_monitor f (monitored start)
      ++ ((if f.verbose then line (long_line es headings) ∷ [] else []) ++ infos))

  unfoldable pub session_list : Flags → Reply (List Entry) → Ended
  unfolding list_rows
  session_list f reply = replied f (λ es. list_ended f es (list_rows f es es [])) reply

  -- `session_show`: the seven lines, each with a heading of 13 columns.
  unfoldable pub shown : Entry → List Event
  unfolding setw
  shown e =
      line (setw 13 headings.id ++ e.session_id)
      ∷ line (setw 13 headings.application ++ e.application)
      ∷ line (setw 13 headings.label ++ e.label)
      ∷ line (setw 13 headings.user ++ e.user)
      ∷ line (setw 13 headings.start ++ timepoint e.start_at)
      ∷ line (setw 13 headings.type ++ e.connection_type)
      ∷ line (setw 13 headings.remote ++ e.connection_info)
      ∷ []

  unfoldable pub session_show : Flags → Reply Entry → Ended
  unfolding shown
  session_show f reply =
      replied f
        (λ e. returns ok (
          to_monitor f (monitored start)
          ++ (shown e
              ++ (to_monitor f (session_info e) ++ to_monitor f (monitored (finish absent))))))
        reply

abbrev pub succeeded : Flags → Ended
succeeded f =
    returns ok (to_monitor f (monitored start) ++ to_monitor f (monitored (finish absent)))

-- `session_shutdown`, for what the transport would give: with both options no request is sent.
unfoldable pub session_shutdown : Flags → Reply (Unit {0}) → Ended
session_shutdown f reply =
    if f.graceful && f.forceful then failed f absent else replied f (λ _. succeeded f) reply

unfoldable pub session_swtch : Flags → Reply (Unit {0}) → Ended
session_swtch f reply = replied f (λ _. succeeded f) reply

-- What the requests of the commands ask for.
pub data ShutdownKind : Type 0 where
  not_set graceful forceful : ShutdownKind

pub data Request : Type 0 where
  list_request : Request
  get_request : List ℕ → Request
  shutdown_request : List ℕ → ShutdownKind → Request
  set_variable : List ℕ → List ℕ → Option (List ℕ) → Request

unfoldable pub shutdown_command : Flags → List ℕ → Request
shutdown_command f session_ref = shutdown_request session_ref (
    if f.graceful
    then ShutdownKind.graceful
    else if f.forceful
    then ShutdownKind.forceful
    else not_set)

unfoldable pub swtch_command : List ℕ → List ℕ → List ℕ → Bool → Request
swtch_command session_ref set_key set_value set =
    set_variable session_ref set_key (if set then some set_value else none)
