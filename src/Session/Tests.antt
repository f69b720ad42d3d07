-- ===== src/Session/Tests.antt =====
-- Three sessions, of which two have one label.
use tateyama_bootstrap.Prelude.{ℕ, ◌≡◌, refl, List, [], ◌∷◌, false}
use tateyama_bootstrap.Session.{
  Entry, Flags, answers, success, error, Output, list_rows, by_id, session_number, stol, signed,
  unsigned, digits, row_of, emplace, short_line, contains, count_label, same_text, session_show,
  session_swtch, session_shutdown,
}
use tateyama_bootstrap.Session.Order.{Sorted, lookup, line_of, list_rows-Sorted}
use tateyama_bootstrap.Session.Outcomes.{Tells, Decides, watched, commands-Tells}

abbrev session : List ℕ → List ℕ → Entry
session id label = record {
  session_id = id;
  label = label;
  application = [];
  user = [];
  start_at = 0;
  connection_type = [];
  connection_info = [];
}

-- The sessions :12, :3 and :4, labelled b, a and a.
abbrev sessions : List Entry
sessions =
    session (58 ∷ 49 ∷ 50 ∷ []) (98 ∷ [])
    ∷ session (58 ∷ 51 ∷ []) (97 ∷ [])
    ∷ session (58 ∷ 52 ∷ []) (97 ∷ [])
    ∷ []

abbrev plain : Flags
plain = record { monitor = false; verbose = false; id = false; graceful = false; forceful = false }

abbrev no_time : ℕ → List ℕ
no_time n = []

-- The sessions :3 and :4 are listed by their ids, and :12, by its label, comes last.
abbrev listed : Output
listed = (3, 58 ∷ 51 ∷ 32 ∷ []) ∷ (4, 58 ∷ 52 ∷ 32 ∷ []) ∷ (12, 98 ∷ 32 ∷ []) ∷ []

list_rows-Sorted_example :
    Sorted listed × ((n : ℕ) → lookup n listed ≡ line_of no_time plain sessions sessions n)
unfolding list_rows session_number stol signed unsigned digits row_of emplace short_line by_id
    contains count_label same_text
list_rows-Sorted_example = list_rows-Sorted no_time plain sessions listed [] refl

commands-Tells_example :
    (Tells (session_show no_time (watched plain) (answers error))
      × Decides {A = Entry} (answers error) (session_show no_time (watched plain) (answers error)))
    × (Tells (session_swtch (watched plain) (answers (success tt)))
        × Decides {A = Unit {0}}
            (answers (success tt))
            (session_swtch (watched plain) (answers (success tt))))
    × (Tells (session_shutdown (watched plain) (answers (success tt)))
        × Decides {A = Unit {0}}
            (answers (success tt))
            (session_shutdown (watched plain) (answers (success tt))))
commands-Tells_example =
    commands-Tells no_time plain (answers error) (answers (success tt)) tt tt refl
