-- ===== src/Request/Outcomes.antt =====
-- What the request commands tell by their return codes and by the last record in the monitor file.
use tateyama_bootstrap.Prelude.{
  ℕ, ◌≡◌, ◌≢◌, refl, subst, sym, Bool, List, [], ◌∷◌, ◌++◌, true, false, Option, some,
}
use tateyama_bootstrap.Reason.{Reason, absent, server, payload_broken}
use tateyama_bootstrap.Process.Os.{ok, err, start, finish}
use tateyama_bootstrap.Session.{success, error, other, Reply, answers, unreadable, throws}
use tateyama_bootstrap.Request.{
  Flags, Running, Event, monitored, Ended, returns, escapes, replied, Now, request_list,
  request_payload, extract_statement_info, another, SqlReply, responds, no_response, breaks,
  extracted, when_decoded, statement_shown, request_extract_sql,
}

-- A command that returns ends with a record of a success if it returns ok, and with that of a failure
-- otherwise.
abbrev pub Tells : Ended → Type 0
Tells (returns ok evs) = (before : List Event) × (evs ≡ before ++ monitored (finish absent) ∷ [])
Tells (returns err evs) =
    (before : List Event) × (r : Reason) × (r ≢ absent)
    × (evs ≡ before ++ monitored (finish r) ∷ [])
Tells (escapes evs) = ⊥

-- Whether there is an answer that is a success.
abbrev pub good : {A : Type 0} → Reply A → Bool
good (answers (success a)) = true
good (answers error) = false
good (answers other) = false
good unreadable = false
good (throws r) = false

abbrev pub good_sql : SqlReply → Bool
good_sql (responds (extract_statement_info a)) = good (answers a)
good_sql (responds another) = false
good_sql no_response = false
good_sql (breaks r) = false

-- ok is returned just for a success.
abbrev pub Decides : Bool → Ended → Type 0
Decides true (returns c evs) = c ≡ ok
Decides false (returns c evs) = c ≡ err
Decides b (escapes evs) = ⊥

-- A `runtime_error` never has the reason `absent`.
abbrev pub HasReason : {A : Type 0} → Reply A → Type 0
HasReason (answers a) = Unit {0}
HasReason unreadable = Unit {0}
HasReason (throws r) = r ≢ absent

abbrev pub HasSqlReason : SqlReply → Type 0
HasSqlReason (responds a) = Unit {0}
HasSqlReason no_response = Unit {0}
HasSqlReason (breaks r) = r ≢ absent

abbrev pub watched : Flags → Flags
watched f = record f { monitor = true }

replied-Tells :
    {A : Type 0} (f : Flags) (shown : A → List Event) (reply : Reply A)
    → HasReason reply
    → Tells (replied (watched f) shown reply)
      × Decides (good reply) (replied (watched f) shown reply)
replied-Tells f shown (answers (success a)) h = ((monitored start ∷ shown a, refl), refl)
replied-Tells f shown (answers error) h = ((monitored start ∷ [], server, (λ e. cc), refl), refl)
replied-Tells f shown (answers other) h =
    ((monitored start ∷ [], payload_broken, (λ e. cc), refl), refl)
replied-Tells f shown unreadable h = ((monitored start ∷ [], payload_broken, (λ e. cc), refl), refl)
replied-Tells f shown (throws r) h = ((monitored start ∷ [], r, h, refl), refl)

extracted-Tells :
    (f : Flags) (reply : SqlReply)
    → HasSqlReason reply
    → Tells (extracted (watched f) reply) × Decides (good_sql reply) (extracted (watched f) reply)
extracted-Tells f (responds (extract_statement_info a)) h =
    replied-Tells f (statement_shown (watched f)) (answers a) tt
extracted-Tells f (responds another) h =
    ((monitored start ∷ [], payload_broken, (λ e. cc), refl), refl)
extracted-Tells f no_response h = ((monitored start ∷ [], payload_broken, (λ e. cc), refl), refl)
extracted-Tells f (breaks r) h = ((monitored start ∷ [], r, h, refl), refl)

-- request list, payload and extract-sql, the last with a payload that can be decoded, return ok just
-- for an answer that is a success, and with a monitor file their last record agrees with the return
-- code, where an error that the transport throws has a reason.
pub requests-Tells :
    (encode : List ℕ → List ℕ) (decode : List ℕ → Option (List ℕ)) (f : Flags) (t : Now)
    (listed : Reply (List Running)) (found : Reply (List ℕ)) (payload : List ℕ)
    (statement : SqlReply)
    → HasReason listed
    → HasReason found
    → HasSqlReason statement
    → (decoded : List ℕ) × (decode payload ≡ some decoded)
    → (Tells (request_list (watched f) t listed)
        × Decides (good listed) (request_list (watched f) t listed))
      × (Tells (request_payload encode (watched f) found)
          × Decides (good found) (request_payload encode (watched f) found))
      × (Tells (request_extract_sql decode (watched f) payload statement)
          × Decides (good_sql statement) (request_extract_sql decode (watched f) payload statement))
unfolding request_list request_payload request_extract_sql
requests-Tells encode decode f t listed found payload statement a b c (decoded, d) = (
  replied-Tells f _ listed a,
  replied-Tells f _ found b,
  subst
      (λ o.
        Tells (when_decoded (watched f) statement o)
        × Decides (good_sql statement) (when_decoded (watched f) statement o))
      (sym d) (extracted-Tells f statement c),
)
