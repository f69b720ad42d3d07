-- ===== src/Session/Outcomes.antt =====
-- What the session commands of src/tateyama/session/session.cpp tell by their return codes and by the
-- last record in the monitor file.
use tateyama_bootstrap.Prelude.{
  ℕ, ◌≡◌, ◌≢◌, refl, ap, List, [], ◌∷◌, ◌++◌, true, false, ◌&&◌, if-true, if-false, append_assoc,
  sym, subst,
}
use tateyama_bootstrap.Reason.{Reason, absent, server, payload_broken}
use tateyama_bootstrap.Process.Os.{ok, err, start, finish}
use tateyama_bootstrap.Session.{
  Entry, success, error, other, Reply, answers, unreadable, throws, Event, monitored, session_info,
  Ended, returns, escapes, Flags, shown, replied, session_show, session_shutdown, session_swtch,
}

-- A command that returns ends with a record of a success if it returns ok, and with that of a failure
-- otherwise.
abbrev pub Tells : Ended → Type 0
Tells (returns ok evs) = (before : List Event) × (evs ≡ before ++ monitored (finish absent) ∷ [])
Tells (returns err evs) =
    (before : List Event) × (r : Reason) × (r ≢ absent)
    × (evs ≡ before ++ monitored (finish r) ∷ [])
Tells (escapes evs) = ⊥

-- The return code is ok just for an answer that is a success.
abbrev pub Decides : {A : Type 0} → Reply A → Ended → Type 0
Decides (answers (success a)) (returns c evs) = c ≡ ok
Decides (answers error) (returns c evs) = c ≡ err
Decides (answers other) (returns c evs) = c ≡ err
Decides unreadable (returns c evs) = c ≡ err
Decides (throws r) (returns c evs) = c ≡ err
Decides reply (escapes evs) = ⊥

-- A `runtime_error` never has the reason `absent`.
abbrev pub HasReason : {A : Type 0} → Reply A → Type 0
HasReason (answers a) = Unit {0}
HasReason unreadable = Unit {0}
HasReason (throws r) = r ≢ absent

abbrev pub watched : Flags → Flags
watched f = record f { monitor = true }

server≢absent : server ≢ absent
server≢absent e = cc

payload_broken≢absent : payload_broken ≢ absent
payload_broken≢absent e = cc

replied-Tells :
    {A : Type 0} (f : Flags) (good : A → Ended) (reply : Reply A)
    → HasReason reply
    → ((a : A) → Tells (good a) × Decides (answers (success a)) (good a))
    → Tells (replied (watched f) good reply) × Decides reply (replied (watched f) good reply)
replied-Tells f good (answers (success a)) h g = g a
replied-Tells f good (answers error) h g =
    ((monitored start ∷ [], server, server≢absent, refl), refl)
replied-Tells f good (answers other) h g =
    ((monitored start ∷ [], payload_broken, payload_broken≢absent, refl), refl)
replied-Tells f good unreadable h g =
    ((monitored start ∷ [], payload_broken, payload_broken≢absent, refl), refl)
replied-Tells f good (throws r) h g = ((monitored start ∷ [], r, h, refl), refl)

shown-Tells :
    (timepoint : ℕ → List ℕ) (f : Flags) (e : Entry)
    → (before : List Event) × (monitored start
          ∷ (shown timepoint e ++ (session_info e ∷ monitored (finish absent) ∷ []))
        ≡ before ++ monitored (finish absent) ∷ [])
shown-Tells timepoint f e = (
  monitored start ∷ (shown timepoint e ++ session_info e ∷ []),
  ap (◌∷◌ (monitored start)) (
      sym
        (append_assoc (shown timepoint e) (session_info e ∷ []) (monitored (finish absent) ∷ []))),
)

-- With a monitor file, `session show`, `session set` and, unless both of its options are there,
-- `session shutdown` return ok just for an answer that is a success, and then the last record is
-- that of a success; else they return err, and the last record has the reason of a failure.
pub commands-Tells :
    (timepoint : ℕ → List ℕ) (f : Flags) (entry : Reply Entry) (reply : Reply (Unit {0}))
    → HasReason entry
    → HasReason reply
    → (f.graceful && f.forceful) ≡ false
    → (Tells (session_show timepoint (watched f) entry)
        × Decides entry (session_show timepoint (watched f) entry))
      × (Tells (session_swtch (watched f) reply) × Decides reply (session_swtch (watched f) reply))
      × (Tells (session_shutdown (watched f) reply)
          × Decides reply (session_shutdown (watched f) reply))
unfolding session_show session_swtch session_shutdown
commands-Tells timepoint f entry reply h g one = (
  replied-Tells f _ entry h (λ e. (shown-Tells timepoint f e, refl)),
  replied-Tells f _ reply g (λ _. ((monitored start ∷ [], refl), refl)),
  subst (λ x. Tells x × Decides reply x) (sym (if-false _ _ one))
      (replied-Tells f _ reply g (λ _. ((monitored start ∷ [], refl), refl))),
)

-- With both of its options, `session shutdown` returns err without a request, while the last record
-- in the monitor file is that of a success.
pub session_shutdown-both :
    (f : Flags) (reply : Reply (Unit {0}))
    → (f.graceful && f.forceful) ≡ true
    → session_shutdown (watched f) reply
      ≡ returns err (monitored start ∷ monitored (finish absent) ∷ [])
unfolding session_shutdown
session_shutdown-both f reply both = if-true _ _ both
