-- ===== src/Process/Failures.antt =====
-- What `tgctl_shutdown_kill` of src/tateyama/process/control.cpp writes to the monitor file when it
-- fails.
use tateyama_bootstrap.Prelude.{
  ◌≡◌, ◌≢◌, ◌⊎◌, inl, inr, refl, sym, ap, subst, List, [], ◌∷◌, Bool, true, false, ◌&&◌, Bool-cases,
  if-true, if-false, if◌then◌else◌,
}
use tateyama_bootstrap.Reason.{
  Reason, Result, throws, absent, invalid_status, ambiguous, initialization, not_found,
}
use tateyama_bootstrap.Reason
use tateyama_bootstrap.Process.Os.{Conf, Flags, ReturnCode, Record, finish, monitored, ok, err, Os}
use tateyama_bootstrap.Process.Check.{StatusCheckResult, status_check_internal}
use tateyama_bootstrap.Process.Kill.{tgctl_kill}
use tateyama_bootstrap.Process.Stop.{
  Outcome, reported, unreported, finished, none_running, passed_on, handled, kill_running,
  shut_down_running, stop_checked, stop_server, tgctl_shutdown, tgctl_shutdown_kill,
}

module _ {S : Type 0} (os : Os S) (conf : Conf) (flags : Flags) where
  -- The command that is nested in it has failed: `tgctl_kill`, or `tgctl_shutdown`.
  abbrev pub NestedFails : Bool → Type 0
  NestedFails true = (t : S) × (u : S) × (tgctl_kill os conf flags t ≡ (Reason.ok err, u))
  NestedFails false = (t : S) × (u : S) × (tgctl_shutdown os conf flags t ≡ (err, u))

  -- A failure has a reason, or it is one for which none is set.
  abbrev pub Excused : Bool → Reason → Type 0
  Excused by_force r = (r ≢ absent) ⊎ ((flags.quiet ≡ true) ⊎ NestedFails by_force)

  abbrev pub Told : Bool → Outcome → Type 0
  Told by_force (reported ok rs) = rs ≡ finish absent ∷ []
  Told by_force (reported err rs) = ⊥
  Told by_force (unreported r) = Excused by_force r

  abbrev pub ToldBy : Bool → Outcome × S → Type 0
  ToldBy by_force o = Told by_force o.0

  handled-Told : (by_force missing : Bool) → Told by_force (handled os conf flags missing)
  handled-Told by_force missing = elim (Bool-cases flags.quiet) [
    | inl q ↦ inr (inl q)
    | inr q ↦
        subst (Excused by_force)
          (sym (if-false absent (if missing then invalid_status else ambiguous) q))
          (inl (given missing))
  ]
    where
      given : (m : Bool) → (if m then invalid_status else ambiguous) ≢ absent
      given true e = cc
      given false e = cc

  after_kill :
      (s : S) (killed : Result ReturnCode) (s1 : S)
      → tgctl_kill os conf flags s ≡ (killed, s1)
      → ToldBy true (elim killed [
        | Reason.ok code ↦ (passed_on os conf flags code, s1)
        | throws e ↦ (handled os conf flags false, s1)
      ])
  after_kill s (Reason.ok ok) s1 e = refl
  after_kill s (Reason.ok err) s1 e = inr (inr (s, s1, e))
  after_kill s (throws x) s1 e = handled-Told true false

  kill_running-Told : (s : S) → Told true (kill_running os conf flags s).0
  unfolding kill_running
  kill_running-Told s =
      after_kill s (tgctl_kill os conf flags s).0 (tgctl_kill os conf flags s).1 refl

  passed_on-Told :
      (s : S) (code : ReturnCode) (s1 : S)
      → tgctl_shutdown os conf flags s ≡ (code, s1)
      → Told false (passed_on os conf flags code)
  passed_on-Told s ok s1 e = refl
  passed_on-Told s err s1 e = inr (inr (s, s1, e))

  after_request :
      (requested : Bool) (s : S)
      → ToldBy false (elim requested [
        | true ↦ (unreported invalid_status, s)
        | false ↦
            let (code, s1) = tgctl_shutdown os conf flags s in (passed_on os conf flags code, s1)
      ])
  after_request true s = inl (λ e. cc)
  after_request false s =
      passed_on-Told s (tgctl_shutdown os conf flags s).0 (tgctl_shutdown os conf flags s).1 refl

  after_open :
      (opened : Result (Unit {0})) (s : S)
      → ToldBy false (elim opened [
        | throws e ↦ (handled os conf flags false, s)
        | Reason.ok u ↦
            let (requested, s2) = os.is_shutdown_requested s in
            elim requested [
              | true ↦ (unreported invalid_status, s2)
              | false ↦
                  let (code, s3) = tgctl_shutdown os conf flags s2 in
                  (passed_on os conf flags code, s3)
            ]
      ])
  after_open (throws x) s = handled-Told false false
  after_open (Reason.ok u) s =
      after_request (os.is_shutdown_requested s).0 (os.is_shutdown_requested s).1

  shut_down_running-Told : (s : S) → Told false (shut_down_running os conf flags s).0
  unfolding shut_down_running
  shut_down_running-Told s = after_open (os.open_status s).0 (os.open_status s).1

  running :
      (by_force : Bool) (s : S)
      → ToldBy by_force (elim by_force [
        | true ↦ kill_running os conf flags s
        | false ↦ shut_down_running os conf flags s
      ])
  running true s = kill_running-Told s
  running false s = shut_down_running-Told s

  after_lock :
      (by_force : Bool) (opened : Result (Unit {0})) (s : S)
      → ToldBy by_force (elim opened [
        | throws e ↦ (handled os conf flags true, s)
        | Reason.ok u ↦ elim by_force [
          | true ↦ kill_running os conf flags s
          | false ↦ shut_down_running os conf flags s
        ]
      ])
  after_lock by_force (throws x) s = handled-Told by_force true
  after_lock by_force (Reason.ok u) s = running by_force s

  after_check :
      (by_force none_runs : Bool) (s : S)
      → ToldBy by_force (elim none_runs [
        | true ↦ (reported ok (finish absent ∷ []), s)
        | false ↦
            let (opened, s2) = os.open_lock s in
            elim opened [
              | throws e ↦ (handled os conf flags true, s2)
              | Reason.ok u ↦ elim by_force [
                | true ↦ kill_running os conf flags s2
                | false ↦ shut_down_running os conf flags s2
              ]
            ]
      ])
  after_check by_force true s = refl
  after_check by_force false s = after_lock by_force (os.open_lock s).0 (os.open_lock s).1

  stop_checked-Told :
      (by_force : Bool) (r : StatusCheckResult) (s : S)
      → ToldBy by_force (stop_checked os conf flags by_force (r, s))
  unfolding stop_checked
  stop_checked-Told by_force r s = after_check by_force (none_running r) s

  stop_server-Told :
      (by_force : Bool) (s : S) → Told by_force (stop_server os conf flags by_force s).0
  unfolding stop_server
  stop_server-Told by_force s = elim (Bool-cases conf.valid) [
    | inr v ↦ subst (λ (o : Outcome × S). Told by_force o.0) (sym (if-false _ _ v)) (inl (λ e. cc))
    | inl v ↦
        subst (λ (o : Outcome × S). Told by_force o.0) (sym (if-true _ _ v))
          (elim (Bool-cases conf.found) [
            | inr f ↦
                subst (λ (o : Outcome × S). Told by_force o.0) (sym (if-false _ _ f))
                  (inl (λ e. cc))
            | inl f ↦
                subst (λ (o : Outcome × S). Told by_force o.0) (sym (if-true _ _ f))
                  (stop_checked-Told by_force (status_check_internal os conf s).0
                    (status_check_internal os conf s).1)
          ])
  ]

  -- How the command ends, for what it returns and writes.
  abbrev pub Ends : Bool → Bool → ReturnCode × List Record → Type 0
  Ends by_force on end =
      (end ≡ (ok, monitored on (finish absent ∷ [])))
      ⊎ ((r : Reason) × (end ≡ (err, monitored on (finish r ∷ []))) × Excused by_force r)

  finished-Ends :
      (by_force on : Bool) (o : Outcome) → Told by_force o → Ends by_force on (finished on o)
  finished-Ends by_force on (reported ok rs) t = inl (ap (λ x. (ok, monitored on x)) t)
  finished-Ends by_force on (reported err rs) t = absurd t
  finished-Ends by_force on (unreported r) t = inr (r, refl, t)

  -- Shutdown and kill return ok and record a success, or return err and record a reason. It is the
  -- reason `absent`, which a success has, only under --quiet, or where the nested `tgctl_kill` (for
  -- kill) or `tgctl_shutdown` (for shutdown) has returned err.
  pub tgctl_shutdown_kill-Ends :
      (by_force status_output : Bool) (s : S)
      → Ends by_force
          (flags.monitor && status_output)
          (tgctl_shutdown_kill os conf flags by_force status_output s).0
  unfolding tgctl_shutdown_kill
  tgctl_shutdown_kill-Ends by_force status_output s =
      finished-Ends by_force (flags.monitor && status_output)
        (stop_server os conf flags by_force s).0 (stop_server-Told by_force s)
