-- ===== src/Process/Report.antt =====
-- `tgctl_status`, `get_pid`, `tgctl_diagnostic` and `tgctl_pid` of src/tateyama/process/control.cpp.
use tateyama_bootstrap.Prelude.{ℕ, zero, suc, List, [], ◌∷◌, true, false, Option, none, some, ◌==◌}
use tateyama_bootstrap.Reason.{
  Reason, Error, Result, throws, runtime_error, absent, timeout, initialization, not_found,
  ambiguous, internal,
}
use tateyama_bootstrap.Reason
use tateyama_bootstrap.Process.Os.{
  Conf, Flags, Status, stop, unknown, Record, status, finish, monitored, ReturnCode, ok, err, Os,
  sighup,
}
use tateyama_bootstrap.Process.Os
use tateyama_bootstrap.Process.Check.{
  StatusCheckResult, undefined, error_in_conf_file_name, error_in_create_conf, no_file, not_locked,
  initial, ready, activated, deactivating, deactivated, boot_error, status_check_count_over,
  error_in_file_mutex_check, status_check_internal,
}

-- The switch of `tgctl_status`: what it writes as the status, or the reason of its failure.
pub data Answer : Type 0 where
  is : Status → Answer
  fails : Reason → Answer

unfoldable pub answer_of : StatusCheckResult → Answer
answer_of no_file = is stop
answer_of initial = is Os.ready
answer_of ready = is Os.ready
answer_of activated = is Os.activated
answer_of deactivating = is Os.deactivating
answer_of deactivated = is Os.deactivated
answer_of not_locked = is unknown
answer_of status_check_count_over = fails timeout
answer_of error_in_create_conf = fails initialization
answer_of error_in_conf_file_name = fails not_found
answer_of boot_error = fails ambiguous
answer_of undefined = fails ambiguous
answer_of error_in_file_mutex_check = fails ambiguous

module _ {S : Type 0} (os : Os S) (conf : Conf) where
  unfoldable pub tgctl_status : Flags → S → (ReturnCode × List Record) × S
  unfolding answer_of
  tgctl_status flags s =
      let (result, s1) = status_check_internal os conf s in
      elim (answer_of result) [
        | is st ↦ ((ok, monitored flags.monitor (status st ∷ finish absent ∷ [])), s1)
        | fails reason ↦ ((err, monitored flags.monitor (finish reason ∷ [])), s1)
      ]

  -- `pid()`: 0 unless the lock is held and its file holds a number.
  unfoldable pub pid : S → ℕ × S
  pid s =
      let (lock, s1) = os.check_lock s in elim lock [ Os.locked ↦ os.lock_number s1 | _ ↦ (0, s1) ]

  -- The endless loop of `get_pid`, with at most so many turns; `none` if they are used up.
  unfoldable pub pid_turns : ℕ → S → Option ℕ × S
  unfolding pid
  pid_turns zero s = (none, s)
  pid_turns (suc n) s =
      let (number, s1) = pid s in
      elim (number == 0) [ true ↦ pid_turns n (os.sleep 10 s1) | false ↦ (some number, s1) ]

  unfoldable pub get_pid : ℕ → S → Result (Option ℕ) × S
  unfolding pid_turns
  get_pid turns s = elim conf.valid [
    | false ↦ (throws (runtime_error internal), s)
    | true ↦ elim conf.found [
      | false ↦ (throws (runtime_error internal), s)
      | true ↦
          let (opened, s1) = os.open_lock s in
          elim opened [
            | throws e ↦ (throws e, s1)
            | Reason.ok u ↦ let (found, s2) = pid_turns turns s1 in (Reason.ok found, s2)
          ]
    ]
  ]

  -- `none` while `get_pid` goes on.
  unfoldable pub tgctl_diagnostic : ℕ → S → Option ReturnCode × S
  unfolding get_pid
  tgctl_diagnostic turns s =
      let (got, s1) = get_pid turns s in
      elim got [
        | throws e ↦ (some err, s1)
        | Reason.ok none ↦ (none, s1)
        | Reason.ok (some number) ↦ let (sent, s2) = os.send number sighup s1 in (some ok, s2)
      ]

  -- The return code and the number that it prints.
  unfoldable pub tgctl_pid : ℕ → S → Option (ReturnCode × Option ℕ) × S
  unfolding get_pid
  tgctl_pid turns s =
      let (got, s1) = get_pid turns s in
      elim got [
        | throws e ↦ (some (err, none), s1)
        | Reason.ok none ↦ (none, s1)
        | Reason.ok (some number) ↦ (some (ok, some number), s1)
      ]
