-- ===== src/Process/Stop.antt =====
-- `tgctl_shutdown` and `tgctl_shutdown_kill` of src/tateyama/process/control.cpp.
use tateyama_bootstrap.Prelude.{ℕ, zero, suc, List, [], ◌∷◌, Bool, true, false, ◌&&◌, if◌then◌else◌}
use tateyama_bootstrap.Reason.{
  Reason, Result, throws, absent, not_found, initialization, invalid_status, ambiguous,
}
use tateyama_bootstrap.Reason
use tateyama_bootstrap.Process.Os.{
  Conf, Flags, ReturnCode, ok, err, Record, finish, monitored, ShutdownType, forceful, graceful, Os,
  sleep_time_unit_shutdown, check_count_shutdown, sleep_time_unit_mutex, check_count_of,
}
use tateyama_bootstrap.Process.Os
use tateyama_bootstrap.Process.Check.{
  StatusCheckResult, no_file, not_locked, deactivated, status_check_internal,
}
use tateyama_bootstrap.Process.Kill.{tgctl_kill}

-- How a command ends: by a return in its midst, with what it has written; or at its end, where it
-- writes the reason that it has set. Every path to the end has set the return code to `err`.
pub data Outcome : Type 0 where
  reported : ReturnCode → List Record → Outcome
  unreported : Reason → Outcome

-- The end of a command: its return code and what it wrote.
abbrev pub finished : Bool → Outcome → ReturnCode × List Record
finished on (reported code rs) = (code, monitored on rs)
finished on (unreported reason) = (err, monitored on (finish reason ∷ []))

-- No server is there to be shut down.
unfoldable pub none_running : StatusCheckResult → Bool
none_running no_file = true
none_running not_locked = true
none_running deactivated = true
none_running _ = false

module _ {S : Type 0} (os : Os S) (conf : Conf) (flags : Flags) where
  -- The loop that waits until the lock file is gone.
  unfoldable pub shutdown_loop : ℕ → S → ReturnCode × S
  shutdown_loop zero s = (err, s)
  shutdown_loop (suc n) s =
      let (lock, s1) = os.check_lock s in
      elim lock [
        | Os.no_file ↦ (ok, s1)
        | _ ↦ shutdown_loop n (os.sleep sleep_time_unit_shutdown s1)
      ]

  -- From `request_shutdown` on.
  unfoldable pub request_and_wait : ShutdownType → S → ReturnCode × S
  unfolding check_count_of
  request_and_wait shutdown_type s =
      let (accepted, s1) = os.request_shutdown shutdown_type s in
      elim accepted [
        | false ↦ (err, s1)
        | true ↦
            shutdown_loop
              (check_count_of flags.timeout check_count_shutdown sleep_time_unit_shutdown)
              (os.sleep sleep_time_unit_mutex s1)
      ]

  unfoldable pub tgctl_shutdown : S → ReturnCode × S
  unfolding request_and_wait
  tgctl_shutdown s =
      if flags.graceful && flags.forceful
      then (err, s)
      else request_and_wait (if flags.graceful then graceful else forceful) s

  -- A return code of a nested command: its failure leaves the reason as it was.
  abbrev pub passed_on : ReturnCode → Outcome
  passed_on ok = reported ok (finish absent ∷ [])
  passed_on err = unreported absent

  -- The handler of `runtime_error`; `missing` says that the lock file does not exist.
  abbrev pub handled : Bool → Outcome
  handled missing =
      unreported (if flags.quiet then absent else if missing then invalid_status else ambiguous)

  unfoldable pub kill_running : S → Outcome × S
  kill_running s =
      let (killed, s1) = tgctl_kill os conf flags s in
      elim killed [ Reason.ok code ↦ (passed_on code, s1) | throws e ↦ (handled false, s1) ]

  unfoldable pub shut_down_running : S → Outcome × S
  shut_down_running s =
      let (opened, s1) = os.open_status s in
      elim opened [
        | throws e ↦ (handled false, s1)
        | Reason.ok u ↦
            let (requested, s2) = os.is_shutdown_requested s1 in
            elim requested [
              | true ↦ (unreported invalid_status, s2)
              | false ↦ let (code, s3) = tgctl_shutdown s2 in (passed_on code, s3)
            ]
      ]

  -- From the status check on.
  unfoldable pub stop_checked : Bool → StatusCheckResult × S → Outcome × S
  unfolding none_running kill_running shut_down_running
  stop_checked by_force (result, s1) = elim (none_running result) [
    | true ↦ (reported ok (finish absent ∷ []), s1)
    | false ↦
        let (opened, s2) = os.open_lock s1 in
        elim opened [
          | throws e ↦ (handled true, s2)
          | Reason.ok u ↦ elim by_force [ true ↦ kill_running s2 | false ↦ shut_down_running s2 ]
        ]
  ]

  unfoldable pub stop_server : Bool → S → Outcome × S
  unfolding stop_checked
  stop_server by_force s =
      if conf.valid
      then if conf.found
        then stop_checked by_force (status_check_internal os conf s)
        else (unreported initialization, s)
      else (unreported not_found, s)

  unfoldable pub tgctl_shutdown_kill : Bool → Bool → S → (ReturnCode × List Record) × S
  unfolding stop_server
  tgctl_shutdown_kill by_force status_output s =
      let (outcome, s1) = stop_server by_force s in
      (finished (flags.monitor && status_output) outcome, s1)
