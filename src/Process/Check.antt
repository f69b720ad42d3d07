-- ===== src/Process/Check.antt =====
-- `status_check_internal` and `tgctl_status` of src/tateyama/process/control.cpp, and `get_pid`.
use tateyama_bootstrap.Prelude.{ℕ, zero, suc, Bool, true, false, none, some, if◌then◌else◌}
use tateyama_bootstrap.Process.Os
use tateyama_bootstrap.Process.Os.{
  LockState, State, Conf, Flags, Status, Record, ReturnCode, ok, err, Os, monitored,
  sleep_time_unit_regular, check_count_status,
}

pub data StatusCheckResult : Type 0 where
  undefined error_in_conf_file_name error_in_create_conf : StatusCheckResult
  no_file not_locked initial ready activated deactivating deactivated boot_error : StatusCheckResult
  status_check_count_over error_in_file_mutex_check : StatusCheckResult

-- The inner switch.
unfoldable pub result_of_state : State → StatusCheckResult
result_of_state Os.initial = initial
result_of_state Os.ready = ready
result_of_state Os.activated = activated
result_of_state Os.deactivating = deactivating
result_of_state Os.deactivated = deactivated
result_of_state Os.boot_error = boot_error

module _ {S : Type 0} (os : Os S) where
  -- The loop while the lock is held, with the turns that are left.
  unfoldable pub whole_loop : ℕ → S → StatusCheckResult × S
  unfolding result_of_state
  whole_loop zero s = (status_check_count_over, s)
  whole_loop (suc n) s =
      let (seen, s1) = os.whole s in
      elim seen [
        | some state ↦ (result_of_state state, s1)
        | none ↦ elim n [
          | zero ↦ (status_check_count_over, s1)
          | suc m ↦ whole_loop n (os.sleep sleep_time_unit_regular s1)
        ]
      ]

  unfoldable pub status_check_internal : Conf → S → StatusCheckResult × S
  unfolding whole_loop
  status_check_internal conf s =
      if conf.valid
      then if conf.found
        then (let (lock, s1) = os.check_lock s in
            elim lock [
              | Os.no_file ↦ (no_file, s1)
              | Os.not_locked ↦ (not_locked, s1)
              | Os.locked ↦ whole_loop check_count_status s1
              | Os.lock_error ↦ (error_in_file_mutex_check, s1)
            ])
        else (error_in_create_conf, s)
      else (error_in_conf_file_name, s)

  unfoldable pub is_running : Conf → S → Bool × S
  is_running conf s =
      let (result, s1) = status_check_internal conf s in
      elim result [ activated ↦ (true, s1) | _ ↦ (false, s1) ]
