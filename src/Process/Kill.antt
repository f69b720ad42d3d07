-- ===== src/Process/Kill.antt =====
-- `tgctl_kill` of src/tateyama/process/control.cpp.
use tateyama_bootstrap.Prelude.{ℕ, zero, suc, true, false, ◌==◌}
use tateyama_bootstrap.Reason.{Result, throws}
use tateyama_bootstrap.Reason
use tateyama_bootstrap.Process.Os.{
  Conf, Flags, ReturnCode, ok, err, Os, sigkill, sleep_time_unit_regular, check_count_kill,
  check_count_of,
}
use tateyama_bootstrap.Process.Check.{not_locked, status_check_internal}

module _ {S : Type 0} (os : Os S) (conf : Conf) where
  -- The lock is gone: the lock file and the shared memory are removed. The constructor of
  -- `status_info_bridge` may throw in between.
  unfoldable pub kill_finished : S → Result ReturnCode × S
  kill_finished s =
      let (opened, s1) = os.open_status (os.unlink_lock s) in
      elim opened [ Reason.ok u ↦ (Reason.ok ok, os.clean_up s1) | throws e ↦ (throws e, s1) ]

  -- The loop that waits until the lock is gone.
  unfoldable pub kill_loop : ℕ → S → Result ReturnCode × S
  unfolding kill_finished
  kill_loop zero s = (Reason.ok err, s)
  kill_loop (suc n) s =
      let (result, s1) = status_check_internal os conf s in
      elim result [
        | not_locked ↦ kill_finished s1
        | _ ↦ kill_loop n (os.sleep sleep_time_unit_regular s1)
      ]

  unfoldable pub tgctl_kill : Flags → S → Result ReturnCode × S
  unfolding check_count_of
  tgctl_kill flags s =
      let (pid, s1) = os.lock_number s in
      elim (pid == 0) [
        | true ↦ (Reason.ok err, s1)
        | false ↦
            let (sent, s2) = os.send pid sigkill s1 in
            kill_loop (check_count_of flags.timeout check_count_kill sleep_time_unit_regular) s2
      ]
