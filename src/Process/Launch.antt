-- ===== src/Process/Launch.antt =====
-- The three loops of `tgctl_start` in src/tateyama/process/control.cpp. They share a counter: each
-- loop here has the number of turns that are left, and gives on what it leaves.
use tateyama_bootstrap.Prelude.{ℕ, zero, suc, Bool, true, false, Option, none, some, ◌==◌}
use tateyama_bootstrap.Reason.{Reason, Result, throws, another_process, timeout, ambiguous}
use tateyama_bootstrap.Reason
use tateyama_bootstrap.Process.Os.{
  Conf, Os, LockState, probe, sleep_time_unit_regular, check_count_status,
}
use tateyama_bootstrap.Process.Os
use tateyama_bootstrap.Process.Check.{
  StatusCheckResult, undefined, error_in_conf_file_name, error_in_create_conf, no_file, not_locked,
  initial, ready, activated, deactivating, deactivated, boot_error, status_check_count_over,
  error_in_file_mutex_check, status_check_internal,
}

-- `check_result`, with the turns that are left.
pub data PidCheck : Type 0 where
  init : PidCheck
  matches : ℕ → PidCheck
  another : PidCheck
  dead_abnormally : PidCheck

-- How the third loop ends: by a return when the server runs or has exited, by a break with the
-- reason that it has set, or when its turns are used up.
pub data Boot : Type 0 where
  launched : Boot
  exited : Boot
  confirmed : Reason → Boot
  in_progress : Boot

-- What the third loop does about a state of the server: it ends, or it looks again after it has
-- left out some turns, and after it has slept or not.
pub data Next : Type 0 where
  ends : Boot → Next
  sleeps : Next
  skips : ℕ → Next

unfoldable pub next_of : StatusCheckResult → Next
next_of activated = ends launched
next_of not_locked = ends exited
next_of boot_error = ends exited
next_of no_file = sleeps
next_of initial = sleeps
next_of ready = sleeps
next_of deactivating = ends (confirmed another_process)
next_of deactivated = ends (confirmed another_process)
next_of status_check_count_over = skips check_count_status
next_of undefined = ends (confirmed timeout)
next_of error_in_conf_file_name = ends (confirmed timeout)
next_of error_in_create_conf = ends (confirmed timeout)
next_of error_in_file_mutex_check = ends (confirmed timeout)

module _ {S : Type 0} (os : Os S) (conf : Conf) (child : ℕ) where
  -- The pid in an open lock file; `none` if there is no lock file, or nobody whom it names lives.
  unfoldable pub whose : ℕ → S → Option PidCheck × S
  whose left s =
      let (lock, s1) = os.check_lock s in
      elim lock [
        | Os.no_file ↦ (none, s1)
        | _ ↦
            let (pid, s2) = os.lock_number s1 in
            elim (pid == 0) [
              | true ↦ (none, s2)
              | false ↦ elim (child == pid) [
                | true ↦ (some (matches left), s2)
                | false ↦
                    let (alive, s3) = os.send pid probe s2 in
                    elim alive [ true ↦ (some another, s3) | false ↦ (none, s3) ]
              ]
            ]
      ]

  -- `if (!file_mutex)`.
  abbrev pub open_once : Bool → S → Result (Unit {0}) × S
  open_once true s = (Reason.ok tt, s)
  open_once false s = os.open_lock s

  -- The first loop: whose pid the lock file holds. The flag says that it is open.
  unfoldable pub pid_loop : ℕ → Bool → S → PidCheck × S
  unfolding whose
  pid_loop zero opened s = (init, s)
  pid_loop (suc n) opened s =
      let (alive, s1) = os.send child probe s in
      elim alive [
        | false ↦ (dead_abnormally, s1)
        | true ↦
            let (now_open, s2) = open_once opened s1 in
            elim now_open [
              | throws e ↦ pid_loop n false (os.sleep sleep_time_unit_regular s2)
              | Reason.ok u ↦
                  let (seen, s3) = whose (suc n) s2 in
                  elim seen [
                    | some result ↦ (result, s3)
                    | none ↦ pid_loop n true (os.sleep sleep_time_unit_regular s3)
                  ]
            ]
      ]

  -- The second loop waits for the status information. It gives the turns that are left.
  unfoldable pub attach_loop : ℕ → S → Option ℕ × S
  attach_loop zero s = (none, s)
  attach_loop (suc n) s =
      let (attached, s1) = os.attach s in
      elim attached [
        | true ↦ (some (suc n), s1)
        | false ↦ attach_loop n (os.sleep sleep_time_unit_regular s1)
      ]

  -- The switch on the status check, after which the loop goes on by `again`, whose number is of
  -- turns to be left out.
  abbrev pub settle : (again : ℕ → S → Boot × S) → Next → S → Boot × S
  settle again (ends b) s = (b, s)
  settle again sleeps s = again 0 (os.sleep sleep_time_unit_regular s)
  settle again (skips k) s = again k s

  -- A turn of the third loop, from the pid in the status information on.
  unfoldable pub boot_turn : (again : ℕ → S → Boot × S) → ℕ × S → Boot × S
  unfolding next_of
  boot_turn again (pid, s1) = elim (pid == 0) [
    | true ↦ again 0 (os.sleep sleep_time_unit_regular s1)
    | false ↦ elim (child == pid) [
      | false ↦ (confirmed ambiguous, s1)
      | true ↦
          let (result, s2) = status_check_internal os conf s1 in settle again (next_of result) s2
    ]
  ]

  -- The third loop waits for the server to run. The second number is of turns to be left out.
  unfoldable pub boot_loop : ℕ → ℕ → S → Boot × S
  unfolding boot_turn
  boot_loop zero skipped s = (in_progress, s)
  boot_loop (suc n) (suc skipped) s = boot_loop n skipped s
  boot_loop (suc n) zero s = boot_turn (λ k t. boot_loop n k t) (os.status_pid s)
