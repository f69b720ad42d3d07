-- ===== src/Process/Os.antt =====
-- What src/tateyama/process/control.cpp uses of the operating system, of the lock file
-- (src/tateyama/process/proc_mutex.h) and of the status information in shared memory
-- (src/tateyama/server/status_info.h), whose memory layout belongs to the framework. `S` is the
-- outer world; whatever looks at it or changes it gives the world that it leaves.
use tateyama_bootstrap.Prelude.{
  ℕ, ◌*◌, ◌/◌, ◌^◌, ◌-◌, List, [], ◌∷◌, Bool, true, false, Option, none, some, ◌==◌, if◌then◌else◌,
}
use tateyama_bootstrap.Reason.{Reason, Result}

-- `proc_mutex::lock_state`.
pub data LockState : Type 0 where
  no_file not_locked locked lock_error : LockState

-- `status_info::state`.
pub data State : Type 0 where
  initial ready activated deactivating deactivated boot_error : State

pub data ShutdownType : Type 0 where
  forceful graceful : ShutdownType

-- The boot modes for which `build_args` has a case, and any other.
pub data BootMode : Type 0 where
  database_server maintenance_server quiescent_server other_mode : BootMode

-- The words on the server's command line: `--maintenance_server`, `--quiesce`, `--conf`,
-- `--label`, `--location`, `--load`, `--tpch` and a value.
pub data Word : Type 0 where
  to_maintenance to_quiesce to_conf to_label to_location to_load to_tpch : Word
  value : List ℕ → Word

pub data Signal : Type 0 where
  probe sigkill sighup : Signal

-- `FLAGS_start_mode`.
pub data StartMode : Type 0 where
  unspecified force unknown_mode : StartMode

-- The command line: texts are lists of characters, and `timeout` is `none` for a negative number.
pub record Flags : Type 0 where
  pub monitor : Bool
  pub quiet : Bool
  pub start_mode : StartMode
  pub timeout : Option ℕ
  pub graceful : Bool
  pub forceful : Bool
  pub conf : List ℕ
  pub label : List ℕ
  pub location : List ℕ
  pub load : Bool
  pub tpch : Bool

-- `bootstrap_configuration`: `valid()`, and whether `get_configuration()` gives one.
pub record Conf : Type 0 where
  pub valid : Bool
  pub found : Bool

pub data ReturnCode : Type 0 where
  ok err : ReturnCode

pub data Status : Type 0 where
  stop ready activated deactivating deactivated boot_error unknown : Status

-- What a command writes to the monitor file; `finish absent` says that it succeeded.
pub data Record : Type 0 where
  start : Record
  status : Status → Record
  finish : Reason → Record

pub record Os (S : Type 0) : Type 0 where
  -- The constructor of `proc_mutex` for a lock file that must be there.
  pub open_lock : S → Result (Unit {0}) × S
  pub check_lock : S → LockState × S
  -- `stoi` of the lock file's contents, or 0.
  pub lock_number : S → ℕ × S
  pub unlink_lock : S → S
  -- `whole` of a new `status_info_bridge`; `none` if there is an exception.
  pub whole : S → Option State × S
  pub attach : S → Bool × S
  -- The constructor of `status_info_bridge`.
  pub open_status : S → Result (Unit {0}) × S
  pub status_pid : S → ℕ × S
  pub is_shutdown_requested : S → Bool × S
  pub request_shutdown : ShutdownType → S → Bool × S
  -- `apply_shm_entry(remove_shm_entry)` and `force_delete`.
  pub clean_up : S → S
  -- Whether `kill` returns 0.
  pub send : ℕ → Signal → S → Bool × S
  pub base_path : S → Result (Unit {0}) × S
  pub spawn : List Word → S → ℕ × S
  pub sleep : ℕ → S → S

-- The records of a command, if there is a monitor file.
abbrev pub monitored : Bool → List Record → List Record
monitored true rs = start ∷ rs
monitored false rs = []

abbrev pub sleep_time_unit_regular : ℕ
sleep_time_unit_regular = 20

abbrev pub sleep_time_unit_shutdown : ℕ
sleep_time_unit_shutdown = 1000

abbrev pub check_count_startup : ℕ
check_count_startup = 500

abbrev pub check_count_shutdown : ℕ
check_count_shutdown = 300

abbrev pub check_count_status : ℕ
check_count_status = 10

abbrev pub check_count_kill : ℕ
check_count_kill = 500

abbrev pub sleep_time_unit_mutex : ℕ
sleep_time_unit_mutex = 50

-- How often a loop looks, from `FLAGS_timeout`, the count without a timeout and the time of a turn.
unfoldable pub check_count_of : Option ℕ → ℕ → ℕ → ℕ
check_count_of none usual unit = usual
check_count_of (some seconds) usual unit =
    if seconds == 0 then 2 ^ 63 - 1 else 1000 * seconds / unit
