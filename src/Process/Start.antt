-- ===== src/Process/Start.antt =====
-- `build_args` and `tgctl_start` of src/tateyama/process/control.cpp.
use tateyama_bootstrap.Prelude.{
  ℕ, List, [], ◌∷◌, ◌++◌, Bool, true, false, ◌&&◌, none, some, ◌==◌, if◌then◌else◌,
}
use tateyama_bootstrap.Reason.{
  Reason, Result, throws, absent, not_found, initialization, invalid_argument, another_process,
  timeout, ambiguous, internal,
}
use tateyama_bootstrap.Reason
use tateyama_bootstrap.Process.Os.{
  Conf, Flags, BootMode, StartMode, Word, to_maintenance, to_quiesce, to_conf, to_label,
  to_location, to_load, to_tpch, value, database_server, maintenance_server, quiescent_server,
  other_mode, unspecified, force, unknown_mode, ReturnCode, ok, err, Record, finish, Os,
  sleep_time_unit_regular, check_count_startup, check_count_of,
}
use tateyama_bootstrap.Process.Check.{
  StatusCheckResult, initial, ready, activated, deactivating, status_check_internal,
}
use tateyama_bootstrap.Process.Kill.{tgctl_kill}
use tateyama_bootstrap.Process.Stop.{Outcome, reported, unreported, finished}
use tateyama_bootstrap.Process.Launch.{
  init, matches, another, dead_abnormally, launched, exited, confirmed, in_progress, pid_loop,
  attach_loop, boot_loop,
}

abbrev pub is_empty : List ℕ → Bool
is_empty [] = true
is_empty (c ∷ cs) = false

abbrev pub same_text : List ℕ → List ℕ → Bool
same_text [] [] = true
same_text [] (d ∷ ds) = false
same_text (c ∷ cs) [] = false
same_text (c ∷ cs) (d ∷ ds) = (c == d) && same_text cs ds

-- "./db".
abbrev pub usual_location : List ℕ
usual_location = 46 ∷ 47 ∷ 100 ∷ 98 ∷ []

unfoldable pub mode_args : BootMode → List Word
mode_args database_server = []
mode_args maintenance_server = to_maintenance ∷ []
mode_args quiescent_server = to_quiesce ∷ []
mode_args other_mode = []

unfoldable pub build_args : Flags → BootMode → List Word
unfolding mode_args
build_args flags mode =
    mode_args mode
    ++ (if is_empty flags.conf then [] else to_conf ∷ value flags.conf ∷ [])
    ++ (if is_empty flags.label then [] else to_label ∷ value flags.label ∷ [])
    ++ (if same_text flags.location usual_location
        then []
        else to_location ∷ value flags.location ∷ [])
    ++ (if flags.load then to_load ∷ [] else [])
    ++ (if flags.tpch then to_tpch ∷ [] else [])

-- A server is there already.
unfoldable pub already_running : StatusCheckResult → Bool
already_running initial = true
already_running ready = true
already_running activated = true
already_running deactivating = true
already_running _ = false

module _ {S : Type 0} (os : Os S) (conf : Conf) (flags : Flags) where
  -- The child's pid is in the lock file: wait until the server runs. The lines behind the third loop
  -- set the reason to `timeout`, also where the loop has set another before its break.
  unfoldable pub confirm_boot : ℕ → ℕ → S → Outcome × S
  confirm_boot child left s =
      let (attached, s1) = attach_loop os conf child left s in
      elim attached [
        | none ↦ (unreported timeout, s1)
        | some turns ↦
            let (boot, s2) = boot_loop os conf child turns 0 s1 in
            elim boot [
              | launched ↦ (reported ok (finish absent ∷ []), s2)
              | exited ↦ (reported err (finish ambiguous ∷ []), s2)
              | confirmed _ ↦ (unreported timeout, s2)
              | in_progress ↦ (unreported timeout, s2)
            ]
      ]

  -- With a configuration: whose pid the lock file holds decides.
  unfoldable pub confirm_found : ℕ → S → Outcome × S
  unfolding check_count_of confirm_boot
  confirm_found child s =
      let (result, s1) =
        pid_loop os conf child
          (check_count_of flags.timeout check_count_startup sleep_time_unit_regular) false s in
      elim result [
        | matches left ↦ confirm_boot child left s1
        | another ↦ (unreported another_process, s1)
        | dead_abnormally ↦ (unreported internal, s1)
        | init ↦ (unreported ambiguous, s1)
      ]

  -- From `if (need_check)` on.
  unfoldable pub confirm_launch : ℕ → S → Outcome × S
  unfolding confirm_found
  confirm_launch child s = if conf.found then confirm_found child s else (unreported not_found, s)

  -- From the status check on. Without `need_check` the command returns at once.
  unfoldable pub launch : Bool → BootMode → S → Outcome × S
  unfolding build_args already_running confirm_launch
  launch need_check mode s =
      let (result, s1) = status_check_internal os conf s in
      elim (already_running result) [
        | true ↦ (reported err (finish another_process ∷ []), s1)
        | false ↦
            let (based, s2) = os.base_path s1 in
            elim based [
              | throws e ↦ (reported err [], s2)
              | Reason.ok u ↦
                  let (child, s3) = os.spawn (build_args flags mode) s2 in
                  elim need_check [ true ↦ confirm_launch child s3 | false ↦ (reported ok [], s3) ]
            ]
      ]

  -- The block on `FLAGS_start_mode` and what follows: `force` kills a server before the start. What
  -- is thrown here leaves `tgctl_start`.
  unfoldable pub start_by : StartMode → Bool → BootMode → S → Result Outcome × S
  unfolding launch
  start_by unspecified need_check mode s =
      let (outcome, s1) = launch need_check mode s in (Reason.ok outcome, s1)
  start_by unknown_mode need_check mode s =
      (Reason.ok (reported err (finish invalid_argument ∷ [])), s)
  start_by force need_check mode s =
      let (opened, s1) = os.open_lock s in
      elim opened [
        | throws e ↦ (throws e, s1)
        | Reason.ok u ↦
            let (killed, s2) = tgctl_kill os conf flags s1 in
            elim killed [
              | throws e ↦ (throws e, s2)
              | Reason.ok err ↦ (Reason.ok (reported err (finish initialization ∷ [])), s2)
              | Reason.ok ok ↦
                  let (outcome, s3) = launch need_check mode s2 in (Reason.ok outcome, s3)
            ]
      ]

  -- `if (bst_conf.valid())`.
  unfoldable pub start_server : Bool → BootMode → S → Result Outcome × S
  unfolding start_by
  start_server need_check mode s =
      if conf.valid
      then start_by flags.start_mode need_check mode s
      else (Reason.ok (unreported not_found), s)

  unfoldable pub tgctl_start : Bool → BootMode → S → Result (ReturnCode × List Record) × S
  unfolding start_server
  tgctl_start need_check mode s =
      let (outcome, s1) = start_server need_check mode s in
      elim outcome [
        | throws e ↦ (throws e, s1)
        | Reason.ok o ↦ (Reason.ok (finished (flags.monitor && need_check) o), s1)
      ]
