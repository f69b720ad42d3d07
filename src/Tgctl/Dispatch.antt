-- ===== src/Tgctl/Dispatch.antt =====
-- `tgctl_main` of src/tateyama/tgctl/tgctl.cpp. What the other modules do is a parameter.
use tateyama_bootstrap.Prelude.{
  ℕ, List, [], ◌∷◌, ◌++◌, Bool, true, false, Option, none, some, if◌then◌else◌,
}
use tateyama_bootstrap.Reason.{Error, Result, throws}
use tateyama_bootstrap.Reason
use tateyama_bootstrap.Process.Os.{
  Os, Conf, Flags, BootMode, maintenance_server, Record, ReturnCode, ok, err,
}
use tateyama_bootstrap.Process.Check
use tateyama_bootstrap.Process.Start
use tateyama_bootstrap.Process.Stop
use tateyama_bootstrap.Process.Report
use tateyama_bootstrap.Tgctl.Shell.{Shell, Run, ◌>>=◌, give}

-- An argument: a word that the program knows, or another text.
pub data Arg : Type 0 where
  start shutdown kill status diagnostic pid quiesce version : Arg
  backup create estimate restore tag session list show set dbstats : Arg
  altimeter enable disable event_level audit_level statement_duration rotate : Arg
  request payload extract_sql credentials config : Arg
  text : List ℕ → Arg

-- The calls of the other modules.
pub data Call : Type 0 where
  show_version : Call
  backup_directory_check backup_create restore_backup restore_backup_use_file_list restore_tag :
      Arg → Call
  backup_estimate : Call
  session_list : Call
  session_show session_shutdown : Arg → Call
  session_swtch : Arg → Arg → Option Arg → Call
  metrics_list metrics_show : Call
  set_enabled : Arg → Bool → Call
  set_event_level set_audit_level set_statement_duration rotate_log : Arg → Call
  request_list : Call
  request_payload request_extract_sql : Arg → Arg → Call
  show_credentials : Option Arg → Call
  show_config : Call

-- The exit status: a return code, or -1.
pub data Exit : Type 0 where
  code : ReturnCode → Exit
  minus_one : Exit

module _ {S : Type 0} (os : Os S) (conf : Conf) (call : Call → Run S Exit) (use_file_list : Bool)
    (turns : ℕ) where
  -- The commands of process control, on the flags as they are.
  abbrev pub start_outcome :
      Shell S → Result (ReturnCode × List Record) × S → Result ReturnCode × Shell S
  start_outcome sh (Reason.ok (c, rs), s) =
      (Reason.ok c, record sh { world = s; written = sh.written ++ rs })
  start_outcome sh (throws e, s) = (throws e, record sh { world = s })

  unfoldable pub run_start : BootMode → Run S ReturnCode
  run_start mode sh = start_outcome sh (Start.tgctl_start os conf sh.flags true mode sh.world)

  unfoldable pub run_stop : Bool → Bool → Run S ReturnCode
  run_stop by_force status_output sh =
      let ((c, rs), s) =
        Stop.tgctl_shutdown_kill os conf sh.flags by_force status_output sh.world in
      (Reason.ok c, record sh { world = s; written = sh.written ++ rs })

  unfoldable pub run_status : Run S ReturnCode
  run_status sh =
      let ((c, rs), s) = Report.tgctl_status os conf sh.flags sh.world in
      (Reason.ok c, record sh { world = s; written = sh.written ++ rs })

  unfoldable pub run_is_running : Run S Bool
  run_is_running sh =
      let (up, s) = Check.is_running os conf sh.world in (Reason.ok up, record sh { world = s })

  -- `FLAGS_quiet = true; FLAGS_monitor = "";`
  unfoldable pub silence : Run S (Unit {0})
  silence sh =
      (Reason.ok tt, record sh { flags = record sh.flags { quiet = true; monitor = false } })

  unfoldable pub set_flags : Flags → Run S (Unit {0})
  set_flags flags sh = (Reason.ok tt, record sh { flags = flags })

  -- After the backup: a server that this command has started is shut down, or else killed.
  unfoldable pub stop_maintenance : Run S (Unit {0})
  unfolding silence run_stop
  stop_maintenance = do
    _ ← silence
    stopped ← run_stop false true
    elim stopped [ ok ↦ give tt | err ↦ do _ ← run_stop true true; give tt ]

  -- A server in maintenance mode for the backup, without output. It gives whether somebody else's
  -- server runs after all; `none` if none does.
  unfoldable pub start_maintenance : Run S (Option Bool)
  unfolding silence run_start run_is_running set_flags
  start_maintenance sh =
      (do
        _ ← silence
        started ← run_start maintenance_server
        elim started [
          | ok ↦ do _ ← set_flags sh.flags; give (some false)
          | err ↦ do
            up ← run_is_running
            elim up [ false ↦ give none | true ↦ do _ ← set_flags sh.flags; give (some true) ]
        ])
        sh

  -- The backup with a server that runs, which is shut down if it is this command's own.
  unfoldable pub back_up : Arg → Bool → Run S Exit
  unfolding stop_maintenance
  back_up path others = do
    rv ← call (backup_create path)
    elim others [ true ↦ give rv | false ↦ do _ ← stop_maintenance; give rv ]

  unfoldable pub create_backup : Arg → Run S Exit
  unfolding run_is_running start_maintenance back_up
  create_backup path = do
    checked ← call (backup_directory_check path)
    elim checked [
      | code ok ↦ do
        running ← run_is_running
        elim running [
          | true ↦ back_up path true
          | false ↦ do
            started ← start_maintenance
            elim started [ none ↦ give (code err) | some others ↦ back_up path others ]
        ]
      | _ ↦ give (code err)
    ]

  -- What `tgctl restore` does while the server runs; `none` where it returns at once.
  unfoldable pub restore_by : List Arg → Run S (Option Exit)
  restore_by [] = give none
  restore_by (backup ∷ []) = give (some (code ok))
  restore_by (backup ∷ path ∷ rest) = do
    rv ← call (if use_file_list then restore_backup_use_file_list path else restore_backup path)
    give (some rv)
  restore_by (tag ∷ []) = give (some (code ok))
  restore_by (tag ∷ name ∷ rest) = do rv ← call (restore_tag name); give (some rv)
  restore_by (_ ∷ rest) = give (some minus_one)

  -- `FLAGS_timeout = 0; FLAGS_quiet = true;`
  unfoldable pub wait_quietly : Run S (Unit {0})
  wait_quietly sh =
      (Reason.ok tt, record sh { flags = record sh.flags { timeout = some 0; quiet = true } })

  -- After the restoration the server is shut down.
  unfoldable pub stop_restored : Option Exit → Run S Exit
  unfolding run_stop
  stop_restored none = give (code err)
  stop_restored (some rv) = do _ ← run_stop false false; give rv

  unfoldable pub restore_with : List Arg → ReturnCode → Run S Exit
  unfolding restore_by stop_restored
  restore_with args err = give minus_one
  restore_with args ok = do restored ← restore_by args; stop_restored restored

  unfoldable pub run_restore : List Arg → Run S Exit
  unfolding wait_quietly run_start restore_with
  run_restore args = do
    _ ← wait_quietly
    started ← run_start maintenance_server
    restore_with args started
