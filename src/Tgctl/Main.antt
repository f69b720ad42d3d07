-- ===== src/Tgctl/Main.antt =====
-- `tgctl_main` and `main` of src/tateyama/tgctl/tgctl.cpp.
use tateyama_bootstrap.Prelude.{ℕ, List, [], ◌∷◌, Bool, true, false, Option, none, some}
use tateyama_bootstrap.Reason.{Error, Result, throws}
use tateyama_bootstrap.Reason
use tateyama_bootstrap.Process.Os.{Os, Conf, database_server, quiescent_server, ReturnCode, err}
use tateyama_bootstrap.Process.Report.{tgctl_diagnostic, tgctl_pid}
use tateyama_bootstrap.Tgctl.Shell.{Shell, Run, ◌>>=◌, give}
use tateyama_bootstrap.Tgctl.Dispatch.{
  Arg, start, shutdown, kill, status, diagnostic, pid, quiesce, version, backup, create, estimate,
  restore, session, list, show, set, dbstats, altimeter, enable, disable, event_level, audit_level,
  statement_duration, rotate, request, payload, extract_sql, credentials, config, Call,
  show_version, backup_estimate, session_list, session_show, session_shutdown, session_swtch,
  metrics_list, metrics_show, set_enabled, set_event_level, set_audit_level, set_statement_duration,
  rotate_log, request_list, request_payload, request_extract_sql, show_credentials, show_config,
  Exit, code, minus_one, run_start, run_stop, run_status, create_backup, run_restore,
}

module _ {S : Type 0} (call : Call → Run S Exit) where
  unfoldable pub session_command : List Arg → Run S Exit
  session_command (list ∷ _) = call session_list
  session_command (show ∷ ref ∷ _) = call (session_show ref)
  session_command (shutdown ∷ ref ∷ _) = call (session_shutdown ref)
  session_command (set ∷ ref ∷ key ∷ []) = call (session_swtch ref key none)
  session_command (set ∷ ref ∷ key ∷ value ∷ _) = call (session_swtch ref key (some value))
  session_command _ = give (code err)

  unfoldable pub dbstats_command : List Arg → Run S Exit
  dbstats_command (list ∷ _) = call metrics_list
  dbstats_command (show ∷ _) = call metrics_show
  dbstats_command _ = give (code err)

  unfoldable pub altimeter_command : List Arg → Run S Exit
  altimeter_command (enable ∷ log ∷ _) = call (set_enabled log true)
  altimeter_command (disable ∷ log ∷ _) = call (set_enabled log false)
  altimeter_command (set ∷ event_level ∷ level ∷ _) = call (set_event_level level)
  altimeter_command (set ∷ audit_level ∷ level ∷ _) = call (set_audit_level level)
  altimeter_command (set ∷ statement_duration ∷ time ∷ _) = call (set_statement_duration time)
  altimeter_command (rotate ∷ log ∷ _) = call (rotate_log log)
  altimeter_command _ = give (code err)

  -- `stol` of an argument belongs to the call.
  unfoldable pub request_command : List Arg → Run S Exit
  request_command (list ∷ _) = call request_list
  request_command (payload ∷ session_id ∷ request_id ∷ _) =
      call (request_payload session_id request_id)
  request_command (extract_sql ∷ session_id ∷ bytes ∷ _) =
      call (request_extract_sql session_id bytes)
  request_command _ = give (code err)

  unfoldable pub credentials_command : List Arg → Run S Exit
  credentials_command [] = call (show_credentials none)
  credentials_command (file ∷ _) = call (show_credentials (some file))

-- A return code as an exit status.
abbrev pub exits : {S : Type 0} → Run S ReturnCode → Run S (Option Exit)
exits m = m >>= λ c. give (some (code c))

abbrev pub ends : {S : Type 0} → Run S Exit → Run S (Option Exit)
ends m = m >>= λ e. give (some e)

module _ {S : Type 0} (os : Os S) (conf : Conf) (call : Call → Run S Exit) (use_file_list : Bool)
    (turns : ℕ) where
  unfoldable pub backup_command : List Arg → Run S Exit
  unfolding create_backup
  backup_command (create ∷ path ∷ _) = create_backup os conf call use_file_list turns path
  backup_command (estimate ∷ _) = call backup_estimate
  backup_command _ = give (code err)

  -- `get_pid` for the number of turns; `none` while it goes on.
  unfoldable pub diagnostic_command : Run S (Option Exit)
  diagnostic_command sh =
      let (c, s) = tgctl_diagnostic os conf turns sh.world in
      elim c [
        | none ↦ (Reason.ok none, record sh { world = s })
        | some r ↦ (Reason.ok (some (code r)), record sh { world = s })
      ]

  unfoldable pub pid_command : Run S (Option Exit)
  pid_command sh =
      let (c, s) = tgctl_pid os conf turns sh.world in
      elim c [
        | none ↦ (Reason.ok none, record sh { world = s })
        | some (r, _) ↦ (Reason.ok (some (code r)), record sh { world = s })
      ]

  -- The arguments are those behind the program's name.
  unfoldable pub tgctl_main : List Arg → Run S (Option Exit)
  unfolding session_command dbstats_command altimeter_command request_command credentials_command
      backup_command diagnostic_command pid_command run_start run_stop run_status run_restore
  tgctl_main (start ∷ _) = exits (run_start os conf call use_file_list turns database_server)
  tgctl_main (shutdown ∷ _) = exits (run_stop os conf call use_file_list turns false true)
  tgctl_main (kill ∷ _) = exits (run_stop os conf call use_file_list turns true true)
  tgctl_main (status ∷ _) = exits (run_status os conf call use_file_list turns)
  tgctl_main (diagnostic ∷ _) = diagnostic_command
  tgctl_main (pid ∷ _) = pid_command
  tgctl_main (quiesce ∷ _) = exits (run_start os conf call use_file_list turns quiescent_server)
  tgctl_main (version ∷ _) = ends (call show_version)
  tgctl_main (backup ∷ args) = ends (backup_command args)
  tgctl_main (restore ∷ args) = ends (run_restore os conf call use_file_list turns args)
  tgctl_main (session ∷ args) = ends (session_command call args)
  tgctl_main (dbstats ∷ args) = ends (dbstats_command call args)
  tgctl_main (altimeter ∷ args) = ends (altimeter_command call args)
  tgctl_main (request ∷ args) = ends (request_command call args)
  tgctl_main (credentials ∷ args) = ends (credentials_command call args)
  tgctl_main (config ∷ _) = ends (call show_config)
  tgctl_main _ = give (some (code err))

  -- An exception ends the program with -1.
  unfoldable pub exit_status : List Arg → Shell S → Option Exit × Shell S
  unfolding tgctl_main
  exit_status args sh =
      let (r, sh1) = tgctl_main args sh in
      elim r [ Reason.ok e ↦ (e, sh1) | throws _ ↦ (some minus_one, sh1) ]
