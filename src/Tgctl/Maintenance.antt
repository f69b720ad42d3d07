-- ===== src/Tgctl/Maintenance.antt =====
-- The server in maintenance mode that `tgctl backup create` and `tgctl restore` of
-- src/tateyama/tgctl/tgctl.cpp start.
use tateyama_bootstrap.Prelude.{ℕ, ◌≡◌, refl, ap, ◌∙◌, List, [], ◌∷◌, Bool, false, some}
use tateyama_bootstrap.Reason.{Error, Result, throws}
use tateyama_bootstrap.Reason
use tateyama_bootstrap.Process.Os.{Os, Conf, maintenance_server, ok}
use tateyama_bootstrap.Tgctl.Shell.{Shell, Run, next}
use tateyama_bootstrap.Tgctl.Dispatch.{
  Arg, Call, Exit, code, backup, run_start, run_stop, wait_quietly, restore_by, stop_restored,
  restore_with, run_restore,
}
use tateyama_bootstrap.Process.Stop

module _ {S : Type 0} (os : Os S) (conf : Conf) (call : Call → Run S Exit) (use_file_list : Bool)
    (turns : ℕ) where
  -- The shell after the flags for `restore` have been set.
  abbrev quiet_shell : Shell S → Shell S
  quiet_shell sh = (wait_quietly os conf call use_file_list turns sh).1

  -- When the server has started, and the restoration has been tried and has given an exit status,
  -- the server is told to shut down, and that status is the command's.
  pub run_restore-stops :
      (args : List Arg) (rv : Exit) (sh sh1 sh2 : Shell S)
      → run_start os conf call use_file_list turns maintenance_server (quiet_shell sh)
        ≡ (Reason.ok ok, sh1)
      → restore_by os conf call use_file_list turns args sh1 ≡ (Reason.ok (some rv), sh2)
      → run_restore os conf call use_file_list turns args sh
        ≡ (Reason.ok rv, (run_stop os conf call use_file_list turns false false sh2).1)
  unfolding run_restore restore_with stop_restored wait_quietly run_stop
  run_restore-stops args rv sh sh1 sh2 e r =
      ap (next (restore_with os conf call use_file_list turns args)) e
      ∙ ap (next (stop_restored os conf call use_file_list turns)) r

  -- `tgctl restore backup` without a directory starts the server, shuts it down, and succeeds,
  -- though it has restored nothing.
  pub run_restore-no_directory :
      (sh sh1 : Shell S)
      → run_start os conf call use_file_list turns maintenance_server (quiet_shell sh)
        ≡ (Reason.ok ok, sh1)
      → run_restore os conf call use_file_list turns (backup ∷ []) sh
        ≡ (Reason.ok (code ok), (run_stop os conf call use_file_list turns false false sh1).1)
  unfolding restore_by
  run_restore-no_directory sh sh1 e = run_restore-stops (backup ∷ []) (code ok) sh sh1 sh1 e refl
