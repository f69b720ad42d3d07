-- ===== src/Tgctl/Tests.antt =====
-- `tgctl restore` and `tgctl backup create` with a server that boots at once, and that goes when it
-- is asked to. The world is 0 before the launch, 1 while the server runs, and 2 afterwards.
use tateyama_bootstrap.Prelude.{ℕ, zero, suc, ◌≡◌, refl, [], true, false, none, some}
use tateyama_bootstrap.Reason
use tateyama_bootstrap.Process.Os.{
  Os, Conf, unspecified, LockState, locked, no_file, activated, maintenance_server, ok,
  check_count_of,
}
use tateyama_bootstrap.Process.Check.{whole_loop, result_of_state, status_check_internal}
use tateyama_bootstrap.Process.Launch.{next_of, whose, pid_loop, attach_loop, boot_turn, boot_loop}
use tateyama_bootstrap.Process.Start.{
  already_running, confirm_boot, confirm_found, confirm_launch, launch, start_by, start_server,
  tgctl_start,
}
use tateyama_bootstrap.Tgctl.Shell.{Shell, Run, give}
use tateyama_bootstrap.Tgctl.Dispatch.{Call, Exit, code, run_start, wait_quietly}

lock_at : ℕ → LockState
lock_at zero = no_file
lock_at (suc zero) = locked
lock_at (suc (suc t)) = no_file

abbrev obliging : Os ℕ
unfolding lock_at
obliging = record {
  open_lock = λ t. (Reason.ok tt, t);
  check_lock = λ t. (lock_at t, t);
  lock_number = λ t. (42, t);
  unlink_lock = λ t. t;
  whole = λ t. (some activated, t);
  attach = λ t. (true, t);
  open_status = λ t. (Reason.ok tt, t);
  status_pid = λ t. (42, t);
  is_shutdown_requested = λ t. (false, t);
  request_shutdown = λ kind t. (true, 2);
  clean_up = λ t. t;
  send = λ pid signal t. (true, t);
  base_path = λ t. (Reason.ok tt, t);
  spawn = λ args t. (42, 1);
  sleep = λ ms t. t;
}

abbrev good : Conf
good = record { valid = true; found = true }

abbrev calls : Call → Run ℕ Exit
calls c = give (code ok)

abbrev at_first : Shell ℕ
at_first = record {
  flags = record {
    monitor = false;
    quiet = false;
    start_mode = unspecified;
    timeout = none;
    graceful = false;
    forceful = false;
    conf = [];
    label = [];
    location = [];
    load = false;
    tpch = false;
  };
  world = 0;
  written = [];
}

abbrev up : Shell ℕ
up = record at_first { flags = record at_first.flags { quiet = true; timeout = some 0 }; world = 1 }

boots :
    run_start obliging good calls false 1 maintenance_server
      (wait_quietly obliging good calls false 1 at_first).1
    ≡ (Reason.ok ok, up)
unfolding run_start wait_quietly tgctl_start start_server start_by launch status_check_internal
    confirm_launch confirm_found check_count_of pid_loop whose confirm_boot attach_loop boot_loop
    boot_turn next_of whole_loop result_of_state already_running lock_at obliging
boots = refl
