-- ===== src/Process/Tests.antt =====
-- A server that takes 50 milliseconds to boot, and stays as it is when it is killed. The world is
-- the time in milliseconds since its launch, or 0 before it.
use tateyama_bootstrap.Prelude.{
  ℕ, zero, suc, ◌+◌, ◌-◌, Bool, ap, inl, inr, Bool-cases, ltb→lt, ◌≡◌, ◌≢◌, refl, ◌⊎◌, [], ◌∷◌,
  true, false, some, ltb, if◌then◌else◌, ◌&&◌, arith,
}
use tateyama_bootstrap.Reason.{Reason, Result, absent, timeout, ambiguous}
use tateyama_bootstrap.Reason
use tateyama_bootstrap.Process.Os.{
  Os, Conf, Flags, unspecified, LockState, locked, not_locked, no_file, initial, activated,
  database_server, Status, status, finish, monitored, ok, err, check_count_of, graceful,
}
use tateyama_bootstrap.Process.Check.{whole_loop, result_of_state, status_check_internal}
use tateyama_bootstrap.Process.Check
use tateyama_bootstrap.Process.Kill.{kill_finished, kill_loop, tgctl_kill}
use tateyama_bootstrap.Process.Stop.{
  shutdown_loop, request_and_wait, tgctl_shutdown, tgctl_shutdown_kill,
}
use tateyama_bootstrap.Process.Launch.{
  launched, next_of, whose, pid_loop, attach_loop, boot_turn, boot_loop,
}
use tateyama_bootstrap.Process.Start.{
  build_args, already_running, confirm_boot, confirm_found, confirm_launch, launch, start_by,
  start_server, tgctl_start,
}
use tateyama_bootstrap.Process.Report.{tgctl_status}
use tateyama_bootstrap.Process.Confirmed.{Runs, tgctl_start-running}
use tateyama_bootstrap.Process.Gone.{Removed, tgctl_kill-Removed, tgctl_shutdown-gone}
use tateyama_bootstrap.Process.Patience.{
  Looks, booting, up, no_lock_yet, initializing, boot_loop-patient,
}
use tateyama_bootstrap.Process.Failures.{Ends, tgctl_shutdown_kill-Ends}
use tateyama_bootstrap.Process.Reasons.{Seen, tgctl_status-answers}

lock_of : ℕ → LockState
lock_of zero = no_file
lock_of (suc t) = locked

abbrev server : Os ℕ
unfolding lock_of
server = record {
  open_lock = λ t. (Reason.ok tt, t);
  check_lock = λ t. (lock_of t, t);
  lock_number = λ t. (42, t);
  unlink_lock = λ t. t;
  whole = λ t. (some (if ltb t 50 then initial else activated), t);
  attach = λ t. (true, t);
  open_status = λ t. (Reason.ok tt, t);
  status_pid = λ t. (42, t);
  is_shutdown_requested = λ t. (false, t);
  request_shutdown = λ kind t. (true, t);
  clean_up = λ t. 0;
  send = λ pid signal t. (true, t);
  base_path = λ t. (Reason.ok tt, t);
  spawn = λ args t. (42, 1);
  sleep = λ ms t. t + ms;
}

-- A server that goes at once: by a signal, or by a request.
abbrev mortal : Os ℕ
mortal = record server {
  check_lock = λ t. (if ltb t 100 then locked else not_locked, t);
  send = λ pid signal t. (true, 100);
}

abbrev obedient : Os ℕ
obedient = record server { check_lock = λ t. (if ltb t 1000 then locked else no_file, t) }

-- The pid in the status information is another's.
abbrev confused : Os ℕ
confused = record server { status_pid = λ t. (43, t) }

abbrev good : Conf
good = record { valid = true; found = true }

abbrev flags : Flags
flags = record {
  monitor = true;
  quiet = false;
  start_mode = unspecified;
  timeout = some 1;
  graceful = true;
  forceful = false;
  conf = [];
  label = [];
  location = [];
  load = false;
  tpch = false;
}

started :
    tgctl_start server good flags true database_server 0
    ≡ (Reason.ok (ok, monitored true (finish absent ∷ [])), 61)
unfolding tgctl_start start_server start_by launch status_check_internal confirm_launch
    confirm_found check_count_of pid_loop whose confirm_boot attach_loop boot_loop boot_turn next_of
    whole_loop result_of_state already_running lock_of server
started = refl

tgctl_start-running_example :
    ((u : ℕ) × Runs server good (server.spawn (build_args flags database_server) u).0 61)
    × (monitored true (finish absent ∷ []) ≡ monitored (flags.monitor && true) (finish absent ∷ []))
tgctl_start-running_example =
    tgctl_start-running server good flags database_server (monitored true (finish absent ∷ [])) 0 61
      started

killed : tgctl_kill mortal good flags 60 ≡ (Reason.ok ok, 0)
unfolding tgctl_kill kill_loop kill_finished status_check_internal check_count_of server
killed = refl

tgctl_kill-Removed_example : ((mortal.lock_number 60).0 ≢ 0) × Removed mortal good 0
tgctl_kill-Removed_example = tgctl_kill-Removed mortal good flags 60 0 killed

shut_down : tgctl_shutdown obedient good (record flags { timeout = some 5 }) 60 ≡ (ok, 1110)
unfolding tgctl_shutdown request_and_wait shutdown_loop check_count_of server
shut_down = refl

tgctl_shutdown-gone_example :
    ((true && false) ≡ false)
    × ((obedient.request_shutdown graceful 60).0 ≡ true)
    × ((t : ℕ) × (obedient.check_lock t ≡ (no_file, 1110)))
tgctl_shutdown-gone_example =
    tgctl_shutdown-gone obedient good (record flags { timeout = some 5 }) 60 1110 shut_down

-- The server is activated 50 milliseconds after its launch.
abbrev time_left : ℕ → ℕ
time_left t = 50 - t

state_at :
    (t : ℕ) (b : Bool)
    → ltb (suc t) 50 ≡ b
    → status_check_internal server good (suc t)
      ≡ (result_of_state (if b then initial else activated), suc t)
unfolding status_check_internal whole_loop result_of_state lock_of server
state_at t b e = ap (λ c. (result_of_state (if c then initial else activated), suc t)) e

server-Looks : (t : ℕ) → Looks server good 42 time_left t
unfolding status_check_internal result_of_state lock_of server
server-Looks zero = booting zero zero Check.no_file refl refl no_lock_yet (omega arith)
server-Looks (suc t) = elim (Bool-cases (ltb (suc t) 50)) [
  | inl e ↦
      booting (suc t) (suc t) Check.initial refl (state_at t true e) initializing
        (let h = ltb→lt (suc t) 50 e in omega (arith, h))
  | inr e ↦ up (suc t) (suc t) refl (state_at t false e)
]

boot_loop-patient_example : (s' : ℕ) × (boot_loop server good 42 51 0 1 ≡ (launched, s'))
boot_loop-patient_example =
    boot_loop-patient server good 42 time_left server-Looks (omega arith) 51 1 (omega arith)

tgctl_status-answers_example :
    ((st : Status) × (world : ℕ) × (tgctl_status server good flags 60
        ≡ ((ok, monitored true (status st ∷ finish absent ∷ [])), world))
      × Seen server st 60 world)
    ⊎ ((reason : Reason) × (world : ℕ) × (reason ≢ absent)
        × (tgctl_status server good flags 60 ≡ ((err, monitored true (finish reason ∷ [])), world)))
tgctl_status-answers_example = tgctl_status-answers server good flags 60

tgctl_shutdown_kill-Ends_example :
    Ends server good flags true
      (true && true)
      (tgctl_shutdown_kill server good flags true true 60).0
tgctl_shutdown_kill-Ends_example = tgctl_shutdown_kill-Ends server good flags true true 60
