-- ===== src/Process/Gone.antt =====
-- When `tgctl_kill` and `tgctl_shutdown` of src/tateyama/process/control.cpp say that they have
-- succeeded.
use tateyama_bootstrap.Prelude.{
  ℕ, zero, suc, ◌≡◌, ◌≢◌, ◌⊎◌, inl, inr, refl, sym, ap, ap₂, subst, ◌∙◌, true, false, ◌==◌, ◌&&◌,
  Bool-cases, if◌then◌else◌, arith,
}
use tateyama_bootstrap.Reason.{Result, throws, Result-cases}
use tateyama_bootstrap.Reason
use tateyama_bootstrap.Process.Os.{
  Conf, Flags, ReturnCode, ok, err, Os, LockState, not_locked, locked, lock_error, no_file, sigkill,
  check_count_of, check_count_kill, sleep_time_unit_regular, ShutdownType, forceful, graceful,
  check_count_shutdown, sleep_time_unit_shutdown, sleep_time_unit_mutex,
}
use tateyama_bootstrap.Process.Check.{StatusCheckResult, status_check_internal}
use tateyama_bootstrap.Process.Check
use tateyama_bootstrap.Process.Kill.{kill_finished, kill_loop, tgctl_kill}
use tateyama_bootstrap.Process.Stop.{shutdown_loop, request_and_wait, tgctl_shutdown}

module _ {S : Type 0} (os : Os S) (conf : Conf) where
  -- At some time the status check finds that nobody holds the lock; then the lock file and the
  -- shared memory are removed, and the world is `s'`.
  abbrev pub Removed : S → Type 0
  Removed s' =
      (t : S) × (t1 : S) × (t2 : S) × (status_check_internal os conf t ≡ (Check.not_locked, t1))
      × (os.open_status (os.unlink_lock t1) ≡ (Reason.ok tt, t2))
      × (s' ≡ os.clean_up t2)

  kill_finished-Removed :
      (t t1 s' : S)
      → status_check_internal os conf t ≡ (Check.not_locked, t1)
      → kill_finished os conf t1 ≡ (Reason.ok ok, s')
      → Removed s'
  unfolding kill_finished
  kill_finished-Removed t t1 s' c h =
      let opened = os.open_status (os.unlink_lock t1) in
      elim (Result-cases opened.0) [
        | inl (x, e) ↦ absurd (let g = rw (e, kill_finished) at h in cc)
        | inr (u, e) ↦
            let g : ◌≡◌ {A = Result ReturnCode × S} (Reason.ok ok, os.clean_up opened.1)
                (Reason.ok ok, s') =
              rw (e, kill_finished) at h in
            (t, t1, opened.1, c, ap (λ r. (r, opened.1)) e, sym (ap (λ p. p.1) g))
      ]

  kill_loop-Removed : (n : ℕ) (s s' : S) → kill_loop os conf n s ≡ (Reason.ok ok, s') → Removed s'
  unfolding kill_loop
  kill_loop-Removed zero s s' h = absurd (cc)
  kill_loop-Removed (suc n) s s' h =
      let check = status_check_internal os conf s in
      elim (free_or_not check.0) [
        | inl e ↦
            kill_finished-Removed s check.1 s' (ap (λ r. (r, check.1)) e) (rw (e, kill_loop) at h)
        | inr e ↦ kill_loop-Removed n (os.sleep sleep_time_unit_regular check.1) s' (
            sym (
              e (kill_finished os conf check.1)
                (kill_loop os conf n (os.sleep sleep_time_unit_regular check.1)))
            ∙ h)
      ]
    where
      free_or_not :
          (r : StatusCheckResult)
          → (r ≡ Check.not_locked)
            ⊎ ((x y : Result ReturnCode × S) → (elim r [ Check.not_locked ↦ x | _ ↦ y ]) ≡ y)
      free_or_not Check.not_locked = inl refl
      free_or_not Check.undefined = inr (λ x y. refl)
      free_or_not Check.error_in_conf_file_name = inr (λ x y. refl)
      free_or_not Check.error_in_create_conf = inr (λ x y. refl)
      free_or_not Check.no_file = inr (λ x y. refl)
      free_or_not Check.initial = inr (λ x y. refl)
      free_or_not Check.ready = inr (λ x y. refl)
      free_or_not Check.activated = inr (λ x y. refl)
      free_or_not Check.deactivating = inr (λ x y. refl)
      free_or_not Check.deactivated = inr (λ x y. refl)
      free_or_not Check.boot_error = inr (λ x y. refl)
      free_or_not Check.status_check_count_over = inr (λ x y. refl)
      free_or_not Check.error_in_file_mutex_check = inr (λ x y. refl)

  -- When `tgctl_kill` succeeds, it has found a pid in the lock file, and in the end it has seen
  -- that nobody holds the lock, and has removed the lock file and the shared memory.
  pub tgctl_kill-Removed :
      (flags : Flags) (s s' : S)
      → tgctl_kill os conf flags s ≡ (Reason.ok ok, s')
      → ((os.lock_number s).0 ≢ 0) × Removed s'
  unfolding tgctl_kill
  tgctl_kill-Removed flags s s' h =
      let number = os.lock_number s in
      elim (Bool-cases (number.0 == 0)) [
        | inl e ↦ absurd (let g = rw (e, tgctl_kill) at h in cc)
        | inr e ↦ (
          ground (arith, e),
          kill_loop-Removed (check_count_of flags.timeout check_count_kill sleep_time_unit_regular)
              (os.send number.0 sigkill number.1).1 s' (rw (e, tgctl_kill) at h),
        )
      ]

module _ {S : Type 0} (os : Os S) (conf : Conf) (flags : Flags) where
  LockState-cases :
      (l : LockState) → (l ≡ no_file) ⊎ ((l ≡ not_locked) ⊎ ((l ≡ locked) ⊎ (l ≡ lock_error)))
  LockState-cases no_file = inl refl
  LockState-cases not_locked = inr (inl refl)
  LockState-cases locked = inr (inr (inl refl))
  LockState-cases lock_error = inr (inr (inr refl))

  shutdown_loop-gone :
      (n : ℕ) (s s' : S)
      → shutdown_loop os conf flags n s ≡ (ok, s')
      → (t : S) × (os.check_lock t ≡ (no_file, s'))
  unfolding shutdown_loop
  shutdown_loop-gone zero s s' h = absurd (cc)
  shutdown_loop-gone (suc n) s s' h =
      let lock = os.check_lock s in
      let again = os.sleep sleep_time_unit_shutdown lock.1 in
      elim (LockState-cases lock.0) [
        | inl e ↦
            let g : (ok, lock.1) ≡ (ok, s') = rw (e, shutdown_loop) at h in
            (s, ap₂ (λ l t. (l, t)) e (ap (λ p. p.1) g))
        | inr (inl e) ↦ shutdown_loop-gone n again s' (rw (e, shutdown_loop) at h)
        | inr (inr (inl e)) ↦ shutdown_loop-gone n again s' (rw (e, shutdown_loop) at h)
        | inr (inr (inr e)) ↦ shutdown_loop-gone n again s' (rw (e, shutdown_loop) at h)
      ]

  request_and_wait-gone :
      (kind : ShutdownType) (s s' : S)
      → request_and_wait os conf flags kind s ≡ (ok, s')
      → ((os.request_shutdown kind s).0 ≡ true) × ((t : S) × (os.check_lock t ≡ (no_file, s')))
  unfolding request_and_wait
  request_and_wait-gone kind s s' h =
      let request = os.request_shutdown kind s in
      elim (Bool-cases request.0) [
        | inr e ↦ absurd (let g = rw (e, request_and_wait) at h in cc)
        | inl e ↦ (
          e,
          shutdown_loop-gone
              (check_count_of flags.timeout check_count_shutdown sleep_time_unit_shutdown)
              (os.sleep sleep_time_unit_mutex request.1) s' (rw (e, request_and_wait) at h),
        )
      ]

  -- When `tgctl_shutdown` succeeds, the two kinds of shutdown were not both asked for, the server
  -- has taken the request of the one kind, forceful unless graceful was asked for, and in the end
  -- the lock file has been seen to be gone.
  pub tgctl_shutdown-gone :
      (s s' : S)
      → tgctl_shutdown os conf flags s ≡ (ok, s')
      → ((flags.graceful && flags.forceful) ≡ false)
        × ((os.request_shutdown (if flags.graceful then graceful else forceful) s).0 ≡ true)
        × ((t : S) × (os.check_lock t ≡ (no_file, s')))
  unfolding tgctl_shutdown
  tgctl_shutdown-gone s s' h =
      let go = request_and_wait os conf flags (if flags.graceful then graceful else forceful) s in
      elim (Bool-cases (flags.graceful && flags.forceful)) [
        | inl e ↦ absurd (let g = subst (λ b. (if b then (err, s) else go) ≡ (ok, s')) e h in cc)
        | inr e ↦
            let (taken, gone) =
              request_and_wait-gone (if flags.graceful then graceful else forceful) s s'
                (subst (λ b. (if b then (err, s) else go) ≡ (ok, s')) e h) in
            (e, taken, gone)
      ]
