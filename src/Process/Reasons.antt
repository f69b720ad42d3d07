-- ===== src/Process/Reasons.antt =====
-- What the commands of src/tateyama/process/control.cpp write to the monitor file.
use tateyama_bootstrap.Prelude.{
  ℕ, zero, suc, none, some, subst, sym, if-false, Bool-cases, ◌≡◌, ◌≢◌, ◌⊎◌, inl, inr, refl, ap,
  ◌∙◌, [], ◌∷◌, Bool, true, ◌&&◌, Option-cases, if-true,
}
use tateyama_bootstrap.Reason.{Reason, absent, timeout, ambiguous, not_found, initialization}
use tateyama_bootstrap.Process.Os.{
  Conf, Flags, Status, status, finish, monitored, ok, err, Os, State, LockState, check_count_status,
  sleep_time_unit_regular,
}
use tateyama_bootstrap.Process.Os
use tateyama_bootstrap.Process.Check.{
  StatusCheckResult, no_file, not_locked, status_check_count_over, error_in_file_mutex_check,
  error_in_create_conf, result_of_state, whole_loop, status_check_internal,
}
use tateyama_bootstrap.Process.Stop.{
  reported, finished, none_running, stop_checked, stop_server, tgctl_shutdown_kill,
}
use tateyama_bootstrap.Process.Report.{is, fails, answer_of, tgctl_status}

module _ {S : Type 0} (os : Os S) (conf : Conf) (flags : Flags) where
  -- The command with a valid configuration, from the status check on.
  stop_server-checked :
      (by_force : Bool) (s : S) (r : StatusCheckResult) (s1 : S)
      → conf.valid ≡ true
      → conf.found ≡ true
      → status_check_internal os conf s ≡ (r, s1)
      → stop_server os conf flags by_force s ≡ stop_checked os conf flags by_force (r, s1)
  unfolding stop_server
  stop_server-checked by_force s r s1 v f c =
      if-true _ _ v ∙ if-true _ _ f ∙ ap (stop_checked os conf flags by_force) c

  stop_checked-none_running :
      (by_force : Bool) (r : StatusCheckResult) (s1 : S)
      → none_running r ≡ true
      → stop_checked os conf flags by_force (r, s1) ≡ (reported ok (finish absent ∷ []), s1)
  unfolding stop_checked
  stop_checked-none_running by_force r s1 n = rw (n, stop_checked)

  -- When the status check finds that no server runs, shutdown and kill do nothing, and succeed.
  pub tgctl_shutdown_kill-none_running :
      (by_force status_output : Bool) (s : S) (r : StatusCheckResult) (s1 : S)
      → conf.valid ≡ true
      → conf.found ≡ true
      → status_check_internal os conf s ≡ (r, s1)
      → none_running r ≡ true
      → tgctl_shutdown_kill os conf flags by_force status_output s
        ≡ ((ok, monitored (flags.monitor && status_output) (finish absent ∷ [])), s1)
  unfolding tgctl_shutdown_kill
  tgctl_shutdown_kill-none_running by_force status_output s r s1 v f c n =
      ap (λ o. (finished (flags.monitor && status_output) o.0, o.1))
        (stop_server-checked by_force s r s1 v f c ∙ stop_checked-none_running by_force r s1 n)

-- What stands behind a status: the lock file as it is found, or, while it is locked, the state that
-- is read from the status information in shared memory, after which the world is `t`.
abbrev pub Reads : {S : Type 0} → Os S → State → S → S → Type 0
Reads {S} os state s t =
    (s1 : S) × (u : S) × (os.check_lock s ≡ (Os.locked, s1)) × (os.whole u ≡ (some state, t))

abbrev pub Seen : {S : Type 0} → Os S → Status → S → S → Type 0
Seen os Os.stop s t = os.check_lock s ≡ (Os.no_file, t)
Seen os Os.unknown s t = os.check_lock s ≡ (Os.not_locked, t)
Seen os Os.ready s t = Reads os Os.initial s t ⊎ Reads os Os.ready s t
Seen os Os.activated s t = Reads os Os.activated s t
Seen os Os.deactivating s t = Reads os Os.deactivating s t
Seen os Os.deactivated s t = Reads os Os.deactivated s t
Seen os Os.boot_error s t = ⊥

abbrev pub Found : {S : Type 0} → Os S → StatusCheckResult × S → Type 0
Found {S} os c =
    ((state : State) × (u : S) × (t : S) × (os.whole u ≡ (some state, t))
      × (c ≡ (result_of_state state, t)))
    ⊎ (c.0 ≡ status_check_count_over)

-- The loop goes on after a look that has failed, if it has turns left.
abbrev pub next_look : {S : Type 0} → Os S → ℕ → S → StatusCheckResult × S
next_look os zero s1 = (status_check_count_over, s1)
next_look os (suc m) s1 = whole_loop os (suc m) (os.sleep sleep_time_unit_regular s1)

again_read :
    {S : Type 0} (os : Os S) (n : ℕ) (s1 : S) (c : StatusCheckResult × S)
    → c ≡ next_look os n s1
    → Found os (whole_loop os n (os.sleep sleep_time_unit_regular s1))
    → Found os c
again_read os zero s1 c e found = inr (ap (λ x. x.0) e)
again_read os (suc m) s1 c e found = subst (Found os) (sym e) found

look_again :
    {S : Type 0} (os : Os S) (n : ℕ) (s : S)
    → (os.whole s).0 ≡ none
    → whole_loop os (suc n) s ≡ next_look os n (os.whole s).1
unfolding whole_loop
look_again os zero s e = rw (e, whole_loop)
look_again os (suc m) s e = rw (e, whole_loop)

-- A state that the loop has found was read in a world that it went through.
whole_loop-Found : {S : Type 0} (os : Os S) (n : ℕ) (s : S) → Found os (whole_loop os n s)
unfolding whole_loop
whole_loop-Found os zero s = inr refl
whole_loop-Found os (suc n) s = elim (Option-cases (os.whole s).0) [
  | inr (state, e) ↦
      inl (state, s, (os.whole s).1, ap (λ o. (o, (os.whole s).1)) e, rw (e, whole_loop))
  | inl e ↦
      again_read os n (os.whole s).1 (whole_loop os (suc n) s) (look_again os n s e)
        (whole_loop-Found os n (os.sleep sleep_time_unit_regular (os.whole s).1))
]

-- What the answer to a check stands on.
abbrev pub Explained : {S : Type 0} → Os S → S → StatusCheckResult × S → Type 0
Explained os s c =
    ((st : Status) × (answer_of c.0 ≡ is st) × Seen os st s c.1)
    ⊎ ((reason : Reason) × (reason ≢ absent) × (answer_of c.0 ≡ fails reason))

read-Explained :
    {S : Type 0} (os : Os S) (s s1 u t : S) (state : State)
    → os.check_lock s ≡ (Os.locked, s1)
    → os.whole u ≡ (some state, t)
    → Explained os s (result_of_state state, t)
unfolding answer_of result_of_state
read-Explained os s s1 u t Os.initial l w = inl (Os.ready, refl, inl (s1, u, l, w))
read-Explained os s s1 u t Os.ready l w = inl (Os.ready, refl, inr (s1, u, l, w))
read-Explained os s s1 u t Os.activated l w = inl (Os.activated, refl, (s1, u, l, w))
read-Explained os s s1 u t Os.deactivating l w = inl (Os.deactivating, refl, (s1, u, l, w))
read-Explained os s s1 u t Os.deactivated l w = inl (Os.deactivated, refl, (s1, u, l, w))
read-Explained os s s1 u t Os.boot_error l w = inr (ambiguous, (λ h. absurd (cc)), refl)

locked-Explained :
    {S : Type 0} (os : Os S) (s s1 : S) (c : StatusCheckResult × S)
    → os.check_lock s ≡ (Os.locked, s1)
    → Found os c
    → Explained os s c
unfolding answer_of
locked-Explained os s s1 c l (inl (state, u, t, w, e)) =
    subst (Explained os s) (sym e) (read-Explained os s s1 u t state l w)
locked-Explained os s s1 c l (inr e) = inr (timeout, (λ h. absurd (cc)), ap answer_of e)

-- What the check comes to for a lock file in some state.
abbrev pub by_lock : {S : Type 0} → Os S → LockState → S → StatusCheckResult × S
by_lock os l s1 = elim l [
  | Os.no_file ↦ (no_file, s1)
  | Os.not_locked ↦ (not_locked, s1)
  | Os.locked ↦ whole_loop os check_count_status s1
  | Os.lock_error ↦ (error_in_file_mutex_check, s1)
]

by_lock-Explained :
    {S : Type 0} (os : Os S) (s s1 : S) (l : LockState)
    → os.check_lock s ≡ (l, s1)
    → Explained os s (by_lock os l s1)
unfolding answer_of
by_lock-Explained os s s1 Os.no_file l = inl (Os.stop, refl, l)
by_lock-Explained os s s1 Os.not_locked l = inl (Os.unknown, refl, l)
by_lock-Explained os s s1 Os.locked l =
    locked-Explained os s s1 _ l (whole_loop-Found os check_count_status s1)
by_lock-Explained os s s1 Os.lock_error l = inr (ambiguous, (λ h. absurd (cc)), refl)

check-Explained :
    {S : Type 0} (os : Os S) (conf : Conf) (s : S)
    → Explained os s (status_check_internal os conf s)
unfolding status_check_internal answer_of
check-Explained os conf s = elim (Bool-cases conf.valid) [
  | inr v ↦
      subst (Explained os s) (sym (if-false _ _ v)) (inr (not_found, (λ h. absurd (cc)), refl))
  | inl v ↦ subst (Explained os s) (sym (if-true _ _ v)) (elim (Bool-cases conf.found) [
    | inr f ↦
        subst (Explained os s) (sym (if-false _ _ f))
          (inr (initialization, (λ h. absurd (cc)), refl))
    | inl f ↦
        subst (Explained os s)
          (sym (
            if-true (by_lock os (os.check_lock s).0 (os.check_lock s).1) (error_in_create_conf, s)
              f))
          (by_lock-Explained os s (os.check_lock s).1 (os.check_lock s).0 refl)
  ])
]

-- `tgctl status` succeeds with one status, for which the check has seen this: for stop no lock file;
-- for unknown one that is not locked; else one that is locked, and then in shared memory the state
-- of that name, or for ready also the initial state. Or it fails, with a reason that is not `absent`.
-- The monitor file has the status and then a success, or the reason.
pub tgctl_status-answers :
    {S : Type 0} (os : Os S) (conf : Conf) (flags : Flags) (s : S)
    → ((st : Status) × (t : S) × (tgctl_status os conf flags s
          ≡ ((ok, monitored flags.monitor (status st ∷ finish absent ∷ [])), t))
        × Seen os st s t)
      ⊎ ((reason : Reason) × (t : S) × (reason ≢ absent)
          × (tgctl_status os conf flags s
              ≡ ((err, monitored flags.monitor (finish reason ∷ [])), t)))
unfolding tgctl_status
tgctl_status-answers os conf flags s = elim (check-Explained os conf s) [
  | inl (st, e, seen) ↦ inl (st, (status_check_internal os conf s).1, rw (e, tgctl_status), seen)
  | inr (reason, ne, e) ↦
      inr (reason, (status_check_internal os conf s).1, ne, rw (e, tgctl_status))
]
