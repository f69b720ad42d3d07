-- ===== src/Process/Confirmed.antt =====
-- When `tgctl_start` of src/tateyama/process/control.cpp says that it has launched a server.
use tateyama_bootstrap.Prelude.{
  ℕ, zero, suc, ◌≡◌, ◌≢◌, refl, sym, ap, ◌∙◌, ◌⊎◌, inl, inr, List, [], ◌∷◌, true, false, ◌==◌,
  Bool-cases, Option-cases, ap₂, subst, if◌then◌else◌, ◌&&◌, ==_iff, arith,
}
use tateyama_bootstrap.Reason.{Result, throws, Result-cases, absent, not_found, Reason}
use tateyama_bootstrap.Reason
use tateyama_bootstrap.Process.Os.{
  Conf, Flags, BootMode, StartMode, unspecified, force, unknown_mode, ReturnCode, ok, err, Record,
  finish, monitored, Os, check_count_of, check_count_startup, sleep_time_unit_regular,
}
use tateyama_bootstrap.Process.Kill.{tgctl_kill}
use tateyama_bootstrap.Process.Check.{StatusCheckResult, activated, status_check_internal}
use tateyama_bootstrap.Process.Launch.{
  Boot, launched, Next, ends, sleeps, skips, next_of, boot_turn, boot_loop, attach_loop, exited,
  confirmed, pid_loop, PidCheck, matches, init, another, dead_abnormally, in_progress,
}
use tateyama_bootstrap.Process.Stop.{Outcome, reported, unreported}
use tateyama_bootstrap.Process.Start.{
  confirm_boot, confirm_found, confirm_launch, launch, start_by, start_server, tgctl_start,
  build_args, already_running,
}

Next-cases : (x : Next) → ((b : Boot) × (x ≡ ends b)) ⊎ (x ≡ sleeps) ⊎ ((k : ℕ) × (x ≡ skips k))
Next-cases (ends b) = inl (b, refl)
Next-cases sleeps = inr (inl refl)
Next-cases (skips k) = inr (inr (k, refl))

pub Boot-cases :
    (b : Boot)
    → (b ≡ launched)
      ⊎ (b ≡ exited)
      ⊎ (((reason : Reason) × (b ≡ confirmed reason)) ⊎ (b ≡ in_progress))
Boot-cases launched = inl refl
Boot-cases exited = inr (inl refl)
Boot-cases (confirmed reason) = inr (inr (inl (reason, refl)))
Boot-cases in_progress = inr (inr (inr refl))

PidCheck-cases :
    (c : PidCheck)
    → ((left : ℕ) × (c ≡ matches left)) ⊎ ((c ≡ init) ⊎ ((c ≡ another) ⊎ (c ≡ dead_abnormally)))
PidCheck-cases (matches left) = inl (left, refl)
PidCheck-cases init = inr (inl refl)
PidCheck-cases another = inr (inr (inl refl))
PidCheck-cases dead_abnormally = inr (inr (inr refl))

-- Only a server that is activated ends the wait with success.
next_of-launched : (r : StatusCheckResult) → next_of r ≡ ends launched → r ≡ activated
unfolding next_of
next_of-launched r h = ground (arith, h)

module _ {S : Type 0} (os : Os S) (conf : Conf) (child : ℕ) where
  -- At some time the status information has the child's pid, and right after it the status check
  -- finds the server activated; the world is then `s'`.
  abbrev pub Runs : S → Type 0
  Runs s' =
      (t : S) × (t1 : S) × (os.status_pid t ≡ (child, t1))
      × (child ≢ 0)
      × (status_check_internal os conf t1 ≡ (activated, s'))

  boot_loop-Runs :
      (n skipped : ℕ) (s s' : S) → boot_loop os conf child n skipped s ≡ (launched, s') → Runs s'
  unfolding boot_loop boot_turn
  boot_loop-Runs zero skipped s s' h = absurd (cc)
  boot_loop-Runs (suc n) (suc skipped) s s' h = boot_loop-Runs n skipped s s' h
  boot_loop-Runs (suc n) zero s s' h =
      let t1 = (os.status_pid s).1 in
      let result = status_check_internal os conf t1 in
      elim (Bool-cases ((os.status_pid s).0 == 0)) [
        | inl e ↦ boot_loop-Runs n 0 _ s' (rw (e, boot_turn) at h)
        | inr e ↦ elim (Bool-cases (child == (os.status_pid s).0)) [
          | inr f ↦ absurd (let g = rw (e, f, boot_turn) at h in cc)
          | inl f ↦ elim (Next-cases (next_of result.0)) [
            | inl (b, n1) ↦
                let g : (b, result.1) ≡ (launched, s') = rw (e, f, n1, boot_turn) at h in
                let same = (==_iff child (os.status_pid s).0).0 f in
                (
                  s,
                  t1,
                  ap (λ x. (x, t1)) (sym same),
                  ground (arith, same, e),
                  ap (λ r. (r, result.1)) (next_of-launched result.0 (n1 ∙ ap (λ p. ends p.0) g))
                      ∙ ap (λ p. (activated, p.1)) g,
                )
            | inr (inl n1) ↦ boot_loop-Runs n 0 _ s' (rw (e, f, n1, boot_turn) at h)
            | inr (inr (k, n1)) ↦ boot_loop-Runs n k _ s' (rw (e, f, n1, boot_turn) at h)
          ]
        ]
      ]

  confirm_boot-Runs :
      (flags : Flags) (left : ℕ) (rs : List Record) (s s' : S)
      → confirm_boot os conf flags child left s ≡ (reported ok rs, s')
      → Runs s' × (rs ≡ finish absent ∷ [])
  unfolding confirm_boot
  confirm_boot-Runs flags left rs s s' h =
      let attached = attach_loop os conf child left s in
      elim (Option-cases attached.0) [
        | inl none_left ↦ absurd (let g = rw (none_left, confirm_boot) at h in cc)
        | inr (turns, some_left) ↦
            let boot = boot_loop os conf child turns 0 attached.1 in
            elim (Boot-cases boot.0) [
              | inl up ↦
                  let g : (reported ok (finish absent ∷ []), boot.1) ≡ (reported ok rs, s') =
                    rw (some_left, up, confirm_boot) at h in
                  (
                    boot_loop-Runs turns 0 attached.1 s' (ap₂ (λ x y. (x, y)) up (ap (λ p. p.1) g)),
                    cc,
                  )
              | inr (inl e) ↦ absurd (let g = rw (some_left, e, confirm_boot) at h in cc)
              | inr (inr (inl (reason, e))) ↦
                  absurd (let g = rw (some_left, e, confirm_boot) at h in cc)
              | inr (inr (inr e)) ↦ absurd (let g = rw (some_left, e, confirm_boot) at h in cc)
            ]
      ]

module _ {S : Type 0} (os : Os S) (conf : Conf) (flags : Flags) where
  confirm_found-Runs :
      (child : ℕ) (rs : List Record) (s s' : S)
      → confirm_found os conf flags child s ≡ (reported ok rs, s')
      → Runs os conf child s' × (rs ≡ finish absent ∷ [])
  unfolding confirm_found
  confirm_found-Runs child rs s s' h =
      let pids =
        pid_loop os conf child
          (check_count_of flags.timeout check_count_startup sleep_time_unit_regular) false s in
      elim (PidCheck-cases pids.0) [
        | inl (left, f) ↦
            confirm_boot-Runs os conf child flags left rs pids.1 s' (rw (f, confirm_found) at h)
        | inr (inl f) ↦ absurd (let g = rw (f, confirm_found) at h in cc)
        | inr (inr (inl f)) ↦ absurd (let g = rw (f, confirm_found) at h in cc)
        | inr (inr (inr f)) ↦ absurd (let g = rw (f, confirm_found) at h in cc)
      ]

  confirm_launch-Runs :
      (child : ℕ) (rs : List Record) (s s' : S)
      → confirm_launch os conf flags child s ≡ (reported ok rs, s')
      → Runs os conf child s' × (rs ≡ finish absent ∷ [])
  unfolding confirm_launch
  confirm_launch-Runs child rs s s' h = elim (Bool-cases conf.found) [
    | inr e ↦ absurd (
        let g =
          subst
            (λ b.
              (if b then confirm_found os conf flags child s else (unreported not_found, s))
              ≡ (reported ok rs, s'))
            e h in
        cc)
    | inl e ↦ confirm_found-Runs child rs s s' (
        subst
          (λ b.
            (if b then confirm_found os conf flags child s else (unreported not_found, s))
            ≡ (reported ok rs, s'))
          e h)
  ]

  launch-Runs :
      (mode : BootMode) (rs : List Record) (s s' : S)
      → launch os conf flags true mode s ≡ (reported ok rs, s')
      → ((u : S) × Runs os conf (os.spawn (build_args flags mode) u).0 s')
        × (rs ≡ finish absent ∷ [])
  unfolding launch
  launch-Runs mode rs s s' h =
      let check = status_check_internal os conf s in
      elim (Bool-cases (already_running check.0)) [
        | inl e ↦ absurd (let g = rw (e, launch) at h in cc)
        | inr e ↦
            let based = os.base_path check.1 in
            elim (Result-cases based.0) [
              | inl (x, f) ↦ absurd (let g = rw (e, f, launch) at h in cc)
              | inr (u, f) ↦
                  let new = os.spawn (build_args flags mode) based.1 in
                  let (runs, written) =
                    confirm_launch-Runs new.0 rs new.1 s' (rw (e, f, launch) at h) in
                  ((based.1, runs), written)
            ]
      ]

  start_by-Runs :
      (m : StartMode) (mode : BootMode) (rs : List Record) (s s' : S)
      → start_by os conf flags m true mode s ≡ (Reason.ok (reported ok rs), s')
      → ((u : S) × Runs os conf (os.spawn (build_args flags mode) u).0 s')
        × (rs ≡ finish absent ∷ [])
  unfolding start_by
  start_by-Runs unspecified mode rs s s' h = launch-Runs mode rs s s' (cc)
  start_by-Runs unknown_mode mode rs s s' h = absurd (cc)
  start_by-Runs force mode rs s s' h =
      let opened = os.open_lock s in
      elim (Result-cases opened.0) [
        | inl (x, e) ↦ absurd (let g = rw (e, start_by) at h in cc)
        | inr (u, e) ↦
            let killed = tgctl_kill os conf flags opened.1 in
            elim (Result-cases killed.0) [
              | inl (x, f) ↦ absurd (let g = rw (e, f, start_by) at h in cc)
              | inr (err, f) ↦ absurd (let g = rw (e, f, start_by) at h in cc)
              | inr (ok, f) ↦ launch-Runs mode rs killed.1 s' (
                  let g : (
                    Reason.ok (launch os conf flags true mode killed.1).0,
                    (launch os conf flags true mode killed.1).1,
                  )
                      ≡ (Reason.ok (reported ok rs), s') =
                    rw (e, f, start_by) at h in
                  cc)
            ]
      ]

  start_server-Runs :
      (mode : BootMode) (rs : List Record) (s s' : S)
      → start_server os conf flags true mode s ≡ (Reason.ok (reported ok rs), s')
      → ((u : S) × Runs os conf (os.spawn (build_args flags mode) u).0 s')
        × (rs ≡ finish absent ∷ [])
  unfolding start_server
  start_server-Runs mode rs s s' h = elim (Bool-cases conf.valid) [
    | inr e ↦ absurd (
        let g =
          subst
            (λ b.
              (if b
                then start_by os conf flags flags.start_mode true mode s
                else (Reason.ok (unreported not_found), s))
              ≡ (Reason.ok (reported ok rs), s'))
            e h in
        cc)
    | inl e ↦ start_by-Runs flags.start_mode mode rs s s' (
        subst
          (λ b.
            (if b
              then start_by os conf flags flags.start_mode true mode s
              else (Reason.ok (unreported not_found), s))
            ≡ (Reason.ok (reported ok rs), s'))
          e h)
  ]

  Outcome-cases :
      (o : Outcome)
      → ((code : ReturnCode) × (rs : List Record) × (o ≡ reported code rs))
        ⊎ ((r : Reason) × (o ≡ unreported r))
  Outcome-cases (reported code rs) = inl (code, rs, refl)
  Outcome-cases (unreported r) = inr (r, refl)

  parts :
      {S : Type 0} {c d : ReturnCode} {rs ws : List Record} {t u : S}
      → ◌≡◌ {A = Result (ReturnCode × List Record) × S}
          (Reason.ok (c, rs), t)
          (Reason.ok (d, ws), u)
      → (c ≡ d) × (rs ≡ ws) × (t ≡ u)
  parts h = (cc, cc, cc)

  -- When `tgctl start` succeeds, with the check of the launch, the last thing that it has seen is
  -- the server activated, right after it has seen in the status information a pid that is not 0: the
  -- one that its own spawn of a server with the arguments of the flags has given. The monitor file,
  -- if there is one, says that the start has succeeded.
  pub tgctl_start-running :
      (mode : BootMode) (rs : List Record) (s s' : S)
      → tgctl_start os conf flags true mode s ≡ (Reason.ok (ok, rs), s')
      → ((u : S) × Runs os conf (os.spawn (build_args flags mode) u).0 s')
        × (rs ≡ monitored (flags.monitor && true) (finish absent ∷ []))
  unfolding tgctl_start
  tgctl_start-running mode rs s s' h =
      let started = start_server os conf flags true mode s in
      elim (Result-cases started.0) [
        | inl (x, e) ↦ absurd (let g = rw (e, tgctl_start) at h in cc)
        | inr (o, e) ↦ elim (Outcome-cases o) [
          | inr (r, f) ↦ absurd (let g = rw (e, f, tgctl_start) at h in cc)
          | inl (code, ws, f) ↦
              let g : (Reason.ok (code, monitored (flags.monitor && true) ws), started.1)
                  ≡ (Reason.ok (ok, rs), s') =
                rw (e, f, tgctl_start) at h in
              let (done, rest, world) = parts g in
              let (runs, written) = start_server-Runs mode ws s s' (
                ap (λ r. (r, started.1)) e
                ∙ ap (λ p. (Reason.ok p, started.1)) f
                ∙ ap₂ (λ c t. (Reason.ok (reported c ws), t)) done world) in
              (runs, sym rest ∙ ap (monitored (flags.monitor && true)) written)
        ]
      ]
