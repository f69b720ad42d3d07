-- ===== src/Process/Patience.antt =====
-- `tgctl_start` of src/tateyama/process/control.cpp waits for a server that takes its time.
use tateyama_bootstrap.Prelude.{ℕ, zero, suc, ◌<◌, ◌≡◌, ◌≢◌, refl, ap, ◌∙◌, arith}
use tateyama_bootstrap.Process.Os.{Conf, Os, sleep_time_unit_regular}
use tateyama_bootstrap.Process.Check.{
  StatusCheckResult, no_file, initial, ready, activated, status_check_internal,
}
use tateyama_bootstrap.Process.Launch.{
  Boot, launched, sleeps, next_of, settle, boot_turn, boot_loop,
}

-- What a status check finds of a server that has not come up yet.
pub data Booting : StatusCheckResult → Type 0 where
  no_lock_yet : Booting no_file
  initializing : Booting initial
  loading : Booting ready

module _ {S : Type 0} (os : Os S) (conf : Conf) (child : ℕ) where
  -- What a look at the server finds in a world: it has no pid yet, or it is booting, and then a sleep
  -- takes it nearer to its start, by the number of `left`; or it is activated.
  pub data Looks (left : S → ℕ) (s : S) : Type 0 where
    no_pid :
        (s1 : S)
        → os.status_pid s ≡ (0, s1)
        → left (os.sleep sleep_time_unit_regular s1) < left s
        → Looks left s
    booting :
        (s1 s2 : S) (r : StatusCheckResult)
        → os.status_pid s ≡ (child, s1)
        → status_check_internal os conf s1 ≡ (r, s2)
        → Booting r
        → left (os.sleep sleep_time_unit_regular s2) < left s
        → Looks left s
    up :
        (s1 s2 : S)
        → os.status_pid s ≡ (child, s1)
        → status_check_internal os conf s1 ≡ (activated, s2)
        → Looks left s

  -- A turn that finds the child's pid settles what the status check says.
  boot_turn-own :
      (again : ℕ → S → Boot × S) (s1 : S)
      → child ≢ 0
      → boot_turn os conf child again (child, s1)
        ≡ settle os conf child again
            (next_of (status_check_internal os conf s1).0)
            (status_check_internal os conf s1).1
  unfolding boot_turn
  boot_turn-own again s1 ne = ground (arith, ne)

  Booting-sleeps : (r : StatusCheckResult) → Booting r → next_of r ≡ sleeps
  unfolding next_of
  Booting-sleeps _ no_lock_yet = refl
  Booting-sleeps _ initializing = refl
  Booting-sleeps _ loading = refl

  -- Where each look finds no pid, or the child booting and nearer to its start after a sleep, or the
  -- child activated, the loop says that it is launched if it has more turns than the start takes
  -- looks. A server is booting while there is no lock file, or its state is initial or ready.
  pub boot_loop-patient :
      (left : S → ℕ)
      → ((s : S) → Looks left s)
      → child ≢ 0
      → (n : ℕ) (s : S) → left s < n
      → (s' : S) × (boot_loop os conf child n 0 s ≡ (launched, s'))
  unfolding boot_loop
  boot_loop-patient left looks ne zero s h = absurd (omega arith)
  boot_loop-patient left looks ne (suc n) s h = elim (looks s) [
    | up s1 s2 p c ↦ (
      s2,
      ap (boot_turn os conf child (boot_loop os conf child n)) p
          ∙ boot_turn-own (boot_loop os conf child n) s1 ne
          ∙ ap (λ q. settle os conf child (boot_loop os conf child n) (next_of q.0) q.1) c,
    )
    | no_pid s1 p nearer ↦
        let (s', e) =
          boot_loop-patient left looks ne n (os.sleep sleep_time_unit_regular s1) (omega arith) in
        (s', ap (boot_turn os conf child (boot_loop os conf child n)) p ∙ e)
    | booting s1 s2 r p c b nearer ↦
        let (s', e) =
          boot_loop-patient left looks ne n (os.sleep sleep_time_unit_regular s2) (omega arith) in
        (
          s',
          ap (boot_turn os conf child (boot_loop os conf child n)) p
              ∙ boot_turn-own (boot_loop os conf child n) s1 ne
              ∙ ap (λ q. settle os conf child (boot_loop os conf child n) (next_of q.0) q.1) c
              ∙ ap (λ x. settle os conf child (boot_loop os conf child n) x s2) (Booting-sleeps r b)
              ∙ e,
        )
  ]
