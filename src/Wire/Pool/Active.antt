-- ===== src/Wire/Pool/Active.antt =====
-- `active_wire` of src/tateyama/transport/wire.h, while the server goes on. Each read of shared state
-- is at a moment of its own: `eor_at t` is what `is_eor()` gives at `t`, and `has_at t i` what
-- `has_record()` of the wire at `i` gives.
use tateyama_bootstrap.Prelude.{
  ℕ, zero, suc, ◌+◌, ◌≤◌, ◌<◌, ◌≡◌, inl, inr, refl, sym, List, [], ◌∷◌, Bool, true, false, Option,
  none, some, arith, Bool-cases, if-true, if-false, if◌then◌else◌, subst,
}
use native.Mathlib.Decide.{dec_lt}
use tateyama_bootstrap.Reason.{Error, runtime_error, connection_timeout}

-- What `active_wire` returns: a wire, a null pointer, or a throw; or it still waits.
pub data Activity : Type 0 where
  active : ℕ → Activity
  ended : Activity
  fails : Error → Activity
  still_waits : Activity

-- What comes after a loop over the wires.
abbrev pub after_scan : (ℕ → Activity) → Option ℕ × ℕ → Activity
after_scan next (some i, t) = active i
after_scan next (none, t) = next t

module _ (count : ℕ) (eor_at : ℕ → Bool) (has_at : ℕ → ℕ → Bool) where
  -- The loop over `n` wires from `i` on, from moment `t` on, with the moment after it.
  unfoldable pub scan : ℕ → ℕ → ℕ → Option ℕ × ℕ
  scan zero i t = (none, t)
  scan (suc n) i t =
      let rest = scan n (suc i) (t + 1) in if has_at t i then (some i, t + 1) else rest

  -- What a look at the wires comes to when it finds no record: the wait ends with the mark of the
  -- end, which is read once more, or with the time limit; or it looks again.
  unfoldable pub after_look : (ℕ → Activity) → Bool → Bool → ℕ → Activity
  unfolding scan
  after_look again late true u = if eor_at u then ended else after_scan again (scan count 0 (u + 1))
  after_look again true false u = fails (runtime_error connection_timeout)
  after_look again false false u = again u

  -- The wait: at each look the predicate reads the mark of the end first and the wires then. The
  -- list says of each look whether the time limit has passed.
  unfoldable pub wait_for_record : List Bool → ℕ → Activity
  unfolding scan after_look
  wait_for_record [] t = still_waits
  wait_for_record (late ∷ looks) t =
      after_scan (after_look (wait_for_record looks) late (eor_at t)) (scan count 0 (t + 1))

  unfoldable pub active_wire : List Bool → ℕ → Activity
  unfolding scan after_look wait_for_record
  active_wire looks t = after_scan (wait_for_record looks) (scan count 0 t)

  -- The wires from `i` on have been seen without a record, each at a moment from `t` to `u`.
  abbrev Unseen : ℕ → ℕ → ℕ → ℕ → Type 0
  Unseen n i t u = (j : ℕ) → i ≤ j → j < i + n → (s : ℕ) × (t ≤ s) × (s ≤ u) × (has_at s j ≡ false)

  abbrev Scanned : ℕ → ℕ → ℕ → Option ℕ × ℕ → Type 0
  Scanned n i t (none, u) = (t ≤ u) × Unseen n i t u
  Scanned n i t (some k, u) = (i ≤ k) × (k < i + n) × ((s : ℕ) × (t ≤ s) × (has_at s k ≡ true))

  Scanned-step :
      (n i t : ℕ) (r : Option ℕ × ℕ)
      → has_at t i ≡ false
      → Scanned n (suc i) (t + 1) r
      → Scanned (suc n) i t r
  Scanned-step n i t (none, u) e (le, seen) = (omega (arith, le), later)
    where
      later : Unseen (suc n) i t u
      later j a b = elim (dec_lt i j) [
        | yes q ↦
            let (s, c, d, none_there) = seen j q (omega (arith, b)) in
            (s, omega (arith, c), d, none_there)
        | no q ↦ (
          t,
          omega arith,
          omega (arith, le),
          subst (λ k. has_at t k ≡ false) (let same : i ≡ j = omega (arith, a, q) in same) e,
        )
      ]
  Scanned-step n i t (some k, u) e (a, b, (s, c, d)) =
      (omega (arith, a), omega (arith, b), (s, omega (arith, c), d))

  scan-Scanned : (n i t : ℕ) → Scanned n i t (scan n i t)
  unfolding scan
  scan-Scanned zero i t = (omega arith, λ j a b. absurd (omega (arith, a, b)))
  scan-Scanned (suc n) i t = elim (Bool-cases (has_at t i)) [
    | inl e ↦
        subst (Scanned (suc n) i t) (sym (if-true _ _ e))
          (omega arith, omega arith, (t, omega arith, e))
    | inr e ↦
        subst (Scanned (suc n) i t) (sym (if-false _ _ e))
          (Scanned-step n i t (scan n (suc i) (t + 1)) e (scan-Scanned n (suc i) (t + 1)))
  ]

  -- What `active_wire` returns is right: a wire had a record when it was read; a null pointer comes
  -- after the mark of the end had been read, and then each wire was seen without a record.
  abbrev pub Right : ℕ → Activity → Type 0
  Right t (active k) = (k < count) × ((s : ℕ) × (t ≤ s) × (has_at s k ≡ true))
  Right t ended =
      (m : ℕ) × (u : ℕ) × (t ≤ m)
      × (eor_at m ≡ true)
      × ((j : ℕ) → j < count → (s : ℕ) × (m ≤ s) × (s ≤ u) × (has_at s j ≡ false))
  Right t (fails e) = e ≡ runtime_error connection_timeout
  Right t still_waits = Unit {0}

  Right-later : (t u : ℕ) (a : Activity) → t ≤ u → Right u a → Right t a
  Right-later t u (active k) le (b, (s, c, d)) = (b, (s, omega (arith, le, c), d))
  Right-later t u ended le (m, v, b, c, d) = (m, v, omega (arith, le, b), c, d)
  Right-later t u (fails e) le r = r
  Right-later t u still_waits le r = r

  after_scan-Right :
      (next : ℕ → Activity) (t u : ℕ) (r : Option ℕ × ℕ)
      → t ≤ u
      → Scanned count 0 u r
      → ((v : ℕ) → u ≤ v → Unseen count 0 u v → Right t (next v))
      → Right t (after_scan next r)
  after_scan-Right next t u (some k, v) le (a, b, (s, c, d)) h =
      (omega (arith, b), (s, omega (arith, c, le), d))
  after_scan-Right next t u (none, v) le s h = h v s.0 s.1

  again-Right :
      (again : ℕ → Activity) (t u : ℕ)
      → ((v : ℕ) → Right v (again v))
      → t ≤ u
      → Right t (after_scan again (scan count 0 u))
  again-Right again t u h le =
      after_scan-Right again t u (scan count 0 u) le (scan-Scanned count 0 u)
        (λ v le' _. Right-later t v (again v) (omega (arith, le, le')) (h v))

  after_look-Right :
      (again : ℕ → Activity) (late e : Bool) (t u : ℕ)
      → ((v : ℕ) → Right v (again v))
      → eor_at t ≡ e
      → t + 1 ≤ u
      → Unseen count 0 (t + 1) u
      → Right t (after_look again late e u)
  unfolding after_look
  after_look-Right again late true t u h e le seen = elim (Bool-cases (eor_at u)) [
    | inl f ↦ subst (Right t) (sym (if-true _ _ f)) (
      t,
      u,
      omega arith,
      e,
      λ j lt.
          let (s, c, d, unseen) = seen j (omega arith) (omega (arith, lt)) in
          (s, omega (arith, c), d, unseen),
    )
    | inr f ↦
        subst (Right t) (sym (if-false _ _ f)) (again-Right again t (u + 1) h (omega (arith, le)))
  ]
  after_look-Right again true false t u h e le seen = refl
  after_look-Right again false false t u h e le seen =
      Right-later t u (again u) (omega (arith, le)) (h u)

  wait_for_record-Right : (looks : List Bool) (t : ℕ) → Right t (wait_for_record looks t)
  unfolding wait_for_record
  wait_for_record-Right [] t = tt
  wait_for_record-Right (late ∷ looks) t =
      after_scan-Right (after_look (wait_for_record looks) late (eor_at t)) t (t + 1)
        (scan count 0 (t + 1)) (omega arith) (scan-Scanned count 0 (t + 1))
        (λ v le seen.
          after_look-Right (wait_for_record looks) late (eor_at t) t v (wait_for_record-Right looks)
            refl le seen)

  active_wire-Right : (looks : List Bool) (t : ℕ) → Right t (active_wire looks t)
  unfolding active_wire
  active_wire-Right looks t =
      again-Right (wait_for_record looks) t t (wait_for_record-Right looks) (omega arith)

  -- A null pointer means that the result set is exhausted: from some moment on, no wire has a record
  -- any more, when no record comes that was not there at the moments after the end had been marked.
  pub active_wire-exhausted :
      (looks : List Bool) (t : ℕ)
      → ((m s v j : ℕ) → eor_at m ≡ true → m ≤ s → s ≤ v → has_at s j ≡ false → has_at v j ≡ false)
      → active_wire looks t ≡ ended
      → (u : ℕ) × ((v j : ℕ) → u ≤ v → j < count → has_at v j ≡ false)
  active_wire-exhausted looks t settled e =
      let (m, u, _, marked, seen) = subst (Right t) e (active_wire-Right looks t) in
      (
        u,
        λ v j le lt.
            let (s, a, b, unseen) = seen j lt in
            settled m s v j marked a (omega (arith, b, le)) unseen,
      )
