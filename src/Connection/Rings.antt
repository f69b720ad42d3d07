-- ===== src/Connection/Rings.antt =====
-- The two ends of an `index_queue` of src/tateyama/transport/wire.h, `admin_slots` places ahead of
-- `pushed_`.
use native.Mathlib.Decide.{dec_le}
use tateyama_bootstrap.Prelude.{
  ℕ, zero, suc, ◌+◌, ◌-◌, ◌%◌, ◌^◌, ◌≤◌, ◌<◌, ◌≡◌, refl, ap, ap₂, ◌∙◌, List, [], ◌∷◌, ◌++◌, true,
  false, some, arith, length, length-set, get_elem?, get_or, set, lt→ltb, le→leb, lt→not-leb, ltb,
  ◌&&◌, ◌⊎◌, inl, inr, mod-lt,
}
use tateyama_bootstrap.Reason.{ok, throws, runtime_error, internal}
use tateyama_bootstrap.Wire.Ring.Window.{window, put_from, window-put_from}
use tateyama_bootstrap.Connection.Indexes.{
  IndexQueue, get_at, set_at, push, pop, try_pop, try_pop_admin, front, is_admin, set_admin,
  reset_admin,
}
use tateyama_bootstrap.Connection.Slots.{AllBelow, AllBelow-get_or}

-- The slots from `poped_` on, with `ahead` places behind `pushed_`.
abbrev pub held : IndexQueue → ℕ → List ℕ
held q ahead = window q.queue q.capacity q.poped (q.pushed + ahead - q.poped)

-- A queue of `n` places, in which `ahead` places behind `pushed_` are filled too.
pub record IsRing (n ahead : ℕ) (q : IndexQueue) : Type 0 where
  pub capacity : q.capacity ≡ n
  pub places : length q.queue ≡ n
  pub positive : 0 < n
  pub behind : q.poped ≤ q.pushed + ahead
  pub within : q.pushed + ahead ≤ q.poped + n
  pub young : q.pushed + ahead + n < 2 ^ 63

get_elem?-eq-get_or : (xs : List ℕ) (i : ℕ) → i < length xs → get_elem? xs i ≡ some (get_or xs i 0)
get_elem?-eq-get_or [] i h = elim h [ ]
get_elem?-eq-get_or (x ∷ xs) zero h = refl
get_elem?-eq-get_or (x ∷ xs) (suc i) h = get_elem?-eq-get_or xs i (omega arith)

pub get_at-eq-ok : (xs : List ℕ) (i : ℕ) → i < length xs → get_at xs i ≡ ok (get_or xs i 0)
get_at-eq-ok xs i h = rw (get_elem?-eq-get_or xs i h, get_at)

pub set_at-eq-ok : (xs : List ℕ) (i x : ℕ) → i < length xs → set_at xs i x ≡ ok (set xs i x)
set_at-eq-ok xs i x h = rw (lt→ltb i (length xs) h)

module _ {n ahead : ℕ} {q : IndexQueue} (v : IsRing n ahead q) where
  -- The queue after the slot `x` has been put behind all others.
  abbrev pub grown : ℕ → IndexQueue
  grown x = record q {
    queue = set q.queue ((q.pushed + ahead) % q.capacity) x;
    pushed = q.pushed + 1;
  }

  place_in : (q.pushed + ahead) % q.capacity < length q.queue
  place_in = omega (
    arith,
    v.places,
    v.capacity,
    v.positive,
    mod-lt (q.pushed + ahead) {m = q.capacity} (omega (arith, v.capacity, v.positive)),
  )

  pub grown-IsRing :
      (x : ℕ)
      → q.pushed + ahead < q.poped + n
      → q.pushed + 1 + ahead + n < 2 ^ 63
      → IsRing n ahead (grown x)
  grown-IsRing x h y = record {
    capacity = v.capacity;
    places = length-set q.queue ((q.pushed + ahead) % q.capacity) x ∙ v.places;
    positive = v.positive;
    behind = omega (arith, v.behind);
    within = omega arith;
    young = y;
  }

  pub held-grown :
      (x : ℕ) → q.pushed + ahead < q.poped + n → held (grown x) ahead ≡ held q ahead ++ x ∷ []
  held-grown x h =
      unfold put_from in
      ap₂ (λ p m. window (set q.queue (p % q.capacity) x) q.capacity q.poped m)
        (let e : q.pushed + ahead ≡ q.poped + (q.pushed + ahead - q.poped) =
            omega (arith, v.behind) in
          e)
        (let e : q.pushed + 1 + ahead - q.poped ≡ q.pushed + ahead - q.poped + 1 =
            omega (arith, v.behind) in
          e)
      ∙ window-put_from q.queue q.capacity q.poped (q.pushed + ahead - q.poped) (x ∷ [])
          (omega (arith, v.capacity, v.places)) (omega (arith, v.capacity, v.behind))

  wrap_put : (q.pushed + ahead) % 2 ^ 64 ≡ q.pushed + ahead
  wrap_put = omega (arith, v.young)

  wrap_pushed : (q.pushed + 1) % 2 ^ 64 ≡ q.pushed + 1
  wrap_pushed = omega (arith, v.young, v.positive)

  pub push-unmarked :
      (sid : ℕ) → (ltb 0 ahead && is_admin sid) ≡ false → push sid ahead q ≡ ok (grown sid)
  unfolding push
  push-unmarked sid h = rw (
    h,
    wrap_put,
    set_at-eq-ok q.queue ((q.pushed + ahead) % q.capacity) sid place_in,
    wrap_pushed,
  )

  pub push-marked :
      (sid : ℕ)
      → (ltb 0 ahead && is_admin sid) ≡ true
      → push sid ahead q
        ≡ ok (record q {
          queue = set q.queue ((q.pushed + ahead) % q.capacity) (reset_admin sid);
          pushed = q.pushed + 1;
          admin_slots_in_use = (q.admin_slots_in_use + 255) % 256;
        })
  unfolding push
  push-marked sid h = rw (
    h,
    wrap_put,
    set_at-eq-ok q.queue ((q.pushed + ahead) % q.capacity) (reset_admin sid) place_in,
    wrap_pushed,
  )

  -- The slot at `poped_`.
  abbrev pub head : ℕ
  head = get_or q.queue (q.poped % q.capacity) 0

  abbrev pub shrunk : IndexQueue
  shrunk = record q { poped = q.poped + 1 }

  pub shrunk-IsRing : q.poped < q.pushed + ahead → IsRing n ahead shrunk
  shrunk-IsRing h = record {
    capacity = v.capacity;
    places = v.places;
    positive = v.positive;
    behind = omega arith;
    within = omega (arith, v.within);
    young = v.young;
  }

  pub held-shrunk : q.poped < q.pushed + ahead → held q ahead ≡ head ∷ held shrunk ahead
  held-shrunk h = ap (window q.queue q.capacity q.poped) (
      let e : q.pushed + ahead - q.poped ≡ suc (q.pushed + ahead - (q.poped + 1)) = omega arith in
      e)

  head_in : q.poped % q.capacity < length q.queue
  head_in = omega (
    arith,
    v.places,
    v.capacity,
    v.positive,
    mod-lt q.poped {m = q.capacity} (omega (arith, v.capacity, v.positive)),
  )

  pub get_at-head : get_at q.queue (q.poped % q.capacity) ≡ ok head
  get_at-head = get_at-eq-ok q.queue (q.poped % q.capacity) head_in

  pub head-below : AllBelow n q.queue → head < n
  head-below a = AllBelow-get_or n q.queue (q.poped % q.capacity) a head_in

  pub front-eq-head : front q ≡ ok head
  unfolding front
  front-eq-head = get_at-head

  wrap_poped : (q.poped + 1) % 2 ^ 64 ≡ q.poped + 1
  wrap_poped = omega (arith, v.young, v.positive, v.behind)

  pub pop-eq-shrunk : pop q ≡ shrunk
  unfolding pop
  pop-eq-shrunk = rw wrap_poped

  -- `try_pop` takes the first slot, or throws.
  pub try_pop_cases :
      q.admin_slots_in_use < 256
      → ((q.pushed + q.admin_slots_in_use ≤ q.poped)
          × (try_pop q ≡ throws (runtime_error internal)))
        ⊎ ((q.poped < q.pushed + q.admin_slots_in_use) × (try_pop q ≡ ok (head, shrunk)))
  unfolding try_pop
  try_pop_cases h =
      let young : (q.pushed + q.admin_slots_in_use) % 2 ^ 64 ≡ q.pushed + q.admin_slots_in_use =
        omega (arith, v.young) in
      elim (dec_le (q.pushed + q.admin_slots_in_use) q.poped) [
        | yes full ↦ inl (full, rw (young, le→leb (q.pushed + q.admin_slots_in_use) q.poped full))
        | no free ↦ inr (
          omega arith,
          rw (
            young,
            lt→not-leb q.poped (q.pushed + q.admin_slots_in_use) (omega arith),
            get_at-head,
            wrap_poped,
          ),
        )
      ]

  -- `try_pop(admin_slots)` takes the first slot and marks it, or throws.
  pub try_pop_admin_cases :
      q.admin_slots_in_use ≤ q.pushed + ahead
      → q.admin_slots_in_use < 256
      → ((q.pushed + ahead ≤ q.poped + q.admin_slots_in_use)
          × (try_pop_admin ahead q ≡ throws (runtime_error internal)))
        ⊎ ((q.poped + q.admin_slots_in_use < q.pushed + ahead)
            × (try_pop_admin ahead q
                ≡ ok (
                  set_admin head,
                  record q {
                    poped = q.poped + 1;
                    admin_slots_in_use = (q.admin_slots_in_use + 1) % 256;
                  },
                )))
  unfolding try_pop_admin
  try_pop_admin_cases few h =
      let young : (q.pushed + (2 ^ 64 + ahead - q.admin_slots_in_use)) % 2 ^ 64
          ≡ q.pushed + ahead - q.admin_slots_in_use =
        omega (arith, v.young) in
      elim (dec_le (q.pushed + ahead - q.admin_slots_in_use) q.poped) [
        | yes full ↦
            inl (
              omega arith,
              rw (young, le→leb (q.pushed + ahead - q.admin_slots_in_use) q.poped full),
            )
        | no free ↦ inr (
          omega arith,
          rw (
            young,
            lt→not-leb q.poped (q.pushed + ahead - q.admin_slots_in_use) (omega arith),
            get_at-head,
            wrap_poped,
          ),
        )
      ]
