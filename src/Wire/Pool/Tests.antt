-- ===== src/Wire/Pool/Tests.antt =====
-- A result set with two wires, one with a single wire in use, and one that has ended.
use tateyama_bootstrap.Prelude.{
  ℕ, zero, suc, ◌≤◌, ◌<◌, ◌≡◌, ◌≢◌, ◌⊎◌, inl, inr, refl, [], ◌∷◌, Bool, true, false, Option, none,
  some, arith, leb,
}
use tateyama_bootstrap.Reason.{out_of_range}
use tateyama_bootstrap.Wire.Pool.{Wires, done, throws, create, acquire, release}
use tateyama_bootstrap.Wire.Pool.Search.{handle_at, detached, handle_at-replicate}
use tateyama_bootstrap.Wire.Pool.Sharing.{Apart, IsFresh, Given, create-Apart}
use tateyama_bootstrap.Wire.Pool.Acquire.{acquire-Given, acquire-exhausted}
use tateyama_bootstrap.Wire.Pool.Release.{release-Apart}
use tateyama_bootstrap.Wire.Pool.Active.{
  active_wire, wait_for_record, after_look, scan, active_wire-exhausted,
}

abbrev made : Wires
made = record {
  wires = detached ∷ detached ∷ [];
  buffer_size = 64;
  reserved = 100;
  count_using = 0;
  next_index = 0;
  only_one_buffer = false;
  eor = false;
  closed = false;
}

made-Apart : Apart made
unfolding create
made-Apart = create-Apart 2 64 100 made (omega arith) (omega arith) refl

made-IsFresh : IsFresh 200 made
made-IsFresh = (omega arith, omega arith, λ i e. omega (arith, e, handle_at-replicate 2 i))

acquire-Given_example :
    (i : ℕ) × (buffer : ℕ) × (q : Wires) × (acquire (some 200) made ≡ (done i, q))
    × Given i buffer made q
    × (((made.reserved ≡ 0) × (buffer ≡ 200)) ⊎ ((0 < made.reserved) × (buffer ≡ made.reserved)))
acquire-Given_example = acquire-Given 200 made made-Apart (omega arith) made-IsFresh

-- A single wire has a buffer, and another one is reserved.
abbrev busy : Wires
busy = record {
  wires = record { handle = 100; capacity = 64 } ∷ [];
  buffer_size = 64;
  reserved = 300;
  count_using = 1;
  next_index = 1;
  only_one_buffer = true;
  eor = false;
  closed = false;
}

busy_at : (i : ℕ) → ((i ≡ 0) × (handle_at busy.wires i ≡ 100)) ⊎ (handle_at busy.wires i ≡ 0)
busy_at zero = inl (refl, refl)
busy_at (suc i) = inr refl

busy-distinct :
    (i j : ℕ) → 0 < handle_at busy.wires i → handle_at busy.wires i ≡ handle_at busy.wires j → i ≡ j
busy-distinct zero zero p e = refl
busy-distinct zero (suc j) p e = absurd (omega (arith, e))
busy-distinct (suc i) j p e = absurd (omega (arith, p))

busy-kept_back : (i : ℕ) → handle_at busy.wires i ≢ 300
busy-kept_back zero e = omega (arith, e)
busy-kept_back (suc i) e = omega (arith, e)

busy-beyond : (i : ℕ) → 1 ≤ i → handle_at busy.wires i ≡ 0
busy-beyond zero h = absurd (omega arith)
busy-beyond (suc i) h = refl

busy-Apart : Apart busy
busy-Apart = record {
  distinct = busy-distinct;
  kept_back = λ i _. busy-kept_back i;
  counted = refl;
  within = omega arith;
  known = omega arith;
  beyond = busy-beyond;
  ready = λ e. omega arith;
  few = omega arith;
}

acquire-exhausted_example :
    (q : Wires) × (acquire none busy ≡ (throws out_of_range, q))
    × (q.reserved ≡ 0)
    × ((i : ℕ) → handle_at q.wires i ≢ 300)
acquire-exhausted_example = acquire-exhausted none busy busy-Apart (omega arith) refl (omega arith)

release-Apart_example :
    (q : Wires) × (freed : Option ℕ) × (release 0 busy ≡ done (q, freed))
    × (handle_at q.wires 0 ≡ 0)
    × ((j : ℕ) → j ≢ 0 → handle_at q.wires j ≡ handle_at busy.wires j)
    × Apart q
    × (((busy.reserved ≡ 0) × (q.reserved ≡ 100) × (freed ≡ none))
        ⊎ ((0 < busy.reserved) × (q.reserved ≡ busy.reserved) × (freed ≡ some 100)))
release-Apart_example = release-Apart 0 busy busy-Apart (omega arith)

-- The server marks the end at moment 3; two wires have no records.
abbrev no_record : ℕ → ℕ → Bool
no_record t i = false

abbrev end_at_3 : ℕ → Bool
end_at_3 t = leb 3 t

no_record_later :
    (m s v j : ℕ)
    → end_at_3 m ≡ true
    → m ≤ s
    → s ≤ v
    → no_record s j ≡ false
    → no_record v j ≡ false
no_record_later m s v j a b c d = refl

active_wire-exhausted_example : (u : ℕ) × ((v j : ℕ) → u ≤ v → j < 2 → no_record v j ≡ false)
unfolding active_wire wait_for_record after_look scan
active_wire-exhausted_example =
    active_wire-exhausted 2 end_at_3 no_record (false ∷ false ∷ []) 0 no_record_later refl
