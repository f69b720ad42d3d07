-- ===== src/Wire/Simple/Reads.antt =====
-- What one turn of `read` takes out of the ring.
use tateyama_bootstrap.Prelude.{
  ℕ, ◌+◌, ◌-◌, ◌≤◌, ◌<◌, ◌≡◌, refl, ap, ◌∙◌, subst, none, some, arith, take, drop, min,
}
use tateyama_bootstrap.Wire.Ring.{
  Ring, stored, min_size, max_payload_length, add_size, read_from_buffer, read_address,
}
use tateyama_bootstrap.Wire.Ring.Counters.{
  IsValid, contents, stored-eq-sub, read_from_buffer-eq-take, contents-pop, pop-IsValid,
}
use tateyama_bootstrap.Wire.Simple.{Chunk, read_first, read_next}

-- `c` holds the bytes of `r` from `skip` up to `upto`, and leaves the ring without its first
-- `upto` bytes.
pub record Taken (r : Ring) (skip upto : ℕ) (c : Chunk) : Type 0 where
  pub valid : IsValid c.ring
  pub held : contents c.ring ≡ drop upto (contents r)
  pub bytes : c.bytes ≡ take (upto - skip) (drop skip (contents r))
  pub capacity : c.ring.capacity ≡ r.capacity
  pub pushed : c.ring.pushed ≡ r.pushed
  pub poped : c.ring.poped ≡ r.poped + upto

-- The chunk of a turn that copies `m` bytes behind the first `skip`.
abbrev chunk : Ring → ℕ → ℕ → ℕ → Chunk
chunk r skip m left = record {
  ring = record r { poped = add_size r.poped (skip + m) };
  bytes = read_from_buffer r.buffer r.capacity (read_address r skip) m;
  left = left;
}

chunk-Taken :
    {r : Ring} (v : IsValid r) (skip m left : ℕ)
    → skip + m ≤ stored r
    → Taken r skip (skip + m) (chunk r skip m left)
chunk-Taken {r} v skip m left h = record {
  valid = pop-IsValid v (skip + m) h;
  held = contents-pop v (skip + m) h;
  bytes =
      read_from_buffer-eq-take v skip m h ∙ ap (λ k. take k (drop skip (contents r))) (omega arith);
  capacity = refl;
  pushed = refl;
  poped = omega (arith, stored-eq-sub v, v.young);
}

min_size-eq-min : (a b : ℕ) → min_size a b ≡ min a b
unfolding min_size
min_size-eq-min a b = ground arith

-- The first turn takes the header and up to a ring's worth of the payload, if they are there.
pub read_first_lem :
    {r : Ring} (v : IsValid r) (size len : ℕ)
    → size ≤ r.capacity
    → min (size + len) r.capacity ≤ stored r
    → Taken r size (min (size + len) r.capacity) (read_first size r len)
      × ((read_first size r len).left ≡ len - (min (size + len) r.capacity - size))
unfolding read_first
read_first_lem {r} v size len hs h =
    let m = min len (r.capacity - size) in
    let upto : size + m ≡ min (size + len) r.capacity = omega arith in
    let room_for : max_payload_length size r ≡ r.capacity - size =
      unfold max_payload_length in omega (arith, v.small) in
    rw (← upto, room_for, min_size-eq-min)
      (chunk-Taken v size m (len - m) (omega arith), omega arith)

-- A further turn takes up to a ring's worth, if it is there.
pub read_next_lem :
    {r : Ring} (v : IsValid r) (len : ℕ)
    → min len r.capacity ≤ stored r
    → (c : Chunk) × (read_next r len ≡ some c)
      × Taken r 0 (min len r.capacity) c
      × (c.left ≡ len - min len r.capacity)
unfolding read_next min_size
read_next_lem {r} v len h =
    let m = min len r.capacity in
    (
      chunk r 0 m (len - m),
      ground (arith, min_size-eq-min len r.capacity),
      subst (λ k. Taken r 0 k (chunk r 0 m (len - m))) (omega arith)
          (chunk-Taken v 0 m (len - m) (omega arith)),
      refl,
    )

-- It waits exactly while the ring is short of the bytes that it means to take.
pub read_next_waits : (r : Ring) (len : ℕ) → stored r < min len r.capacity → read_next r len ≡ none
unfolding read_next min_size
read_next_waits r len h = ground arith
