-- ===== src/Wire/Ring/Counters.antt =====
-- The counters of a ring: no wrap-around, no access out of range, and what the ring holds.
use tateyama_bootstrap.Prelude.{
  ℕ, ◌+◌, ◌-◌, ◌%◌, ◌^◌, ◌≤◌, ◌<◌, ◌≡◌, sym, ap, ap₂, ◌∙◌, List, ◌++◌, arith, length, take, drop,
  drop-length-append, take-length-append, length-take, leb, if◌then◌else◌,
}
use tateyama_bootstrap.Wire.Ring.{
  Ring, stored, room, index, read_address, buffer_address, write_in_buffer, read_from_buffer,
  header_bytes, add_size, copy_out,
}
use tateyama_bootstrap.Wire.Ring.Window.{
  window, length-window, window-add, put_from, length-put_from, window-put_from,
}
use tateyama_bootstrap.Wire.Ring.Copy.{write_in_buffer-eq-put_from, read_from_buffer-eq-window}

-- `young` says that fewer than 2^64 bytes have gone through the ring so far.
pub record IsValid (r : Ring) : Type 0 where
  pub positive : 0 < r.capacity
  pub storage : r.capacity ≤ length r.buffer
  pub small : r.capacity < 2 ^ 63
  pub behind : r.poped ≤ r.pushed
  pub within : r.pushed ≤ r.poped + r.capacity
  pub young : r.pushed < 2 ^ 64

-- The bytes between the two counters, oldest first.
abbrev pub contents : Ring → List ℕ
contents r = window r.buffer r.capacity r.poped (r.pushed - r.poped)

pub stored-eq-sub : {r : Ring} → IsValid r → stored r ≡ r.pushed - r.poped
unfolding stored
stored-eq-sub v = omega arith

pub length-contents : {r : Ring} → IsValid r → length (contents r) ≡ stored r
length-contents {r} v =
    length-window r.buffer r.capacity r.poped (r.pushed - r.poped) ∙ sym (stored-eq-sub v)

pub room-add-stored : {r : Ring} → IsValid r → room r + stored r ≡ r.capacity
unfolding room
room-add-stored {r} v = omega (arith, stored-eq-sub v)

-- The state after `n` bytes of `from` have been written at the end, and `pushed_` moved on.
abbrev pub append : Ring → List ℕ → ℕ → Ring
append r from n = record r {
  buffer = write_in_buffer r.buffer r.capacity (buffer_address r r.pushed) from n;
  pushed = add_size r.pushed n;
}

module _ {r : Ring} (v : IsValid r) where
  append_buffer :
      (from : List ℕ) (n : ℕ)
      → n ≤ room r
      → n ≤ length from
      → write_in_buffer r.buffer r.capacity (buffer_address r r.pushed) from n
        ≡ put_from r.buffer r.capacity r.pushed (take n from)
  unfolding buffer_address
  append_buffer from n h hl =
      write_in_buffer-eq-put_from r.buffer r.capacity r.pushed from n v.positive
        (omega (arith, room-add-stored v)) hl

  -- What is appended stands behind what the ring held.
  pub contents-append :
      (from : List ℕ) (n : ℕ)
      → n ≤ room r
      → n ≤ length from
      → r.pushed + n < 2 ^ 64
      → contents (append r from n) ≡ contents r ++ take n from
  contents-append from n h hl y =
      ap₂ (λ b k. window b r.capacity r.poped k) (append_buffer from n h hl)
        (let e : add_size r.pushed n - r.poped ≡ (r.pushed - r.poped) + length (take n from) =
            omega (arith, length-take n from, v.behind) in
          e)
      ∙ ap
          (λ q.
            window (put_from r.buffer r.capacity q (take n from)) r.capacity r.poped
              ((r.pushed - r.poped) + length (take n from)))
          (let e : r.pushed ≡ r.poped + (r.pushed - r.poped) = omega (arith, v.behind) in e)
      ∙ window-put_from r.buffer r.capacity r.poped (r.pushed - r.poped) (take n from) v.storage
          (omega (arith, length-take n from, room-add-stored v, stored-eq-sub v))

  pub append-IsValid :
      (from : List ℕ) (n : ℕ)
      → n ≤ room r
      → n ≤ length from
      → r.pushed + n < 2 ^ 64
      → IsValid (append r from n)
  append-IsValid from n h hl y = record {
    positive = v.positive;
    storage = rw (append_buffer from n h hl, length-put_from) v.storage;
    small = v.small;
    behind = omega (arith, v.behind);
    within = omega (arith, room-add-stored v, stored-eq-sub v, v.behind);
    young = omega arith;
  }

  -- The bytes that a reader finds `offset` behind `poped_`.
  pub read_from_buffer-eq-take :
      (offset n : ℕ)
      → offset + n ≤ stored r
      → read_from_buffer r.buffer r.capacity (read_address r offset) n
        ≡ take n (drop offset (contents r))
  unfolding read_address
  read_from_buffer-eq-take offset n h =
      let held = stored-eq-sub v in
      ap (λ k. read_from_buffer r.buffer r.capacity (k % r.capacity) n)
        (let e : add_size r.poped offset ≡ r.poped + offset =
            omega (arith, held, v.behind, v.young) in
          e)
      ∙ read_from_buffer-eq-window r.buffer r.capacity (r.poped + offset) n v.positive v.storage
          (omega (arith, held, v.within, v.behind))
      ∙ sym (
          cut (r.pushed - r.poped - offset - n) (
            let e : r.pushed - r.poped ≡ offset + (n + (r.pushed - r.poped - offset - n)) =
              omega (arith, held) in
            e))
    where
      cut :
          (k : ℕ)
          → r.pushed - r.poped ≡ offset + (n + k)
          → take n (drop offset (contents r)) ≡ window r.buffer r.capacity (r.poped + offset) n
      cut k e =
          rw (e, window-add r.buffer r.capacity r.poped offset (n + k))
            (ap (take n) (
                ap
                  (λ m. drop m (
                    window r.buffer r.capacity r.poped offset
                    ++ window r.buffer r.capacity (r.poped + offset) (n + k)))
                  (sym (length-window r.buffer r.capacity r.poped offset))
                ∙ drop-length-append (window r.buffer r.capacity r.poped offset) _
                ∙ window-add r.buffer r.capacity (r.poped + offset) n k)
              ∙ ap
                  (λ m. take m (
                    window r.buffer r.capacity (r.poped + offset) n
                    ++ window r.buffer r.capacity (r.poped + offset + n) k))
                  (sym (length-window r.buffer r.capacity (r.poped + offset) n))
              ∙ take-length-append (window r.buffer r.capacity (r.poped + offset) n) _)

  -- Moving `poped_` on drops the oldest bytes.
  pub contents-pop :
      (n : ℕ)
      → n ≤ stored r
      → contents (record r { poped = add_size r.poped n }) ≡ drop n (contents r)
  contents-pop n h =
      let held = stored-eq-sub v in
      ap₂ (window r.buffer r.capacity)
        (let e : add_size r.poped n ≡ r.poped + n = omega (arith, held, v.behind, v.young) in e)
        (let e : r.pushed - add_size r.poped n ≡ r.pushed - r.poped - n =
            omega (arith, held, v.behind, v.young) in
          e)
      ∙ sym (
          ap₂ drop (sym (length-window r.buffer r.capacity r.poped n)) (
            ap (window r.buffer r.capacity r.poped)
              (let e : r.pushed - r.poped ≡ n + (r.pushed - r.poped - n) = omega (arith, held) in e)
            ∙ window-add r.buffer r.capacity r.poped n (r.pushed - r.poped - n))
          ∙ drop-length-append (window r.buffer r.capacity r.poped n) _)

  pub pop-IsValid : (n : ℕ) → n ≤ stored r → IsValid (record r { poped = add_size r.poped n })
  pop-IsValid n h =
      let held = stored-eq-sub v in
      record {
        positive = v.positive;
        storage = v.storage;
        small = v.small;
        behind = omega (arith, held, v.behind, v.young);
        within = omega (arith, held, v.behind, v.young, v.within);
        young = v.young;
      }

  pub header_bytes-eq-take :
      (size : ℕ) → size ≤ stored r → header_bytes size r ≡ take size (contents r)
  header_bytes-eq-take size h = same ∙ read_from_buffer-eq-take 0 size (omega arith)
    where
      same : header_bytes size r ≡ read_from_buffer r.buffer r.capacity (read_address r 0) size
      same =
          unfold header_bytes read_from_buffer read_address index in
          ap
            (λ k.
              if leb (read_address r 0 + size) r.capacity
              then copy_out r.buffer (read_address r 0) size
              else copy_out r.buffer (read_address r 0) (r.capacity - k % r.capacity)
                ++ copy_out r.buffer 0 (size - (r.capacity - k % r.capacity)))
            (let e : r.poped ≡ add_size r.poped 0 = omega (arith, v.behind, v.young) in e)
