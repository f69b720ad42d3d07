-- ===== src/Wire/ResultSet/Chunk.antt =====
-- `get_chunk` of src/tateyama/transport/wire.h: where the views lie, and what is seen in them.
use native.Mathlib.Nat.{mul_comm, div-add-mod', mul-add-div_right, div-eq_of_lt}
use tateyama_bootstrap.Prelude.{
  ℕ, ◌+◌, ◌-◌, ◌*◌, ◌/◌, ◌%◌, ◌≤◌, ◌<◌, ◌≡◌, ◌==◌, sym, ap, ap₂, ◌∙◌, inl, inr, List, append-nil,
  arith, leb, length, if◌then◌else◌, Bool-cases, if-true, if-false, false, div-add-mod, mod-lt,
  ==_iff,
}
use tateyama_bootstrap.Wire.Header.{length_header_size}
use tateyama_bootstrap.Wire.Ring.{Ring, index, read_address, add_size, sub_size, read_from_buffer}
use tateyama_bootstrap.Wire.Ring.Window.{window}
use tateyama_bootstrap.Wire.Ring.Copy.{read_from_buffer-eq-window, index_round}
use tateyama_bootstrap.Wire.Ring.Counters.{IsValid}
use tateyama_bootstrap.Wire.ResultSet.{ResultWire, Views, header_received, get_chunk, seen}

-- The page of a count, from its place behind a page's start.
page : (cap q b n : ℕ) → b < cap → n ≡ q * cap + b → n / cap ≡ q
page cap q b n h e =
    ap (λ k. k / cap) e
    ∙ mul-add-div_right {m = cap} (omega arith) q b
    ∙ omega (arith, div-eq_of_lt {n = b} {m = cap} h)

-- The views of `len` bytes from count `start` on: up to the end of the buffer, and from its start.
abbrev pub views_of : ℕ → ℕ → ℕ → Views
views_of cap start len =
    if leb (start % cap + len) cap
    then record {
      first_address = start % cap;
      first_length = len;
      wrap_address = 0;
      wrap_length = 0;
    }
    else record {
      first_address = start % cap;
      first_length = cap - start % cap;
      wrap_address = 0;
      wrap_length = len - (cap - start % cap);
    }

module _ (cap : ℕ) (positive : 0 < cap) where
  -- A record that ends where the buffer ends counts as one page.
  one_page :
      (start len : ℕ) → 0 < len → start % cap + len ≤ cap → start / cap ≡ (start + len - 1) / cap
  one_page start len h fits = sym (
      page cap (start / cap) (start % cap + len - 1) (start + len - 1) (omega arith)
        (omega (arith, div-add-mod start cap, mul_comm cap (start / cap))))

  -- A record that goes over the end of the buffer, in which bytes are up to `valid`.
  two_pages :
      (start len valid : ℕ)
      → len ≤ cap
      → cap < start % cap + len
      → start + len ≤ valid
      → valid ≤ start + cap
      → ((start / cap == (start + len - 1) / cap) ≡ false)
        × ((valid / cap) * cap ≡ start + (cap - start % cap))
  two_pages start len valid h over from upto =
      let q = start / cap in
      let whole = div-add-mod' start cap in
      let below = mod-lt start {m = cap} positive in
      let next : (q + 1) * cap ≡ q * cap + cap = omega arith in
      let last : (start + len - 1) / cap ≡ q + 1 =
        page cap (q + 1) (start % cap + len - 1 - cap) (start + len - 1) (omega (arith, below))
          (omega (arith, whole, next)) in
      let end : valid / cap ≡ q + 1 =
        page cap (q + 1) (start % cap + (valid - start) - cap) valid (omega (arith, below))
          (omega (arith, whole, next)) in
      (ground (arith, last), ap (λ k. k * cap) end ∙ omega (arith, whole, next, below))

abbrev views : ℕ → ℕ → ℕ → ℕ → Views
views a n b m = record { first_address = a; first_length = n; wrap_address = b; wrap_length = m }

-- The body of `get_chunk`, for a record of `len` bytes behind a header.
abbrev chunk_at : Ring → ℕ → ℕ → ℕ → Views
chunk_at r start len valid =
    let cap = r.capacity in
    let first = sub_size ((valid / cap) * cap) start in
    if start / cap == sub_size (add_size start len) 1 / cap
    then record {
      first_address = read_address r length_header_size;
      first_length = len;
      wrap_address = 0;
      wrap_length = 0;
    }
    else record {
      first_address = read_address r length_header_size;
      first_length = first;
      wrap_address = read_address r (add_size length_header_size first);
      wrap_length = sub_size len first;
    }

module _ {r : Ring} (v : IsValid r) (len valid : ℕ) (some_bytes : 0 < len)
    (whole : r.poped + 4 + len ≤ valid) (upto : valid ≤ r.pushed) where
  start_at : read_address r length_header_size ≡ (r.poped + 4) % r.capacity
  unfolding read_address index
  start_at =
      ap (λ k. k % r.capacity)
        (let e : add_size r.poped 4 ≡ r.poped + 4 = omega (arith, v.young) in e)

  chunk_at-views_of :
      chunk_at r (add_size r.poped length_header_size) len valid
      ≡ views_of r.capacity (r.poped + 4) len
  chunk_at-views_of = elim (Bool-cases (leb (start % cap + len) cap)) [
    | inl fits ↦
        if-true _ _ (
          same
          ∙ (==_iff (start / cap) ((start + len - 1) / cap)).1
              (one_page cap v.positive start len some_bytes (ground (arith, fits))))
        ∙ ap (λ a. views a len 0 0) start_at
        ∙ sym (if-true _ _ fits)
    | inr wraps ↦
        let over : cap < start % cap + len = ground (arith, wraps) in
        let (apart, end) =
          two_pages cap v.positive start len valid (omega (arith, v.within)) over whole
            (omega (arith, v.within)) in
        let first : sub_size ((valid / cap) * cap) (add_size r.poped 4) ≡ cap - start % cap =
          ap₂ sub_size end at_start ∙ omega (arith, mod-lt start {m = cap} v.positive, v.small) in
        if-false _ _ (same ∙ apart)
        ∙ ap
            (λ a.
              views a (sub_size ((valid / cap) * cap) (add_size r.poped 4))
                (read_address r (add_size 4 (sub_size ((valid / cap) * cap) (add_size r.poped 4))))
                (sub_size len (sub_size ((valid / cap) * cap) (add_size r.poped 4))))
            start_at
        ∙ ap (λ f. views (start % cap) f (read_address r (add_size 4 f)) (sub_size len f)) first
        ∙ ap₂ (views (start % cap) (cap - start % cap)) (wrap_at over)
            (omega (arith, over, mod-lt start {m = cap} v.positive, v.within, v.small))
        ∙ sym (if-false _ _ wraps)
  ]
    where
      cap : ℕ
      cap = r.capacity

      start : ℕ
      start = r.poped + 4

      at_start : add_size r.poped 4 ≡ start
      at_start = omega (arith, v.young)

      same :
          (add_size r.poped 4 / cap == sub_size (add_size (add_size r.poped 4) len) 1 / cap)
          ≡ (start / cap == (start + len - 1) / cap)
      same = ap₂ (λ a b. (a / cap == b / cap)) at_start (omega (arith, v.young))

      wrap_at : cap < start % cap + len → read_address r (add_size 4 (cap - start % cap)) ≡ 0
      wrap_at over =
          unfold read_address index in
          ap (λ k. k % cap)
            (let e : add_size r.poped (add_size 4 (cap - start % cap))
                  ≡ start + (cap - start % cap) =
                omega (arith, v.young, v.small, mod-lt start {m = cap} v.positive) in
              e)
          ∙ index_round start cap v.positive

-- The views of the record behind a header are the views of its bytes, of which `header_received`
-- gives the number.
pub get_chunk-views_of :
    (w : ResultWire) (v : IsValid w.ring) (len : ℕ)
    → 0 < len
    → w.ring.poped + 4 + len ≤ w.pushed_valid
    → w.pushed_valid ≤ w.ring.pushed
    → header_received w ≡ len
    → get_chunk w ≡ views_of w.ring.capacity (w.ring.poped + 4) len
unfolding get_chunk
get_chunk-views_of w v len h whole upto e =
    ap (λ l. chunk_at w.ring (add_size w.ring.poped length_header_size) l w.pushed_valid) e
    ∙ chunk_at-views_of v len w.pushed_valid h whole upto

-- What is seen in the views of bytes are the bytes.
pub seen-views_of :
    (buffer : List ℕ) (cap start len : ℕ)
    → 0 < cap
    → cap ≤ length buffer
    → len ≤ cap
    → seen buffer (views_of cap start len) ≡ window buffer cap start len
unfolding seen read_from_buffer
seen-views_of buffer cap start len h hs hn = elim (Bool-cases (leb (start % cap + len) cap)) [
  | inl fits ↦
      ap (seen buffer) (if-true _ _ fits)
      ∙ append-nil _
      ∙ sym (if-true _ _ fits)
      ∙ read_from_buffer-eq-window buffer cap start len h hs hn
  | inr wraps ↦
      ap (seen buffer) (if-false _ _ wraps)
      ∙ sym (if-false _ _ wraps)
      ∙ read_from_buffer-eq-window buffer cap start len h hs hn
]
