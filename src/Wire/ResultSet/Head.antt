-- ===== src/Wire/ResultSet/Head.antt =====
-- The oldest record of a result set wire of src/tateyama/transport/wire.h, as the client finds it.
use tateyama_bootstrap.Prelude.{
  ℕ, ◌+◌, ◌%◌, ◌^◌, ◌≤◌, ◌<◌, ◌≡◌, sym, ap, ap₂, ◌∙◌, subst, List, [], ◌++◌, append-nil,
  append_assoc, arith, length, length-append, take, drop, take-length-append, drop-length-append,
  mod-eq_of_lt,
}
use tateyama_bootstrap.Wire.Header.{
  length_header, length_header_size, length_to_buffer, length_of_buffer,
}
use tateyama_bootstrap.Wire.Header.RoundTrip.{length_of_buffer-to_buffer}
use tateyama_bootstrap.Wire.Codec.{length-length_to_buffer}
use tateyama_bootstrap.Wire.Ring.{stored, add_size, index, read_address, read_from_buffer}
use tateyama_bootstrap.Wire.Ring.Copy.{read_from_buffer-eq-window}
use tateyama_bootstrap.Wire.Ring.Counters.{
  IsValid, contents, length-contents, stored-eq-sub, header_bytes-eq-take, read_from_buffer-eq-take,
  contents-pop, pop-IsValid,
}
use tateyama_bootstrap.Wire.ResultSet.{ResultWire, header_received, seen, dispose_record}
use tateyama_bootstrap.Wire.ResultSet.Chunk.{views_of, seen-views_of}

-- A record as it stands in a wire.
abbrev pub encoded : List ℕ → List ℕ
encoded xs = length_to_buffer (length_header (length xs)) ++ xs

pub length-encoded : (xs : List ℕ) → length (encoded xs) ≡ 4 + length xs
length-encoded xs =
    length-append (length_to_buffer (length_header (length xs))) xs
    ∙ ap (λ n. n + length xs) (length-length_to_buffer (length_header (length xs)))

module _ (w : ResultWire) (v : IsValid w.ring) (xs rest : List ℕ)
    (held : contents w.ring ≡ encoded xs ++ rest) (narrow : length xs < 2 ^ 32) where
  enough : 4 + length xs ≤ stored w.ring
  enough =
      omega (
        arith,
        length-contents v,
        ap length held,
        length-append (encoded xs) rest,
        length-encoded xs,
      )

  parted : contents w.ring ≡ length_to_buffer (length_header (length xs)) ++ (xs ++ rest)
  parted = held ∙ append_assoc (length_to_buffer (length_header (length xs))) xs rest

  pub header_received_lem : header_received w ≡ length xs
  unfolding header_received
  header_received_lem =
      let hdr = length_to_buffer (length_header (length xs)) in
      ap (λ l. (length_of_buffer l).length)
        (header_bytes-eq-take v 4 (omega (arith, enough))
          ∙ ap₂ take (sym (length-length_to_buffer (length_header (length xs)))) parted
          ∙ take-length-append hdr (xs ++ rest)
          ∙ sym (append-nil hdr))
      ∙ ap (λ h. h.length)
          (length_of_buffer-to_buffer (length_header (length xs)) []
            (unfold length_header in omega arith))
      ∙ (unfold length_header in mod-eq_of_lt narrow)

  behind_header : drop 4 (contents w.ring) ≡ xs ++ rest
  behind_header =
      ap₂ drop (sym (length-length_to_buffer (length_header (length xs)))) parted
      ∙ drop-length-append (length_to_buffer (length_header (length xs))) (xs ++ rest)

  start : read_address w.ring 4 ≡ (w.ring.poped + 4) % w.ring.capacity
  start =
      unfold read_address index in
      ap (λ k. k % w.ring.capacity)
        (let e : add_size w.ring.poped 4 ≡ w.ring.poped + 4 =
            omega (arith, v.young, enough, stored-eq-sub v, v.behind) in
          e)

  pub seen_lem : seen w.ring.buffer (views_of w.ring.capacity (w.ring.poped + 4) (length xs)) ≡ xs
  seen_lem =
      let n = length xs in
      let few : n ≤ w.ring.capacity = omega (arith, enough, stored-eq-sub v, v.within) in
      seen-views_of w.ring.buffer w.ring.capacity (w.ring.poped + 4) n v.positive v.storage few
      ∙ sym (
          read_from_buffer-eq-window w.ring.buffer w.ring.capacity (w.ring.poped + 4) n v.positive
            v.storage few)
      ∙ ap (λ i. read_from_buffer w.ring.buffer w.ring.capacity i n) (sym start)
      ∙ read_from_buffer-eq-take v 4 n enough
      ∙ ap (take n) behind_header
      ∙ take-length-append xs rest

  moved : add_size (header_received w) length_header_size ≡ length xs + 4
  moved = ap (λ n. add_size n 4) header_received_lem ∙ omega arith

  pub dispose_ring :
      (dispose_record w).ring ≡ record w.ring { poped = add_size w.ring.poped (length xs + 4) }
  unfolding dispose_record
  dispose_ring = ap (λ n. record w.ring { poped = add_size w.ring.poped n }) moved

  pub contents-dispose : contents (dispose_record w).ring ≡ rest
  contents-dispose =
      ap contents dispose_ring
      ∙ contents-pop v (length xs + 4) (omega (arith, enough))
      ∙ ap₂ drop
          (let e : length xs + 4 ≡ length (encoded xs) = omega (arith, length-encoded xs) in e) held
      ∙ drop-length-append (encoded xs) rest

  pub dispose-IsValid : IsValid (dispose_record w).ring
  dispose-IsValid =
      subst IsValid (sym dispose_ring) (pop-IsValid v (length xs + 4) (omega (arith, enough)))
