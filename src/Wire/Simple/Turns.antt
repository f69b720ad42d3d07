-- ===== src/Wire/Simple/Turns.antt =====
-- What one turn of `write` and of `read` does to the bytes in the ring.
use tateyama_bootstrap.Prelude.{
  ℕ, zero, suc, ◌+◌, ◌-◌, ◌^◌, ◌≤◌, ◌<◌, ◌≡◌, refl, sym, ap, ap₂, ◌∙◌, subst, inl, inr, List, ◌++◌,
  false, arith, length, length-append, length-take, length-drop, take, drop, take-add, drop-drop,
  take-all, drop-length-append, take-length-append, append_assoc, append-nil, min, ltb, Bool-cases,
  drop-all,
}
use tateyama_bootstrap.Wire.Codec.{Codec}
use tateyama_bootstrap.Wire.Ring.{Ring, room, min_size, add_size, write_in_buffer, buffer_address}
use tateyama_bootstrap.Wire.Ring.Counters.{
  IsValid, contents, append, contents-append, append-IsValid, room-add-stored, stored-eq-sub,
}
use tateyama_bootstrap.Wire.Simple.{waits, wrote, write_first, write_next}

-- `r'` is `r` with `bytes` behind what it held.
pub record Grown (r r' : Ring) (bytes : List ℕ) : Type 0 where
  pub valid : IsValid r'
  pub held : contents r' ≡ contents r ++ bytes
  pub capacity : r'.capacity ≡ r.capacity
  pub poped : r'.poped ≡ r.poped
  pub pushed : r'.pushed ≡ r.pushed + length bytes

append-Grown :
    {r : Ring} (v : IsValid r) (from : List ℕ) (n : ℕ)
    → n ≤ room r
    → n ≤ length from
    → r.pushed + n < 2 ^ 64
    → Grown r (append r from n) (take n from)
append-Grown v from n h hl y = record {
  valid = append-IsValid v from n h hl y;
  held = contents-append v from n h hl y;
  capacity = refl;
  poped = refl;
  pushed = omega (arith, length-take n from);
}

Grown-trans : {r s t : Ring} (xs ys : List ℕ) → Grown r s xs → Grown s t ys → Grown r t (xs ++ ys)
Grown-trans {r} xs ys g k = record {
  valid = k.valid;
  held = k.held ∙ ap (λ l. l ++ ys) g.held ∙ append_assoc (contents r) xs ys;
  capacity = k.capacity ∙ g.capacity;
  poped = k.poped ∙ g.poped;
  pushed = omega (arith, k.pushed, g.pushed, length-append xs ys);
}

-- A turn that may go through writes up to a ring's worth of the bytes, in order, and no others.
pub write_next_lem :
    {r : Ring} (v : IsValid r) (from : List ℕ)
    → min (length from) r.capacity ≤ room r
    → r.pushed + length from < 2 ^ 64
    → (r' : Ring) × (write_next r false (length from) from
        ≡ wrote r' (length (drop r.capacity from)) (drop r.capacity from))
      × Grown r r' (take r.capacity from)
unfolding write_next
write_next_lem {r} v from h y = elim (Bool-cases (ltb r.capacity (length from))) [
  | inl long ↦ (
    append r from r.capacity,
    ground (arith, length-drop r.capacity from),
    append-Grown v from r.capacity (ground arith) (ground arith) (ground arith),
  )
  | inr short ↦ (
    append r from (length from),
    ground (arith, drop-all (length from) from, drop-all r.capacity from),
    subst (Grown r (append r from (length from)))
        (take-all (length from) from (omega arith) ∙ sym (take-all r.capacity from (ground arith)))
        (append-Grown v from (length from) (ground arith) (omega arith) (ground arith)),
  )
]

-- A turn waits exactly while the room is short of the bytes that it means to write.
pub write_next_waits :
    {r : Ring} (v : IsValid r) (from : List ℕ)
    → room r < min (length from) r.capacity
    → write_next r false (length from) from ≡ waits
unfolding write_next
write_next_waits v from h = ground arith

module _ {H : Type 0} (codec : Codec H) where
  -- The bytes of a message on the wire.
  abbrev pub message_bytes : H → List ℕ → List ℕ
  message_bytes header payload = codec.to_buffer header ++ payload

  pub length-message_bytes :
      (header : H) (payload : List ℕ)
      → length (message_bytes header payload) ≡ codec.size + length payload
  length-message_bytes header payload =
      omega (arith, length-append (codec.to_buffer header) payload, codec.length-to_buffer header)

  pub write_first_waits :
      {r : Ring} (v : IsValid r) (header : H) (payload : List ℕ)
      → codec.get_length header ≡ length payload
      → room r < min (length (message_bytes header payload)) r.capacity
      → write_first codec r false header payload ≡ waits
  unfolding write_first
  write_first_waits v header payload e h = ground (arith, length-message_bytes header payload)

  pub take-message_bytes :
      (header : H) (payload : List ℕ) (m : ℕ)
      → take (codec.size + m) (message_bytes header payload)
        ≡ codec.to_buffer header ++ take m payload
  take-message_bytes header payload m = rw (← codec.length-to_buffer header) (
      sym (take-add (length (codec.to_buffer header)) m (message_bytes header payload))
      ∙ ap₂ (λ k l. k ++ take m l) (take-length-append (codec.to_buffer header) payload)
          (drop-length-append (codec.to_buffer header) payload))

  pub drop-message_bytes :
      (header : H) (payload : List ℕ) (m : ℕ)
      → drop (codec.size + m) (message_bytes header payload) ≡ drop m payload
  drop-message_bytes header payload m = rw (← codec.length-to_buffer header) (
      sym (drop-drop (length (codec.to_buffer header)) m (message_bytes header payload))
      ∙ ap (drop m) (drop-length-append (codec.to_buffer header) payload))

  -- The ring after the header and `m` bytes of the payload have been written.
  abbrev with_both : Ring → H → List ℕ → ℕ → Ring
  with_both r header payload m = record r {
    buffer =
        write_in_buffer
          (write_in_buffer r.buffer r.capacity (buffer_address r r.pushed) (codec.to_buffer header)
            codec.size)
          r.capacity (buffer_address r (add_size r.pushed codec.size)) payload m;
    pushed = add_size r.pushed (codec.size + m);
  }

  with_both-Grown :
      {r : Ring} (v : IsValid r) (header : H) (payload : List ℕ) (m : ℕ)
      → m ≤ length payload
      → codec.size + m ≤ room r
      → r.pushed + (codec.size + m) < 2 ^ 64
      → Grown r (with_both r header payload m) (codec.to_buffer header ++ take m payload)
  unfolding buffer_address
  with_both-Grown {r} v header payload m hm h y =
      let first =
        append-Grown v (codec.to_buffer header) codec.size (omega arith)
          (omega (arith, codec.length-to_buffer header)) (omega arith) in
      let more : m ≤ room (append r (codec.to_buffer header) codec.size) = omega (
        arith,
        room-add-stored v,
        stored-eq-sub v,
        room-add-stored first.valid,
        stored-eq-sub first.valid,
        first.pushed,
        length-take codec.size (codec.to_buffer header),
        v.behind,
      ) in
      let second = append-Grown first.valid payload m more hm (omega arith) in
      subst
        (λ k.
          Grown r
            (record (append (append r (codec.to_buffer header) codec.size) payload m) {
              pushed = k;
            })
            (codec.to_buffer header ++ take m payload))
        (let e : add_size (add_size r.pushed codec.size) m ≡ add_size r.pushed (codec.size + m) =
            omega arith in
          e)
        (subst
          (λ l.
            Grown r (append (append r (codec.to_buffer header) codec.size) payload m)
              (l ++ take m payload))
          (take-all codec.size (codec.to_buffer header)
            (omega (arith, codec.length-to_buffer header)))
          (Grown-trans (take codec.size (codec.to_buffer header)) (take m payload) first second))

  -- A first turn that carries `m` bytes of the payload.
  write_first_turn :
      {r : Ring} (v : IsValid r) (header : H) (payload : List ℕ) (m : ℕ)
      → codec.get_length header ≡ length payload
      → min_size (codec.get_length header + codec.size) r.capacity ≡ codec.size + m
      → m ≤ length payload
      → codec.size + m ≤ room r
      → r.pushed + (codec.size + m) < 2 ^ 64
      → (r' : Ring) × (write_first codec r false header payload
          ≡ wrote r' (length (drop m payload)) (drop m payload))
        × Grown r r' (codec.to_buffer header ++ take m payload)
  unfolding write_first
  write_first_turn {r} v header payload zero e t hm h y = (
    append r (codec.to_buffer header) codec.size,
    ground arith,
    subst (Grown r (append r (codec.to_buffer header) codec.size))
        (take-all codec.size (codec.to_buffer header) (omega (arith, codec.length-to_buffer header))
          ∙ sym (append-nil (codec.to_buffer header)))
        (append-Grown v (codec.to_buffer header) codec.size (omega arith)
          (omega (arith, codec.length-to_buffer header)) (omega arith)),
  )
  write_first_turn {r} v header payload (suc m) e t hm h y = (
    with_both r header payload (suc m),
    ground (arith, length-drop (suc m) payload),
    with_both-Grown v header payload (suc m) hm h y,
  )

  -- The first turn writes up to a ring's worth of the header and the payload, in order.
  pub write_first_lem :
      {r : Ring} (v : IsValid r) (header : H) (payload : List ℕ)
      → codec.get_length header ≡ length payload
      → codec.size ≤ r.capacity
      → min (length (message_bytes header payload)) r.capacity ≤ room r
      → r.pushed + length (message_bytes header payload) < 2 ^ 64
      → (r' : Ring) × (write_first codec r false header payload
          ≡ wrote r'
              (length (drop r.capacity (message_bytes header payload)))
              (drop r.capacity (message_bytes header payload)))
        × Grown r r' (take r.capacity (message_bytes header payload))
  unfolding write_first
  write_first_lem {r} v header payload e hs h y =
      elim (Bool-cases (ltb r.capacity (codec.size + length payload))) [
        | inl long ↦
            let m = r.capacity - codec.size in
            let full : codec.size + m ≡ r.capacity = omega arith in
            let (r', turn, grown) =
              write_first_turn v header payload m e (ground arith) (ground arith)
                (ground (arith, size)) (ground (arith, size)) in
            (
              r',
              turn
                  ∙ ap (λ k. wrote r' (length k) k)
                      (sym (drop-message_bytes header payload m)
                        ∙ ap (λ k. drop k (message_bytes header payload)) full),
              subst (Grown r r')
                  (sym (take-message_bytes header payload m)
                    ∙ ap (λ k. take k (message_bytes header payload)) full)
                  grown,
            )
        | inr short ↦
            let m = length payload in
            let (r', turn, grown) =
              write_first_turn v header payload m e (ground arith) (omega arith)
                (ground (arith, size)) (omega (arith, size)) in
            (
              r',
              turn
                  ∙ ap (λ k. wrote r' (length k) k)
                      (drop-all m payload (omega arith)
                        ∙ sym (
                            drop-all r.capacity (message_bytes header payload)
                              (ground (arith, size)))),
              subst (Grown r r')
                  (ap (λ k. codec.to_buffer header ++ k) (take-all m payload (omega arith))
                    ∙ sym
                        (take-all r.capacity (message_bytes header payload) (ground (arith, size))))
                  grown,
            )
      ]
    where
      size : length (message_bytes header payload) ≡ codec.size + length payload
      size = length-message_bytes header payload
