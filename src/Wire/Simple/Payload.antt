-- ===== src/Wire/Simple/Payload.antt =====
-- `payload` and `dispose` of `simple_wire<T>` in src/tateyama/transport/wire.h: a payload that does
-- not go over the end of the buffer is used in its place, and disposed of later.
use tateyama_bootstrap.Prelude.{
  ℕ, ◌+◌, ◌%◌, ◌≤◌, ◌<◌, ◌≡◌, sym, ap, ◌∙◌, arith, ltb, inl, inr, Bool-cases, subst, ltb→lt, lt→ltb,
  le→leb, if◌then◌else◌, mod-lt,
}
use tateyama_bootstrap.Wire.Ring.{
  Ring, stored, index, add_size, read_address, copy_out, read_from_buffer, max_payload_length,
  min_size,
}
use tateyama_bootstrap.Wire.Ring.Counters.{IsValid, stored-eq-sub}
use tateyama_bootstrap.Wire.Simple.{read_first}

-- The view that `payload` returns: in the ring, with `need_dispose_`, or of a copy that it reads.
pub data View : Type 0 where
  in_place : ℕ → ℕ → View
  copied : View

unfoldable pub payload : ℕ → Ring → ℕ → View
unfolding index read_address
payload header_size r len =
    if ltb (index r (add_size r.poped header_size))
      (index r (add_size (add_size r.poped header_size) len))
    then in_place (read_address r header_size) (header_size + len)
    else copied

unfoldable pub dispose : ℕ → Ring → Ring
dispose need_dispose r =
    if ltb 0 need_dispose then record r { poped = add_size r.poped need_dispose } else r

-- A place below another, less than a ring's length further on, does not go over the end.
same_round : (p len cap : ℕ) → 0 < cap → len < cap → p % cap < (p + len) % cap → p % cap + len ≤ cap
same_round p len cap h hl lt = grind (arith, mod-lt p {m = cap} h, mod-lt (p + len) {m = cap} h)

in_place-parts : {a b m n : ℕ} → in_place a m ≡ in_place b n → (a ≡ b) × (m ≡ n)
in_place-parts h = (cc, cc)

-- Where the view is, if it is in place.
payload-in_place :
    {r : Ring} (v : IsValid r) (size len at_byte need : ℕ)
    → 0 < size
    → size + len ≤ stored r
    → payload size r len ≡ in_place at_byte need
    → (read_address r size ≡ at_byte)
      × (size + len ≡ need)
      × (read_address r size + len ≤ r.capacity)
unfolding payload index read_address
payload-in_place {r} v size len at_byte need hs h e =
    let held = stored-eq-sub v in
    let start : add_size r.poped size ≡ r.poped + size = omega (arith, v.young, held) in
    let stop : add_size (add_size r.poped size) len ≡ r.poped + size + len =
      omega (arith, v.young, held) in
    elim (Bool-cases
      (ltb (index r (add_size r.poped size)) (index r (add_size (add_size r.poped size) len)))) [
        | inr over ↦ absurd (let g = rw (over, payload) at e in cc)
        | inl below ↦
            let (p, n) = in_place-parts (
              let g : in_place (read_address r size) (size + len) ≡ in_place at_byte need =
                rw (below, payload) at e in
              g) in
            let less =
              subst (λ a. a % r.capacity < (r.poped + size + len) % r.capacity) start
                (subst (λ b. add_size r.poped size % r.capacity < b % r.capacity) stop
                  (ltb→lt _ _ below)) in
            let ends =
              same_round (r.poped + size) len r.capacity v.positive
                (omega (arith, h, held, v.within, v.behind)) less in
            (p, n, subst (λ a. a % r.capacity + len ≤ r.capacity) (sym start) ends)
      ]

-- For a message that is whole in the ring, a view in place shows the bytes that `read` copies, and
-- to dispose of it leaves the ring as `read` does, with nothing left to be read.
pub payload-eq-read :
    {r : Ring} (v : IsValid r) (size len at_byte need : ℕ)
    → 0 < size
    → size + len ≤ stored r
    → payload size r len ≡ in_place at_byte need
    → (copy_out r.buffer at_byte len ≡ (read_first size r len).bytes)
      × (dispose need r ≡ (read_first size r len).ring)
      × ((read_first size r len).left ≡ 0)
unfolding payload dispose read_first read_from_buffer min_size max_payload_length
payload-eq-read {r} v size len at_byte need hs h e =
    let (p, n, fits) = payload-in_place v size len at_byte need hs h e in
    let whole : min_size len (max_payload_length size r) ≡ len =
      ground (arith, h, stored-eq-sub v, v.small, v.within) in
    (
      ap (λ a. copy_out r.buffer a len) (sym p)
          ∙ sym (
              ap (read_from_buffer r.buffer r.capacity (read_address r size)) whole
              ∙ rw (le→leb (read_address r size + len) r.capacity fits, read_from_buffer)),
      rw (lt→ltb 0 need (omega (arith, n)), dispose)
          (ap (λ k. record r { poped = add_size r.poped k }) (omega (arith, n, whole))),
      omega (arith, whole),
    )
