-- ===== src/Wire/Pool/Acquire.antt =====
-- To acquire a wire of a result set keeps the buffers of the wires apart.
use tateyama_bootstrap.Prelude.{
  ℕ, ◌+◌, ◌^◌, ◌≤◌, ◌<◌, ◌≡◌, ◌≢◌, ◌⊎◌, inl, inr, refl, sym, ap, ap₂, ◌∙◌, true, false, Option,
  none, some, arith, length, ◌==◌, Bool-cases, if-true, if-false, ==_iff,
}
use tateyama_bootstrap.Reason.{out_of_range}
use tateyama_bootstrap.Wire.Ring.{add_size}
use tateyama_bootstrap.Wire.Pool.{
  Wires, done, throws, find_handle, found_free, search_free_wire, attach_at, attach_found,
  first_attached, more_attached, acquire, kept,
}
use tateyama_bootstrap.Wire.Pool.Search.{
  handle_at, in_use, in_use-none, get_elem_none, Found, find_handle-Found, none_free,
}
use tateyama_bootstrap.Wire.Pool.Sharing.{Apart, IsFresh, Given, attach_at_lem, give}

search_grows :
    (q : Wires)
    → (q.count_using == q.next_index) ≡ true
    → q.next_index < 2 ^ 63
    → search_free_wire q ≡ (
      done q.next_index,
      record q { count_using = q.count_using + 1; next_index = q.next_index + 1 },
    )
unfolding search_free_wire
search_grows q c h =
    if-true _ _ c
    ∙ ap₂ (λ a b. (done q.next_index, record q { count_using = a; next_index = b }))
        (let e : add_size q.count_using 1 ≡ q.count_using + 1 = ground (arith, c) in e)
        (let e : add_size q.next_index 1 ≡ q.next_index + 1 = omega arith in e)

search_finds :
    (q : Wires) (i : ℕ)
    → (q.count_using == q.next_index) ≡ false
    → q.count_using < 2 ^ 63
    → find_handle 0 q.wires q.next_index ≡ some i
    → search_free_wire q ≡ (done i, record q { count_using = q.count_using + 1 })
unfolding search_free_wire
search_finds q i c h e =
    if-false _ _ c
    ∙ ap (found_free q) e
    ∙ ap (λ a. (done i, record q { count_using = a })) (omega arith)

-- A search finds a free wire while there is one.
record Free (p : Wires) (reserved : ℕ) : Type 0 where
  place : ℕ
  next : ℕ
  result : search_free_wire (record p { reserved = reserved }) ≡ (
    done place,
    record p { reserved = reserved; count_using = p.count_using + 1; next_index = next },
  )
  free : handle_at p.wires place ≡ 0
  inside : place < next
  counted : p.count_using + 1 ≤ next
  known : next ≤ length p.wires
  beyond : (j : ℕ) → next ≤ j → handle_at p.wires j ≡ 0

find_handle-Free :
    (p : Wires) (reserved : ℕ) (o : Option ℕ)
    → Apart p
    → in_use p.wires < length p.wires
    → (p.count_using == p.next_index) ≡ false
    → find_handle 0 p.wires p.next_index ≡ o
    → Found 0 p.wires p.next_index o
    → Free p reserved
find_handle-Free p reserved none v left c e f =
    absurd (ground (arith, c, v.counted, v.within, none_free p.wires p.next_index v.known f))
find_handle-Free p reserved (some i) v left c e f = record {
  place = i;
  next = p.next_index;
  result = search_finds (record p { reserved = reserved }) i c (omega (arith, v)) e;
  free = f.0;
  inside = f.1;
  counted = ground (arith, c, v.within);
  known = v.known;
  beyond = v.beyond;
}

free_lem : (p : Wires) (reserved : ℕ) → Apart p → in_use p.wires < length p.wires → Free p reserved
free_lem p reserved v left = elim (Bool-cases (p.count_using == p.next_index)) [
  | inl c ↦ record {
    place = p.next_index;
    next = p.next_index + 1;
    result = search_grows (record p { reserved = reserved }) c (omega (arith, v));
    free = v.beyond p.next_index (omega arith);
    inside = omega arith;
    counted = omega (arith, v.within);
    known = ground (arith, c, v.counted, left);
    beyond = λ j le. v.beyond j (omega (arith, le));
  }
  | inr c ↦
      find_handle-Free p reserved (find_handle 0 p.wires p.next_index) v left c refl
        (find_handle-Found 0 p.wires p.next_index)
]

acquire_first :
    (allocated : Option ℕ) (p : Wires)
    → Apart p
    → in_use p.wires < length p.wires
    → p.count_using ≡ 0
    → (q : Wires) × (acquire allocated p ≡ (done 0, q)) × Given 0 p.reserved p q
unfolding acquire
acquire_first allocated p v left z = (
  _,
  if-true _ _ ((==_iff p.count_using 0).1 z)
      ∙ ap first_attached
          (attach_at_lem 0 p.reserved (record p { count_using = 1; next_index = 1 }) (omega arith)),
  give 0 p.reserved 1 1 0 true p v (omega arith) (none 0) (v.ready z)
      (λ j. v.kept_back j (v.ready z)) (omega (arith, v.ready z))
      (λ j pr. absurd (omega (arith, pr))) (omega (arith, z)) (omega arith) (λ j le. none j)
      (omega arith) (omega arith),
)
  where
    none : (j : ℕ) → handle_at p.wires j ≡ 0
    none = in_use-none p.wires (sym v.counted ∙ z)

-- A found wire gets its buffer.
attach_free :
    (buffer reserved : ℕ) (p : Wires)
    → Apart p
    → in_use p.wires < length p.wires
    → 0 < buffer
    → ((j : ℕ) → handle_at p.wires j ≢ buffer)
    → buffer ≢ reserved
    → ((j : ℕ) → 0 < reserved → handle_at p.wires j ≢ reserved)
    → (i : ℕ) × (q : Wires) × (attach_found buffer
          (search_free_wire (record p { reserved = reserved }))
        ≡ (done i, q))
      × Given i buffer p q
attach_free buffer reserved p v left pos fresh new kept =
    let f = free_lem p reserved v left in
    (
      f.place,
      _,
      ap (attach_found buffer) f.result
          ∙ ap more_attached (
              attach_at_lem f.place buffer
                (record p {
                  reserved = reserved;
                  count_using = p.count_using + 1;
                  next_index = f.next;
                })
                (omega (arith, f.inside, f.known))),
      give f.place buffer (p.count_using + 1) f.next reserved false p v
          (omega (arith, f.inside, f.known)) f.free pos fresh new kept refl f.counted f.beyond
          f.inside f.known,
    )

-- While a wire is left, `acquire` gives a wire that had no buffer the reserved buffer or, where
-- there is none, the one that is allocated; no other wire changes, and still no two wires share a
-- buffer. What is allocated is in use nowhere.
pub acquire-Given :
    (b : ℕ) (p : Wires)
    → Apart p
    → in_use p.wires < length p.wires
    → IsFresh b p
    → (i : ℕ) × (buffer : ℕ) × (q : Wires) × (acquire (some b) p ≡ (done i, q))
      × Given i buffer p q
      × (((p.reserved ≡ 0) × (buffer ≡ b)) ⊎ ((0 < p.reserved) × (buffer ≡ p.reserved)))
unfolding acquire
acquire-Given b p v left (pos, new, fresh) = elim (Bool-cases (p.count_using == 0)) [
  | inl z ↦
      let none_using = (==_iff p.count_using 0).0 z in
      let (q, e, g) = acquire_first (some b) p v left none_using in
      (0, p.reserved, q, e, g, inr (v.ready none_using, refl))
  | inr z ↦ elim (Bool-cases (p.reserved == 0)) [
    | inl r ↦
        let (i, q, e, g) = attach_free b p.reserved p v left pos fresh new v.kept_back in
        (i, b, q, if-false _ _ z ∙ if-true _ _ r ∙ e, g, inl ((==_iff p.reserved 0).0 r, refl))
    | inr r ↦
        let some_reserved : 0 < p.reserved = ground (arith, r) in
        let (i, q, e, g) =
          attach_free p.reserved 0 p v left some_reserved (λ j. v.kept_back j some_reserved)
            (omega (arith, some_reserved)) (λ j pr. absurd (omega (arith, pr))) in
        (i, p.reserved, q, if-false _ _ z ∙ if-false _ _ r ∙ e, g, inr (some_reserved, refl))
  ]
]

not_zero : (n : ℕ) → 0 < n → (n == 0) ≡ false
not_zero n h = ground arith

attach_at_out :
    (i buffer : ℕ) (p : Wires)
    → length p.wires ≤ i
    → attach_at i buffer p ≡ (throws out_of_range, p)
unfolding attach_at
attach_at_out i buffer p h = rw (get_elem_none p.wires i h, attach_at) refl

-- Where all wires are in use, `acquire` throws `std::out_of_range`, and the reserved buffer is lost:
-- it is no longer reserved, and no wire has it.
pub acquire-exhausted :
    (allocated : Option ℕ) (p : Wires)
    → Apart p
    → 0 < p.count_using
    → in_use p.wires ≡ length p.wires
    → 0 < p.reserved
    → (q : Wires) × (acquire allocated p ≡ (throws out_of_range, q))
      × (q.reserved ≡ 0)
      × ((i : ℕ) → handle_at q.wires i ≢ p.reserved)
unfolding acquire
acquire-exhausted allocated p v some_used full some_reserved = (
  record p { reserved = 0; count_using = p.count_using + 1; next_index = p.next_index + 1 },
  if-false _ _ (not_zero p.count_using some_used)
      ∙ if-false _ _ (not_zero p.reserved some_reserved)
      ∙ ap (attach_found p.reserved) (
          search_grows (record p { reserved = 0 })
            (ground (arith, v.counted, v.within, v.known, full)) (omega (arith, v)))
      ∙ ap more_attached (
          attach_at_out p.next_index p.reserved
            (record p {
              reserved = 0;
              count_using = p.count_using + 1;
              next_index = p.next_index + 1;
            })
            (omega (arith, v.counted, v.within, full))),
  refl,
  λ i. v.kept_back i some_reserved,
)
