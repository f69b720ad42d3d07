-- ===== src/Wire/Pool/Release.antt =====
-- To release a wire of a result set keeps the buffers of the wires apart.
use tateyama_bootstrap.Prelude.{
  same_or, ℕ, ◌<◌, ◌≡◌, ◌≢◌, ◌⊎◌, inl, inr, refl, sym, ap, ◌∙◌, List, Option, none, some, arith,
  length, length-set, get_elem?, set, ◌==◌, Bool-cases, if-true, if-false, ==_iff,
}
use native.Mathlib.Decide.{dec_lt}
use tateyama_bootstrap.Wire.Ring.{sub_size}
use tateyama_bootstrap.Wire.Pool.{
  Attached, Wires, done, reset_handle, find_handle, search_wire, kept, reset_at, release_found,
  release_wire, release,
}
use tateyama_bootstrap.Wire.Pool.Search.{
  handle_at, handle_at-set_self, handle_at-set_ne, handle_at-beyond, get_elem_at, in_use-set_less,
  Found, find_handle-Found,
}
use tateyama_bootstrap.Wire.Pool.Sharing.{Apart, set_distinct, set_avoids}

module _ (i : ℕ) (p : Wires) (v : Apart p) (h : 0 < handle_at p.wires i) where
  inside : i < length p.wires
  inside = elim (dec_lt i (length p.wires)) [
    | yes q ↦ q
    | no q ↦ absurd (omega (arith, h, handle_at-beyond p.wires i (omega arith)))
  ]

  known : i < p.next_index
  known = elim (dec_lt i p.next_index) [
    | yes q ↦ q
    | no q ↦ absurd (omega (arith, h, v.beyond i (omega arith)))
  ]

  -- The search for a wire's handle ends at the wire.
  found : (o : Option ℕ) → Found (handle_at p.wires i) p.wires p.next_index o → o ≡ some i
  found none f = absurd (f i known inside refl)
  found (some j) f = ap some (v.distinct j i (omega (arith, f.0, h)) f.0)

  search_wire_lem : search_wire (handle_at p.wires i) p ≡ done i
  unfolding search_wire
  search_wire_lem =
      rw
        (
          found (find_handle (handle_at p.wires i) p.wires p.next_index)
              (find_handle-Found (handle_at p.wires i) p.wires p.next_index),
          search_wire,
        )
        refl

  -- The wires after the release.
  abbrev left : Attached → List Attached
  left w = set p.wires i (reset_handle w)

  left_at : (w : Attached) → handle_at (left w) i ≡ 0
  unfolding reset_handle
  left_at w = handle_at-set_self p.wires i (reset_handle w) inside

  left_Apart :
      (w : Attached) (reserved : ℕ)
      → 0 < reserved
      → ((j : ℕ) → handle_at (left w) j ≢ reserved)
      → Apart
          (record p { wires = left w; count_using = sub_size p.count_using 1; reserved = reserved })
  unfolding reset_handle
  left_Apart w reserved pos fresh =
      let fewer = in_use-set_less p.wires i (reset_handle w) inside h refl in
      record {
        distinct =
            set_distinct p.wires i (reset_handle w) inside v.distinct
              (λ j pr. absurd (omega (arith, pr)));
        kept_back = λ j _. fresh j;
        counted = omega (arith, fewer, v);
        within = omega (arith, fewer, v);
        known = omega (arith, v.known, length-set p.wires i (reset_handle w));
        beyond = λ j le.
            handle_at-set_ne p.wires i j (reset_handle w) (λ e. omega (arith, e, le, known))
            ∙ v.beyond j le;
        ready = λ _. pos;
        few = omega (arith, v.few, length-set p.wires i (reset_handle w));
      }

  -- No wire that is left has the buffer that was released.
  left_avoids : (w : Attached) (j : ℕ) → handle_at (left w) j ≢ handle_at p.wires i
  left_avoids w j e = elim (same_or j i) [
    | inl a ↦ omega (arith, h, e, ap (handle_at (left w)) a, left_at w)
    | inr a ↦
        let same = handle_at-set_ne p.wires i j (reset_handle w) (λ q. a (sym q)) in
        a (v.distinct j i (omega (arith, h, e, same)) (sym same ∙ e))
  ]

  others_stay : (w : Attached) (j : ℕ) → j ≢ i → handle_at (left w) j ≡ handle_at p.wires j
  others_stay w j d = handle_at-set_ne p.wires i j (reset_handle w) (λ q. d (sym q))

  reserved_stays : (w : Attached) → 0 < p.reserved → (j : ℕ) → handle_at (left w) j ≢ p.reserved
  unfolding reset_handle
  reserved_stays w pos j =
      set_avoids p.wires i (reset_handle w) inside p.reserved (omega (arith, pos))
        (λ k. v.kept_back k pos) j

  release_eq :
      (w : Attached)
      → get_elem? p.wires i ≡ some w
      → w.handle ≡ handle_at p.wires i
      → release i p ≡ done (kept (handle_at p.wires i) (record p { wires = left w }))
  unfolding release
  release_eq w e hw =
      ap (release_wire p) e
      ∙ ap (λ k. release_found k p (search_wire k p)) hw
      ∙ ap (release_found (handle_at p.wires i) p) search_wire_lem
      ∙ ap (reset_at (handle_at p.wires i) p i) e

-- A wire that has a buffer can be released: only it loses its buffer, which becomes the reserved
-- one, or is deallocated where there is one; and still no two wires share a buffer.
pub release-Apart :
    (i : ℕ) (p : Wires)
    → Apart p
    → 0 < handle_at p.wires i
    → (q : Wires) × (freed : Option ℕ) × (release i p ≡ done (q, freed))
      × (handle_at q.wires i ≡ 0)
      × ((j : ℕ) → j ≢ i → handle_at q.wires j ≡ handle_at p.wires j)
      × Apart q
      × (((p.reserved ≡ 0) × (q.reserved ≡ handle_at p.wires i) × (freed ≡ none))
          ⊎ ((0 < p.reserved) × (q.reserved ≡ p.reserved) × (freed ≡ some (handle_at p.wires i))))
release-Apart i p v h =
    let (w, e, hw) = get_elem_at p.wires i (inside i p v h) in
    let b = handle_at p.wires i in
    let others = λ (j : ℕ) (d : j ≢ i). others_stay i p v h w j d in
    elim (Bool-cases (p.reserved == 0)) [
      | inl r ↦ (
        record p { wires = left i p v h w; count_using = sub_size p.count_using 1; reserved = b },
        none,
        release_eq i p v h w e hw ∙ ap done (if-true _ _ r),
        left_at i p v h w,
        others,
        left_Apart i p v h w b h (left_avoids i p v h w),
        inl ((==_iff p.reserved 0).0 r, refl, refl),
      )
      | inr r ↦
          let some_reserved : 0 < p.reserved = ground (arith, r) in
          (
            record p { wires = left i p v h w; count_using = sub_size p.count_using 1 },
            some b,
            release_eq i p v h w e hw ∙ ap done (if-false _ _ r),
            left_at i p v h w,
            others,
            left_Apart i p v h w p.reserved some_reserved (reserved_stays i p v h w some_reserved),
            inr (some_reserved, refl, refl),
          )
    ]
