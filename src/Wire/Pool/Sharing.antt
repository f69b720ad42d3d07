-- ===== src/Wire/Pool/Sharing.antt =====
-- That the wires of a result set do not share buffers, and that a free wire may get a fresh one.
use tateyama_bootstrap.Prelude.{
  same_or, ℕ, ◌+◌, ◌^◌, ◌≤◌, ◌<◌, ◌≡◌, ◌≢◌, inl, inr, refl, sym, ap, ◌∙◌, subst, List, Bool, some,
  arith, length, length-set, length-replicate, set,
}
use tateyama_bootstrap.Wire.Pool.{Attached, Wires, done, create, attach_buffer, attach_at, kept}
use tateyama_bootstrap.Wire.Pool.Search.{
  handle_at, in_use, handle_at-set_self, handle_at-set_ne, get_elem_at, in_use-set_more, detached,
  handle_at-replicate, in_use-replicate,
}

-- Two wires with buffers have two buffers, and the reserved one is a third; the counters count.
pub record Apart (p : Wires) : Type 0 where
  pub distinct :
      (i j : ℕ) → 0 < handle_at p.wires i → handle_at p.wires i ≡ handle_at p.wires j → i ≡ j
  pub kept_back : (i : ℕ) → 0 < p.reserved → handle_at p.wires i ≢ p.reserved
  pub counted : p.count_using ≡ in_use p.wires
  pub within : p.count_using ≤ p.next_index
  pub known : p.next_index ≤ length p.wires
  pub beyond : (i : ℕ) → p.next_index ≤ i → handle_at p.wires i ≡ 0
  pub ready : p.count_using ≡ 0 → 0 < p.reserved
  pub few : length p.wires < 2 ^ 63

-- A buffer that no wire has, and that is not reserved.
abbrev pub IsFresh : ℕ → Wires → Type 0
IsFresh buffer p = (0 < buffer) × (buffer ≢ p.reserved) × ((i : ℕ) → handle_at p.wires i ≢ buffer)

-- The wire at `i` has got `buffer`, and the others have what they had.
pub record Given (i buffer : ℕ) (p q : Wires) : Type 0 where
  pub free : handle_at p.wires i ≡ 0
  pub got : handle_at q.wires i ≡ buffer
  pub others : (j : ℕ) → j ≢ i → handle_at q.wires j ≡ handle_at p.wires j
  pub apart : Apart q

module _ (ws : List Attached) (k : ℕ) (w : Attached) (h : k < length ws) where
  pub set_distinct :
      ((i j : ℕ) → 0 < handle_at ws i → handle_at ws i ≡ handle_at ws j → i ≡ j)
      → ((i : ℕ) → 0 < w.handle → handle_at ws i ≢ w.handle)
      → (i j : ℕ) → 0 < handle_at (set ws k w) i
      → handle_at (set ws k w) i ≡ handle_at (set ws k w) j
      → i ≡ j
  set_distinct d f i j p e = elim (same_or i k) [
    | inl a ↦ elim (same_or j k) [
      | inl b ↦ a ∙ sym b
      | inr b ↦
          let own : handle_at (set ws k w) i ≡ w.handle =
            ap (handle_at (set ws k w)) a ∙ handle_at-set_self ws k w h in
          absurd (
            f j (omega (arith, own, p))
              (sym (handle_at-set_ne ws k j w (λ q. b (sym q))) ∙ sym e ∙ own))
    ]
    | inr a ↦
        let other = handle_at-set_ne ws k i w (λ q. a (sym q)) in
        elim (same_or j k) [
          | inl b ↦
              let own : handle_at (set ws k w) j ≡ w.handle =
                ap (handle_at (set ws k w)) b ∙ handle_at-set_self ws k w h in
              absurd (f i (omega (arith, own, p, e)) (sym other ∙ e ∙ own))
          | inr b ↦
              d i j (omega (arith, other, p))
                (sym other ∙ e ∙ handle_at-set_ne ws k j w (λ q. b (sym q)))
        ]
  ]

  pub set_avoids :
      (b : ℕ)
      → w.handle ≢ b
      → ((i : ℕ) → handle_at ws i ≢ b)
      → (i : ℕ) → handle_at (set ws k w) i ≢ b
  set_avoids b d f i e = elim (same_or i k) [
    | inl a ↦ d (sym (ap (handle_at (set ws k w)) a ∙ handle_at-set_self ws k w h) ∙ e)
    | inr a ↦ f i (sym (handle_at-set_ne ws k i w (λ q. a (sym q))) ∙ e)
  ]

-- The state in which a wire that was free has a buffer.
abbrev pub given : ℕ → ℕ → Wires → Wires
given i buffer p = record p {
  wires = set p.wires i (record { handle = buffer; capacity = p.buffer_size });
}

pub attach_at_lem :
    (i buffer : ℕ) (p : Wires)
    → i < length p.wires
    → attach_at i buffer p ≡ (done i, given i buffer p)
unfolding attach_at attach_buffer
attach_at_lem i buffer p h = let (w, e, _) = get_elem_at p.wires i h in rw (e, attach_at) refl

-- A free wire gets a fresh buffer, while the counters and the reserve become these.
pub give :
    (i buffer count next reserved : ℕ) (only : Bool) (p : Wires)
    → Apart p
    → i < length p.wires
    → handle_at p.wires i ≡ 0
    → 0 < buffer
    → ((j : ℕ) → handle_at p.wires j ≢ buffer)
    → buffer ≢ reserved
    → ((j : ℕ) → 0 < reserved → handle_at p.wires j ≢ reserved)
    → count ≡ p.count_using + 1
    → count ≤ next
    → ((j : ℕ) → next ≤ j → handle_at p.wires j ≡ 0)
    → i < next
    → next ≤ length p.wires
    → Given i buffer p (record (given i buffer p) {
      count_using = count;
      next_index = next;
      reserved = reserved;
      only_one_buffer = only;
    })
give i buffer count next reserved only p v h free pos fresh new kept counts within grows known all =
    let w : Attached = record { handle = buffer; capacity = p.buffer_size } in
    record {
      free = free;
      got = handle_at-set_self p.wires i w h;
      others = λ j d. handle_at-set_ne p.wires i j w (λ e. d (sym e));
      apart = record {
        distinct = set_distinct p.wires i w h v.distinct (λ j _. fresh j);
        kept_back = λ j pr. set_avoids p.wires i w h reserved new (λ k. kept k pr) j;
        counted = counts ∙ omega (arith, v.counted, in_use-set_more p.wires i w h free pos);
        within = within;
        known = omega (arith, all, length-set p.wires i w);
        beyond =
            λ j le. handle_at-set_ne p.wires i j w (λ e. omega (arith, e, le, known)) ∙ grows j le;
        ready = λ e. absurd (omega (arith, e, counts));
        few = omega (arith, v.few, length-set p.wires i w);
      };
    }

done-inj : {A : Type 0} {a b : A} → done a ≡ done b → a ≡ b
done-inj e = cc

-- The wires are apart when they are made.
pub create-Apart :
    (count buffer_size buffer : ℕ) (p : Wires)
    → count < 2 ^ 63
    → 0 < buffer
    → create count buffer_size (some buffer) ≡ done p
    → Apart p
unfolding create
create-Apart count buffer_size buffer p few pos e = subst Apart (done-inj e) (record {
  distinct = λ i j pr _. absurd (omega (arith, pr, handle_at-replicate count i));
  kept_back = λ i pr eq. omega (arith, pr, eq, handle_at-replicate count i);
  counted = sym (in_use-replicate count);
  within = omega arith;
  known = omega arith;
  beyond = λ i _. handle_at-replicate count i;
  ready = λ _. pos;
  few = omega (arith, few, length-replicate count detached);
})
