-- ===== src/Wire/Ring/Copy.antt =====
-- `write_in_buffer` and `read_from_buffer` of src/tateyama/transport/wire.h against the ring seen
-- one byte at a time.
use native.Mathlib.Nat.{mod_self}
use tateyama_bootstrap.Prelude.{
  ℕ, zero, suc, ◌+◌, ◌-◌, ◌%◌, ◌≤◌, ◌<◌, ◌≡◌, refl, sym, ap, ap₂, ◌∙◌, inl, inr, List, [], ◌∷◌,
  ◌++◌, arith, length, length-take, length-drop, get_or, set, take, drop, take-add, mod-eq_of_lt,
  mod-add-mod, mod-lt, leb, Bool-cases,
}
use tateyama_bootstrap.Wire.Ring.{copy_in, copy_out, write_in_buffer, read_from_buffer}
use tateyama_bootstrap.Wire.Ring.Window.{window, window-add, put_from}

-- One step on from a count whose index is `i`.
index-suc : (p cap i : ℕ) → i ≡ p % cap → suc i < cap → suc i ≡ (p + 1) % cap
index-suc p cap i e h =
    omega (arith, mod-add-mod p cap 1, mod-eq_of_lt {n = p % cap + 1} {m = cap} (omega arith))

-- The steps that lead from an index to the end of the buffer lead to index 0.
pub index_round : (p cap : ℕ) → 0 < cap → (p + (cap - p % cap)) % cap ≡ 0
index_round p cap h = omega (
  arith,
  mod-add-mod p cap (cap - p % cap),
  mod-lt p {m = cap} h,
  mod_self cap,
  ap (λ k. k % cap)
      (let e : p % cap + (cap - p % cap) ≡ cap = omega (arith, mod-lt p {m = cap} h) in e),
)

copy_in-eq-put_from :
    (xs : List ℕ) (buffer : List ℕ) (cap p i : ℕ)
    → i ≡ p % cap
    → i + length xs ≤ cap
    → copy_in buffer i xs ≡ put_from buffer cap p xs
unfolding copy_in put_from
copy_in-eq-put_from [] buffer cap p i e h = refl
copy_in-eq-put_from (x ∷ []) buffer cap p i e h = ap (λ k. set buffer k x) e
copy_in-eq-put_from (x ∷ y ∷ xs) buffer cap p i e h =
    copy_in-eq-put_from (y ∷ xs) (set buffer i x) cap (p + 1) (suc i)
      (index-suc p cap i e (omega arith)) (omega arith)
    ∙ ap (λ k. put_from (set buffer k x) cap (p + 1) (y ∷ xs)) e

put_from-append :
    (xs ys : List ℕ) (buffer : List ℕ) (cap p : ℕ)
    → put_from (put_from buffer cap p xs) cap (p + length xs) ys ≡ put_from buffer cap p (xs ++ ys)
unfolding put_from
put_from-append [] ys buffer cap p = ap (λ k. put_from buffer cap k ys) (omega arith)
put_from-append (x ∷ xs) ys buffer cap p =
    ap (λ k. put_from (put_from (set buffer (p % cap) x) cap (p + 1) xs) cap k ys) (omega arith)
    ∙ put_from-append xs ys (set buffer (p % cap) x) cap (p + 1)

-- Counts with one index put bytes at the same places.
put_from-mod :
    (xs : List ℕ) (buffer : List ℕ) (cap p q : ℕ)
    → p % cap ≡ q % cap
    → put_from buffer cap p xs ≡ put_from buffer cap q xs
unfolding put_from
put_from-mod [] buffer cap p q e = refl
put_from-mod (x ∷ xs) buffer cap p q e =
    put_from-mod xs (set buffer (p % cap) x) cap (p + 1) (q + 1)
      (sym (mod-add-mod p cap 1) ∙ ap (λ k. (k + 1) % cap) e ∙ mod-add-mod q cap 1)
    ∙ ap (λ k. put_from (set buffer k x) cap (q + 1) xs) e

-- Bytes put up to the end of the buffer, and the others from its start.
put_from_round :
    (buffer : List ℕ) (cap p : ℕ) (xs ys : List ℕ)
    → 0 < cap
    → p % cap + length xs ≡ cap
    → length ys ≤ cap
    → copy_in (copy_in buffer (p % cap) xs) 0 ys ≡ put_from buffer cap p (xs ++ ys)
put_from_round buffer cap p xs ys h e hn =
    ap (λ l. copy_in l 0 ys) (copy_in-eq-put_from xs buffer cap p (p % cap) refl (omega arith))
    ∙ copy_in-eq-put_from ys (put_from buffer cap p xs) cap (p + length xs) 0
        (sym (ap (λ k. (p + k) % cap) (omega arith) ∙ index_round p cap h)) (omega arith)
    ∙ put_from-append xs ys buffer cap p

-- The copy in one or two parts puts the first `n` bytes where the byte-wise copy puts them, in a
-- buffer of any size that is not empty, for at most `cap` bytes.
pub write_in_buffer-eq-put_from :
    (buffer : List ℕ) (cap p : ℕ) (from : List ℕ) (n : ℕ)
    → 0 < cap
    → n ≤ cap
    → n ≤ length from
    → write_in_buffer buffer cap (p % cap) from n ≡ put_from buffer cap p (take n from)
unfolding write_in_buffer
write_in_buffer-eq-put_from buffer cap p from n h hn hl =
    elim (Bool-cases (leb (p % cap + n) cap)) [
      | inl fits ↦ rw fits (
          copy_in-eq-put_from (take n from) buffer cap p (p % cap) refl
            (ground (arith, length-take n from)))
      | inr wraps ↦
          let first = cap - p % cap in
          let over : cap < p % cap + n = ground arith in
          let below = mod-lt p {m = cap} h in
          rw wraps (
            put_from_round buffer cap p (take first from) (take (n - first) (drop first from)) h
              (omega (arith, length-take first from, below))
              (omega (arith, length-take (n - first) (drop first from), length-drop first from))
            ∙ ap (put_from buffer cap p) (
                take-add first (n - first) from
                ∙ ap (λ k. take k from)
                    (let e : first + (n - first) ≡ n = omega (arith, below) in e)))
    ]

take-drop-suc :
    (xs : List ℕ) (i n : ℕ)
    → i < length xs
    → take (suc n) (drop i xs) ≡ get_or xs i 0 ∷ take n (drop (suc i) xs)
take-drop-suc [] i n h = absurd (omega arith)
take-drop-suc (x ∷ xs) zero n h = refl
take-drop-suc (x ∷ xs) (suc i) n h = take-drop-suc xs i n (omega arith)

copy_out-eq-window :
    (n : ℕ) (buffer : List ℕ) (cap p i : ℕ)
    → cap ≤ length buffer
    → i ≡ p % cap
    → i + n ≤ cap
    → copy_out buffer i n ≡ window buffer cap p n
unfolding copy_out
copy_out-eq-window zero buffer cap p i hs e h = refl
copy_out-eq-window (suc zero) buffer cap p i hs e h =
    take-drop-suc buffer i 0 (omega arith) ∙ ap (λ k. get_or buffer k 0 ∷ []) e
copy_out-eq-window (suc (suc n)) buffer cap p i hs e h =
    take-drop-suc buffer i (suc n) (omega arith)
    ∙ ap₂ (λ k l. get_or buffer k 0 ∷ l) e
        (copy_out-eq-window (suc n) buffer cap (p + 1) (suc i) hs
          (index-suc p cap i e (omega arith)) (omega arith))

window-mod :
    (n : ℕ) (buffer : List ℕ) (cap p q : ℕ)
    → p % cap ≡ q % cap
    → window buffer cap p n ≡ window buffer cap q n
window-mod zero buffer cap p q e = refl
window-mod (suc n) buffer cap p q e =
    ap₂ (λ k l. get_or buffer k 0 ∷ l) e
      (window-mod n buffer cap (p + 1) (q + 1)
        (sym (mod-add-mod p cap 1) ∙ ap (λ k. (k + 1) % cap) e ∙ mod-add-mod q cap 1))

-- Bytes read up to the end of the buffer, and the others from its start.
copy_out_round :
    (buffer : List ℕ) (cap p m n : ℕ)
    → 0 < cap
    → cap ≤ length buffer
    → p % cap + m ≡ cap
    → n ≤ cap
    → copy_out buffer (p % cap) m ++ copy_out buffer 0 n ≡ window buffer cap p (m + n)
copy_out_round buffer cap p m n h hs e hn =
    ap₂ ◌++◌ (copy_out-eq-window m buffer cap p (p % cap) hs refl (omega arith)) (
      copy_out-eq-window n buffer cap (p + m) 0 hs
        (sym (ap (λ k. (p + k) % cap) (omega arith) ∙ index_round p cap h)) (omega arith))
    ∙ sym (window-add buffer cap p m n)

-- The read in one or two parts gives the bytes of the window, whatever the position, for at most
-- `cap` bytes.
pub read_from_buffer-eq-window :
    (buffer : List ℕ) (cap p n : ℕ)
    → 0 < cap
    → cap ≤ length buffer
    → n ≤ cap
    → read_from_buffer buffer cap (p % cap) n ≡ window buffer cap p n
unfolding read_from_buffer
read_from_buffer-eq-window buffer cap p n h hs hn = elim (Bool-cases (leb (p % cap + n) cap)) [
  | inl fits ↦ rw fits (copy_out-eq-window n buffer cap p (p % cap) hs refl (ground arith))
  | inr wraps ↦
      let first = cap - p % cap in
      let over : cap < p % cap + n = ground arith in
      let below = mod-lt p {m = cap} h in
      rw wraps (
        copy_out_round buffer cap p first (n - first) h hs (omega (arith, below)) (omega arith)
        ∙ ap (window buffer cap p) (omega arith))
]
