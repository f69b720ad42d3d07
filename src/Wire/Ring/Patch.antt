-- ===== src/Wire/Ring/Patch.antt =====
-- Bytes of a ring that are passed over and filled in later, as the headers of result set records
-- of src/tateyama/transport/wire.h are.
use tateyama_bootstrap.Prelude.{
  ℕ, zero, suc, ◌+◌, ◌-◌, ◌%◌, ◌^◌, ◌≤◌, ◌<◌, ◌≡◌, refl, sym, ap, ap₂, ◌∙◌, List, [], ◌∷◌, ◌++◌,
  arith, append_assoc, append-split, length-append, take-all, get_or-set_ne, length, set,
}
use tateyama_bootstrap.Wire.Ring.{Ring, room, buffer_address, write_in_buffer, add_size}
use tateyama_bootstrap.Wire.Ring.Window.{
  window, length-window, window-add, put_from, length-put_from, window-put_from, add-mod-ne,
}
use tateyama_bootstrap.Wire.Ring.Copy.{write_in_buffer-eq-put_from}
use tateyama_bootstrap.Wire.Ring.Counters.{IsValid, contents, stored-eq-sub, room-add-stored}

-- A byte that is put before a window, less than a round before, is not seen in it.
window-set_before :
    (buffer : List ℕ) (cap x p k n : ℕ)
    → suc k + n ≤ cap
    → window (set buffer (p % cap) x) cap (p + suc k) n ≡ window buffer cap (p + suc k) n
window-set_before buffer cap x p k zero h = refl
window-set_before buffer cap x p k (suc n) h =
    ap₂ ◌∷◌ (get_or-set_ne buffer x 0 (λ e. add-mod-ne p {cap = cap} {k = k} (omega arith) (sym e)))
      (ap (λ q. window (set buffer (p % cap) x) cap q n)
          (let e : p + suc k + 1 ≡ p + suc (suc k) = omega arith in e)
        ∙ window-set_before buffer cap x p (suc k) n (omega arith)
        ∙ ap (λ q. window buffer cap q n)
            (let e : p + suc (suc k) ≡ p + suc k + 1 = omega arith in e))

-- So are bytes.
window-put_from_before :
    (xs : List ℕ) (buffer : List ℕ) (cap p n : ℕ)
    → length xs + n ≤ cap
    → window (put_from buffer cap p xs) cap (p + length xs) n ≡ window buffer cap (p + length xs) n
unfolding put_from
window-put_from_before [] buffer cap p n h = refl
window-put_from_before (x ∷ xs) buffer cap p n h =
    ap (λ q. window (put_from (set buffer (p % cap) x) cap (p + 1) xs) cap q n)
      (let e : p + suc (length xs) ≡ p + 1 + length xs = omega arith in e)
    ∙ window-put_from_before xs (set buffer (p % cap) x) cap (p + 1) n (omega arith)
    ∙ ap (λ q. window (set buffer (p % cap) x) cap q n)
        (let e : p + 1 + length xs ≡ p + suc (length xs) = omega arith in e)
    ∙ window-set_before buffer cap x p (length xs) n (omega arith)

-- Bytes put in the middle of a window stand there, and those before and behind them stay.
window-put_from_middle :
    (buffer : List ℕ) (cap p m n : ℕ) (xs : List ℕ)
    → cap ≤ length buffer
    → m + length xs + n ≤ cap
    → window (put_from buffer cap (p + m) xs) cap p (m + length xs + n)
      ≡ window buffer cap p m ++ (xs ++ window buffer cap (p + m + length xs) n)
window-put_from_middle buffer cap p m n xs hs h =
    window-add (put_from buffer cap (p + m) xs) cap p (m + length xs) n
    ∙ ap₂ ◌++◌ (window-put_from buffer cap p m xs hs (omega arith)) (
        ap (λ q. window (put_from buffer cap (p + m) xs) cap q n)
          (let e : p + (m + length xs) ≡ p + m + length xs = omega arith in e)
        ∙ window-put_from_before xs buffer cap (p + m) n (omega arith))
    ∙ append_assoc (window buffer cap p m) xs _

-- The state after room for `n` bytes has been passed over.
abbrev pub reserve : Ring → ℕ → Ring
reserve r n = record r { pushed = add_size r.pushed n }

-- The state after bytes have been put at count `p`.
abbrev pub patch : Ring → ℕ → List ℕ → ℕ → Ring
patch r p from n = record r {
  buffer = write_in_buffer r.buffer r.capacity (buffer_address r p) from n;
}

module _ {r : Ring} (v : IsValid r) where
  -- The bytes that are passed over are some bytes.
  pub contents-reserve :
      (n : ℕ)
      → n ≤ room r
      → r.pushed + n < 2 ^ 64
      → contents (reserve r n) ≡ contents r ++ window r.buffer r.capacity r.pushed n
  contents-reserve n h y =
      ap (window r.buffer r.capacity r.poped) (
        let e : add_size r.pushed n - r.poped ≡ (r.pushed - r.poped) + n =
          omega (arith, v.behind) in
        e)
      ∙ window-add r.buffer r.capacity r.poped (r.pushed - r.poped) n
      ∙ ap (λ q. contents r ++ window r.buffer r.capacity q n)
          (let e : r.poped + (r.pushed - r.poped) ≡ r.pushed = omega (arith, v.behind) in e)

  pub reserve-IsValid : (n : ℕ) → n ≤ room r → r.pushed + n < 2 ^ 64 → IsValid (reserve r n)
  reserve-IsValid n h y = record {
    positive = v.positive;
    storage = v.storage;
    small = v.small;
    behind = omega (arith, v.behind);
    within = omega (arith, room-add-stored v, stored-eq-sub v, v.behind);
    young = omega arith;
  }

  patch_buffer :
      (m : ℕ) (from : List ℕ)
      → length from ≤ r.capacity
      → write_in_buffer r.buffer r.capacity (buffer_address r (r.poped + m)) from (length from)
        ≡ put_from r.buffer r.capacity (r.poped + m) from
  unfolding buffer_address
  patch_buffer m from h =
      write_in_buffer-eq-put_from r.buffer r.capacity (r.poped + m) from (length from) v.positive h
        (omega arith)
      ∙ ap (put_from r.buffer r.capacity (r.poped + m)) (take-all (length from) from (omega arith))

  -- Behind the first bytes `a` of the ring, as many bytes as `from` has become `from`.
  pub contents-patch :
      (a b c from : List ℕ)
      → contents r ≡ a ++ (b ++ c)
      → length b ≡ length from
      → contents (patch r (r.poped + length a) from (length from)) ≡ a ++ (from ++ c)
  contents-patch a b c from e l =
      let n = length from in
      let held : length (contents r) ≡ length a + (n + length c) =
        ap length e ∙ length-append a (b ++ c) ∙ omega (arith, length-append b c) in
      let total : r.pushed - r.poped ≡ length a + n + length c =
        omega (arith, held, length-window r.buffer r.capacity r.poped (r.pushed - r.poped)) in
      let parts : window r.buffer r.capacity r.poped (length a)
            ++ (window r.buffer r.capacity (r.poped + length a) n
                ++ window r.buffer r.capacity (r.poped + length a + n) (length c))
          ≡ a ++ (b ++ c) =
        sym (
          ap (window r.buffer r.capacity r.poped) (total ∙ omega arith)
          ∙ window-add r.buffer r.capacity r.poped (length a) (n + length c)
          ∙ ap (◌++◌ (window r.buffer r.capacity r.poped (length a)))
              (window-add r.buffer r.capacity (r.poped + length a) n (length c)))
        ∙ e in
      let (front, behind) =
        append-split (window r.buffer r.capacity r.poped (length a)) a
          (length-window r.buffer r.capacity r.poped (length a)) parts in
      let (_, back) =
        append-split (window r.buffer r.capacity (r.poped + length a) n) b
          (length-window r.buffer r.capacity (r.poped + length a) n ∙ sym l) behind in
      ap₂ (λ q k. window q r.capacity r.poped k)
        (patch_buffer (length a) from (omega (arith, v.within, v.behind, total))) total
      ∙ window-put_from_middle r.buffer r.capacity r.poped (length a) (length c) from v.storage
          (omega (arith, v.within, v.behind, total))
      ∙ ap₂ (λ x y. x ++ (from ++ y)) front back

  pub patch-IsValid :
      (m : ℕ) (from : List ℕ)
      → length from ≤ r.capacity
      → IsValid (patch r (r.poped + m) from (length from))
  patch-IsValid m from h = record {
    positive = v.positive;
    storage = rw (patch_buffer m from h, length-put_from) v.storage;
    small = v.small;
    behind = v.behind;
    within = v.within;
    young = v.young;
  }
