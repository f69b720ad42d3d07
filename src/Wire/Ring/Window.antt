-- ===== src/Wire/Ring/Window.antt =====
-- The bytes of a ring as seen through its counters, one at a time.
use native.Mathlib.Decide.{dec_lt}
use native.Mathlib.Nat.{add-zero}
use tateyama_bootstrap.Prelude.{
  ℕ, zero, suc, ◌+◌, ◌-◌, ◌%◌, ◌≤◌, ◌<◌, ◌≡◌, ◌≢◌, refl, ap, ap₂, ◌∙◌, List, [], ◌∷◌, ◌++◌,
  append-nil, append_assoc, arith, length, length-set, get_or, set, get_or-set_self, get_or-set_ne,
  mod-eq_of_lt, mod-add-mod, mod-eq-sub-mod, mod-lt,
}

module _ (buffer : List ℕ) (cap : ℕ) where
  -- The `n` bytes from count `p` on.
  abbrev pub window : ℕ → ℕ → List ℕ
  window p zero = []
  window p (suc n) = get_or buffer (p % cap) 0 ∷ window (p + 1) n

  pub length-window : (p n : ℕ) → length (window p n) ≡ n
  length-window p zero = refl
  length-window p (suc n) = ap suc (length-window (p + 1) n)

  pub window-add : (p m n : ℕ) → window p (m + n) ≡ window p m ++ window (p + m) n
  window-add p zero n = ap₂ window (omega arith) (omega arith)
  window-add p (suc m) n =
      ap (window p) (let e : suc m + n ≡ suc (m + n) = omega arith in e)
      ∙ ap (◌∷◌ (get_or buffer (p % cap) 0)) (
          window-add (p + 1) m n
          ∙ ap (λ k. window (p + 1) m ++ window k n)
              (let e : p + 1 + m ≡ p + suc m = omega arith in e))

-- Bytes put one at a time from count `p` on.
unfoldable pub put_from : List ℕ → ℕ → ℕ → List ℕ → List ℕ
put_from buffer cap p [] = buffer
put_from buffer cap p (x ∷ xs) = put_from (set buffer (p % cap) x) cap (p + 1) xs

pub length-put_from :
    (buffer : List ℕ) (cap p : ℕ) (xs : List ℕ) → length (put_from buffer cap p xs) ≡ length buffer
unfolding put_from
length-put_from buffer cap p [] = refl
length-put_from buffer cap p (x ∷ xs) =
    length-put_from (set buffer (p % cap) x) cap (p + 1) xs ∙ length-set buffer (p % cap) x

-- Fewer than `cap` steps do not come back to the start.
pub add-mod-ne : (p : ℕ) {cap k : ℕ} → suc k < cap → (p + suc k) % cap ≢ p % cap
add-mod-ne p {cap} {k} hk = elim (dec_lt (p % cap + suc k) cap) [
  | yes q ↦ omega (arith, mod-add-mod p cap (suc k), mod-eq_of_lt q)
  | no q ↦ omega (
    arith,
    mod-add-mod p cap (suc k),
    mod-lt p {m = cap} (omega arith),
    mod-eq-sub-mod {n = p % cap + suc k} {m = cap} (omega arith),
    mod-eq_of_lt {n = p % cap + suc k - cap} {m = cap}
        (omega (arith, mod-lt p {m = cap} (omega arith))),
  )
]

window-set :
    (buffer : List ℕ) (cap x n p i : ℕ)
    → cap ≤ length buffer
    → n < cap
    → i ≡ (p + n) % cap
    → window (set buffer i x) cap p (suc n) ≡ window buffer cap p n ++ (x ∷ [])
window-set buffer cap x zero p i hs hn e = rw (
  e,
  add-zero,
  get_or-set_self buffer (p % cap) x 0 (omega (arith, mod-lt p {m = cap} (omega arith))),
)
window-set buffer cap x (suc n) p i hs hn e =
    ap₂ ◌∷◌ (get_or-set_ne buffer x 0 (rw e (add-mod-ne p hn)))
      (window-set buffer cap x n (p + 1) i hs (omega arith) (e ∙ ap (λ k. k % cap) (omega arith)))

-- What is put behind `n` bytes stands behind them, and they stay.
pub window-put_from :
    (buffer : List ℕ) (cap p n : ℕ) (xs : List ℕ)
    → cap ≤ length buffer
    → n + length xs ≤ cap
    → window (put_from buffer cap (p + n) xs) cap p (n + length xs) ≡ window buffer cap p n ++ xs
unfolding put_from
window-put_from buffer cap p n [] hs hn = rw (add-zero, append-nil)
window-put_from buffer cap p n (x ∷ xs) hs hn =
    ap₂ (λ q m. window (put_from (set buffer ((p + n) % cap) x) cap q xs) cap p m) (omega arith)
      (omega arith)
    ∙ window-put_from (set buffer ((p + n) % cap) x) cap p (suc n) xs
        (rw (length-set buffer ((p + n) % cap) x) hs) (omega arith)
    ∙ ap (λ l. l ++ xs) (window-set buffer cap x n p ((p + n) % cap) hs (omega arith) refl)
    ∙ append_assoc (window buffer cap p n) (x ∷ []) xs
