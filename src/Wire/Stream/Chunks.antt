-- ===== src/Wire/Stream/Chunks.antt =====
-- The chunks in which a message passes the wire.
use tateyama_bootstrap.Prelude.{
  ℕ, zero, suc, ◌≤◌, ◌<◌, ◌≡◌, refl, sym, ap, ◌∙◌, List, [], ◌∷◌, ◌++◌, arith, append_assoc, length,
  length-drop, take, drop,
}

abbrev pub flat : List (List ℕ) → List ℕ
flat [] = []
flat (c ∷ cs) = c ++ flat cs

pub flat-append : (cs ds : List (List ℕ)) → flat (cs ++ ds) ≡ flat cs ++ flat ds
flat-append [] ds = refl
flat-append (c ∷ cs) ds = ap (◌++◌ c) (flat-append cs ds) ∙ sym (append_assoc c (flat cs) (flat ds))

-- The pieces of at most `cap` bytes, on fuel.
cut : ℕ → ℕ → List ℕ → List (List ℕ)
cut zero cap xs = []
cut (suc f) cap [] = []
cut (suc f) cap (x ∷ xs) = take cap (x ∷ xs) ∷ cut f cap (drop cap (x ∷ xs))

cut-fuel :
    (f g cap : ℕ) (xs : List ℕ)
    → 0 < cap
    → length xs ≤ f
    → length xs ≤ g
    → cut f cap xs ≡ cut g cap xs
unfolding cut
cut-fuel zero zero cap [] h p q = refl
cut-fuel zero (suc g) cap [] h p q = refl
cut-fuel zero g cap (x ∷ xs) h p q = absurd (omega arith)
cut-fuel (suc f) zero cap [] h p q = refl
cut-fuel (suc f) (suc g) cap [] h p q = refl
cut-fuel (suc f) zero cap (x ∷ xs) h p q = absurd (omega arith)
cut-fuel (suc f) (suc g) cap (x ∷ xs) h p q = ap (◌∷◌ (take cap (x ∷ xs))) (
    cut-fuel f g cap (drop cap (x ∷ xs)) h (omega (arith, length-drop cap (x ∷ xs)))
      (omega (arith, length-drop cap (x ∷ xs))))

-- The turns of `write` for these bytes, on a wire of `cap` bytes.
pub chunks : ℕ → List ℕ → List (List ℕ)
unfolding cut
chunks cap xs = cut (length xs) cap xs

pub chunks-nil : (cap : ℕ) → chunks cap [] ≡ []
unfolding chunks
chunks-nil cap = refl

pub chunks-step :
    (cap : ℕ) (xs : List ℕ)
    → 0 < cap
    → 0 < length xs
    → chunks cap xs ≡ take cap xs ∷ chunks cap (drop cap xs)
unfolding chunks
chunks-step cap [] h p = elim p [ ]
chunks-step cap (x ∷ xs) h p = ap (◌∷◌ (take cap (x ∷ xs))) (
    cut-fuel (length xs) (length (drop cap (x ∷ xs))) cap (drop cap (x ∷ xs)) h
      (omega (arith, length-drop cap (x ∷ xs))) (omega arith))
