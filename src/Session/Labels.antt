-- ===== src/Session/Labels.antt =====
-- The short session list of src/tateyama/session/session.cpp names a session by its label only if no
-- other session has it.
use native.Mathlib.Decide.{dec_lt}
use tateyama_bootstrap.Prelude.{
  ℕ, zero, suc, ◌+◌, ◌≤◌, ◌<◌, ◌≡◌, refl, sym, ap, ◌∙◌, List, [], ◌∷◌, true, false, some, arith,
  same_or, inl, inr, get_elem?, if◌then◌else◌,
}
use tateyama_bootstrap.Session.{Entry, Flags, same_text, count_label, by_id}

same_text_self : (a : List ℕ) → same_text a a ≡ true
unfolding same_text
same_text_self [] = refl
same_text_self (x ∷ xs) = ground (arith, same_text_self xs)

some-inj : {A : Type 0} {a b : A} → some a ≡ some b → a ≡ b
some-inj e = cc

counts_first :
    (label : List ℕ) (e : Entry) (es : List Entry)
    → e.label ≡ label
    → count_label label (e ∷ es) ≡ 1 + count_label label es
unfolding count_label
counts_first label e es h =
    ap (λ b. (if b then 1 else 0) + count_label label es)
      (ap (same_text label) h ∙ same_text_self label)

count_later :
    (label : List ℕ) (e : Entry) (es : List Entry)
    → count_label label es ≤ count_label label (e ∷ es)
unfolding count_label
count_later label e es = ground arith

-- A label is counted at each place where a session has it.
count_once :
    (label : List ℕ) (es : List Entry) (i : ℕ) (a : Entry)
    → get_elem? es i ≡ some a
    → a.label ≡ label
    → 1 ≤ count_label label es
count_once label [] i a e h = absurd (let g = e in cc)
count_once label (b ∷ es) zero a e h =
    omega (arith, counts_first label b es (ap (λ x. x.label) (some-inj e) ∙ h))
count_once label (b ∷ es) (suc i) a e h =
    omega (arith, count_later label b es, count_once label es i a e h)

count_twice :
    (label : List ℕ) (es : List Entry) (i j : ℕ) (a b : Entry)
    → i < j
    → get_elem? es i ≡ some a
    → get_elem? es j ≡ some b
    → a.label ≡ label
    → b.label ≡ label
    → 2 ≤ count_label label es
count_twice label [] i j a b lt e g h k = absurd (let q = e in cc)
count_twice label (c ∷ es) i zero a b lt e g h k = absurd (omega (arith, lt))
count_twice label (c ∷ es) zero (suc j) a b lt e g h k = omega (
  arith,
  counts_first label c es (ap (λ x. x.label) (some-inj e) ∙ h),
  count_once label es j b g k,
)
count_twice label (c ∷ es) (suc i) (suc j) a b lt e g h k =
    omega (arith, count_later label c es, count_twice label es i j a b (omega (arith, lt)) e g h k)

few_labels :
    (f : Flags) (es : List Entry) (e : Entry) → by_id f es e ≡ false → count_label e.label es ≤ 1
unfolding by_id
few_labels f es e h = ground (arith, h)

-- Two sessions that are listed by their labels have different labels: a label that is printed is
-- the label of one session only.
pub by_id_unique :
    (f : Flags) (es : List Entry) (i j : ℕ) (a b : Entry)
    → get_elem? es i ≡ some a
    → get_elem? es j ≡ some b
    → by_id f es a ≡ false
    → by_id f es b ≡ false
    → a.label ≡ b.label
    → i ≡ j
by_id_unique f es i j a b e g p q h = elim (same_or i j) [
  | inl same ↦ same
  | inr d ↦
      let few_a = few_labels f es a p in
      let few_b = few_labels f es b q in
      elim (dec_lt i j) [
        | yes lt ↦ absurd (omega (arith, few_a, count_twice a.label es i j a b lt e g refl (sym h)))
        | no le ↦
            absurd (
              omega
                (arith, few_b, count_twice b.label es j i b a (omega (arith, le, d)) g e refl h))
      ]
]
