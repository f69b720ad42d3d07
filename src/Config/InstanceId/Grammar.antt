-- ===== src/Config/InstanceId/Grammar.antt =====
-- The instance ids that src/tateyama/configuration/instance_id_helper.h takes, as a grammar: words of
-- lower-case letters and digits, with one hyphen between two words.
use tateyama_bootstrap.Prelude.{
  ℕ, suc, ◌-◌, ◌≤◌, ◌≡◌, ◌≢◌, refl, sym, ap, ◌∙◌, subst, inl, inr, List, [], ◌∷◌, Bool, true, false,
  none, ltb, ◌==◌, ==_iff, length, get_or, Bool-cases, Option-cases, map, arith, ◌↔◌, le→not-ltb,
}
use tateyama_bootstrap.Config.InstanceId.{
  valid, max_instance_id_length, hyphen, to_lower, is_alnum, scan, tolower_and_check,
}

pub data IsId : List ℕ → Type 0 where
  last : (c : ℕ) → is_alnum c ≡ true → IsId (c ∷ [])
  more : (c : ℕ) {cs : List ℕ} → is_alnum c ≡ true → IsId cs → IsId (c ∷ cs)
  next_word : (c : ℕ) {cs : List ℕ} → is_alnum c ≡ true → IsId cs → IsId (c ∷ hyphen ∷ cs)

-- The last character, of a text that has one.
abbrev last_of : ℕ → List ℕ → ℕ
last_of c [] = c
last_of c (d ∷ ds) = last_of d ds

-- What a text must be that may stand behind a hyphen.
behind_hyphen :
    (e : ℕ) (es : List ℕ) → scan true (e ∷ es) ≡ none → (is_alnum e ≡ true) × (scan false es ≡ none)
unfolding scan
behind_hyphen e es h = elim (Bool-cases (is_alnum e)) [
  | inl a ↦ (a, rw (a, scan) at h)
  | inr a ↦ elim (Bool-cases (e == hyphen)) [
    | inl y ↦ absurd (let g = rw (a, y, scan) at h in cc)
    | inr n ↦ absurd (let g = rw (a, n, scan) at h in cc)
  ]
]

-- A hyphen that the scan passes over.
pass_hyphen :
    (d : ℕ) (cs : List ℕ)
    → is_alnum d ≡ false
    → scan false (d ∷ cs) ≡ none
    → (d ≡ hyphen) × (scan true cs ≡ none)
unfolding scan
pass_hyphen d cs a h = elim (Bool-cases (d == hyphen)) [
  | inl y ↦ ((==_iff d hyphen).0 y, rw (a, y, scan) at h)
  | inr n ↦ absurd (let g = rw (a, n, scan) at h in cc)
]

pass_alnum :
    (d : ℕ) (cs : List ℕ) → is_alnum d ≡ true → scan false (d ∷ cs) ≡ none → scan false cs ≡ none
unfolding scan
pass_alnum d cs a h = rw (a, scan) at h

scan-IsId :
    (c : ℕ) (cs : List ℕ)
    → is_alnum c ≡ true
    → last_of c cs ≢ hyphen
    → scan false cs ≡ none
    → IsId (c ∷ cs)
scan-IsId c [] a l h = last c a
scan-IsId c (d ∷ []) a l h = elim (Bool-cases (is_alnum d)) [
  | inl b ↦ more c a (last d b)
  | inr b ↦ absurd (l (pass_hyphen d [] b h).0)
]
scan-IsId c (d ∷ e ∷ es) a l h = elim (Bool-cases (is_alnum d)) [
  | inl b ↦ more c a (scan-IsId d (e ∷ es) b l (pass_alnum d (e ∷ es) b h))
  | inr b ↦
      let (same, passed) = pass_hyphen d (e ∷ es) b h in
      let (f, rest) = behind_hyphen e es passed in
      subst (λ x. IsId (c ∷ x ∷ e ∷ es)) (sym same) (next_word c a (scan-IsId e es f l rest))
]

IsId-scan : (cs : List ℕ) (after_hyphen : Bool) → IsId cs → scan after_hyphen cs ≡ none
unfolding scan
IsId-scan _ f (last c a) = rw (a, scan)
IsId-scan _ f (more c a i) = rw (a, scan) (IsId-scan _ false i)
IsId-scan _ f (next_word c a i) = rw (a, scan) (IsId-scan _ true i)

get_or-last_of : (c : ℕ) (cs : List ℕ) → get_or (c ∷ cs) (length (c ∷ cs) - 1) 0 ≡ last_of c cs
get_or-last_of c [] = refl
get_or-last_of c (d ∷ ds) =
    ap (λ k. get_or (c ∷ d ∷ ds) k 0)
      (let e : length (c ∷ d ∷ ds) - 1 ≡ suc (length (d ∷ ds) - 1) = omega arith in e)
    ∙ get_or-last_of d ds

-- Lower case makes no hyphen, and leaves a hyphen one.
to_lower-hyphen : (c : ℕ) → (to_lower c ≡ hyphen) ↔ (c ≡ hyphen)
unfolding to_lower
to_lower-hyphen c = ground arith

last_of-map :
    (c : ℕ) (cs : List ℕ) → last_of (to_lower c) (map to_lower cs) ≡ to_lower (last_of c cs)
last_of-map c [] = refl
last_of-map c (d ∷ ds) = last_of-map d ds

alnum-not_hyphen : (c : ℕ) → is_alnum c ≡ true → c ≢ hyphen
unfolding is_alnum
alnum-not_hyphen c a = ground (arith, a)

IsId-last_of : (xs : List ℕ) → IsId xs → (d : ℕ) → last_of d xs ≢ hyphen
IsId-last_of _ (last c a) d = alnum-not_hyphen c a
IsId-last_of _ (more c a i) d = IsId-last_of _ i c
IsId-last_of _ (next_word c a i) d = IsId-last_of _ i hyphen

IsId-head : (c : ℕ) (cs : List ℕ) → IsId (c ∷ cs) → c ≢ hyphen
IsId-head _ _ (last c a) = alnum-not_hyphen c a
IsId-head _ _ (more c a i) = alnum-not_hyphen c a
IsId-head _ _ (next_word c a i) = alnum-not_hyphen c a

not-== : (a b : ℕ) → a ≢ b → (a == b) ≡ false
not-== a b h = ground (arith, h)

==-not : (a b : ℕ) → (a == b) ≡ false → a ≢ b
==-not a b h = ground (arith, h)

lowered-IsId :
    (c : ℕ) (cs : List ℕ)
    → c ≢ hyphen
    → last_of c cs ≢ hyphen
    → scan false (map to_lower (c ∷ cs)) ≡ none
    → IsId (map to_lower (c ∷ cs))
lowered-IsId c cs h l m = elim (Bool-cases (is_alnum (to_lower c))) [
  | inl a ↦
      scan-IsId (to_lower c) (map to_lower cs) a
        (λ z. l ((to_lower-hyphen (last_of c cs)).0 (sym (last_of-map c cs) ∙ z)))
        (pass_alnum (to_lower c) (map to_lower cs) a m)
  | inr a ↦ absurd (h ((to_lower-hyphen c).0 (pass_hyphen (to_lower c) (map to_lower cs) a m).0))
]

-- A text is taken as an instance id only if it is an id in lower case, and has at most 63
-- characters; what it is taken as is the text in lower case.
tolower_and_check-IsId :
    (s t : List ℕ)
    → tolower_and_check s ≡ valid t
    → (t ≡ map to_lower s) × IsId t × (length s ≤ max_instance_id_length)
unfolding tolower_and_check
tolower_and_check-IsId [] t h = absurd (cc)
tolower_and_check-IsId (c ∷ cs) t h =
    elim (Bool-cases (ltb max_instance_id_length (length (c ∷ cs)))) [
      | inl e ↦ absurd (let g = rw (e, tolower_and_check) at h in cc)
      | inr e ↦ elim (Bool-cases (c == hyphen)) [
        | inl f ↦ absurd (let g = rw (e, f, tolower_and_check) at h in cc)
        | inr f ↦ elim (Bool-cases (get_or (c ∷ cs) (length (c ∷ cs) - 1) 0 == hyphen)) [
          | inl k ↦ absurd (let g = rw (e, f, k, tolower_and_check) at h in cc)
          | inr k ↦ elim (Option-cases (scan false (map to_lower (c ∷ cs)))) [
            | inr (x, m) ↦ absurd (let g = rw (e, f, k, m, tolower_and_check) at h in cc)
            | inl m ↦
                let g : valid (map to_lower (c ∷ cs)) ≡ valid t =
                  rw (e, f, k, m, tolower_and_check) at h in
                let same : t ≡ map to_lower (c ∷ cs) = cc in
                (
                  same,
                  subst IsId (sym same) (
                      lowered-IsId c cs (==-not c hyphen f)
                        (λ z.
                          ==-not (get_or (c ∷ cs) (length (c ∷ cs) - 1) 0) hyphen k
                            (get_or-last_of c cs ∙ z))
                        m),
                  ground (arith, e),
                )
          ]
        ]
      ]
    ]

-- A text of at most 63 characters that is an id in lower case is taken as that id.
tolower_and_check_complete :
    (s : List ℕ)
    → length s ≤ max_instance_id_length
    → IsId (map to_lower s)
    → tolower_and_check s ≡ valid (map to_lower s)
unfolding tolower_and_check
tolower_and_check_complete [] h i = elim i [ ]
tolower_and_check_complete (c ∷ cs) h i = rw (
  le→not-ltb (length (c ∷ cs)) max_instance_id_length h,
  not-== c hyphen (λ z. IsId-head (to_lower c) (map to_lower cs) i ((to_lower-hyphen c).1 z)),
  not-== (get_or (c ∷ cs) (length (c ∷ cs) - 1) 0) hyphen (λ z.
      IsId-last_of (map to_lower (c ∷ cs)) i 0
        (last_of-map c cs ∙ (to_lower-hyphen (last_of c cs)).1 (sym (get_or-last_of c cs) ∙ z))),
  IsId-scan (map to_lower (c ∷ cs)) false i,
  tolower_and_check,
)

taken :
    (s t : List ℕ)
    → (t ≡ map to_lower s) × IsId t × (length s ≤ max_instance_id_length)
    → tolower_and_check s ≡ valid t
taken s t (e, i, l) = tolower_and_check_complete s l (subst IsId e i) ∙ ap valid (sym e)

-- A text is taken as an instance id just if in lower case it is that id, an id of the grammar, and it
-- has at most 63 characters.
pub tolower_and_check_iff :
    (s t : List ℕ)
    → (tolower_and_check s ≡ valid t
        → (t ≡ map to_lower s) × IsId t × (length s ≤ max_instance_id_length))
      × ((t ≡ map to_lower s) × IsId t × (length s ≤ max_instance_id_length)
          → tolower_and_check s ≡ valid t)
tolower_and_check_iff s t = (tolower_and_check-IsId s t, taken s t)
