-- ===== src/Authentication/Names.antt =====
-- check_username of src/tateyama/authentication/authenticator.cpp against a description of the names
-- of users that does not speak of white space.
use tateyama_bootstrap.Prelude.{
  ℕ, ◌≡◌, ◌≢◌, refl, sym, ap, ◌∙◌, subst, ◌≤◌, ◌⊎◌, inl, inr, [], ◌∷◌, ◌++◌, Bool, true, false,
  ◌&&◌, Option, none, some, length, ltb, le→not-ltb, Bool-cases, if-true, if-false, arith,
}
use tateyama_bootstrap.Authentication.{Text, Attempt, gives, raises, standard}
use tateyama_bootstrap.Authentication.Service.{
  is_space, is_name_char, begins_with_space, ends_with_space, name_chars, maximum_username_length,
  check_username,
}

-- A blank or another character of ASCII that can be printed, or a byte above ASCII.
abbrev pub NameChar : ℕ → Type 0
NameChar c = ((32 ≤ c) × (c ≤ 126)) ⊎ ((128 ≤ c) × (c ≤ 255))

abbrev pub NameChars : Text → Type 0
NameChars [] = Unit {0}
NameChars (c ∷ cs) = NameChar c × NameChars cs

-- At most 1024 such characters, with no blank at either end.
abbrev pub Valid : Text → Type 0
Valid name =
    (length name ≤ 1024)
    × NameChars name
    × ((cs : Text) → name ≢ 32 ∷ cs)
    × ((cs : Text) → name ≢ cs ++ 32 ∷ [])

tested-NameChar : (c : ℕ) → is_name_char c ≡ true → NameChar c
tested-NameChar c e = ground arith

NameChar-tested : (c : ℕ) → NameChar c → is_name_char c ≡ true
NameChar-tested c e = ground arith

is_space→blank : (c : ℕ) → NameChar c → is_space c ≡ true → c ≡ 32
is_space→blank c v e = ground arith

and-left : (a b : Bool) → (a && b) ≡ true → a ≡ true
and-left a b e = ground arith

and-right : (a b : Bool) → (a && b) ≡ true → b ≡ true
and-right a b e = ground arith

name_chars→NameChars : (cs : Text) → name_chars cs ≡ true → NameChars cs
unfolding name_chars
name_chars→NameChars [] e = tt
name_chars→NameChars (c ∷ cs) e = (
  tested-NameChar c (and-left (is_name_char c) (name_chars cs) e),
  name_chars→NameChars cs (and-right (is_name_char c) (name_chars cs) e),
)

NameChars→name_chars : (cs : Text) → NameChars cs → name_chars cs ≡ true
unfolding name_chars
NameChars→name_chars [] v = refl
NameChars→name_chars (c ∷ cs) (v, vs) =
    ap (λ b. b && name_chars cs) (NameChar-tested c v) ∙ NameChars→name_chars cs vs

ends_with_space-blank : (cs : Text) → ends_with_space (cs ++ 32 ∷ []) ≡ true
unfolding ends_with_space
ends_with_space-blank [] = refl
ends_with_space-blank (c ∷ []) = refl
ends_with_space-blank (c ∷ d ∷ cs) = ends_with_space-blank (d ∷ cs)

ends_with_space→blank :
    (cs : Text) → NameChars cs → ends_with_space cs ≡ true → (bs : Text) × (cs ≡ bs ++ 32 ∷ [])
unfolding ends_with_space
ends_with_space→blank [] v e = cc
ends_with_space→blank (c ∷ []) (v, vs) e = ([], ap (λ x. x ∷ []) (is_space→blank c v e))
ends_with_space→blank (c ∷ d ∷ cs) (v, vs) e =
    let (bs, q) = ends_with_space→blank (d ∷ cs) vs e in (c ∷ bs, ap (λ x. c ∷ x) q)

begins_with_space→blank :
    (cs : Text) → NameChars cs → begins_with_space cs ≡ true → (bs : Text) × (cs ≡ 32 ∷ bs)
unfolding begins_with_space
begins_with_space→blank [] v e = cc
begins_with_space→blank (c ∷ cs) (v, vs) e = (cs, ap (λ x. x ∷ cs) (is_space→blank c v e))

-- What the tests of check_username say of a name that passes them.
abbrev pub Passes : Text → Type 0
Passes name =
    (begins_with_space name ≡ false)
    × (ends_with_space name ≡ false)
    × (ltb maximum_username_length (length name) ≡ false)
    × (name_chars name ≡ true)

check_username-Passes : (name : Text) → Passes name → check_username (some name) ≡ gives (some name)
unfolding check_username
check_username-Passes name (b, e, l, n) =
    if-false _ _ b ∙ (if-false _ _ e ∙ (if-false _ _ l ∙ if-true _ _ n))

Passes-check_username : (name : Text) → check_username (some name) ≡ gives (some name) → Passes name
unfolding check_username
Passes-check_username name g = elim (Bool-cases (begins_with_space name)) [
  | inl b ↦ cc
  | inr b ↦ elim (Bool-cases (ends_with_space name)) [
    | inl e ↦ cc
    | inr e ↦ elim (Bool-cases (ltb maximum_username_length (length name))) [
      | inl l ↦ cc
      | inr l ↦ elim (Bool-cases (name_chars name)) [ inl n ↦ (b, e, l, n) | inr n ↦ cc ]
    ]
  ]
]

Valid-Passes : (name : Text) → Passes name → Valid name
unfolding begins_with_space
Valid-Passes name (b, e, l, n) = (
  ground arith,
  name_chars→NameChars name n,
  (λ cs q. cc),
  (λ cs q. let t = ends_with_space-blank cs in cc),
)

Passes-Valid : (name : Text) → Valid name → Passes name
Passes-Valid name (l, v, first, last) = (
  elim (Bool-cases (begins_with_space name)) [
    | inl b ↦ let (bs, q) = begins_with_space→blank name v b in absurd (first bs q)
    | inr b ↦ b
  ],
  elim (Bool-cases (ends_with_space name)) [
    | inl e ↦ let (bs, q) = ends_with_space→blank name v e in absurd (last bs q)
    | inr e ↦ e
  ],
  le→not-ltb (length name) maximum_username_length l,
  NameChars→name_chars name v,
)

-- check_username takes a name just if it has at most 1024 characters, all of them printable or above
-- ASCII, and no blank at either end.
pub check_username-Valid :
    (name : Text)
    → (Valid name → check_username (some name) ≡ gives (some name))
      × (check_username (some name) ≡ gives (some name) → Valid name)
check_username-Valid name = (
  λ v. check_username-Passes name (Passes-Valid name v),
  λ g. Valid-Passes name (Passes-check_username name g),
)

check_username-cases :
    (name : Text)
    → (check_username (some name) ≡ gives (some name))
      ⊎ (check_username (some name) ≡ raises standard)
unfolding check_username
check_username-cases name = ground arith

gives-some-inj :
    (n name : Text)
    → ◌≡◌ {A = Attempt (Option Text)} (gives (some n)) (gives (some name))
    → n ≡ name
gives-some-inj n name e = cc

given : (n name : Text) → n ≡ name → Valid n → (some n ≡ some name) × Valid name
given n name e v = (ap some e, subst Valid e v)

-- A name that check_username gives is the one that it got.
pub check_username-gives :
    (o : Option Text) (name : Text)
    → check_username o ≡ gives (some name)
    → (o ≡ some name) × Valid name
unfolding check_username
check_username-gives none name e = cc
check_username-gives (some n) name e = elim (check_username-cases n) [
  | inl g ↦ given n name (gives-some-inj n name (sym g ∙ e)) ((check_username-Valid n).1 g)
  | inr r ↦ cc
]
