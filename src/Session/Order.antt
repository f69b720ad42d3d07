-- ===== src/Session/Order.antt =====
-- The session list of src/tateyama/session/session.cpp is in the order of the sessions' numbers, with
-- one line for each number.
use tateyama_bootstrap.Prelude.{
  ℕ, ◌≤◌, ◌<◌, ◌≡◌, inl, inr, refl, sym, ap, ◌∙◌, subst, List, [], ◌∷◌, Bool, false, Option, none,
  some, arith, ◌==◌, if◌then◌else◌, Option-cases,
}
use tateyama_bootstrap.Session.{
  Entry, Flags, Event, Output, emplace, session_number, row_of, Rows, rows, breaks, numbered,
  after_info, list_rows, to_monitor, session_info,
}

-- The keys are above `n`, and each is above those before it.
abbrev pub Above : ℕ → Output → Type 0
Above n [] = Unit {0}
Above n ((k, text) ∷ m) = (n < k) × Above k m

abbrev pub Sorted : Output → Type 0
Sorted [] = Unit {0}
Sorted ((k, text) ∷ m) = Above k m

abbrev pub lookup : ℕ → Output → Option (List ℕ)
lookup n [] = none
lookup n ((k, text) ∷ m) = let rest = lookup n m in if n == k then some text else rest

abbrev pub or_else : {A : Type 0} → Option A → Option A → Option A
or_else none o = o
or_else (some a) o = some a

emplace-Above :
    (k : ℕ) (v : List ℕ) (m : Output) (n : ℕ) → n < k → Above n m → Above n (emplace k v m)
unfolding emplace
emplace-Above k v [] n lt h = (lt, tt)
emplace-Above k v ((j, u) ∷ m) n lt h = ground (arith, lt, h, emplace-Above k v m j)

lookup-Above : (n j : ℕ) (m : Output) → j ≤ n → Above n m → lookup j m ≡ none
lookup-Above n j [] le h = refl
lookup-Above n j ((k, u) ∷ m) le h = ground (arith, le, h, lookup-Above k j m)

Above-Sorted : (n : ℕ) (m : Output) → Above n m → Sorted m
Above-Sorted n [] h = tt
Above-Sorted n ((k, u) ∷ m) h = h.1

emplace-lookup :
    (k : ℕ) (v : List ℕ) (m : Output) (j : ℕ)
    → Sorted m
    → lookup j (emplace k v m) ≡ or_else (lookup j m) (if j == k then some v else none)
unfolding emplace
emplace-lookup k v [] j h = ground arith
emplace-lookup k v ((i, u) ∷ m) j h =
    ground (arith, h, emplace-lookup k v m j (Above-Sorted i m h), lookup-Above i j m)

emplace-Sorted : (k : ℕ) (v : List ℕ) (m : Output) → Sorted m → Sorted (emplace k v m)
unfolding emplace
emplace-Sorted k v [] h = tt
emplace-Sorted k v ((i, u) ∷ m) h = ground (arith, h, emplace-Above k v m i)

abbrev pub matches : ℕ → Option ℕ → Bool
matches n none = false
matches n (some k) = n == k

-- The line of the first session that has a number.
abbrev pub line_of : (ℕ → List ℕ) → Flags → List Entry → List Entry → ℕ → Option (List ℕ)
line_of timepoint f es [] n = none
line_of timepoint f es (e ∷ todo) n =
    let later = line_of timepoint f es todo n in
    if matches n (session_number e) then some (row_of timepoint f es e) else later

-- What `list_rows` is to give when `before` is there already.
abbrev Listed : (ℕ → List ℕ) → Flags → List Entry → List Entry → Output → Rows → Type 0
Listed timepoint f es todo before (rows output infos) =
    Sorted output
    × ((n : ℕ) → lookup n output ≡ or_else (lookup n before) (line_of timepoint f es todo n))
Listed timepoint f es todo before (breaks infos) = Unit {0}

after_info-Listed :
    (timepoint : ℕ → List ℕ) (f : Flags) (es todo later : List Entry) (before now : Output)
    (evs : List Event) (r : Rows)
    → ((n : ℕ)
        → or_else (lookup n now) (line_of timepoint f es later n)
          ≡ or_else (lookup n before) (line_of timepoint f es todo n))
    → Listed timepoint f es later now r
    → Listed timepoint f es todo before (after_info evs r)
after_info-Listed timepoint f es todo later before now evs (rows output infos) same (s, l) =
    (s, λ n. l n ∙ same n)
after_info-Listed timepoint f es todo later before now evs (breaks infos) same l = tt

or_else-none : {A : Type 0} (a : Option A) → or_else a none ≡ a
or_else-none none = refl
or_else-none (some a) = refl

first_or :
    (k : ℕ) (v : List ℕ) (n : ℕ) (o : Option (List ℕ))
    → or_else (if n == k then some v else none) o ≡ (if n == k then some v else o)
first_or k v n o = ground arith

or_else_assoc : {A : Type 0} (a b c : Option A) → or_else (or_else a b) c ≡ or_else a (or_else b c)
or_else_assoc none b c = refl
or_else_assoc (some a) b c = refl

list_rows-Listed :
    (timepoint : ℕ → List ℕ) (f : Flags) (es todo : List Entry) (before : Output)
    → Sorted before
    → Listed timepoint f es todo before (list_rows timepoint f es todo before)
unfolding list_rows
list_rows-Listed timepoint f es [] before s = (s, λ n. sym (or_else-none (lookup n before)))
list_rows-Listed timepoint f es (e ∷ todo) before s = elim (Option-cases (session_number e)) [
  | inl none_there ↦
      subst
        (λ o. Listed timepoint f es (e ∷ todo) before (
          numbered
            (λ (n : ℕ).
              after_info (to_monitor f (session_info e))
                (list_rows timepoint f es todo (emplace n (row_of timepoint f es e) before)))
            o))
        (sym none_there) tt
  | inr (k, at_k) ↦
      let v = row_of timepoint f es e in
      subst
        (λ o. Listed timepoint f es (e ∷ todo) before (
          numbered
            (λ (n : ℕ).
              after_info (to_monitor f (session_info e))
                (list_rows timepoint f es todo (emplace n (row_of timepoint f es e) before)))
            o))
        (sym at_k)
        (after_info-Listed timepoint f es (e ∷ todo) todo before (emplace k v before)
          (to_monitor f (session_info e)) (list_rows timepoint f es todo (emplace k v before))
          (λ n.
            ap (λ o. or_else o (line_of timepoint f es todo n)) (emplace-lookup k v before n s)
            ∙ or_else_assoc (lookup n before) (if n == k then some v else none)
                (line_of timepoint f es todo n)
            ∙ ap (or_else (lookup n before)) (
                first_or k v n (line_of timepoint f es todo n)
                ∙ ap (λ o. if matches n o then some v else line_of timepoint f es todo n)
                    (sym at_k)))
          (list_rows-Listed timepoint f es todo (emplace k v before) (emplace-Sorted k v before s)))
]

-- The lines of a session list are in the order of the sessions' numbers, and of the sessions that
-- have a number the first has its line there: no number is missing, doubled or made up. The rows
-- have gone through with no exception.
pub list_rows-Sorted :
    (timepoint : ℕ → List ℕ) (f : Flags) (es : List Entry) (output : Output) (infos : List Event)
    → list_rows timepoint f es es [] ≡ rows output infos
    → Sorted output × ((n : ℕ) → lookup n output ≡ line_of timepoint f es es n)
list_rows-Sorted timepoint f es output infos e =
    subst (Listed timepoint f es es []) e (list_rows-Listed timepoint f es es [] tt)
