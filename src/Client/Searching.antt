-- ===== src/Client/Searching.antt =====
-- `search_slot` of src/tateyama/transport/client_wire.h.
use tateyama_bootstrap.Prelude.{
  ℕ, zero, suc, ◌+◌, ◌≡◌, refl, sym, ap, ap₂, subst, List, [], ◌∷◌, inl, inr, true, false, arith,
  Bool-cases, if-true, if-false,
}
use tateyama_bootstrap.Reason.{runtime_error, internal, Result, ok, throws}
use tateyama_bootstrap.Client.{Slot, test_and_set_in_use, one_later, search_from, search_slot}

abbrev pub AllInUse : List Slot → Type 0
AllInUse [] = Unit {0}
AllInUse (s ∷ slots) = (s.in_use ≡ true) × AllInUse slots

-- The slot at `i` of the list is the first that is free.
abbrev pub FirstFree : ℕ → List Slot → Type 0
FirstFree i [] = ⊥
FirstFree zero (s ∷ slots) = s.in_use ≡ false
FirstFree (suc i) (s ∷ slots) = (s.in_use ≡ true) × FirstFree i slots

abbrev pub mark : ℕ → List Slot → List Slot
mark i [] = []
mark zero (s ∷ slots) = record s { in_use = true } ∷ slots
mark (suc i) (s ∷ slots) = s ∷ mark i slots

-- What `search_slot` is to give for slots of which the first has the index `b`.
abbrev pub Searched : ℕ → List Slot → Result (ℕ × List Slot) → Type 0
Searched b slots (ok (k, later)) =
    (i : ℕ) × (k ≡ b + i) × FirstFree i slots × (later ≡ mark i slots)
Searched b slots (throws e) = (e ≡ runtime_error internal) × AllInUse slots

Searched-later :
    (b : ℕ) (s : Slot) (slots : List Slot) (o : Result (ℕ × List Slot))
    → s.in_use ≡ true
    → Searched (suc b) slots o
    → Searched b (s ∷ slots) (one_later (record s { in_use = true }) o)
Searched-later b s slots (throws e) u (a, all) = (a, (u, all))
Searched-later b s slots (ok (k, later)) u (i, a, free, e) =
    (suc i, omega (arith, a), (u, free), ap₂ ◌∷◌ (ap (λ c. record s { in_use = c }) (sym u)) e)

search_from-Searched : (b : ℕ) (slots : List Slot) → Searched b slots (search_from b slots)
unfolding search_from test_and_set_in_use
search_from-Searched b [] = (refl, tt)
search_from-Searched b (s ∷ slots) = elim (Bool-cases s.in_use) [
  | inl u ↦
      subst (Searched b (s ∷ slots)) (sym (if-true _ _ u)) (
        Searched-later b s slots (search_from (suc b) slots) u (search_from-Searched (suc b) slots))
  | inr u ↦ subst (Searched b (s ∷ slots)) (sym (if-false _ _ u)) (0, omega arith, u, refl)
]

-- `search_slot` gives the first free slot and marks it and no other; it throws, with the reason
-- `internal`, just when all slots are in use.
pub search_slot-Searched : (slots : List Slot) → Searched 0 slots (search_slot slots)
unfolding search_slot
search_slot-Searched slots = search_from-Searched 0 slots
