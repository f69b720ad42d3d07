-- ===== src/Client/Slots.antt =====
-- What a slot of a session holds, and how responses go into it and out of it.
use tateyama_bootstrap.Prelude.{
  ℕ, ◌≡◌, inl, inr, refl, sym, ap, ◌∙◌, List, [], ◌∷◌, ◌++◌, ◌&&◌, arith, ◌==◌, ltb, if◌then◌else◌,
  Bool-cases,
}
use tateyama_bootstrap.Client.{Response, response_bodyhead, Slot, expect, store}

-- Where a slot is in the exchange: before the first response; with a body, or a head, or both; with
-- the head taken, and then with the body.
pub data Phase : Type 0 where
  fresh has_body has_head has_both head_taken body_left : Phase

-- The counters `expected_`, `received_` and `consumed_` of a phase.
abbrev pub expected_in : Phase → ℕ
expected_in fresh = 0
expected_in has_body = 1
expected_in has_head = 2
expected_in has_both = 2
expected_in head_taken = 2
expected_in body_left = 2

abbrev pub received_in : Phase → ℕ
received_in fresh = 0
received_in has_body = 1
received_in has_head = 1
received_in has_both = 2
received_in head_taken = 1
received_in body_left = 2

abbrev pub consumed_in : Phase → ℕ
consumed_in fresh = 0
consumed_in has_body = 0
consumed_in has_head = 0
consumed_in has_both = 0
consumed_in head_taken = 1
consumed_in body_left = 1

-- The messages that a slot keeps in a phase, oldest first.
abbrev pub kept_in : Phase → Slot → List (List ℕ)
kept_in fresh s = []
kept_in has_body s = s.body_message ∷ []
kept_in has_head s = s.body_head_message ∷ []
kept_in has_both s = s.body_head_message ∷ s.body_message ∷ []
kept_in head_taken s = []
kept_in body_left s = s.body_message ∷ []

-- The responses that may still come for the request: one, or a head with a body behind it.
abbrev pub Coming : Phase → List Response → Type 0
Coming fresh [] = Unit {0}
Coming fresh (r ∷ []) = Unit {0}
Coming fresh (r ∷ q ∷ []) = r.msg_type ≡ response_bodyhead
Coming fresh (r ∷ q ∷ t ∷ rs) = ⊥
Coming has_body rs = rs ≡ []
Coming has_head [] = Unit {0}
Coming has_head (r ∷ rs) = rs ≡ []
Coming has_both rs = rs ≡ []
Coming head_taken [] = Unit {0}
Coming head_taken (r ∷ rs) = rs ≡ []
Coming body_left rs = rs ≡ []

pub record IsAt (p : Phase) (s : Slot) (rs : List Response) : Type 0 where
  pub expects : s.expected ≡ expected_in p
  pub receives : s.received ≡ received_in p
  pub consumes : s.consumed ≡ consumed_in p
  pub coming : Coming p rs

-- A slot in some phase, with the responses for it that are still on the wire.
abbrev pub SlotOk : Slot → List Response → Type 0
SlotOk s rs = (p : Phase) × IsAt p s rs

-- The messages that a slot owes to its request: those that it keeps, and those on the wire.
abbrev pub messages : List Response → List (List ℕ)
messages [] = []
messages (r ∷ rs) = r.message ∷ messages rs

-- What a slot keeps, by its counters.
unfoldable pub kept : Slot → List (List ℕ)
kept s =
    let bodies = if s.received == 2 then s.body_message ∷ [] else [] in
    if s.expected == 2
    then (if (s.consumed == 0) && ltb 0 s.received then s.body_head_message ∷ bodies else bodies)
    else if ltb s.consumed s.received
    then s.body_message ∷ []
    else []

abbrev pub owed : Slot → List Response → List (List ℕ)
owed s rs = kept s ++ messages rs

pub kept-eq-kept_in :
    (p : Phase) (s : Slot) (rs : List Response) → IsAt p s rs → kept s ≡ kept_in p s
unfolding kept
kept-eq-kept_in fresh s rs v = ground (arith, v.expects, v.receives, v.consumes)
kept-eq-kept_in has_body s rs v = ground (arith, v.expects, v.receives, v.consumes)
kept-eq-kept_in has_head s rs v = ground (arith, v.expects, v.receives, v.consumes)
kept-eq-kept_in has_both s rs v = ground (arith, v.expects, v.receives, v.consumes)
kept-eq-kept_in head_taken s rs v = ground (arith, v.expects, v.receives, v.consumes)
kept-eq-kept_in body_left s rs v = ground (arith, v.expects, v.receives, v.consumes)

-- A slot that has got to a phase, with the messages that it keeps there.
abbrev Kept : Slot → List Response → List (List ℕ) → Type 0
Kept s rs ms = (p : Phase) × IsAt p s rs × (kept_in p s ≡ ms)

Kept-SlotOk :
    (s : Slot) (rs : List Response) (ms : List (List ℕ))
    → Kept s rs ms
    → SlotOk s rs × (kept s ≡ ms)
Kept-SlotOk s rs ms (p, v, e) = ((p, v), kept-eq-kept_in p s rs v ∙ e)

store-Kept :
    (p : Phase) (s : Slot) (r : Response) (rs : List Response)
    → IsAt p s (r ∷ rs)
    → Kept (store r s) rs (kept_in p s ++ r.message ∷ [])
unfolding store expect
store-Kept fresh s r [] v = elim (Bool-cases (r.msg_type == response_bodyhead)) [
  | inl e ↦ (
    has_head,
    record {
      expects = ground (arith, e, v.expects);
      receives = ground (arith, v.receives, v.expects, e);
      consumes = ground (arith, v.consumes, v.expects, e);
      coming = tt;
    },
    ground (arith, v.expects, v.receives, e),
  )
  | inr e ↦ (
    has_body,
    record {
      expects = ground (arith, e, v.expects);
      receives = ground (arith, v.receives, v.expects, e);
      consumes = ground (arith, v.consumes, v.expects, e);
      coming = refl;
    },
    ground (arith, v.expects, v.receives, e),
  )
]
store-Kept fresh s r (q ∷ []) v =
    let e = v.coming in
    (
      has_head,
      record {
        expects = ground (arith, e, v.expects);
        receives = ground (arith, v.receives, v.expects, e);
        consumes = ground (arith, v.consumes, v.expects, e);
        coming = refl;
      },
      ground (arith, v.expects, v.receives, e),
    )
store-Kept fresh s r (q ∷ t ∷ rs) v = absurd v.coming
store-Kept has_body s r rs v = absurd (let e = v.coming in cc)
store-Kept has_head s r rs v = (
  has_both,
  record {
    expects = ground (arith, v.expects);
    receives = ground (arith, v.receives, v.expects);
    consumes = ground (arith, v.consumes, v.expects);
    coming = v.coming;
  },
  ground (arith, v.expects, v.receives),
)
store-Kept has_both s r rs v = absurd (let e = v.coming in cc)
store-Kept head_taken s r rs v = (
  body_left,
  record {
    expects = ground (arith, v.expects);
    receives = ground (arith, v.receives, v.expects);
    consumes = ground (arith, v.consumes, v.expects);
    coming = v.coming;
  },
  ground (arith, v.expects, v.receives),
)
store-Kept body_left s r rs v = absurd (let e = v.coming in cc)

-- A response that is stored is kept behind what the slot keeps.
pub store-SlotOk :
    (s : Slot) (r : Response) (rs : List Response)
    → SlotOk s (r ∷ rs)
    → SlotOk (store r s) rs × (kept (store r s) ≡ kept s ++ r.message ∷ [])
store-SlotOk s r rs (p, v) =
    let (ok, e) = Kept-SlotOk (store r s) rs _ (store-Kept p s r rs v) in
    (ok, e ∙ ap (λ l. l ++ r.message ∷ []) (sym (kept-eq-kept_in p s (r ∷ rs) v)))
