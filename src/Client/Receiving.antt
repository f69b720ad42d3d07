-- ===== src/Client/Receiving.antt =====
-- That a response reaches the request that waits for it, by `receive` of
-- src/tateyama/transport/client_wire.h, whatever responses come before it.
use tateyama_bootstrap.Prelude.{
  ℕ, ◌<◌, ◌≡◌, ◌≢◌, inl, inr, refl, sym, ap, ap₂, ◌∙◌, subst, List, [], ◌∷◌, ◌++◌, true, false,
  Option, none, some, append_assoc, arith, length, length-set, get_elem?, set, get_elem?-set_self,
  get_elem?-set_ne, get_elem?-within, cons_head, cons_tail, ◌==◌, ==_iff, same_or, if◌then◌else◌,
  if-true, if-false, Bool-cases,
}
use tateyama_bootstrap.Client.{
  Response, Slot, valid, store, receive_and_consume, consume, Received, returned, waits, fails,
  look, put_by, dispatch, receive,
}
use tateyama_bootstrap.Client.Slots.{SlotOk, kept, messages, store-SlotOk}
use tateyama_bootstrap.Client.Taking.{
  IsDone, consume-SlotOk, receive_and_consume-SlotOk, kept-invalid,
}

-- The responses for one slot.
abbrev pub for_slot : ℕ → List Response → List Response
for_slot j [] = []
for_slot j (r ∷ rs) = let rest = for_slot j rs in if r.idx == j then r ∷ rest else rest

not_same : (a b : ℕ) → a ≢ b → (a == b) ≡ false
not_same a b d = ground (arith, d)

for_slot-same :
    (j : ℕ) (r : Response) (rs : List Response)
    → r.idx ≡ j
    → for_slot j (r ∷ rs) ≡ r ∷ for_slot j rs
for_slot-same j r rs e = if-true _ _ ((==_iff r.idx j).1 e)

for_slot-other :
    (j : ℕ) (r : Response) (rs : List Response) → r.idx ≢ j → for_slot j (r ∷ rs) ≡ for_slot j rs
for_slot-other j r rs d = if-false _ _ (not_same r.idx j d)

abbrev kept_by : Option Slot → List (List ℕ)
kept_by none = []
kept_by (some s) = kept s

-- The messages that the request at a slot has not got yet: those that the slot keeps, and those that
-- are on the wire.
abbrev pub owed_at : ℕ → List Slot → List Response → List (List ℕ)
owed_at j slots rs = kept_by (get_elem? slots j) ++ messages (for_slot j rs)

-- Each slot is in some phase of its exchange, and each response is for a slot.
abbrev pub AllOk : List Slot → List Response → Type 0
AllOk slots rs = (j : ℕ) (s : Slot) → get_elem? slots j ≡ some s → SlotOk s (for_slot j rs)

abbrev pub AllWithin : ℕ → List Response → Type 0
AllWithin n [] = Unit {0}
AllWithin n (r ∷ rs) = (r.idx < n) × AllWithin n rs

-- What `receive` is to do for the slot at `k`, which is owed `m` and then `ms`.
abbrev pub Got : ℕ → List Slot → List Response → List ℕ → List (List ℕ) → Received → Type 0
Got k slots rs m ms (returned got later left) =
    (got ≡ m)
    × (owed_at k later left ≡ ms)
    × ((j : ℕ) → j ≢ k → owed_at j later left ≡ owed_at j slots rs)
    × AllOk later left
    × ((t : Slot) × (get_elem? later k ≡ some t) × IsDone t)
Got k slots rs m ms (waits later) = ⊥
Got k slots rs m ms (fails e) = ⊥

some-inj : {A : Type 0} {a b : A} → some a ≡ some b → a ≡ b
some-inj e = cc

-- One slot changes, and fits its responses; the others fit theirs as before.
set-AllOk :
    (slots : List Slot) (rs left : List Response) (i : ℕ) (s t : Slot)
    → AllOk slots rs
    → get_elem? slots i ≡ some s
    → SlotOk t (for_slot i left)
    → ((j : ℕ) → j ≢ i → for_slot j rs ≡ for_slot j left)
    → AllOk (set slots i t) left
set-AllOk slots rs left i s t v e ok same j u g = elim (same_or j i) [
  | inl a ↦
      let own : t ≡ u =
        some-inj
          (sym (get_elem?-set_self slots i t e) ∙ ap (get_elem? (set slots i t)) (sym a) ∙ g) in
      subst (λ x. SlotOk x (for_slot j left)) own
        (subst (λ x. SlotOk t (for_slot x left)) (sym a) ok)
  | inr d ↦
      subst (SlotOk u) (same j d) (v j u (sym (get_elem?-set_ne slots i j t (λ q. d (sym q))) ∙ g))
]

set-owed :
    (slots : List Slot) (rs left : List Response) (i : ℕ) (t : Slot)
    → ((j : ℕ) → j ≢ i → for_slot j rs ≡ for_slot j left)
    → (j : ℕ) → j ≢ i
    → owed_at j (set slots i t) left ≡ owed_at j slots rs
set-owed slots rs left i t same j d =
    ap₂ (λ o l. kept_by o ++ messages l) (get_elem?-set_ne slots i j t (λ q. d (sym q)))
      (sym (same j d))

module _ (k : ℕ) (slots : List Slot) (s : Slot) (at_k : get_elem? slots k ≡ some s) (m : List ℕ)
    (ms : List (List ℕ)) where
  owed_k : (rs : List Response) → owed_at k slots rs ≡ kept s ++ messages (for_slot k rs)
  owed_k rs = ap (λ o. kept_by o ++ messages (for_slot k rs)) at_k

  take_kept :
      (rs : List Response) (read : Slot → Received)
      → AllOk slots rs
      → owed_at k slots rs ≡ m ∷ ms
      → valid s ≡ true
      → Got k slots rs m ms (look (get_elem? slots k) k slots rs read)
  take_kept rs read v o h =
      let (ok, e, d) = consume-SlotOk s (for_slot k rs) (v k s at_k) h in
      let first : (consume s).0 ∷ (kept ((consume s).1) ++ messages (for_slot k rs)) ≡ m ∷ ms =
        ap (λ l. l ++ messages (for_slot k rs)) (sym e) ∙ sym (owed_k rs) ∙ o in
      subst (λ q. Got k slots rs m ms (look q k slots rs read)) (sym at_k)
        (subst (Got k slots rs m ms) (sym (if-true _ _ h)) (
          cons_head first,
          ap (λ q. kept_by q ++ messages (for_slot k rs))
                (get_elem?-set_self slots k ((consume s).1) at_k)
              ∙ cons_tail first,
          set-owed slots rs rs k ((consume s).1) (λ j _. refl),
          set-AllOk slots rs rs k s ((consume s).1) v at_k ok (λ j _. refl),
          ((consume s).1, get_elem?-set_self slots k ((consume s).1) at_k, d),
        ))

  take_own :
      (r : Response) (rs : List Response) (next : List Slot → Received)
      → AllOk slots (r ∷ rs)
      → owed_at k slots (r ∷ rs) ≡ m ∷ ms
      → valid s ≡ false
      → r.idx ≡ k
      → Got k slots (r ∷ rs) m ms (dispatch k slots r rs next s)
  unfolding dispatch
  take_own r rs next v o h e =
      let t = receive_and_consume r.msg_type s in
      let here = for_slot-same k r rs e in
      let (none_kept, ok, none_left, d) =
        receive_and_consume-SlotOk s r (for_slot k rs) (subst (SlotOk s) here (v k s at_k)) h in
      let first : r.message ∷ messages (for_slot k rs) ≡ m ∷ ms =
        ap (λ l. messages l) (sym here)
        ∙ ap (λ l. l ++ messages (for_slot k (r ∷ rs))) (sym none_kept)
        ∙ sym (owed_k (r ∷ rs))
        ∙ o in
      let same = λ (j : ℕ) (q : j ≢ k). for_slot-other j r rs (λ g. q (sym g ∙ e)) in
      subst (Got k slots (r ∷ rs) m ms) (sym (if-true _ _ ((==_iff r.idx k).1 e))) (
        cons_head first,
        ap (λ q. kept_by q ++ messages (for_slot k rs)) (get_elem?-set_self slots k t at_k)
            ∙ ap (λ l. l ++ messages (for_slot k rs)) none_left
            ∙ cons_tail first,
        set-owed slots (r ∷ rs) rs k t same,
        set-AllOk slots (r ∷ rs) rs k s t v at_k ok same,
        (t, get_elem?-set_self slots k t at_k, d),
      )

-- A response for another slot goes there, and then that slot keeps what was on the wire.
module _ (slots : List Slot) (r : Response) (rs : List Response) (t : Slot)
    (at_idx : get_elem? slots r.idx ≡ some t) (v : AllOk slots (r ∷ rs)) where
  abbrev later : List Slot
  later = set slots r.idx (store r t)

  stored_ok : SlotOk (store r t) (for_slot r.idx rs) × (kept (store r t) ≡ kept t ++ r.message ∷ [])
  stored_ok =
      store-SlotOk t r (for_slot r.idx rs)
        (subst (SlotOk t) (for_slot-same r.idx r rs refl) (v r.idx t at_idx))

  same_others : (j : ℕ) → j ≢ r.idx → for_slot j (r ∷ rs) ≡ for_slot j rs
  same_others j d = for_slot-other j r rs (λ e. d (sym e))

  later-AllOk : AllOk later rs
  later-AllOk = set-AllOk slots (r ∷ rs) rs r.idx t (store r t) v at_idx stored_ok.0 same_others

  owed_own : owed_at r.idx later rs ≡ owed_at r.idx slots (r ∷ rs)
  owed_own =
      ap (λ o. kept_by o ++ messages (for_slot r.idx rs))
        (get_elem?-set_self slots r.idx (store r t) at_idx)
      ∙ ap (λ l. l ++ messages (for_slot r.idx rs)) stored_ok.1
      ∙ append_assoc (kept t) (r.message ∷ []) (messages (for_slot r.idx rs))
      ∙ ap₂ (λ o l. kept_by o ++ messages l) (sym at_idx) (sym (for_slot-same r.idx r rs refl))

  owed_later : (j : ℕ) → owed_at j later rs ≡ owed_at j slots (r ∷ rs)
  owed_later j = elim (same_or j r.idx) [
    | inl e ↦ subst (λ i. owed_at i later rs ≡ owed_at i slots (r ∷ rs)) (sym e) owed_own
    | inr d ↦ set-owed slots (r ∷ rs) rs r.idx (store r t) same_others j d
  ]

  -- What `receive` does afterwards is right for the state before.
  Got-later :
      (k : ℕ) (m : List ℕ) (ms : List (List ℕ)) (x : Received)
      → Got k later rs m ms x
      → Got k slots (r ∷ rs) m ms x
  Got-later k m ms (returned got end left) (a, b, others, ok, d) =
      (a, b, λ j q. others j q ∙ owed_later j, ok, d)
  Got-later k m ms (waits end) g = g
  Got-later k m ms (fails e) g = g

dispatch-other :
    (k : ℕ) (slots : List Slot) (r : Response) (rs : List Response) (next : List Slot → Received)
    (s t : Slot)
    → r.idx ≢ k
    → get_elem? slots r.idx ≡ some t
    → dispatch k slots r rs next s ≡ next (set slots r.idx (store r t))
unfolding dispatch
dispatch-other k slots r rs next s t d e =
    if-false _ _ (not_same r.idx k d) ∙ ap (λ o. put_by o slots r next) e

-- A response that is read from the wire, when the rest of `receive` is right.
read-Got :
    (r : Response) (rs : List Response) (k : ℕ) (slots : List Slot) (m : List ℕ)
    (ms : List (List ℕ)) (next : List Slot → Received)
    → k < length slots
    → AllWithin (length slots) (r ∷ rs)
    → AllOk slots (r ∷ rs)
    → owed_at k slots (r ∷ rs) ≡ m ∷ ms
    → ((end : List Slot)
        → k < length end
        → AllWithin (length end) rs
        → AllOk end rs
        → owed_at k end rs ≡ m ∷ ms
        → Got k end rs m ms (next end))
    → (s : Slot) → get_elem? slots k ≡ some s
    → valid s ≡ false
    → Got k slots (r ∷ rs) m ms (dispatch k slots r rs next s)
read-Got r rs k slots m ms next lt within v o ih s e h = elim (same_or r.idx k) [
  | inl same ↦ take_own k slots s e m ms r rs next v o h same
  | inr d ↦
      let (t, at_idx) = get_elem?-within slots r.idx within.0 in
      let size = sym (length-set slots r.idx (store r t)) in
      subst (Got k slots (r ∷ rs) m ms) (sym (dispatch-other k slots r rs next s t d at_idx)) (
        Got-later slots r rs t at_idx v k m ms (next (set slots r.idx (store r t))) (
          ih (set slots r.idx (store r t)) (subst (λ n. k < n) size lt)
            (subst (λ n. AllWithin n rs) size within.1) (later-AllOk slots r rs t at_idx v)
            (owed_later slots r rs t at_idx v k ∙ o)))
]

-- The request at a slot gets the oldest message that it is owed, by no more responses than are on
-- the wire, and whichever responses to other requests come before; the other slots stay owed what
-- they were owed, and the slot is empty again or its request is to get a body.
pub receive-Got :
    (rs : List Response) (k : ℕ) (slots : List Slot) (m : List ℕ) (ms : List (List ℕ))
    → k < length slots
    → AllWithin (length slots) rs
    → AllOk slots rs
    → owed_at k slots rs ≡ m ∷ ms
    → Got k slots rs m ms (receive k slots rs)
unfolding receive
receive-Got [] k slots m ms lt within v o =
    let (s, e) = get_elem?-within slots k lt in
    elim (Bool-cases (valid s)) [
      | inl h ↦ take_kept k slots s e m ms [] (λ _. waits slots) v o h
      | inr h ↦
          let bad : [] ≡ m ∷ ms =
            sym (ap (λ l. l ++ []) (kept-invalid s [] (v k s e) h))
            ∙ sym (owed_k k slots s e m ms [])
            ∙ o in
          absurd (cc)
    ]
receive-Got (r ∷ rs) k slots m ms lt within v o =
    let (s, e) = get_elem?-within slots k lt in
    elim (Bool-cases (valid s)) [
      | inl h ↦
          take_kept k slots s e m ms (r ∷ rs)
            (dispatch k slots r rs (λ (later : List Slot). receive k later rs)) v o h
      | inr h ↦
          subst
            (λ q. Got k slots (r ∷ rs) m ms (
              look q k slots (r ∷ rs)
                (dispatch k slots r rs (λ (later : List Slot). receive k later rs))))
            (sym e)
            (subst (Got k slots (r ∷ rs) m ms) (sym (if-false _ _ h)) (
              read-Got r rs k slots m ms (λ later. receive k later rs) lt within v o
                (λ later a b c d. receive-Got rs k later m ms a b c d) s e h))
    ]
