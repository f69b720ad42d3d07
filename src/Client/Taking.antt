-- ===== src/Client/Taking.antt =====
-- How a request takes messages out of its slot in src/tateyama/transport/client_wire.h.
use tateyama_bootstrap.Prelude.{
  ℕ, ◌+◌, ◌≡◌, ◌⊎◌, inl, inr, refl, sym, ap, ◌∙◌, List, [], ◌∷◌, true, false, ◌&&◌, arith, ◌==◌,
  Bool-cases, if-true, if-false, subst,
}
use tateyama_bootstrap.Client.{
  Response, response_bodyhead, Slot, empty_slot, valid, expect, finish_receive, receive_and_consume,
  consume,
}
use tateyama_bootstrap.Client.Slots.{
  Phase, fresh, has_body, has_head, has_both, head_taken, body_left, kept_in, Coming, IsAt, SlotOk,
  kept, kept-eq-kept_in,
}

-- A request is done when its slot is empty again; else its body is to come.
abbrev pub IsDone : Slot → Type 0
IsDone s = (s ≡ empty_slot) ⊎ ((s.expected ≡ 2) × (s.consumed ≡ 1))

-- What a request gets, and the slot that it leaves.
abbrev Taken : Phase → Slot → List Response → List ℕ × Slot → Type 0
Taken p s rs (m, t) = (q : Phase) × IsAt q t rs × (kept_in p s ≡ m ∷ kept_in q t) × IsDone t

consume_body :
    (s : Slot)
    → ((s.expected == 2) && (s.consumed == 0)) ≡ false
    → consume s ≡ (s.body_message, empty_slot)
unfolding consume finish_receive
consume_body s e = if-false _ _ e

consume_head :
    (s : Slot)
    → ((s.expected == 2) && (s.consumed == 0)) ≡ true
    → consume s ≡ (s.body_head_message, record s { consumed = s.consumed + 1 })
unfolding consume
consume_head s e = if-true _ _ e

empty-IsAt : (rs : List Response) → rs ≡ [] → IsAt fresh empty_slot rs
empty-IsAt rs e = record {
  expects = refl;
  receives = refl;
  consumes = refl;
  coming = subst (Coming fresh) (sym e) tt;
}

head-Coming : (rs : List Response) → Coming has_head rs → Coming head_taken rs
head-Coming [] c = tt
head-Coming (r ∷ rs) c = c

consume-Taken :
    (p : Phase) (s : Slot) (rs : List Response)
    → IsAt p s rs
    → valid s ≡ true
    → Taken p s rs (consume s)
unfolding valid
consume-Taken fresh s rs v h = absurd (ground (arith, h, v.receives, v.consumes))
consume-Taken has_body s rs v h =
    subst (Taken has_body s rs) (sym (consume_body s (ground (arith, v.expects))))
      (fresh, empty-IsAt rs v.coming, refl, inl refl)
consume-Taken has_head s rs v h =
    subst (Taken has_head s rs) (sym (consume_head s (ground (arith, v.expects, v.consumes)))) (
      head_taken,
      record {
        expects = v.expects;
        receives = v.receives;
        consumes = omega (arith, v.consumes);
        coming = head-Coming rs v.coming;
      },
      refl,
      inr (v.expects, omega (arith, v.consumes)),
    )
consume-Taken has_both s rs v h =
    subst (Taken has_both s rs) (sym (consume_head s (ground (arith, v.expects, v.consumes)))) (
      body_left,
      record {
        expects = v.expects;
        receives = v.receives;
        consumes = omega (arith, v.consumes);
        coming = v.coming;
      },
      refl,
      inr (v.expects, omega (arith, v.consumes)),
    )
consume-Taken head_taken s rs v h = absurd (ground (arith, h, v.receives, v.consumes))
consume-Taken body_left s rs v h =
    subst (Taken body_left s rs) (sym (consume_body s (ground (arith, v.expects, v.consumes))))
      (fresh, empty-IsAt rs v.coming, refl, inl refl)

-- To consume a message takes the oldest one that the slot keeps.
pub consume-SlotOk :
    (s : Slot) (rs : List Response)
    → SlotOk s rs
    → valid s ≡ true
    → SlotOk ((consume s).1) rs
      × (kept s ≡ (consume s).0 ∷ kept ((consume s).1))
      × IsDone ((consume s).1)
consume-SlotOk s rs (p, v) h =
    let (q, w, e, d) = consume-Taken p s rs v h in
    (
      (q, w),
      kept-eq-kept_in p s rs v
          ∙ e
          ∙ ap (◌∷◌ ((consume s).0)) (sym (kept-eq-kept_in q ((consume s).1) rs w)),
      d,
    )

-- A slot whose request receives a response itself: it keeps nothing before and after.
abbrev Direct : Slot → List Response → Slot → Type 0
Direct s rs t = (kept s ≡ []) × SlotOk t rs × (kept t ≡ []) × IsDone t

pub received_body :
    (s : Slot) (n : ℕ)
    → (((expect n s).expected == 2) && ((expect n s).received == 0)) ≡ false
    → receive_and_consume n s ≡ empty_slot
unfolding receive_and_consume finish_receive
received_body s n e = if-false _ _ e

received_head :
    (s : Slot) (n : ℕ)
    → (((expect n s).expected == 2) && ((expect n s).received == 0)) ≡ true
    → receive_and_consume n s ≡ record (expect n s) {
      received = (expect n s).received + 1;
      consumed = (expect n s).consumed + 1;
    }
unfolding receive_and_consume
received_head s n e = if-true _ _ e

Direct-body :
    (s : Slot) (n : ℕ) (rs : List Response)
    → kept s ≡ []
    → rs ≡ []
    → (((expect n s).expected == 2) && ((expect n s).received == 0)) ≡ false
    → Direct s rs (receive_and_consume n s)
Direct-body s n rs none_kept e h = subst (Direct s rs) (sym (received_body s n h)) (
  none_kept,
  (fresh, empty-IsAt rs e),
  kept-eq-kept_in fresh empty_slot rs (empty-IsAt rs e),
  inl refl,
)

Direct-head :
    (s : Slot) (n : ℕ) (rs : List Response)
    → s.expected ≡ 0
    → s.received ≡ 0
    → s.consumed ≡ 0
    → kept s ≡ []
    → Coming head_taken rs
    → n ≡ 2
    → Direct s rs (receive_and_consume n s)
unfolding expect
Direct-head s n rs a b c none_kept coming e =
    let at_head : IsAt head_taken
        (record (expect n s) {
          received = (expect n s).received + 1;
          consumed = (expect n s).consumed + 1;
        })
        rs =
      record {
        expects = ground (arith, a, e);
        receives = ground (arith, a, b, e);
        consumes = ground (arith, a, c, e);
        coming = coming;
      } in
    subst (Direct s rs) (sym (received_head s n (ground (arith, a, b, e)))) (
      none_kept,
      (head_taken, at_head),
      kept-eq-kept_in head_taken _ rs at_head,
      inr (at_head.expects, at_head.consumes),
    )

fresh-Direct :
    (s : Slot) (r : Response) (rs : List Response)
    → IsAt fresh s (r ∷ rs)
    → Direct s rs (receive_and_consume r.msg_type s)
unfolding expect
fresh-Direct s r [] v = elim (Bool-cases (r.msg_type == response_bodyhead)) [
  | inl e ↦
      Direct-head s r.msg_type [] v.expects v.receives v.consumes (kept-eq-kept_in fresh s _ v) tt
        (ground (arith, e))
  | inr e ↦
      Direct-body s r.msg_type [] (kept-eq-kept_in fresh s _ v) refl
        (ground (arith, v.expects, v.receives, e))
]
fresh-Direct s r (q ∷ []) v =
    Direct-head s r.msg_type (q ∷ []) v.expects v.receives v.consumes (kept-eq-kept_in fresh s _ v)
      refl v.coming
fresh-Direct s r (q ∷ t ∷ rs) v = absurd v.coming

receive_and_consume-Direct :
    (p : Phase) (s : Slot) (r : Response) (rs : List Response)
    → IsAt p s (r ∷ rs)
    → valid s ≡ false
    → Direct s rs (receive_and_consume r.msg_type s)
unfolding valid expect
receive_and_consume-Direct fresh s r rs v h = fresh-Direct s r rs v
receive_and_consume-Direct has_body s r rs v h = absurd (ground (arith, h, v.receives, v.consumes))
receive_and_consume-Direct has_head s r rs v h = absurd (ground (arith, h, v.receives, v.consumes))
receive_and_consume-Direct has_both s r rs v h = absurd (ground (arith, h, v.receives, v.consumes))
receive_and_consume-Direct head_taken s r rs v h =
    Direct-body s r.msg_type rs (kept-eq-kept_in head_taken s _ v) v.coming
      (ground (arith, v.expects, v.receives))
receive_and_consume-Direct body_left s r rs v h = absurd (ground (arith, h, v.receives, v.consumes))

-- A request that receives its response itself keeps nothing, before and after.
pub receive_and_consume-SlotOk :
    (s : Slot) (r : Response) (rs : List Response)
    → SlotOk s (r ∷ rs)
    → valid s ≡ false
    → (kept s ≡ [])
      × SlotOk (receive_and_consume r.msg_type s) rs
      × (kept (receive_and_consume r.msg_type s) ≡ [])
      × IsDone (receive_and_consume r.msg_type s)
receive_and_consume-SlotOk s r rs (p, v) h = receive_and_consume-Direct p s r rs v h

-- A slot with nothing to take keeps nothing.
pub kept-invalid : (s : Slot) (rs : List Response) → SlotOk s rs → valid s ≡ false → kept s ≡ []
unfolding valid
kept-invalid s rs (fresh, v) h = kept-eq-kept_in fresh s rs v
kept-invalid s rs (has_body, v) h = absurd (ground (arith, h, v.receives, v.consumes))
kept-invalid s rs (has_head, v) h = absurd (ground (arith, h, v.receives, v.consumes))
kept-invalid s rs (has_both, v) h = absurd (ground (arith, h, v.receives, v.consumes))
kept-invalid s rs (head_taken, v) h = kept-eq-kept_in head_taken s rs v
kept-invalid s rs (body_left, v) h = absurd (ground (arith, h, v.receives, v.consumes))
