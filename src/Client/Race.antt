-- ===== src/Client/Race.antt =====
-- Two threads in `receive` of src/tateyama/transport/client_wire.h: one looks at its slot, and before it
-- has the wire the other stores a response there and gives the wire back.
use tateyama_bootstrap.Prelude.{
  ℕ, ◌≡◌, ◌≢◌, sym, ap, ◌∙◌, List, [], ◌∷◌, true, false, some, arith, get_elem?, set, if-true,
  if-false, ==_iff, ◌==◌, ◌&&◌,
}
use tateyama_bootstrap.Client.{
  Response, Slot, empty_slot, valid, expect, store, consume, dispatch, Received, returned, put_by,
}
use tateyama_bootstrap.Client.Taking.{received_body}
use tateyama_bootstrap.Client.Slots.{fresh, IsAt}

not_first :
    (s : Slot) (n : ℕ)
    → s.expected ≡ 2
    → s.received ≡ 1
    → (((expect n s).expected == 2) && ((expect n s).received == 0)) ≡ false
unfolding expect
not_first s n a b = ground (arith, a, b)

two_and_none : (a b : ℕ) → a ≡ 2 → b ≡ 0 → ((a == 2) && (b == 0)) ≡ true
two_and_none a b e f = ground (arith, e, f)

other : (i j : ℕ) → i ≢ j → (i == j) ≡ false
other i j n = ground (arith, n)

module _ (s : Slot) (head body : Response) (v : IsAt fresh s (head ∷ body ∷ [])) where
  store-expected : (store head s).expected ≡ 2
  unfolding store expect
  store-expected = ground (arith, v.expects, v.receives, v.coming)

  store-received : (store head s).received ≡ 1
  unfolding store expect
  store-received = ground (arith, v.expects, v.receives, v.coming)

  store-consumed : (store head s).consumed ≡ 0
  unfolding store expect
  store-consumed = ground (arith, v.expects, v.receives, v.consumes, v.coming)

  store-body_head_message : (store head s).body_head_message ≡ head.message
  unfolding store expect
  store-body_head_message = ground (arith, v.expects, v.receives, v.coming)

  consume-store : (consume (store head s)).0 ≡ head.message
  unfolding consume
  consume-store =
      ap (λ (r : List ℕ × Slot). r.0)
        (if-true _ _ (let a = store-expected in let b = store-consumed in two_and_none _ _ a b))
      ∙ store-body_head_message

  not_valid : valid s ≡ false
  unfolding valid
  not_valid = ground (arith, v.receives, v.consumes)

  -- One thread has looked at the slot `k` before any response to its request has come, and goes on
  -- to read the wire. Before it has the wire, another thread, for the slot `j`, reads the head of
  -- that response and stores it in the slot `k`. The first thread then reads the body: it returns
  -- the body and gives the slot up, although the slot keeps the head, which `consume` would give.
  pub dispatch-loses_head :
      (k j : ℕ) (slots : List Slot) (t : Slot) (rs : List Response)
      (after_head after_body : List Slot → Received)
      → get_elem? slots k ≡ some s
      → head.idx ≡ k
      → k ≢ j
      → body.idx ≡ k
      → (valid s ≡ false)
        × (dispatch j slots head (body ∷ rs) after_head t ≡ after_head (set slots k (store head s)))
        × ((consume (store head s)).0 ≡ head.message)
        × (dispatch k (set slots k (store head s)) body rs after_body (store head s)
            ≡ returned body.message (set (set slots k (store head s)) k empty_slot) rs)
  unfolding dispatch
  dispatch-loses_head k j slots t rs after_head after_body at own apart own_body = (
    not_valid,
    if-false _ _ (other head.idx j (λ e. apart (sym own ∙ e)))
        ∙ ap (λ i. put_by (get_elem? slots i) slots head after_head) own
        ∙ ap (λ o. put_by o slots head after_head) at
        ∙ ap (λ i. after_head (set slots i (store head s))) own,
    consume-store,
    if-true _ _ ((==_iff body.idx k).1 own_body)
        ∙ ap (λ u. returned body.message (set (set slots k (store head s)) k u) rs)
            (received_body (store head s) body.msg_type
              (not_first (store head s) body.msg_type store-expected store-received)),
  )
