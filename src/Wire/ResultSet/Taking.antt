-- ===== src/Wire/ResultSet/Taking.antt =====
-- A turn of the client of a result set wire keeps the invariant: what it takes is the oldest
-- record. While it waits, all flushed records have been read.
use tateyama_bootstrap.Prelude.{
  ℕ, ◌+◌, ◌-◌, ◌^◌, ◌≤◌, ◌<◌, ◌≡◌, ◌⊎◌, inl, inr, refl, sym, ap, ◌∙◌, subst, List, [], ◌∷◌, ◌++◌,
  true, false, Option, none, append_assoc, arith, length, length-append, if-true, if-false, lt→ltb,
  le→not-ltb,
}
use tateyama_bootstrap.Wire.Ring.Counters.{contents, length-contents, stored-eq-sub}
use tateyama_bootstrap.Wire.ResultSet.{
  Views, has_record, stored_valid, get_chunk, seen, dispose_record,
}
use tateyama_bootstrap.Wire.ResultSet.Session.{
  Client, looking, holding, System, client_turn_of, client_turn, records,
}
use tateyama_bootstrap.Wire.ResultSet.Chunk.{views_of, get_chunk-views_of}
use tateyama_bootstrap.Wire.ResultSet.Head.{
  encoded, length-encoded, header_received_lem, seen_lem, dispose_ring, contents-dispose,
  dispose-IsValid,
}
use tateyama_bootstrap.Wire.ResultSet.Invariant.{
  Inv, Moved, all_encoded, open_bytes, unsent, ClientOk, AllPos, phase,
}

-- The client goes on; or it waits, and all records that are flushed have been read.
abbrev pub Taken :
    {cap : ℕ} {all : List (List ℕ)} {s : System} → Inv cap all s → Option System → Type 0
Taken {cap} {all} {s} v o = Moved cap all s o ⊎ ((o ≡ none) × (v.unread ≡ []))

module _ (cap : ℕ) (all : List (List ℕ)) (s : System) (narrow : cap ≤ 2 ^ 32) where
  -- The oldest record, and the bytes behind it.
  abbrev rest_of : Inv cap all s → List (List ℕ) → List ℕ
  rest_of v xss = all_encoded xss ++ open_bytes s.wire.continued v.slack v.begun

  head_held :
      (v : Inv cap all s) (xs : List ℕ) (xss : List (List ℕ))
      → v.unread ≡ xs ∷ xss
      → contents s.wire.ring ≡ encoded xs ++ rest_of v xss
  head_held v xs xss u =
      v.held
      ∙ ap (λ l. all_encoded l ++ open_bytes s.wire.continued v.slack v.begun) u
      ∙ append_assoc (encoded xs) (all_encoded xss) _

  head_size :
      (v : Inv cap all s) (xs : List ℕ) (xss : List (List ℕ))
      → v.unread ≡ xs ∷ xss
      → 4 + length xs + length (all_encoded xss) ≤ s.wire.ring.pushed - s.wire.ring.poped
  head_size v xs xss u = omega (
    arith,
    stored-eq-sub v.valid,
    length-contents v.valid,
    ap length (head_held v xs xss u),
    length-append (encoded xs) (rest_of v xss),
    length-append (all_encoded xss) (open_bytes s.wire.continued v.slack v.begun),
    length-encoded xs,
  )

  marked_at :
      (v : Inv cap all s) (xs : List ℕ) (xss : List (List ℕ))
      → v.unread ≡ xs ∷ xss
      → s.wire.pushed_valid ≡ s.wire.ring.poped + (4 + length xs) + length (all_encoded xss)
  marked_at v xs xss u = omega (
    arith,
    v.marked,
    ap (λ l. length (all_encoded l)) u,
    length-append (encoded xs) (all_encoded xss),
    length-encoded xs,
  )

  look_turn :
      (v : Inv cap all s) (unread : List (List ℕ))
      → s.client ≡ looking
      → v.unread ≡ unread
      → Taken v (client_turn_of s looking)
  look_turn v [] i u =
      let no_record : has_record s.wire ≡ false =
        (unfold has_record stored_valid in
          le→not-ltb (stored_valid s.wire) 0
            (omega (arith, v.marked, ap (λ l. length (all_encoded l)) u, v.valid))) in
      inr (if-false _ _ no_record, u)
  look_turn v (xs ∷ xss) i u =
      let size = head_size v xs xss u in
      let marked = marked_at v xs xss u in
      let few : 4 + length xs ≤ cap = omega (arith, size, v.valid, v.sized) in
      let some_record : has_record s.wire ≡ true =
        (unfold has_record stored_valid in
          lt→ltb 0 (stored_valid s.wire) (omega (arith, marked, size, v.valid))) in
      let pos = (subst AllPos u v.positive).0 in
      let views : get_chunk s.wire ≡ views_of cap (s.wire.ring.poped + 4) (length xs) =
        get_chunk-views_of s.wire v.valid (length xs) pos (omega (arith, marked))
          (omega (arith, marked, size, v.valid))
          (header_received_lem s.wire v.valid xs (rest_of v xss) (head_held v xs xss u)
            (omega (arith, few, narrow)))
        ∙ ap (λ c. views_of c (s.wire.ring.poped + 4) (length xs)) v.sized in
      inl (
        record s { client = holding (get_chunk s.wire) },
        if-true _ _ some_record,
        record {
          valid = v.valid;
          sized = v.sized;
          is_open = v.is_open;
          unread = v.unread;
          begun = v.begun;
          slack = v.slack;
          slack_size = v.slack_size;
          held = v.held;
          marked = v.marked;
          server_ok = v.server_ok;
          client_ok =
              subst (ClientOk (holding (get_chunk s.wire)) cap s.wire.ring.poped) (sym u) views;
          positive = v.positive;
          order = v.order;
          fit_now = v.fit_now;
          fit = v.fit;
          budget = v.budget;
        },
        omega (arith, ap phase i),
      )

  take_turn :
      (v : Inv cap all s) (vs : Views) (unread : List (List ℕ))
      → s.client ≡ holding vs
      → v.unread ≡ unread
      → Taken v (client_turn_of s (holding vs))
  take_turn v vs [] i u = absurd (
      subst (ClientOk (holding vs) cap s.wire.ring.poped) u
        (subst (λ c. ClientOk c cap s.wire.ring.poped v.unread) i v.client_ok))
  take_turn v vs (xs ∷ xss) i u =
      let held = head_held v xs xss u in
      let size = head_size v xs xss u in
      let marked = marked_at v xs xss u in
      let short : length xs < 2 ^ 32 = omega (arith, size, v.valid, v.sized, narrow) in
      let views =
        subst (ClientOk (holding vs) cap s.wire.ring.poped) u
          (subst (λ c. ClientOk c cap s.wire.ring.poped v.unread) i v.client_ok) in
      let sees : seen s.wire.ring.buffer vs ≡ xs =
        ap (seen s.wire.ring.buffer)
          (views ∙ ap (λ c. views_of c (s.wire.ring.poped + 4) (length xs)) (sym v.sized))
        ∙ seen_lem s.wire v.valid xs (rest_of v xss) held short in
      let ring = dispose_ring s.wire v.valid xs (rest_of v xss) held short in
      let poped : (dispose_record s.wire).ring.poped ≡ s.wire.ring.poped + (length xs + 4) =
        ap (λ r. r.poped) ring ∙ omega (arith, size, v.valid) in
      let pushed : (dispose_record s.wire).ring.pushed ≡ s.wire.ring.pushed =
        ap (λ r. r.pushed) ring in
      inl (
        record s {
          wire = dispose_record s.wire;
          client = looking;
          received = s.received ++ seen s.wire.ring.buffer vs ∷ [];
        },
        refl,
        record {
          valid = dispose-IsValid s.wire v.valid xs (rest_of v xss) held short;
          sized = ap (λ r. r.capacity) ring ∙ v.sized;
          is_open = unfold dispose_record in v.is_open;
          unread = xss;
          begun = v.begun;
          slack = v.slack;
          slack_size = v.slack_size;
          held =
              unfold dispose_record in
              contents-dispose s.wire v.valid xs (rest_of v xss) held short;
          marked = omega (
            arith,
            marked,
            poped,
            (let e : (dispose_record s.wire).pushed_valid ≡ s.wire.pushed_valid =
                  (unfold dispose_record in refl) in
                e),
          );
          server_ok = unfold dispose_record in v.server_ok;
          client_ok = tt;
          positive = (subst AllPos u v.positive).1;
          order =
              v.order
              ∙ ap (λ l. s.received ++ (l ++ records (v.begun ++ unsent s.server) s.todo)) u
              ∙ sym (append_assoc s.received (xs ∷ []) _)
              ∙ ap
                  (λ x.
                    (s.received ++ x ∷ []) ++ (xss ++ records (v.begun ++ unsent s.server) s.todo))
                  (sym sees);
          fit_now = v.fit_now;
          fit = v.fit;
          budget = omega (arith, v.budget, pushed);
        },
        omega (arith, ap phase i, pushed, poped, size, v.valid),
      )

  turn_of : (v : Inv cap all s) (c : Client) → s.client ≡ c → Taken v (client_turn_of s c)
  turn_of v looking i = look_turn v v.unread i refl
  turn_of v (holding vs) i = take_turn v vs v.unread i refl

  -- A turn of the client keeps the invariant, or it waits and all flushed records have been read.
  pub client_turn-Taken : (v : Inv cap all s) → Taken v (client_turn s)
  unfolding client_turn
  client_turn-Taken v = turn_of v s.client refl
