-- ===== src/Wire/ResultSet/Serving.antt =====
-- A turn of the server of a result set wire keeps the invariant; while it waits, records are in
-- the wire.
use tateyama_bootstrap.Prelude.{
  ℕ, ◌+◌, ◌*◌, ◌≤◌, ◌≡◌, inl, inr, refl, sym, ap, ap₂, ◌∙◌, subst, List, [], ◌∷◌, ◌++◌, Bool, true,
  false, some, append-nil, append_assoc, arith, length, length-append, length-zero, Bool-cases,
}
use tateyama_bootstrap.Wire.Header.{length_header, length_to_buffer}
use tateyama_bootstrap.Wire.Codec.{length-length_to_buffer}
use tateyama_bootstrap.Wire.Ring.Counters.{IsValid, contents, length-contents, stored-eq-sub}
use tateyama_bootstrap.Wire.Ring.Patch.{patch, contents-patch, patch-IsValid}
use tateyama_bootstrap.Wire.ResultSet.{Server, idle, starting, copying, flush_record}
use tateyama_bootstrap.Wire.ResultSet.Session.{
  Op, writes, flushes, System, server_turn_of, records, AllFit, cost,
}
use tateyama_bootstrap.Wire.ResultSet.Head.{encoded, length-encoded}
use tateyama_bootstrap.Wire.ResultSet.Invariant.{
  Inv, Moved, all_encoded, all_encoded-append, open_bytes, unsent, ServerOk, ClientOk-append,
  AllPos-append, records-flush, server_cost,
}
use tateyama_bootstrap.Wire.ResultSet.Steps.{
  flush-false, flush-true, flush_record-ring, write_cases,
}

module _ (cap : ℕ) (all : List (List ℕ)) (s : System) where
  pub server_at :
      (v : Inv cap all s) (b : Bool) (q : Server)
      → s.wire.continued ≡ b
      → s.server ≡ q
      → ServerOk b v.begun q
  server_at v b q c i =
      subst (λ k. ServerOk k v.begun q) c (subst (ServerOk s.wire.continued v.begun) i v.server_ok)

  pub held_at :
      (v : Inv cap all s) (b : Bool)
      → s.wire.continued ≡ b
      → contents s.wire.ring ≡ all_encoded v.unread ++ open_bytes b v.slack v.begun
  held_at v b c = v.held ∙ ap (λ k. all_encoded v.unread ++ open_bytes k v.slack v.begun) c

  -- The server has come to `q` with these bytes, from `idle`.
  entered :
      (v : Inv cap all s) (q : Server) (from : List ℕ) (ops : List Op)
      → s.server ≡ idle
      → s.todo ≡ writes from ∷ ops
      → unsent q ≡ from
      → server_cost q ≤ 10 + 2 * length from
      → ServerOk s.wire.continued v.begun q
      → Moved cap all s (some (record s { server = q; todo = ops }))
  entered v q from ops i t u c ok =
      let none_unsent : unsent s.server ≡ [] = ap unsent i in
      let few = subst (λ k. AllFit cap (length v.begun + length (unsent s.server)) k) t v.fit in
      let size : length v.begun + length (unsent q)
          ≡ length v.begun + length (unsent s.server) + length from =
        omega (arith, ap length none_unsent, ap length u) in
      (
        record s { server = q; todo = ops },
        refl,
        record {
          valid = v.valid;
          sized = v.sized;
          is_open = v.is_open;
          unread = v.unread;
          begun = v.begun;
          slack = v.slack;
          slack_size = v.slack_size;
          held = v.held;
          marked = v.marked;
          server_ok = ok;
          client_ok = v.client_ok;
          positive = v.positive;
          order =
              v.order
              ∙ ap₂ (λ x y. s.received ++ (v.unread ++ records (v.begun ++ x) y)) none_unsent t
              ∙ ap₂ (λ x y. s.received ++ (v.unread ++ records (x ++ y) ops)) (append-nil v.begun)
                  (sym u);
          fit_now = omega (arith, few.0, size);
          fit = subst (λ k. AllFit cap k ops) (sym size) few.1;
          budget = omega (arith, v.budget, ap server_cost i, ap cost t);
        },
        omega (arith, ap server_cost i, ap cost t),
      )

  pub write_turn :
      (v : Inv cap all s) (from : List ℕ) (ops : List Op)
      → s.server ≡ idle
      → s.todo ≡ writes from ∷ ops
      → Moved cap all s (server_turn_of s idle (writes from ∷ ops))
  write_turn v from ops i t = elim (write_cases s.wire from v.is_open) [
    | inl (z, e) ↦
        subst (λ q. Moved cap all s (some (record s { server = q; todo = ops }))) (sym e)
          (entered v idle from ops i t (sym (length-zero from z)) (omega arith)
            (subst (ServerOk s.wire.continued v.begun) i v.server_ok))
    | inr (inl (p, c, e)) ↦
        subst (λ q. Moved cap all s (some (record s { server = q; todo = ops }))) (sym e)
          (entered v (copying from) from ops i t refl (omega arith)
            (subst (λ b. ServerOk b v.begun (copying from)) (sym c) p))
    | inr (inr (p, c, e)) ↦
        subst (λ q. Moved cap all s (some (record s { server = q; todo = ops }))) (sym e)
          (entered v (starting from) from ops i t refl (omega arith) (
            subst (λ b. ServerOk b v.begun (starting from)) (sym c)
              (server_at v false idle c i, p)))
  ]

  -- With nothing written since the last flush, a flush does nothing.
  flush_nothing :
      (v : Inv cap all s) (ops : List Op)
      → s.server ≡ idle
      → s.todo ≡ flushes ∷ ops
      → s.wire.continued ≡ false
      → Moved cap all s (server_turn_of s idle (flushes ∷ ops))
  flush_nothing v ops i t c =
      subst (λ w. Moved cap all s (some (record s { wire = w; todo = ops })))
        (sym (flush-false s.wire c))
        (
          record s { todo = ops },
          refl,
          record {
            valid = v.valid;
            sized = v.sized;
            is_open = v.is_open;
            unread = v.unread;
            begun = v.begun;
            slack = v.slack;
            slack_size = v.slack_size;
            held = v.held;
            marked = v.marked;
            server_ok = v.server_ok;
            client_ok = v.client_ok;
            positive = v.positive;
            order =
                v.order
                ∙ ap (λ y. s.received ++ (v.unread ++ records (v.begun ++ unsent s.server) y)) t
                ∙ ap (λ x. s.received ++ (v.unread ++ records x (flushes ∷ ops))) none_begun
                ∙ ap (λ x. s.received ++ (v.unread ++ records x ops)) (sym none_begun);
            fit_now = v.fit_now;
            fit =
                subst (λ k. AllFit cap k ops) (ap length (sym none_begun) ∙ length-append v.begun _)
                  (subst (λ k. AllFit cap (length v.begun + length (unsent s.server)) k) t v.fit);
            budget = omega (arith, v.budget, ap cost t);
          },
          omega (arith, ap cost t),
        )
    where
      none_begun : v.begun ++ unsent s.server ≡ []
      none_begun = ap₂ ◌++◌ (server_at v false idle c i) (ap unsent i)

  -- The wire before and after a flush of a record that is begun.
  module _ (v : Inv cap all s) (c : s.wire.continued ≡ true) where
    abbrev front : ℕ
    front = length (all_encoded v.unread)

    abbrev header : List ℕ
    header = length_to_buffer (length_header (length v.begun))

    sized_header : length header ≡ 4
    sized_header = length-length_to_buffer (length_header (length v.begun))

    ends : s.wire.ring.pushed ≡ s.wire.ring.poped + front + 4 + length v.begun
    ends = omega (
      arith,
      stored-eq-sub v.valid,
      length-contents v.valid,
      ap length (held_at v true c),
      length-append (all_encoded v.unread) (v.slack ++ v.begun),
      length-append v.slack v.begun,
      v.slack_size,
      v.valid,
    )

    flushed_ring :
        (flush_record s.wire).ring
        ≡ patch s.wire.ring (s.wire.ring.poped + front) header (length header)
    flushed_ring =
        flush_record-ring s.wire (s.wire.ring.poped + front) (length v.begun) v.marked
          (omega (arith, ends, v.valid))

    flush_record-IsValid : IsValid (flush_record s.wire).ring
    flush_record-IsValid =
        subst IsValid (sym flushed_ring)
          (patch-IsValid v.valid front header (omega (arith, sized_header, ends, v.valid)))

    flushed_held :
        contents (flush_record s.wire).ring ≡ all_encoded (v.unread ++ v.begun ∷ []) ++ []
    flushed_held =
        ap contents flushed_ring
        ∙ contents-patch v.valid (all_encoded v.unread) v.slack v.begun header (held_at v true c)
            (v.slack_size ∙ sym sized_header)
        ∙ sym (all_encoded-append v.unread v.begun)
        ∙ sym (append-nil (all_encoded (v.unread ++ v.begun ∷ [])))

    flush_begun :
        (ops : List Op)
        → s.server ≡ idle
        → s.todo ≡ flushes ∷ ops
        → Moved cap all s (some (record s { wire = flush_record s.wire; todo = ops }))
    unfolding flush_record
    flush_begun ops i t = (
      record s { wire = flush_record s.wire; todo = ops },
      refl,
      record {
        valid = flush_record-IsValid;
        sized = v.sized;
        is_open = v.is_open;
        unread = v.unread ++ v.begun ∷ [];
        begun = [];
        slack = v.slack;
        slack_size = v.slack_size;
        held = flushed_held;
        marked = omega (
          arith,
          ends,
          ap length (all_encoded-append v.unread v.begun),
          length-append (all_encoded v.unread) (encoded v.begun),
          length-encoded v.begun,
        );
        server_ok = subst (ServerOk false []) (sym i) refl;
        client_ok = ClientOk-append s.client cap s.wire.ring.poped v.unread v.begun v.client_ok;
        positive = AllPos-append v.unread v.begun v.positive (server_at v true idle c i);
        order =
            v.order
            ∙ ap₂ (λ x y. s.received ++ (v.unread ++ records x y))
                (ap (λ q. v.begun ++ unsent q) i ∙ append-nil v.begun) t
            ∙ ap (λ x. s.received ++ (v.unread ++ x))
                (records-flush v.begun ops (server_at v true idle c i))
            ∙ ap (◌++◌ s.received) (
                sym (append_assoc v.unread (v.begun ∷ []) (records [] ops))
                ∙ ap (λ x. (v.unread ++ v.begun ∷ []) ++ records x ops) (sym (ap unsent i)));
        fit_now = omega (arith, v.fit_now);
        fit =
            subst (λ k. AllFit cap k ops) (omega (arith, ap (λ q. length (unsent q)) i))
              (subst (λ k. AllFit cap (length v.begun + length (unsent s.server)) k) t v.fit);
        budget = omega (arith, v.budget, ap cost t);
      },
      omega (arith, ap cost t),
    )

  pub flush_turn :
      (v : Inv cap all s) (ops : List Op)
      → s.server ≡ idle
      → s.todo ≡ flushes ∷ ops
      → Moved cap all s (server_turn_of s idle (flushes ∷ ops))
  flush_turn v ops i t = elim (Bool-cases s.wire.continued) [
    | inl c ↦
        subst (λ w. Moved cap all s (some (record s { wire = w; todo = ops })))
          (sym (flush-true s.wire c)) (flush_begun v c ops i t)
    | inr c ↦ flush_nothing v ops i t c
  ]
