-- ===== src/Wire/ResultSet/Copying.antt =====
-- The turns in which the server of a result set wire may wait: for room for a header, and for room
-- for bytes.
use native.Mathlib.Decide.{dec_lt}
use tateyama_bootstrap.Prelude.{
  ℕ, ◌+◌, ◌^◌, ◌≤◌, ◌<◌, ◌≡◌, ◌⊎◌, inl, inr, refl, sym, ap, ap₂, ◌∙◌, subst, List, [], ◌∷◌, ◌++◌,
  Bool, true, false, Option, none, some, append-nil, append_assoc, arith, length, length-append,
  take-all,
}
use tateyama_bootstrap.Wire.Header.{length_header_size}
use tateyama_bootstrap.Wire.Ring.{room, stored, add_size}
use tateyama_bootstrap.Wire.Ring.Window.{window}
use tateyama_bootstrap.Wire.Ring.Counters.{
  length-contents, room-add-stored, contents-append, append-IsValid,
}
use tateyama_bootstrap.Wire.Ring.Patch.{contents-reserve, reserve-IsValid}
use tateyama_bootstrap.Wire.ResultSet.{Server, idle, starting, copying}
use tateyama_bootstrap.Wire.ResultSet.Session.{
  Op, writes, flushes, System, server_turn_of, server_turn, records, AllFit, after_new, after_part,
}
use tateyama_bootstrap.Wire.ResultSet.Invariant.{
  Inv, Moved, all_encoded, open_bytes, unsent, ServerOk, server_cost,
}
use tateyama_bootstrap.Wire.ResultSet.Steps.{
  started, copied, brand_new-some, brand_new-none, write_part-some, write_part-none,
}
use tateyama_bootstrap.Wire.ResultSet.Serving.{server_at, held_at, write_turn, flush_turn}

-- The server goes on; or it waits, and there is a record to read; or it has nothing to do.
abbrev pub Served :
    {cap : ℕ} {all : List (List ℕ)} {s : System} → Inv cap all s → Option System → Type 0
Served {cap} {all} {s} v o =
    Moved cap all s o
    ⊎ ((o ≡ none) × (0 < length (all_encoded v.unread)))
    ⊎ ((o ≡ none) × (s.server ≡ idle) × (s.todo ≡ []))

module _ (cap : ℕ) (all : List (List ℕ)) (s : System) where
  -- What the wire holds beside the records that can be read.
  sized_open :
      (v : Inv cap all s) (b : Bool)
      → s.wire.continued ≡ b
      → stored s.wire.ring ≡ length (all_encoded v.unread) + length (open_bytes b v.slack v.begun)
  sized_open v b c =
      sym (length-contents v.valid)
      ∙ ap length (held_at cap all s v b c)
      ∙ length-append (all_encoded v.unread) (open_bytes b v.slack v.begun)

  start_moves :
      (v : Inv cap all s) (from : List ℕ)
      → s.server ≡ starting from
      → s.wire.continued ≡ false
      → length_header_size ≤ room s.wire.ring
      → Moved cap all s (some (record s { wire = started s.wire; server = copying from }))
  start_moves v from i c h =
      let r = s.wire.ring in
      let young : r.pushed + 4 < 2 ^ 64 = omega (arith, v.budget, ap server_cost i) in
      let (none_begun, some_bytes) = server_at cap all s v false (starting from) c i in
      let held = contents-reserve v.valid 4 h young in
      let pushed : add_size r.pushed 4 ≡ r.pushed + 4 = omega arith in
      let n : length (unsent s.server) ≡ length from = ap (λ q. length (unsent q)) i in
      (
        record s { wire = started s.wire; server = copying from },
        refl,
        record {
          valid = reserve-IsValid v.valid 4 h young;
          sized = v.sized;
          is_open = v.is_open;
          unread = v.unread;
          begun = v.begun;
          slack = window r.buffer r.capacity r.pushed 4;
          slack_size = refl;
          held =
              held
              ∙ ap (λ x. x ++ window r.buffer r.capacity r.pushed 4)
                  (held_at cap all s v false c ∙ append-nil (all_encoded v.unread))
              ∙ ap (λ x. all_encoded v.unread ++ (window r.buffer r.capacity r.pushed 4 ++ x))
                  (sym none_begun);
          marked = v.marked;
          server_ok = some_bytes;
          client_ok = v.client_ok;
          positive = v.positive;
          order =
              v.order
              ∙ ap (λ q. s.received ++ (v.unread ++ records (v.begun ++ unsent q) s.todo)) i;
          fit_now = omega (arith, v.fit_now, n);
          fit = subst (λ k. AllFit cap (length v.begun + k) s.todo) n v.fit;
          budget = omega (arith, v.budget, ap server_cost i, pushed);
        },
        omega (arith, ap server_cost i, pushed, v.valid),
      )

  start_turn :
      (v : Inv cap all s) (from : List ℕ) (ops : List Op)
      → s.server ≡ starting from
      → s.wire.continued ≡ false
      → Served v (server_turn_of s (starting from) ops)
  start_turn v from ops i c = elim (dec_lt (room s.wire.ring) 4) [
    | yes p ↦ inr (
        inl (
          ap (after_new s from) (brand_new-none s.wire p v.is_open),
          omega (arith, sized_open v false c, room-add-stored v.valid, v.sized, v.fit_now),
        ))
    | no p ↦ inl (
        subst (λ o. Moved cap all s (after_new s from o))
          (sym (brand_new-some s.wire (omega arith))) (start_moves v from i c (omega arith)))
  ]

  copy_moves :
      (v : Inv cap all s) (from : List ℕ)
      → s.server ≡ copying from
      → s.wire.continued ≡ true
      → length from ≤ room s.wire.ring
      → Moved cap all s (some (record s { wire = copied s.wire from; server = idle }))
  copy_moves v from i c h =
      let r = s.wire.ring in
      let young : r.pushed + length from < 2 ^ 64 = omega (arith, v.budget, ap server_cost i) in
      let some_bytes = server_at cap all s v true (copying from) c i in
      let pushed : add_size r.pushed (length from) ≡ r.pushed + length from = omega arith in
      let n : length (unsent s.server) ≡ length from = ap (λ q. length (unsent q)) i in
      let size = length-append v.begun from in
      (
        record s { wire = copied s.wire from; server = idle },
        refl,
        record {
          valid = append-IsValid v.valid from (length from) h (omega arith) young;
          sized = v.sized;
          is_open = v.is_open;
          unread = v.unread;
          begun = v.begun ++ from;
          slack = v.slack;
          slack_size = v.slack_size;
          held =
              contents-append v.valid from (length from) h (omega arith) young
              ∙ ap₂ ◌++◌ (held_at cap all s v true c) (take-all (length from) from (omega arith))
              ∙ append_assoc (all_encoded v.unread) (v.slack ++ v.begun) from
              ∙ ap (◌++◌ (all_encoded v.unread)) (append_assoc v.slack v.begun from)
              ∙ ap (λ b. all_encoded v.unread ++ open_bytes b v.slack (v.begun ++ from)) (sym c);
          marked = v.marked;
          server_ok =
              subst (λ b. ServerOk b (v.begun ++ from) idle) (sym c)
                (omega (arith, size, some_bytes));
          client_ok = v.client_ok;
          positive = v.positive;
          order =
              v.order
              ∙ ap (λ q. s.received ++ (v.unread ++ records (v.begun ++ unsent q) s.todo)) i
              ∙ ap (λ q. s.received ++ (v.unread ++ records q s.todo))
                  (sym (append-nil (v.begun ++ from)));
          fit_now = omega (arith, v.fit_now, n, size);
          fit = subst (λ k. AllFit cap k s.todo) (omega (arith, n, size)) v.fit;
          budget = omega (arith, v.budget, ap server_cost i, pushed);
        },
        omega (arith, ap server_cost i, pushed, v.valid, some_bytes),
      )

  copy_turn :
      (v : Inv cap all s) (from : List ℕ) (ops : List Op)
      → s.server ≡ copying from
      → s.wire.continued ≡ true
      → Served v (server_turn_of s (copying from) ops)
  copy_turn v from ops i c = elim (dec_lt (room s.wire.ring) (length from)) [
    | yes p ↦ inr (
        inl (
          ap (after_part s) (write_part-none s.wire from p v.is_open),
          omega (
            arith,
            sized_open v true c,
            length-append v.slack v.begun,
            v.slack_size,
            room-add-stored v.valid,
            v.sized,
            v.fit_now,
            ap (λ q. length (unsent q)) i,
          ),
        ))
    | no p ↦ inl (
        subst (λ o. Moved cap all s (after_part s o))
          (sym (write_part-some s.wire from (omega arith))) (copy_moves v from i c (omega arith)))
  ]

  turn_of :
      (v : Inv cap all s) (q : Server) (ops : List Op) (b : Bool)
      → s.server ≡ q
      → s.todo ≡ ops
      → s.wire.continued ≡ b
      → Served v (server_turn_of s q ops)
  turn_of v idle [] b i t c = inr (inr (refl, i, t))
  turn_of v idle (writes from ∷ ops) b i t c = inl (write_turn cap all s v from ops i t)
  turn_of v idle (flushes ∷ ops) b i t c = inl (flush_turn cap all s v ops i t)
  turn_of v (starting from) ops false i t c = start_turn v from ops i c
  turn_of v (starting from) ops true i t c = absurd (server_at cap all s v true (starting from) c i)
  turn_of v (copying from) ops true i t c = copy_turn v from ops i c
  turn_of v (copying from) ops false i t c = absurd (server_at cap all s v false (copying from) c i)

  -- A turn of the server keeps the invariant, or it waits while there is a record to read, or
  -- the server has nothing to do.
  pub server_turn-Served : (v : Inv cap all s) → Served v (server_turn s)
  unfolding server_turn
  server_turn-Served v = turn_of v s.server s.todo s.wire.continued refl refl refl
