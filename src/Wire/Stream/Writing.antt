-- ===== src/Wire/Stream/Writing.antt =====
-- A turn of the writer keeps the invariant, and goes through whenever there is room for it.
use native.Mathlib.Decide.{dec_lt}
use tateyama_bootstrap.Prelude.{
  ℕ, ◌+◌, ◌^◌, ◌≤◌, ◌<◌, ◌≡◌, refl, sym, ap, ap₂, ◌∙◌, subst, ◌⊎◌, inl, inr, List, [], ◌∷◌, ◌++◌,
  false, Option, none, some, arith, append-nil, append_assoc, length, length-drop, length-take,
  take, drop, min, length-append,
}
use tateyama_bootstrap.Wire.Codec.{Codec}
use tateyama_bootstrap.Wire.Ring.{Ring, room}
use tateyama_bootstrap.Wire.Simple.{wrote, write_first, write_next}
use tateyama_bootstrap.Wire.Simple.Turns.{
  Grown, write_next_lem, write_next_waits, write_first_lem, write_first_waits, length-message_bytes,
}
use tateyama_bootstrap.Wire.Stream.{
  Message, Writer, idle, writing, Reader, ready, peeped, reading, System, writer_after, after_write,
  write_turn_of, write_turn,
}
use tateyama_bootstrap.Wire.Stream.Chunks.{flat, flat-append, chunks, chunks-nil, chunks-step}
use tateyama_bootstrap.Wire.Stream.Invariant.{
  unsent, WriterOk, Inv, AllGood, plans, plans-append, AllGood-append, current, bytes_of, total,
  ReaderOk, PeepedOk,
}

unsent_after : (d : List ℕ) → unsent (writer_after (length d) d) ≡ d
unsent_after [] = refl
unsent_after (x ∷ xs) = ground arith

WriterOk-after : (d : List ℕ) → WriterOk (writer_after (length d) d)
WriterOk-after [] = tt
WriterOk-after (x ∷ xs) = ground arith

-- The chunk moves from the writer's plan into the wire.
chunk_sent :
    (inflight : List (List ℕ)) (cap : ℕ) (xs : List ℕ)
    → 0 < cap
    → 0 < length xs
    → (inflight ++ take cap xs ∷ [])
        ++ chunks cap (unsent (writer_after (length (drop cap xs)) (drop cap xs)))
      ≡ inflight ++ chunks cap xs
chunk_sent inflight cap xs h p =
    rw (unsent_after (drop cap xs), chunks-step cap xs h p)
      (append_assoc inflight (take cap xs ∷ []) (chunks cap (drop cap xs)))

held_grown :
    (inflight : List (List ℕ)) (old new xs : List ℕ)
    → old ≡ flat inflight
    → new ≡ old ++ xs
    → new ≡ flat (inflight ++ xs ∷ [])
held_grown inflight old new xs e g =
    g ∙ ap₂ ◌++◌ e (sym (append-nil xs)) ∙ sym (flat-append inflight (xs ∷ []))

ReaderOk-append :
    {H : Type 0} (codec : Codec H) (r : Reader H) (unread : List ℕ) (started : List (Message H))
    (m : Message H)
    → ReaderOk codec r unread started
    → ReaderOk codec r unread (started ++ m ∷ [])
ReaderOk-append codec ready unread started m h = h
ReaderOk-append codec (peeped header) unread started m h =
    (h.0, (h.1.0, h.1.1 ++ m ∷ [], ap (λ l. l ++ m ∷ []) h.1.2, h.1.3))
ReaderOk-append codec (reading header left got) unread started m h = h

PeepedOk-append :
    {H : Type 0} (codec : Codec H) (r : Reader H) (inflight : List (List ℕ)) (c : List ℕ)
    → PeepedOk codec r inflight
    → PeepedOk codec r (inflight ++ c ∷ [])
PeepedOk-append codec ready inflight c h = h
PeepedOk-append codec (peeped header) inflight c h = omega (arith, length-append inflight (c ∷ []))
PeepedOk-append codec (reading header left got) inflight c h = h

module _ {H : Type 0} (codec : Codec H) (cap : ℕ) (sent : List (Message H)) (s : System H) where
  -- A further turn went through.
  next_goes :
      (from : List ℕ) (v : Inv codec cap sent s) (r' : Ring)
      → s.writer ≡ writing (length from) from
      → 0 < length from
      → Grown s.ring r' (take cap from)
      → Inv codec cap sent (record s {
        ring = r';
        writer = writer_after (length (drop cap from)) (drop cap from);
        todo = s.todo;
      })
  next_goes from v r' w p g = record {
    valid = g.valid;
    sized = g.capacity ∙ v.sized;
    is_open = v.is_open;
    inflight = v.inflight ++ take cap from ∷ [];
    unread = v.unread;
    started = v.started;
    held = held_grown v.inflight _ _ (take cap from) v.held g.held;
    plan =
        chunk_sent v.inflight cap from (omega (arith, v.sized, v.valid)) p
        ∙ subst
            (λ w.
              v.inflight ++ chunks cap (unsent w)
              ≡ chunks cap v.unread ++ plans codec cap v.started)
            w v.plan;
    writer_ok = WriterOk-after (drop cap from);
    reader_ok = v.reader_ok;
    peeped_ok = PeepedOk-append codec s.reader v.inflight (take cap from) v.peeped_ok;
    order = v.order;
    started_good = v.started_good;
    todo_good = v.todo_good;
    budget = rw (unsent_after (drop cap from)) (
        omega (
          arith,
          g.pushed,
          length-take cap from,
          length-drop cap from,
          subst (λ w. s.ring.pushed + length (unsent w) + total codec s.todo < 2 ^ 64) w v.budget,
        ));
  }

  first_goes :
      (m : Message H) (ms : List (Message H)) (v : Inv codec cap sent s) (r' : Ring)
      → s.writer ≡ idle
      → s.todo ≡ m ∷ ms
      → 0 < length (bytes_of codec m)
      → Grown s.ring r' (take cap (bytes_of codec m))
      → Inv codec cap sent (record s {
        ring = r';
        writer = writer_after (length (drop cap (bytes_of codec m))) (drop cap (bytes_of codec m));
        todo = ms;
      })
  first_goes m ms v r' w t p g =
      let old =
        subst
          (λ w.
            v.inflight ++ chunks cap (unsent w) ≡ chunks cap v.unread ++ plans codec cap v.started)
          w v.plan in
      let plan : v.inflight ≡ chunks cap v.unread ++ plans codec cap v.started =
        sym (append-nil v.inflight) ∙ ap (◌++◌ v.inflight) (sym (chunks-nil cap)) ∙ old in
      let goods = subst (AllGood codec) t v.todo_good in
      let budget =
        subst (λ ts. s.ring.pushed + length (unsent s.writer) + total codec ts < 2 ^ 64) t
          v.budget in
      record {
        valid = g.valid;
        sized = g.capacity ∙ v.sized;
        is_open = v.is_open;
        inflight = v.inflight ++ take cap (bytes_of codec m) ∷ [];
        unread = v.unread;
        started = v.started ++ m ∷ [];
        held = held_grown v.inflight _ _ (take cap (bytes_of codec m)) v.held g.held;
        plan =
            chunk_sent v.inflight cap (bytes_of codec m) (omega (arith, v.sized, v.valid)) p
            ∙ ap (λ k. k ++ chunks cap (bytes_of codec m)) plan
            ∙ append_assoc (chunks cap v.unread) (plans codec cap v.started)
                (chunks cap (bytes_of codec m))
            ∙ ap (◌++◌ (chunks cap v.unread)) (sym (plans-append codec cap v.started m));
        writer_ok = WriterOk-after (drop cap (bytes_of codec m));
        reader_ok = ReaderOk-append codec s.reader v.unread v.started m v.reader_ok;
        peeped_ok =
            PeepedOk-append codec s.reader v.inflight (take cap (bytes_of codec m)) v.peeped_ok;
        order =
            v.order
            ∙ ap (λ k. s.received ++ (current codec s.reader v.unread ++ k))
                (ap (◌++◌ v.started) t ∙ sym (append_assoc v.started (m ∷ []) ms));
        started_good = AllGood-append codec v.started m v.started_good goods.0;
        todo_good = goods.1;
        budget = rw (unsent_after (drop cap (bytes_of codec m))) (
            omega (
              arith,
              g.pushed,
              length-take cap (bytes_of codec m),
              length-drop cap (bytes_of codec m),
              budget,
            ));
      }

  -- The system after `n` bytes have gone into the wire.
  pub record Sent (n : ℕ) (t : System H) : Type 0 where
    pub inv : Inv codec cap sent t
    pub some_bytes : 0 < n
    pub pushed : t.ring.pushed ≡ s.ring.pushed + n
    pub poped : t.ring.poped ≡ s.ring.poped
    pub less :
        length (unsent t.writer) + total codec t.todo + n
        ≡ length (unsent s.writer) + total codec s.todo
    pub reader : t.reader ≡ s.reader

  -- A turn that has `xs` to send goes through, or waits since the room is short, or there is
  -- nothing to send.
  abbrev pub Turned : List ℕ → Option (System H) → Type 0
  Turned xs o =
      ((t : System H) × (o ≡ some t) × Sent (min (length xs) cap) t)
      ⊎ ((o ≡ none) × (0 < length xs) × (room s.ring < min (length xs) cap))
      ⊎ ((o ≡ none) × (xs ≡ []))

  -- What the writer has to send next.
  abbrev pub next_bytes : Writer → List (Message H) → List ℕ
  next_bytes idle [] = []
  next_bytes idle (m ∷ ms) = bytes_of codec m
  next_bytes (writing left from) ms = from

  writing_turn :
      (v : Inv codec cap sent s) (from : List ℕ)
      → s.writer ≡ writing (length from) from
      → 0 < length from
      → Turned from (after_write s s.todo (write_next s.ring s.closed (length from) from))
  writing_turn v from e p = elim (dec_lt (room s.ring) (min (length from) cap)) [
    | yes short ↦
        inr (inl (rw (v.is_open, write_next_waits v.valid from (omega (arith, v.sized))), p, short))
    | no enough ↦
        let budget =
          subst (λ w. s.ring.pushed + length (unsent w) + total codec s.todo < 2 ^ 64) e v.budget in
        let (r', turn, grown) =
          write_next_lem v.valid from (omega (arith, v.sized)) (omega arith) in
        let turn' =
          subst
            (λ c.
              write_next s.ring false (length from) from
              ≡ wrote r' (length (drop c from)) (drop c from))
            v.sized turn in
        let grown' = subst (λ c. Grown s.ring r' (take c from)) v.sized grown in
        inl (
          record s {
            ring = r';
            writer = writer_after (length (drop cap from)) (drop cap from);
            todo = s.todo;
          },
          rw (v.is_open, turn'),
          record {
            inv = next_goes from v r' e p grown';
            some_bytes = omega (arith, v.sized, v.valid);
            pushed = omega (arith, grown'.pushed, length-take cap from);
            poped = grown'.poped;
            less = rw (unsent_after (drop cap from), e) (omega (arith, length-drop cap from));
            reader = refl;
          },
        )
  ]

  first_turn :
      (v : Inv codec cap sent s) (m : Message H) (ms : List (Message H))
      → codec.size ≤ cap
      → s.writer ≡ idle
      → s.todo ≡ m ∷ ms
      → Turned
          (bytes_of codec m)
          (after_write s ms (write_first codec s.ring s.closed m.header m.payload))
  first_turn v m ms h e t =
      let goods = subst (AllGood codec) t v.todo_good in
      let size = length-message_bytes codec m.header m.payload in
      let p : 0 < length (bytes_of codec m) = omega (arith, size, codec.size_pos) in
      let fits : codec.size ≤ s.ring.capacity = omega (arith, v.sized) in
      elim (dec_lt (room s.ring) (min (length (bytes_of codec m)) cap)) [
        | yes short ↦ inr (
            inl (
              rw (
                v.is_open,
                write_first_waits codec v.valid m.header m.payload goods.0.1
                    (omega (arith, v.sized)),
              ),
              p,
              short,
            ))
        | no enough ↦
            let budget =
              subst (λ ts. s.ring.pushed + length (unsent s.writer) + total codec ts < 2 ^ 64) t
                v.budget in
            let (r', turn, grown) =
              write_first_lem codec v.valid m.header m.payload goods.0.1 fits
                (omega (arith, v.sized)) (omega arith) in
            let turn' =
              subst
                (λ c.
                  write_first codec s.ring false m.header m.payload
                  ≡ wrote r' (length (drop c (bytes_of codec m))) (drop c (bytes_of codec m)))
                v.sized turn in
            let grown' = subst (λ c. Grown s.ring r' (take c (bytes_of codec m))) v.sized grown in
            inl (
              record s {
                ring = r';
                writer =
                    writer_after (length (drop cap (bytes_of codec m)))
                      (drop cap (bytes_of codec m));
                todo = ms;
              },
              rw (v.is_open, turn'),
              record {
                inv = first_goes m ms v r' e t p grown';
                some_bytes = omega (arith, v.sized, v.valid);
                pushed = omega (arith, grown'.pushed, length-take cap (bytes_of codec m));
                poped = grown'.poped;
                less =
                    rw (unsent_after (drop cap (bytes_of codec m)), e, t)
                      (omega (arith, length-drop cap (bytes_of codec m)));
                reader = refl;
              },
            )
      ]

  write_turn_of-Turned :
      (v : Inv codec cap sent s) (w : Writer) (ts : List (Message H))
      → codec.size ≤ cap
      → s.writer ≡ w
      → s.todo ≡ ts
      → Turned (next_bytes w ts) (write_turn_of codec s w ts)
  write_turn_of-Turned v idle [] h e t = inr (inr (refl, refl))
  write_turn_of-Turned v idle (m ∷ ms) h e t = first_turn v m ms h e t
  write_turn_of-Turned v (writing left from) ts h e t =
      let ok = subst WriterOk e v.writer_ok in
      rw (ok.0, ← t)
        (writing_turn v from (e ∙ ap (λ k. writing k from) ok.0) (omega (arith, ok.0, ok.1)))

  -- A turn of the writer keeps the invariant and moves bytes into the wire; or it waits, and then
  -- the room is short of its next chunk; or there is nothing left to send.
  pub write_turn-Turned :
      (v : Inv codec cap sent s)
      → codec.size ≤ cap
      → Turned (next_bytes s.writer s.todo) (write_turn codec s)
  unfolding write_turn
  write_turn-Turned v h = write_turn_of-Turned v s.writer s.todo h refl refl
