-- ===== src/Wire/Stream/Reading.antt =====
-- A turn of the reader keeps the invariant, and goes through whenever the wire holds a chunk.
use tateyama_bootstrap.Prelude.{
  cons_head, cons_tail, ℕ, ◌+◌, ◌-◌, ◌*◌, ◌≤◌, ◌<◌, ◌≡◌, refl, sym, ap, ap₂, ◌∙◌, subst, ◌⊎◌, inl,
  inr, List, [], ◌∷◌, ◌++◌, Option, none, some, arith, append-nil, append_assoc, length,
  length-drop, length-take, take, drop, min, length-append, take-append-drop, take-length-append,
  drop-length-append, le→leb, suc-==-zero,
}
use tateyama_bootstrap.Wire.Codec.{Codec}
use tateyama_bootstrap.Wire.Ring.{stored, header_bytes}
use tateyama_bootstrap.Wire.Ring.Counters.{IsValid, contents, length-contents, header_bytes-eq-take}
use tateyama_bootstrap.Wire.Simple.{Chunk, read_first}
use tateyama_bootstrap.Wire.Simple.Turns.{
  length-message_bytes, take-message_bytes, drop-message_bytes,
}
use tateyama_bootstrap.Wire.Simple.Reads.{read_first_lem, read_next_lem, read_next_waits}
use tateyama_bootstrap.Wire.Stream.{
  Message, Reader, ready, peeped, reading, System, after_read, read_turn_of, read_turn,
}
use tateyama_bootstrap.Wire.Stream.Chunks.{flat, chunks, chunks-nil, chunks-step}
use tateyama_bootstrap.Wire.Stream.Invariant.{
  unsent, Inv, AllGood, plans, current, bytes_of, ReaderOk, PeepedOk,
}

-- A reader that is at a message's start weighs one more than one that is in it.
abbrev pub phase : {H : Type 0} → Reader H → ℕ
phase ready = 1
phase (peeped h) = 0
phase (reading h left got) = 0

module _ {H : Type 0} (codec : Codec H) (cap : ℕ) (sent : List (Message H)) (s : System H) where
  -- The reader has moved, and nothing else.
  pub record Read (t : System H) : Type 0 where
    pub inv : Inv codec cap sent t
    pub pushed : t.ring.pushed ≡ s.ring.pushed
    pub writer : t.writer ≡ s.writer
    pub todo : t.todo ≡ s.todo
    pub progress : 2 * s.ring.poped + phase t.reader < 2 * t.ring.poped + phase s.reader

  -- A turn goes through, or it waits since the wire is empty.
  abbrev pub Turned : Inv codec cap sent s → Option (System H) → Type 0
  Turned v o = ((t : System H) × (o ≡ some t) × Read t) ⊎ ((o ≡ none) × (v.inflight ≡ []))

  -- Where a chunk leaves the reader of a message of which `unread` is still to come.
  settle :
      (v : Inv codec cap sent s) (header : H) (got : List ℕ) (c : Chunk) (unread : List ℕ)
      (started : List (Message H)) (inflight : List (List ℕ))
      → phase s.reader ≡ 0
      → IsValid c.ring
      → c.ring.capacity ≡ s.ring.capacity
      → c.ring.pushed ≡ s.ring.pushed
      → s.ring.poped < c.ring.poped
      → contents c.ring ≡ flat inflight
      → c.left ≡ length unread
      → inflight ++ chunks cap (unsent s.writer) ≡ chunks cap unread ++ plans codec cap started
      → sent
        ≡ s.received
          ++ (record { header = header; payload = (got ++ c.bytes) ++ unread }
              ∷ (started ++ s.todo))
      → AllGood codec started
      → Read (after_read s header got c)
  settle v header got c [] started inflight ph valid capa pushed moved held left plan order good =
      rw left (record {
        inv = record {
          valid = valid;
          sized = capa ∙ v.sized;
          is_open = v.is_open;
          inflight = inflight;
          unread = [];
          started = started;
          held = held;
          plan = plan;
          writer_ok = v.writer_ok;
          reader_ok = refl;
          peeped_ok = tt;
          order =
              order
              ∙ ap
                  (λ k.
                    s.received ++ (record { header = header; payload = k } ∷ (started ++ s.todo)))
                  (append-nil (got ++ c.bytes))
              ∙ sym (append_assoc s.received _ (started ++ s.todo));
          started_good = good;
          todo_good = v.todo_good;
          budget = omega (arith, v.budget);
        };
        pushed = pushed;
        writer = refl;
        todo = refl;
        progress = omega arith;
      })
  settle v header got c (x ∷ xs) started inflight ph valid capa pushed moved held left plan order
        good =
      rw (left, suc-==-zero)
        (record {
          inv = record {
            valid = valid;
            sized = capa ∙ v.sized;
            is_open = v.is_open;
            inflight = inflight;
            unread = x ∷ xs;
            started = started;
            held = held;
            plan = plan;
            writer_ok = v.writer_ok;
            reader_ok = (refl, omega arith);
            peeped_ok = tt;
            order = order;
            started_good = good;
            todo_good = v.todo_good;
            budget = omega (arith, v.budget);
          };
          pushed = pushed;
          writer = refl;
          todo = refl;
          progress = omega arith;
        })

  pub stored-eq-flat :
      (v : Inv codec cap sent s) (inflight : List (List ℕ))
      → v.inflight ≡ inflight
      → stored s.ring ≡ length (flat inflight)
  stored-eq-flat v inflight e = sym (length-contents v.valid) ∙ ap length (v.held ∙ ap flat e)

  -- The first chunk of a message, its header and the rest of the payload.
  first_chunk :
      (m : Message H) (rest : List ℕ)
      → codec.size ≤ cap
      → (drop codec.size (take cap (bytes_of codec m) ++ rest)
          ≡ take (cap - codec.size) m.payload ++ rest)
        × (take codec.size (take cap (bytes_of codec m) ++ rest) ≡ codec.to_buffer m.header)
        × (drop cap (bytes_of codec m) ≡ drop (cap - codec.size) m.payload)
  first_chunk m rest h =
      let k = cap - codec.size in
      let whole : cap ≡ codec.size + k = omega arith in
      let split : take cap (bytes_of codec m) ++ rest
          ≡ codec.to_buffer m.header ++ (take k m.payload ++ rest) =
        ap (λ l. l ++ rest)
          (ap (λ n. take n (bytes_of codec m)) whole
            ∙ take-message_bytes codec m.header m.payload k)
        ∙ append_assoc (codec.to_buffer m.header) (take k m.payload) rest in
      (
        ap₂ drop (sym (codec.length-to_buffer m.header)) split
            ∙ drop-length-append (codec.to_buffer m.header) _,
        ap₂ take (sym (codec.length-to_buffer m.header)) split
            ∙ take-length-append (codec.to_buffer m.header) _,
        ap (λ n. drop n (bytes_of codec m)) whole ∙ drop-message_bytes codec m.header m.payload k,
      )

  -- With `started` known, the plan shows the chunk at the head of the wire.
  plan_head :
      (v : Inv codec cap sent s) (c : List ℕ) (cs : List (List ℕ)) (m : Message H)
      (ms : List (Message H))
      → v.inflight ≡ c ∷ cs
      → v.unread ≡ []
      → v.started ≡ m ∷ ms
      → (c ≡ take cap (bytes_of codec m))
        × (cs ++ chunks cap (unsent s.writer)
            ≡ chunks cap (drop cap (bytes_of codec m)) ++ plans codec cap ms)
  plan_head v c cs m ms e u t =
      let size : 0 < length (bytes_of codec m) =
        omega (arith, length-message_bytes codec m.header m.payload, codec.size_pos) in
      let plan : c ∷ (cs ++ chunks cap (unsent s.writer))
          ≡ take cap (bytes_of codec m)
            ∷ (chunks cap (drop cap (bytes_of codec m)) ++ plans codec cap ms) =
        ap (λ l. l ++ chunks cap (unsent s.writer)) (sym e)
        ∙ v.plan
        ∙ ap₂ (λ x y. chunks cap x ++ plans codec cap y) u t
        ∙ ap (λ l. l ++ (chunks cap (bytes_of codec m) ++ plans codec cap ms)) (chunks-nil cap)
        ∙ ap (λ l. l ++ plans codec cap ms)
            (chunks-step cap (bytes_of codec m) (omega (arith, v.sized, v.valid)) size) in
      (cons_head plan, cons_tail plan)

  ready_turn :
      (v : Inv codec cap sent s) (inflight : List (List ℕ)) (started : List (Message H))
      → codec.size ≤ cap
      → s.reader ≡ ready
      → v.inflight ≡ inflight
      → v.started ≡ started
      → Turned v (read_turn_of codec s ready)
  ready_turn v [] started h r e t =
      let empty : stored s.ring ≡ 0 = stored-eq-flat v [] e in
      inr (ground (arith, codec.size_pos), e)
  ready_turn v (c ∷ cs) [] h r e t =
      let u : v.unread ≡ [] = subst (λ q. ReaderOk codec q v.unread v.started) r v.reader_ok in
      let bad : c ∷ (cs ++ chunks cap (unsent s.writer)) ≡ [] =
        ap (λ l. l ++ chunks cap (unsent s.writer)) (sym e)
        ∙ v.plan
        ∙ ap₂ (λ x y. chunks cap x ++ plans codec cap y) u t
        ∙ ap (λ l. l ++ []) (chunks-nil cap) in
      cc
  ready_turn v (c ∷ cs) (m ∷ ms) h r e t =
      let u : v.unread ≡ [] = subst (λ q. ReaderOk codec q v.unread v.started) r v.reader_ok in
      let head = (plan_head v c cs m ms e u t).0 in
      let size = length-message_bytes codec m.header m.payload in
      let some_bytes : codec.size ≤ stored s.ring = omega (
        arith,
        stored-eq-flat v (c ∷ cs) e,
        length-append c (flat cs),
        ap length head,
        length-take cap (bytes_of codec m),
        size,
      ) in
      let good = (subst (AllGood codec) t v.started_good).0 in
      let bytes : header_bytes codec.size s.ring ≡ codec.to_buffer m.header =
        header_bytes-eq-take v.valid codec.size some_bytes
        ∙ ap (take codec.size) (v.held ∙ ap flat e ∙ ap (λ l. l ++ flat cs) head)
        ∙ (first_chunk m (flat cs) h).1 in
      let header : codec.of_buffer (header_bytes codec.size s.ring) ≡ m.header =
        ap codec.of_buffer (bytes ∙ sym (append-nil (codec.to_buffer m.header)))
        ∙ codec.of_buffer-to_buffer m.header [] good.0 in
      inl (
        record s { reader = peeped (codec.of_buffer (header_bytes codec.size s.ring)) },
        rw (le→leb codec.size (stored s.ring) some_bytes),
        record {
          inv = record {
            valid = v.valid;
            sized = v.sized;
            is_open = v.is_open;
            inflight = v.inflight;
            unread = v.unread;
            started = v.started;
            held = v.held;
            plan = v.plan;
            writer_ok = v.writer_ok;
            reader_ok = (u, (m, ms, t, sym header));
            peeped_ok = omega (arith, ap length e);
            order =
                v.order
                ∙ ap (λ q. s.received ++ (current codec q v.unread ++ (v.started ++ s.todo))) r;
            started_good = v.started_good;
            todo_good = v.todo_good;
            budget = v.budget;
          };
          pushed = refl;
          writer = refl;
          todo = refl;
          progress = omega (arith, ap phase r);
        },
      )

  peeped_turn :
      (v : Inv codec cap sent s) (inflight : List (List ℕ)) (header : H)
      → codec.size ≤ cap
      → s.reader ≡ peeped header
      → v.inflight ≡ inflight
      → Turned v (read_turn_of codec s (peeped header))
  peeped_turn v [] header h r e =
      let ok = subst (λ q. PeepedOk codec q v.inflight) r v.peeped_ok in
      absurd (omega (arith, ap length e))
  peeped_turn v (c ∷ cs) header h r e =
      let (u, (m, ms, t, hd)) = subst (λ q. ReaderOk codec q v.unread v.started) r v.reader_ok in
      let (head, plan) = plan_head v c cs m ms e u t in
      let size = length-message_bytes codec m.header m.payload in
      let good = subst (AllGood codec) t v.started_good in
      let len : codec.get_length header ≡ length m.payload =
        ap codec.get_length (sym hd) ∙ good.0.1 in
      let n = min (codec.size + length m.payload) cap in
      let chunk : length c ≡ n =
        omega (arith, ap length head, length-take cap (bytes_of codec m), size) in
      let whole : contents s.ring ≡ take cap (bytes_of codec m) ++ flat cs =
        v.held ∙ ap flat e ∙ ap (λ l. l ++ flat cs) head in
      let (taken, left) =
        read_first_lem v.valid codec.size (codec.get_length header) (omega (arith, v.sized))
          (omega (arith, v.sized, stored-eq-flat v (c ∷ cs) e, length-append c (flat cs))) in
      let upto : min (codec.size + codec.get_length header) s.ring.capacity ≡ n =
        omega (arith, v.sized) in
      let k = cap - codec.size in
      let parts = first_chunk m (flat cs) h in
      let bytes : (read_first codec.size s.ring (codec.get_length header)).bytes
          ≡ take k m.payload =
        taken.bytes
        ∙ ap₂ take
            (let e : min (codec.size + codec.get_length header) s.ring.capacity - codec.size
                  ≡ length (take k m.payload) =
                omega (arith, v.sized, length-take k m.payload) in
              e)
            (ap (drop codec.size) whole ∙ parts.0)
        ∙ take-length-append (take k m.payload) (flat cs) in
      inl (
        after_read s header [] (read_first codec.size s.ring (codec.get_length header)),
        refl,
        settle v header [] (read_first codec.size s.ring (codec.get_length header))
            (drop cap (bytes_of codec m)) ms cs (ap phase r) taken.valid taken.capacity taken.pushed
            (omega (arith, taken.poped, v.sized, codec.size_pos, v.valid))
            (taken.held
              ∙ ap₂ drop (upto ∙ sym chunk) (v.held ∙ ap flat e)
              ∙ drop-length-append c (flat cs))
            (omega (arith, left, v.sized, length-drop cap (bytes_of codec m), size)) plan
            (v.order
              ∙ ap (λ q. s.received ++ (current codec q v.unread ++ (v.started ++ s.todo))) r
              ∙ ap₂ (λ x y. s.received ++ (current codec (peeped header) x ++ (y ++ s.todo))) u t
              ∙ ap₂ (λ x y. s.received ++ (record { header = x; payload = y } ∷ (ms ++ s.todo))) hd
                  (sym (ap₂ ◌++◌ bytes parts.2 ∙ take-append-drop k m.payload)))
            good.1,
      )

  reading_turn :
      (v : Inv codec cap sent s) (inflight : List (List ℕ)) (header : H) (left : ℕ) (got : List ℕ)
      → s.reader ≡ reading header left got
      → v.inflight ≡ inflight
      → Turned v (read_turn_of codec s (reading header left got))
  reading_turn v [] header left got r e =
      let ok = subst (λ q. ReaderOk codec q v.unread v.started) r v.reader_ok in
      let empty : stored s.ring ≡ 0 = stored-eq-flat v [] e in
      inr (
        rw (
          read_next_waits s.ring left (omega (arith, v.sized, v.valid, empty, ok.1)),
          read_turn_of,
        ),
        e,
      )
  reading_turn v (c ∷ cs) header left got r e =
      let ok = subst (λ q. ReaderOk codec q v.unread v.started) r v.reader_ok in
      let plan : c ∷ (cs ++ chunks cap (unsent s.writer))
          ≡ take cap v.unread ∷ (chunks cap (drop cap v.unread) ++ plans codec cap v.started) =
        ap (λ l. l ++ chunks cap (unsent s.writer)) (sym e)
        ∙ v.plan
        ∙ ap (λ l. l ++ plans codec cap v.started)
            (chunks-step cap v.unread (omega (arith, v.sized, v.valid))
              (omega (arith, ok.0, ok.1))) in
      let head = cons_head plan in
      let chunk : length c ≡ min left s.ring.capacity =
        omega (arith, ap length head, length-take cap v.unread, ok.0, v.sized) in
      let (k, turn, taken, rest) =
        read_next_lem v.valid left
          (omega (arith, chunk, stored-eq-flat v (c ∷ cs) e, length-append c (flat cs))) in
      let bytes : k.bytes ≡ c =
        taken.bytes
        ∙ ap₂ take (let e : min left s.ring.capacity - 0 ≡ length c = omega (arith, chunk) in e)
            (v.held ∙ ap flat e)
        ∙ take-length-append c (flat cs) in
      inl (
        after_read s header got k,
        rw (turn, read_turn_of),
        settle v header got k (drop cap v.unread) v.started cs (ap phase r) taken.valid
            taken.capacity taken.pushed (omega (arith, taken.poped, v.sized, v.valid, ok.1))
            (taken.held
              ∙ ap₂ drop (sym chunk) (v.held ∙ ap flat e)
              ∙ drop-length-append c (flat cs))
            (omega (arith, rest, v.sized, length-drop cap v.unread, ok.0)) (cons_tail plan)
            (v.order
              ∙ ap (λ q. s.received ++ (current codec q v.unread ++ (v.started ++ s.todo))) r
              ∙ ap
                  (λ y.
                    s.received ++ (record { header = header; payload = y } ∷ (v.started ++ s.todo)))
                  (ap (◌++◌ got) (
                      sym (take-append-drop cap v.unread)
                      ∙ ap (λ l. l ++ drop cap v.unread) (sym (bytes ∙ head)))
                    ∙ sym (append_assoc got k.bytes (drop cap v.unread))))
            v.started_good,
      )

  read_turn_of-Turned :
      (v : Inv codec cap sent s) (q : Reader H)
      → codec.size ≤ cap
      → s.reader ≡ q
      → Turned v (read_turn_of codec s q)
  read_turn_of-Turned v ready h r = ready_turn v v.inflight v.started h r refl refl
  read_turn_of-Turned v (peeped header) h r = peeped_turn v v.inflight header h r refl
  read_turn_of-Turned v (reading header left got) h r =
      reading_turn v v.inflight header left got r refl

  -- A turn of the reader keeps the invariant and moves on, or it waits and then the wire is empty.
  pub read_turn-Turned :
      (v : Inv codec cap sent s) → codec.size ≤ cap → Turned v (read_turn codec s)
  unfolding read_turn
  read_turn-Turned v h = read_turn_of-Turned v s.reader h refl
