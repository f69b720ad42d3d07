-- ===== src/Wire/Stream/Delivery.antt =====
-- What a wire promises to the two sides of it: all messages arrive, in order and whole, under
-- every schedule, and neither side waits for ever.
use tateyama_bootstrap.Prelude.{
  ℕ, zero, suc, ◌+◌, ◌-◌, ◌*◌, ◌^◌, ◌≤◌, ◌<◌, ◌≡◌, refl, sym, ap, ap₂, ◌∙◌, ◌⊎◌, inl, inr, List, [],
  ◌∷◌, ◌++◌, Bool, true, false, Option, none, some, arith, append-nil, length, length-zero, take,
  drop,
}
use tateyama_bootstrap.Wire.Codec.{Codec}
use tateyama_bootstrap.Wire.Ring.{Ring, stored}
use tateyama_bootstrap.Wire.Ring.Counters.{
  IsValid, contents, length-contents, room-add-stored, stored-eq-sub,
}
use tateyama_bootstrap.Wire.Simple.Turns.{length-message_bytes}
use tateyama_bootstrap.Wire.Stream.{
  Message, Writer, idle, writing, Reader, ready, peeped, reading, System, write_turn, read_turn,
  run, or_stay,
}
use tateyama_bootstrap.Wire.Stream.Chunks.{chunks, chunks-nil, chunks-step}
use tateyama_bootstrap.Wire.Stream.Invariant.{
  unsent, WriterOk, Inv, AllGood, plans, current, bytes_of, total, ReaderOk, PeepedOk,
}
use tateyama_bootstrap.Wire.Stream.Writing.{next_bytes, write_turn-Turned}
use tateyama_bootstrap.Wire.Stream.Reading.{phase, Read, read_turn-Turned, stored-eq-flat}

-- Before the first turn: an empty wire, and messages to send.
abbrev pub start : {H : Type 0} → Ring → List (Message H) → System H
start ring sent = record {
  ring = ring;
  closed = false;
  writer = idle;
  reader = ready;
  todo = sent;
  received = [];
}

-- The schedule of `n` rounds, each with a turn of the writer and one of the reader.
abbrev pub rounds : ℕ → List Bool
rounds zero = []
rounds (suc n) = true ∷ false ∷ rounds n

module _ {H : Type 0} (codec : Codec H) where
  pub start-Inv :
      (ring : Ring) (sent : List (Message H))
      → IsValid ring
      → ring.pushed ≡ ring.poped
      → AllGood codec sent
      → ring.pushed + total codec sent < 2 ^ 64
      → Inv codec ring.capacity sent (start ring sent)
  start-Inv ring sent v e good y = record {
    valid = v;
    sized = refl;
    is_open = refl;
    inflight = [];
    unread = [];
    started = [];
    held = length-zero (contents ring) (length-contents v ∙ stored-eq-sub v ∙ omega arith);
    plan = sym (append-nil (chunks ring.capacity []));
    writer_ok = tt;
    reader_ok = refl;
    peeped_ok = tt;
    order = refl;
    started_good = tt;
    todo_good = good;
    budget = omega arith;
  }

  -- What is still to be moved.
  pub weight : System H → ℕ
  weight s =
      3 * (length (unsent s.writer) + total codec s.todo)
      + 2 * (s.ring.pushed - s.ring.poped)
      + phase s.reader

  module _ (cap : ℕ) (sent : List (Message H)) (fits : codec.size ≤ cap) where
    chunks_ne :
        (xs : List ℕ) (rest : List (List ℕ))
        → 0 < cap
        → 0 < length xs
        → [] ≡ chunks cap xs ++ rest
        → ⊥
    chunks_ne xs rest h p e =
        let step = chunks-step cap xs h p in
        let bad : [] ≡ take cap xs ∷ (chunks cap (drop cap xs) ++ rest) =
          e ∙ ap (λ k. k ++ rest) step in
        cc

    no_plan : (started : List (Message H)) → 0 < cap → [] ≡ plans codec cap started → started ≡ []
    no_plan [] h e = refl
    no_plan (m ∷ ms) h e = absurd (
        chunks_ne (bytes_of codec m) (plans codec cap ms) h
          (omega (arith, length-message_bytes codec m.header m.payload, codec.size_pos)) e)

    no_bytes :
        (s : System H) (w : Writer) (ts : List (Message H))
        → WriterOk w
        → next_bytes codec cap sent s w ts ≡ []
        → (w ≡ idle) × (ts ≡ [])
    no_bytes s idle [] ok e = (refl, refl)
    no_bytes s idle (m ∷ ms) ok e =
        absurd (
          omega (arith, ap length e, length-message_bytes codec m.header m.payload, codec.size_pos))
    no_bytes s (writing left from) ts ok e = absurd (omega (arith, ap length e, ok.0, ok.1))

    -- The reader of an empty wire with no plan is between two messages.
    reader_done :
        (q : Reader H) (unread : List ℕ) (started todo received : List (Message H))
        (inflight : List (List ℕ))
        → 0 < cap
        → inflight ≡ []
        → ReaderOk codec q unread started
        → PeepedOk codec q inflight
        → [] ≡ chunks cap unread ++ plans codec cap started
        → todo ≡ []
        → sent ≡ received ++ (current codec q unread ++ (started ++ todo))
        → received ≡ sent
    reader_done ready unread started todo received inflight h e ok pk plan t order =
        let none_started = no_plan started h (
          plan
          ∙ ap (λ k. chunks cap k ++ plans codec cap started) ok
          ∙ ap (λ k. k ++ plans codec cap started) (chunks-nil cap)) in
        sym (order ∙ ap₂ (λ x y. received ++ (x ++ y)) none_started t ∙ append-nil received)
    reader_done (peeped header) unread started todo received inflight h e ok pk plan t order =
        absurd (omega (arith, ap length e))
    reader_done (reading header left got) unread started todo received inflight h e ok pk plan t
          order =
        absurd (chunks_ne unread (plans codec cap started) h (omega (arith, ok.0, ok.1)) plan)

    less_after :
        (s t : System H) → Inv codec cap sent s → Read codec cap sent s t → weight t < weight s
    unfolding weight
    less_after s t v r = omega (
      arith,
      ap (λ w. length (unsent w)) r.writer,
      ap (total codec) r.todo,
      r.pushed,
      r.progress,
      v.valid,
      r.inv.valid,
    )

    finished :
        (s : System H) (v : Inv codec cap sent s)
        → next_bytes codec cap sent s s.writer s.todo ≡ []
        → v.inflight ≡ []
        → s.received ≡ sent
    finished s v none_left none_inflight =
        let (w, t) = no_bytes s s.writer s.todo v.writer_ok none_left in
        reader_done s.reader v.unread v.started s.todo s.received v.inflight
          (omega (arith, v.sized, v.valid)) none_inflight v.reader_ok v.peeped_ok
          (sym (ap₂ (λ x y. x ++ chunks cap (unsent y)) none_inflight w ∙ chunks-nil cap) ∙ v.plan)
          t v.order

    -- A turn that goes through keeps the invariant and leaves less to move.
    abbrev Moved : System H → Option (System H) → Type 0
    Moved s o = (t : System H) × (o ≡ some t) × Inv codec cap sent t × (weight t < weight s)

    -- Of an undelivered system some side can move: neither waits for the other for ever.
    pub some_side_moves :
        (s : System H)
        → Inv codec cap sent s
        → Moved s (write_turn codec s)
          ⊎ ((write_turn codec s ≡ none) × Moved s (read_turn codec s))
          ⊎ ((write_turn codec s ≡ none) × (read_turn codec s ≡ none) × (s.received ≡ sent))
    unfolding weight
    some_side_moves s v = elim (write_turn-Turned codec cap sent s v fits) [
      | inl (t, e, w) ↦ inl (
        t,
        e,
        w.inv,
        omega (
          arith,
          w.some_bytes,
          w.pushed,
          w.poped,
          w.less,
          ap phase w.reader,
          v.valid,
          w.inv.valid,
        ),
      )
      | inr (inl (e, some_bytes, short)) ↦ elim (read_turn-Turned codec cap sent s v fits) [
        | inl (t, er, r) ↦ inr (inl (e, (t, er, r.inv, less_after s t v r)))
        | inr (er, none_inflight) ↦
            let empty : stored s.ring ≡ 0 = stored-eq-flat codec cap sent s v [] none_inflight in
            absurd (omega (arith, short, empty, room-add-stored v.valid, v.sized))
      ]
      | inr (inr (e, none_left)) ↦ elim (read_turn-Turned codec cap sent s v fits) [
        | inl (t, er, r) ↦ inr (inl (e, (t, er, r.inv, less_after s t v r)))
        | inr (er, none_inflight) ↦ inr (inr (e, er, finished s v none_left none_inflight))
      ]
    ]

    -- The invariant holds after every schedule.
    pub run-Inv :
        (turns : List Bool) (s : System H)
        → Inv codec cap sent s
        → Inv codec cap sent (run codec turns s)
    unfolding run
    run-Inv [] s v = v
    run-Inv (true ∷ turns) s v = elim (some_side_moves s v) [
      | inl (t, e, w, less) ↦ rw e (run-Inv turns t w)
      | inr (inl (e, _)) ↦ rw e (run-Inv turns s v)
      | inr (inr (e, _, _)) ↦ rw e (run-Inv turns s v)
    ]
    run-Inv (false ∷ turns) s v = elim (read_turn-Turned codec cap sent s v fits) [
      | inl (t, e, r) ↦ rw e (run-Inv turns t r.inv)
      | inr (e, _) ↦ rw e (run-Inv turns s v)
    ]

    stuck-run :
        (turns : List Bool) (s : System H)
        → write_turn codec s ≡ none
        → read_turn codec s ≡ none
        → run codec turns s ≡ s
    unfolding run
    stuck-run [] s e f = refl
    stuck-run (true ∷ turns) s e f = rw e (stuck-run turns s e f)
    stuck-run (false ∷ turns) s e f = rw f (stuck-run turns s e f)

    -- As many rounds as there is weight deliver everything.
    rounds_deliver :
        (n : ℕ) (s : System H)
        → Inv codec cap sent s
        → weight s ≤ n
        → (run codec (rounds n) s).received ≡ sent
    unfolding run
    rounds_deliver zero s v h = elim (some_side_moves s v) [
      | inl (t, e, w, less) ↦ absurd (omega arith)
      | inr (inl (e, (t, er, w, less))) ↦ absurd (omega arith)
      | inr (inr (e, er, done)) ↦ done
    ]
    rounds_deliver (suc n) s v h = elim (some_side_moves s v) [
      | inl (t, e, w, less) ↦ elim (read_turn-Turned codec cap sent t w fits) [
        | inl (u, er, r) ↦ round e er ∙ rounds_deliver n u r.inv (omega (arith, less_after t u w r))
        | inr (er, _) ↦ round e er ∙ rounds_deliver n t w (omega arith)
      ]
      | inr (inl (e, (t, er, w, less))) ↦ round e er ∙ rounds_deliver n t w (omega arith)
      | inr (inr (e, er, done)) ↦
          round e er ∙ ap (λ t. t.received) (stuck-run (rounds n) s e er) ∙ done
    ]
      where
        round :
            {o p : Option (System H)}
            → write_turn codec s ≡ o
            → read_turn codec (or_stay s o) ≡ p
            → (run codec (rounds (suc n)) s).received
              ≡ (run codec (rounds n) (or_stay (or_stay s o) p)).received
        round {o} e er =
            ap (λ o. (run codec (false ∷ rounds n) (or_stay s o)).received) e
            ∙ ap (λ p. (run codec (rounds n) (or_stay (or_stay s o) p)).received) er

module _ {H : Type 0} (codec : Codec H) (ring : Ring) (sent : List (Message H)) where
  -- Under every schedule of the two sides, what the reader has received is a beginning of what the
  -- writer was given: no message is lost, changed, doubled or overtaken. The wire is empty at the
  -- start, holds at least a header, and the messages fit their headers and are fewer than 2^64
  -- bytes in all.
  pub received-run-prefix :
      (turns : List Bool)
      → IsValid ring
      → ring.pushed ≡ ring.poped
      → codec.size ≤ ring.capacity
      → AllGood codec sent
      → ring.pushed + total codec sent < 2 ^ 64
      → (rest : List (Message H)) × (sent ≡ (run codec turns (start ring sent)).received ++ rest)
  received-run-prefix turns v e h good y =
      let w =
        run-Inv codec ring.capacity sent h turns (start ring sent)
          (start-Inv codec ring sent v e good y) in
      (_, w.order)

  -- When the two sides take turns, everything arrives within a number of rounds that the messages'
  -- bytes give, also when single messages are longer than the wire. The wire is empty at the
  -- start, holds at least a header, and the messages fit their headers and are fewer than 2^64
  -- bytes in all.
  pub received-run-all :
      (n : ℕ)
      → IsValid ring
      → ring.pushed ≡ ring.poped
      → codec.size ≤ ring.capacity
      → AllGood codec sent
      → ring.pushed + total codec sent < 2 ^ 64
      → 3 * total codec sent + 1 ≤ n
      → (run codec (rounds n) (start ring sent)).received ≡ sent
  received-run-all n v e h good y enough =
      rounds_deliver codec ring.capacity sent h n (start ring sent)
        (start-Inv codec ring sent v e good y) (bound)
    where
      bound : weight codec (start ring sent) ≤ n
      bound = unfold weight in omega arith
