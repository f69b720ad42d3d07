-- ===== src/Wire/ResultSet/Delivery.antt =====
-- What a result set wire of src/tateyama/transport/wire.h promises: the records arrive whole and in
-- order under every schedule, and all of them do when each has room in the wire.
use tateyama_bootstrap.Prelude.{
  ℕ, zero, suc, ◌+◌, ◌^◌, ◌≤◌, ◌<◌, ◌≡◌, ◌⊎◌, inl, inr, refl, sym, ap, ap₂, ◌∙◌, List, [], ◌∷◌,
  ◌++◌, Bool, true, false, Option, none, append-nil, arith, length, length-zero,
}
use tateyama_bootstrap.Wire.Ring.{Ring}
use tateyama_bootstrap.Wire.Ring.Counters.{IsValid, contents, length-contents, stored-eq-sub}
use tateyama_bootstrap.Wire.ResultSet.{idle}
use tateyama_bootstrap.Wire.ResultSet.Session.{
  Op, looking, System, server_turn, client_turn, or_stay, run, records, AllFit, cost,
}
use tateyama_bootstrap.Wire.ResultSet.Invariant.{Inv, Moved, weight, all_encoded, unsent}
use tateyama_bootstrap.Wire.ResultSet.Copying.{server_turn-Served}
use tateyama_bootstrap.Wire.ResultSet.Taking.{client_turn-Taken}

-- Before the first turn: an open wire with nothing in it.
abbrev pub start : Ring → List Op → System
start ring ops = record {
  wire = record { ring = ring; pushed_valid = ring.pushed; closed = false; continued = false };
  server = idle;
  client = looking;
  todo = ops;
  received = [];
}

-- The schedule of `n` rounds, each with a turn of the server and one of the client.
abbrev pub rounds : ℕ → List Bool
rounds zero = []
rounds (suc n) = true ∷ false ∷ rounds n

pub start-Inv :
    (ring : Ring) (ops : List Op)
    → IsValid ring
    → ring.pushed ≡ ring.poped
    → 4 ≤ ring.capacity
    → AllFit ring.capacity 0 ops
    → ring.pushed + cost ops < 2 ^ 64
    → Inv ring.capacity (records [] ops) (start ring ops)
start-Inv ring ops v e h fits y = record {
  valid = v;
  sized = refl;
  is_open = refl;
  unread = [];
  begun = [];
  slack = 0 ∷ 0 ∷ 0 ∷ 0 ∷ [];
  slack_size = refl;
  held = length-zero (contents ring) (length-contents v ∙ stored-eq-sub v ∙ omega arith);
  marked = omega arith;
  server_ok = refl;
  client_ok = tt;
  positive = tt;
  order = refl;
  fit_now = h;
  fit = fits;
  budget = omega arith;
}

module _ (cap : ℕ) (all : List (List ℕ)) (narrow : cap ≤ 2 ^ 32) where
  -- Of an undelivered system some side can move: neither waits for the other for ever.
  some_side_moves :
      (s : System)
      → Inv cap all s
      → Moved cap all s (server_turn s)
        ⊎ ((server_turn s ≡ none) × Moved cap all s (client_turn s))
        ⊎ ((server_turn s ≡ none) × (client_turn s ≡ none) × (s.received ≡ all))
  some_side_moves s v = elim (server_turn-Served cap all s v) [
    | inl m ↦ inl m
    | inr (inl (e, some_bytes)) ↦ elim (client_turn-Taken cap all s narrow v) [
      | inl m ↦ inr (inl (e, m))
      | inr (er, none_left) ↦
          absurd (omega (arith, some_bytes, ap (λ l. length (all_encoded l)) none_left))
    ]
    | inr (inr (e, i, t)) ↦ elim (client_turn-Taken cap all s narrow v) [
      | inl m ↦ inr (inl (e, m))
      | inr (er, none_left) ↦ inr (
          inr (
            e,
            er,
            sym (
                v.order
                ∙ ap₂ (λ l o. s.received ++ (l ++ records (v.begun ++ unsent s.server) o)) none_left
                    t
                ∙ append-nil s.received),
          ))
    ]
  ]

  pub run-Inv : (turns : List Bool) (s : System) → Inv cap all s → Inv cap all (run turns s)
  unfolding run
  run-Inv [] s v = v
  run-Inv (true ∷ turns) s v = elim (server_turn-Served cap all s v) [
    | inl (t, e, w, less) ↦ rw e (run-Inv turns t w)
    | inr (inl (e, _)) ↦ rw e (run-Inv turns s v)
    | inr (inr (e, _, _)) ↦ rw e (run-Inv turns s v)
  ]
  run-Inv (false ∷ turns) s v = elim (client_turn-Taken cap all s narrow v) [
    | inl (t, e, w, less) ↦ rw e (run-Inv turns t w)
    | inr (e, _) ↦ rw e (run-Inv turns s v)
  ]

  stuck-run :
      (turns : List Bool) (s : System)
      → server_turn s ≡ none
      → client_turn s ≡ none
      → run turns s ≡ s
  unfolding run
  stuck-run [] s e f = refl
  stuck-run (true ∷ turns) s e f = rw e (stuck-run turns s e f)
  stuck-run (false ∷ turns) s e f = rw f (stuck-run turns s e f)

  -- As many rounds as there is weight deliver everything.
  rounds_deliver :
      (n : ℕ) (s : System) → Inv cap all s → weight s ≤ n → (run (rounds n) s).received ≡ all
  unfolding run
  rounds_deliver zero s v h = elim (some_side_moves s v) [
    | inl (t, e, w, less) ↦ absurd (omega arith)
    | inr (inl (e, (t, er, w, less))) ↦ absurd (omega arith)
    | inr (inr (e, er, done)) ↦ done
  ]
  rounds_deliver (suc n) s v h = elim (some_side_moves s v) [
    | inl (t, e, w, less) ↦ elim (client_turn-Taken cap all t narrow w) [
      | inl (u, er, r, fewer) ↦ round e er ∙ rounds_deliver n u r (omega arith)
      | inr (er, _) ↦ round e er ∙ rounds_deliver n t w (omega arith)
    ]
    | inr (inl (e, (t, er, w, less))) ↦ round e er ∙ rounds_deliver n t w (omega arith)
    | inr (inr (e, er, done)) ↦
        round e er ∙ ap (λ t. t.received) (stuck-run (rounds n) s e er) ∙ done
  ]
    where
      round :
          {o p : Option System}
          → server_turn s ≡ o
          → client_turn (or_stay s o) ≡ p
          → (run (rounds (suc n)) s).received ≡ (run (rounds n) (or_stay (or_stay s o) p)).received
      round {o} e er =
          ap (λ o. (run (false ∷ rounds n) (or_stay s o)).received) e
          ∙ ap (λ p. (run (rounds n) (or_stay (or_stay s o) p)).received) er

module _ (ring : Ring) (ops : List Op) where
  -- Under every schedule of server and client, what the client has taken by `get_chunk` and
  -- `dispose` is a beginning of the records that the server was asked to write: no record is lost,
  -- changed, doubled or overtaken. The wire is never closed and empty at the start, each record has
  -- room in it with its header, the capacity is at least 4 and at most 2^32, and fewer than 2^64
  -- bytes go through.
  pub received-run-records :
      (turns : List Bool)
      → IsValid ring
      → ring.pushed ≡ ring.poped
      → 4 ≤ ring.capacity
      → ring.capacity ≤ 2 ^ 32
      → AllFit ring.capacity 0 ops
      → ring.pushed + cost ops < 2 ^ 64
      → (rest : List (List ℕ)) × (records [] ops ≡ (run turns (start ring ops)).received ++ rest)
  received-run-records turns v e h narrow fits y =
      let w =
        run-Inv ring.capacity (records [] ops) narrow turns (start ring ops)
          (start-Inv ring ops v e h fits y) in
      (_, w.order)

  -- When server and client take turns, all records that are flushed arrive within a number of
  -- rounds that the bytes give; neither waits for ever. The wire is empty at the start, each
  -- record has room in it with its header, the capacity is at most 2^32, and fewer than 2^64 bytes
  -- go through.
  pub received-run-all_records :
      (n : ℕ)
      → IsValid ring
      → ring.pushed ≡ ring.poped
      → 4 ≤ ring.capacity
      → ring.capacity ≤ 2 ^ 32
      → AllFit ring.capacity 0 ops
      → ring.pushed + cost ops < 2 ^ 64
      → cost ops + 1 ≤ n
      → (run (rounds n) (start ring ops)).received ≡ records [] ops
  received-run-all_records n v e h narrow fits y enough =
      rounds_deliver ring.capacity (records [] ops) narrow n (start ring ops)
        (start-Inv ring ops v e h fits y) (omega arith)
