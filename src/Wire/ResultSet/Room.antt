-- ===== src/Wire/ResultSet/Room.antt =====
-- Room in a result set wire of src/tateyama/transport/wire.h: what `check_room` tells, and
-- where the client's views lie.
use native.Mathlib.Decide.{dec_lt}
use tateyama_bootstrap.Prelude.{
  ℕ, ◌+◌, ◌%◌, ◌^◌, ◌≤◌, ◌<◌, ◌≡◌, inl, inr, refl, sym, ap, ◌∙◌, subst, List, [], ◌∷◌, Bool, true,
  false, Option, none, some, arith, leb, length, length-append, if-true, if-false, Bool-cases,
  mod-lt,
}
use tateyama_bootstrap.Wire.Ring.{Ring, room}
use tateyama_bootstrap.Wire.Ring.Counters.{IsValid, stored-eq-sub, length-contents, room-add-stored}
use tateyama_bootstrap.Wire.Ring.Patch.{reserve-IsValid}
use tateyama_bootstrap.Wire.ResultSet.{
  ResultWire, starting, Views, write, write_from, part_after, write_part, check_room,
}
use tateyama_bootstrap.Wire.ResultSet.Chunk.{views_of}
use tateyama_bootstrap.Wire.ResultSet.Head.{encoded, length-encoded}
use tateyama_bootstrap.Wire.ResultSet.Session.{Op, holding, System, run, records, AllFit, cost}
use tateyama_bootstrap.Wire.ResultSet.Invariant.{Inv, ClientOk, all_encoded, open_bytes}
use tateyama_bootstrap.Wire.ResultSet.Steps.{
  started, brand_new-some, brand_new-none, write_part-some, write_part-none, write_cases,
}
use tateyama_bootstrap.Wire.ResultSet.Delivery.{start, start-Inv, run-Inv}

-- Inside a buffer of `cap` bytes, and apart.
abbrev pub Inside : ℕ → Views → Type 0
Inside cap vs =
    (vs.first_address + vs.first_length ≤ cap)
    × (vs.wrap_address + vs.wrap_length ≤ vs.first_address)

views_of-Inside : (cap start len : ℕ) → 0 < cap → len ≤ cap → Inside cap (views_of cap start len)
views_of-Inside cap start len h few = elim (Bool-cases (leb (start % cap + len) cap)) [
  | inl fits ↦ rw fits (ground (arith, fits), omega arith)
  | inr wraps ↦
      rw wraps
        (omega (arith, mod-lt start {m = cap} h), omega (arith, few, mod-lt start {m = cap} h))
]

held-Inside :
    (cap : ℕ) (all : List (List ℕ)) (s : System) (v : Inv cap all s) (vs : Views)
    (unread : List (List ℕ))
    → v.unread ≡ unread
    → ClientOk (holding vs) cap s.wire.ring.poped unread
    → Inside cap vs
held-Inside cap all s v vs [] u ok = absurd ok
held-Inside cap all s v vs (xs ∷ xss) u ok = subst (Inside cap) (sym ok) (
    views_of-Inside cap (s.wire.ring.poped + 4) (length xs) (omega (arith, v.valid, v.sized)) (
      omega (
        arith,
        v.valid,
        v.sized,
        stored-eq-sub v.valid,
        length-contents v.valid,
        ap length v.held,
        length-append (all_encoded v.unread) (open_bytes s.wire.continued v.slack v.begun),
        ap (λ l. length (all_encoded l)) u,
        length-append (encoded xs) (all_encoded xss),
        length-encoded xs,
      )))

-- Under every schedule, the two views that a client holds lie inside the buffer and do not overlap.
-- The wire is never closed and empty at the start, each record has room in it with its header, the
-- capacity is at least 4 and at most 2^32, and fewer than 2^64 bytes go through.
pub run-Inside :
    (ring : Ring) (ops : List Op) (turns : List Bool) (vs : Views)
    → IsValid ring
    → ring.pushed ≡ ring.poped
    → 4 ≤ ring.capacity
    → ring.capacity ≤ 2 ^ 32
    → AllFit ring.capacity 0 ops
    → ring.pushed + cost ops < 2 ^ 64
    → (run turns (start ring ops)).client ≡ holding vs
    → Inside ring.capacity vs
run-Inside ring ops turns vs v e h narrow fits y held =
    let w =
      run-Inv ring.capacity (records [] ops) narrow turns (start ring ops)
        (start-Inv ring ops v e h fits y) in
    held-Inside ring.capacity (records [] ops) (run turns (start ring ops)) w vs w.unread refl (
      subst (λ c. ClientOk c ring.capacity (run turns (start ring ops)).wire.ring.poped w.unread)
        held w.client_ok)

abbrev pub is_some {ℓ} : {A : Type ℓ} → Option A → Bool
is_some none = false
is_some (some a) = true

-- A copy goes through when there is room for its bytes.
copies :
    (w : ResultWire) (from : List ℕ)
    → w.closed ≡ false
    → leb (length from) (room w.ring) ≡ is_some (write_part w from)
copies w from o = elim (dec_lt (room w.ring) (length from)) [
  | yes p ↦ ground (arith, p) ∙ ap is_some (sym (write_part-none w from p o))
  | no p ↦ ground (arith, p) ∙ ap is_some (sym (write_part-some w from (omega arith)))
]

started_room :
    (w : ResultWire)
    → IsValid w.ring
    → 4 ≤ room w.ring
    → w.ring.pushed + 4 < 2 ^ 64
    → room (started w).ring + 4 ≡ room w.ring
started_room w v h y = omega (
  arith,
  room-add-stored v,
  stored-eq-sub v,
  room-add-stored (reserve-IsValid v 4 h y),
  stored-eq-sub (reserve-IsValid v 4 h y),
  v,
)

starts :
    (w : ResultWire) (from : List ℕ)
    → IsValid w.ring
    → w.closed ≡ false
    → w.ring.pushed + 4 < 2 ^ 64
    → leb (length from + 4) (room w.ring) ≡ is_some (write_from w (starting from))
unfolding write_from
starts w from v o y = elim (dec_lt (room w.ring) 4) [
  | yes p ↦ ground (arith, p) ∙ ap (λ o. is_some (part_after from o)) (sym (brand_new-none w p o))
  | no p ↦
      let size = started_room w v (omega arith) y in
      ground (arith, size)
      ∙ copies (started w) from o
      ∙ ap (λ o. is_some (part_after from o)) (sym (brand_new-some w (omega arith)))
]

-- `check_room` of an open wire tells whether a write of these bytes goes through with no wait, at
-- the start of a record as well as within one.
pub check_room-is_some :
    (w : ResultWire) (from : List ℕ)
    → IsValid w.ring
    → w.closed ≡ false
    → 0 < length from
    → w.ring.pushed + length from + 4 < 2 ^ 64
    → check_room w (length from) ≡ is_some (write_from w (write w from))
unfolding check_room write_from
check_room-is_some w from v o p y = elim (write_cases w from o) [
  | inl (z, _) ↦ absurd (omega (arith, z, p))
  | inr (inl (_, c, e)) ↦
      if-true _ _ c ∙ copies w from o ∙ ap (λ q. is_some (write_from w q)) (sym e)
  | inr (inr (_, c, e)) ↦
      if-false _ _ c ∙ starts w from v o (omega arith) ∙ ap (λ q. is_some (write_from w q)) (sym e)
]
