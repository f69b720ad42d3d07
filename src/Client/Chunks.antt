-- ===== src/Client/Chunks.antt =====
-- `session_wire_container::resultset_wires_container` of src/tateyama/transport/client_wire.h: the
-- client's hold on one record at a time. A chunk that goes over the end of a buffer is joined.
use tateyama_bootstrap.Prelude.{
  ℕ, ◌+◌, ◌≤◌, ◌<◌, ◌^◌, ◌≡◌, inl, inr, refl, sym, ap, ◌∙◌, List, [], ◌∷◌, ◌++◌, Bool, true, false,
  Option, none, some, append-nil, length, get_elem?, set, get_elem?-set_self, ◌==◌, ==_iff,
  if◌then◌else◌, if-true, if-false, Bool-cases,
}
use tateyama_bootstrap.Reason.{Error}
use tateyama_bootstrap.Wire.Ring.{copy_out}
use tateyama_bootstrap.Wire.Ring.Counters.{IsValid, contents}
use tateyama_bootstrap.Wire.ResultSet.{ResultWire, Views, seen, dispose_record}
use tateyama_bootstrap.Wire.ResultSet as ResultSet
use tateyama_bootstrap.Wire.ResultSet.Chunk.{get_chunk-views_of}
use tateyama_bootstrap.Wire.ResultSet.Head.{
  encoded, header_received_lem, seen_lem, contents-dispose,
}
use tateyama_bootstrap.Wire.Pool.Active.{Activity, active, ended, fails, still_waits}

-- `current_wire_`, by its index, and `wrap_around_`.
pub record Container : Type 0 where
  pub current_wire : Option ℕ
  pub wrap_around : List ℕ

-- What `get_chunk` comes to: bytes, a null pointer, a throw, or a wait.
pub data Chunk : Type 0 where
  chunk : List ℕ → Container → Chunk
  no_more : Container → Chunk
  raises : Error → Chunk
  awaits : Chunk

-- The chunk of the current wire; a pointer to a wire is never stale, so an index has its wire.
unfoldable pub chunk_of : ℕ → ResultWire → Chunk
unfolding copy_out
chunk_of i w =
    let vs = ResultSet.get_chunk w in
    let rtnv = copy_out w.ring.buffer vs.first_address vs.first_length in
    let joined = rtnv ++ copy_out w.ring.buffer vs.wrap_address vs.wrap_length in
    if vs.wrap_length == 0
    then chunk rtnv (record { current_wire = some i; wrap_around = [] })
    else chunk joined (record { current_wire = some i; wrap_around = joined })

abbrev pub chunk_at : ℕ → Option ResultWire → Chunk
chunk_at i none = awaits
chunk_at i (some w) = chunk_of i w

-- `get_chunk`. Each round comes with what `active_wire` gives, and whether the server is alive.
unfoldable pub chunk_by : Option ℕ → List ResultWire → List (Activity × Bool) → Chunk
unfolding chunk_of
chunk_by (some i) ws rounds = chunk_at i (get_elem? ws i)
chunk_by none ws [] = awaits
chunk_by none ws ((active i, alive) ∷ rounds) = chunk_at i (get_elem? ws i)
chunk_by none ws ((ended, alive) ∷ rounds) =
    no_more (record { current_wire = none; wrap_around = [] })
chunk_by none ws ((fails e, true) ∷ rounds) = chunk_by none ws rounds
chunk_by none ws ((fails e, false) ∷ rounds) = raises e
chunk_by none ws ((still_waits, alive) ∷ rounds) = awaits

unfoldable pub get_chunk : Container → List ResultWire → List (Activity × Bool) → Chunk
unfolding chunk_by
get_chunk c ws rounds = chunk_by c.current_wire ws rounds

-- `dispose`; `none` where it aborts.
abbrev pub dispose_at : ℕ → List ResultWire → Option ResultWire → Option (List ResultWire)
dispose_at i ws none = none
dispose_at i ws (some w) = some (set ws i (dispose_record w))

abbrev pub dispose_of : Option ℕ → List ResultWire → Option (List ResultWire)
dispose_of none ws = none
dispose_of (some i) ws = dispose_at i ws (get_elem? ws i)

abbrev pub released : Container → Option (List ResultWire) → Option (Container × List ResultWire)
released c none = none
released c (some ws) = some (record c { current_wire = none }, ws)

unfoldable pub dispose : Container → List ResultWire → Option (Container × List ResultWire)
dispose c ws = released c (dispose_of c.current_wire ws)

one_view :
    (w : ResultWire)
    → (ResultSet.get_chunk w).wrap_length ≡ 0
    → copy_out w.ring.buffer
        (ResultSet.get_chunk w).first_address
        (ResultSet.get_chunk w).first_length
      ≡ seen w.ring.buffer (ResultSet.get_chunk w)
unfolding seen copy_out
one_view w e =
    let vs = ResultSet.get_chunk w in
    let rtnv = copy_out w.ring.buffer vs.first_address vs.first_length in
    sym (ap (λ n. rtnv ++ copy_out w.ring.buffer vs.wrap_address n) e ∙ append-nil rtnv)

-- The chunk of a wire is all that the views show.
chunk_of-seen :
    (i : ℕ) (w : ResultWire)
    → (c : Container) × (c.current_wire ≡ some i)
      × (chunk_of i w ≡ chunk (seen w.ring.buffer (ResultSet.get_chunk w)) c)
unfolding chunk_of seen
chunk_of-seen i w = elim (Bool-cases ((ResultSet.get_chunk w).wrap_length == 0)) [
  | inl e ↦ (
    record { current_wire = some i; wrap_around = [] },
    refl,
    if-true _ _ e
        ∙ ap (λ l. chunk l (record { current_wire = some i; wrap_around = [] }))
            (one_view w ((==_iff _ 0).0 e)),
  )
  | inr e ↦ (_, refl, if-false _ _ e)
]

-- A record of a result set comes to the caller as one chunk of its bytes, wherever it lies in the
-- buffer, and when the caller disposes of it, the wire holds what was behind it. The wire is the
-- one that `active_wire` has found.
pub get_chunk-dispose :
    (c : Container) (ws : List ResultWire) (rounds : List (Activity × Bool)) (alive : Bool) (i : ℕ)
    (w : ResultWire) (xs rest : List ℕ)
    → c.current_wire ≡ none
    → get_elem? ws i ≡ some w
    → IsValid w.ring
    → contents w.ring ≡ encoded xs ++ rest
    → 0 < length xs
    → length xs < 2 ^ 32
    → w.ring.poped + 4 + length xs ≤ w.pushed_valid
    → w.pushed_valid ≤ w.ring.pushed
    → (d : Container) × (get_chunk c ws ((active i, alive) ∷ rounds) ≡ chunk xs d)
      × ((left : List ResultWire) × (v : ResultWire) × (dispose d ws
            ≡ some (record d { current_wire = none }, left))
          × (get_elem? left i ≡ some v)
          × (contents v.ring ≡ rest))
unfolding get_chunk chunk_by dispose
get_chunk-dispose c ws rounds alive i w xs rest idle at_i v held some_bytes narrow marked upto =
    let (d, current, e) = chunk_of-seen i w in
    let views =
      get_chunk-views_of w v (length xs) some_bytes marked upto
        (header_received_lem w v xs rest held narrow) in
    (
      d,
      ap (λ o. chunk_by o ws ((active i, alive) ∷ rounds)) idle
          ∙ ap (chunk_at i) at_i
          ∙ e
          ∙ ap (λ l. chunk l d) (ap (seen w.ring.buffer) views ∙ seen_lem w v xs rest held narrow),
      (
        set ws i (dispose_record w),
        dispose_record w,
        ap (λ o. released d (dispose_of o ws)) current
            ∙ ap (λ o. released d (dispose_at i ws o)) at_i,
        get_elem?-set_self ws i (dispose_record w) at_i,
        contents-dispose w v xs rest held narrow,
      ),
    )
