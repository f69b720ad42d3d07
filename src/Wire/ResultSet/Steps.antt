-- ===== src/Wire/ResultSet/Steps.antt =====
-- The single steps of the server on a result set wire: when they go through, and what they leave.
use tateyama_bootstrap.Prelude.{
  ℕ, ◌≤◌, ◌<◌, ◌≡◌, ◌⊎◌, inl, inr, sym, ap, ◌∙◌, List, true, false, none, some, arith, length,
  Bool-cases, if-true, if-false,
}
use native.Mathlib.Decide.{dec_lt}
use tateyama_bootstrap.Wire.Header.{length_header_size, length_header, length_to_buffer}
use tateyama_bootstrap.Wire.Codec.{length-length_to_buffer}
use tateyama_bootstrap.Wire.Ring.{room, add_size, sub_size}
use tateyama_bootstrap.Wire.Ring.Counters.{append}
use tateyama_bootstrap.Wire.Ring.Patch.{reserve, patch}
use tateyama_bootstrap.Wire.ResultSet.{
  ResultWire, idle, starting, copying, write, brand_new, write_part, flush, flush_record,
  wait_to_resultset_write,
}

-- The wire after room for a header has been passed over, and after bytes have been copied.
abbrev pub started : ResultWire → ResultWire
started w = record w { ring = reserve w.ring length_header_size; continued = true }

abbrev pub copied : ResultWire → List ℕ → ResultWire
copied w from = record w { ring = append w.ring from (length from) }

pub brand_new-some :
    (w : ResultWire) → length_header_size ≤ room w.ring → brand_new w ≡ some (started w)
unfolding brand_new
brand_new-some w h = ground (arith, h)

pub brand_new-none :
    (w : ResultWire) → room w.ring < length_header_size → w.closed ≡ false → brand_new w ≡ none
unfolding brand_new wait_to_resultset_write
brand_new-none w h e = ground (arith, h, e)

pub write_part-some :
    (w : ResultWire) (from : List ℕ)
    → length from ≤ room w.ring
    → write_part w from ≡ some (copied w from)
unfolding write_part
write_part-some w from h = ground (arith, h)

pub write_part-none :
    (w : ResultWire) (from : List ℕ)
    → room w.ring < length from
    → w.closed ≡ false
    → write_part w from ≡ none
unfolding write_part wait_to_resultset_write
write_part-none w from h e = ground (arith, h, e)

-- Where `write` takes an open wire.
abbrev pub Entered : ResultWire → List ℕ → Type 0
Entered w from =
    ((length from ≡ 0) × (write w from ≡ idle))
    ⊎ ((0 < length from) × (w.continued ≡ true) × (write w from ≡ copying from))
    ⊎ ((0 < length from) × (w.continued ≡ false) × (write w from ≡ starting from))

pub write_cases : (w : ResultWire) (from : List ℕ) → w.closed ≡ false → Entered w from
unfolding write
write_cases w from e = elim (Bool-cases w.continued) [
  | inl c ↦ elim (dec_lt 0 (length from)) [
    | yes p ↦ inr (inl (p, c, ground (arith, p, c, e)))
    | no p ↦ inl (omega arith, ground (arith, p, c, e))
  ]
  | inr c ↦ elim (dec_lt 0 (length from)) [
    | yes p ↦ inr (inr (p, c, ground (arith, p, c, e)))
    | no p ↦ inl (omega arith, ground (arith, p, c, e))
  ]
]

pub flush-false : (w : ResultWire) → w.continued ≡ false → flush w ≡ w
unfolding flush
flush-false w c = if-false _ _ c

pub flush-true : (w : ResultWire) → w.continued ≡ true → flush w ≡ flush_record w
unfolding flush
flush-true w c = if-true _ _ c

-- The header of a flush counts the bytes behind the place that was passed over for it.
pub flush_record-ring :
    (w : ResultWire) (p n : ℕ)
    → w.pushed_valid ≡ p
    → sub_size w.ring.pushed (add_size p length_header_size) ≡ n
    → (flush_record w).ring
      ≡ patch w.ring p
          (length_to_buffer (length_header n))
          (length (length_to_buffer (length_header n)))
unfolding flush_record
flush_record-ring w p n e h =
    ap
      (λ k.
        patch w.ring k
          (length_to_buffer
            (length_header (sub_size w.ring.pushed (add_size k length_header_size))))
          4)
      e
    ∙ ap (λ k. patch w.ring p (length_to_buffer (length_header k)) 4) h
    ∙ ap (patch w.ring p (length_to_buffer (length_header n)))
        (sym (length-length_to_buffer (length_header n)))
