-- ===== src/Wire/ResultSet/Overrun.antt =====
-- What a write to a result set wire of src/tateyama/transport/wire.h does that waits for room when the
-- client closes the wire.
use tateyama_bootstrap.Prelude.{
  ℕ, zero, suc, ◌+◌, ◌-◌, ◌%◌, ◌^◌, ◌≤◌, ◌<◌, ◌≡◌, refl, sym, ap, ap₂, ◌∙◌, List, ◌∷◌, true, some,
  arith, length, drop, take-all, drop-length-append, get_or, mod-eq-sub-mod,
}
use tateyama_bootstrap.Wire.Ring.{room, buffer_address}
use tateyama_bootstrap.Wire.Ring.Window.{
  window, length-window, window-add, put_from, window-put_from,
}
use tateyama_bootstrap.Wire.Ring.Copy.{write_in_buffer-eq-put_from}
use tateyama_bootstrap.Wire.Ring.Counters.{IsValid, stored-eq-sub, room-add-stored}
use tateyama_bootstrap.Wire.ResultSet.{ResultWire, write_part, wait_to_resultset_write}
use tateyama_bootstrap.Wire.ResultSet.Steps.{copied}

window-round :
    (buffer : List ℕ) (cap p n : ℕ)
    → 0 < cap
    → window buffer cap (p + cap) n ≡ window buffer cap p n
window-round buffer cap p zero h = refl
window-round buffer cap p (suc n) h =
    ap₂ ◌∷◌
      (ap (λ i. get_or buffer i 0)
        (mod-eq-sub-mod (omega arith)
          ∙ ap (λ q. q % cap) (let e : p + cap - cap ≡ p = omega arith in e)))
      (ap (λ q. window buffer cap q n) (let e : p + cap + 1 ≡ p + 1 + cap = omega arith in e)
        ∙ window-round buffer cap (p + 1) n h)

-- Bytes that are put fill the window that they are put in.
put_from-window :
    (buffer : List ℕ) (cap p : ℕ) (from : List ℕ)
    → cap ≤ length buffer
    → length from ≤ cap
    → window (put_from buffer cap p from) cap p (length from) ≡ from
put_from-window buffer cap p from hs fits =
    ap₂ (λ q m. window (put_from buffer cap q from) cap p m) (let e : p ≡ p + 0 = omega arith in e)
      (let e : length from ≡ 0 + length from = omega arith in e)
    ∙ window-put_from buffer cap p 0 from hs (omega arith)

behind_window :
    (buffer : List ℕ) (cap p m n : ℕ) (from : List ℕ)
    → window buffer cap p (m + n) ≡ from
    → window buffer cap (p + m) n ≡ drop m from
behind_window buffer cap p m n from e =
    sym (drop-length-append (window buffer cap p m) (window buffer cap (p + m) n))
    ∙ ap₂ drop (length-window buffer cap p m) (sym (window-add buffer cap p m n) ∙ e)

-- Bytes that are put over the end of a round are seen from its start.
put_from-over :
    (buffer : List ℕ) (cap p poped m n : ℕ) (from : List ℕ)
    → 0 < cap
    → cap ≤ length buffer
    → p + m ≡ poped + cap
    → m + n ≡ length from
    → length from ≤ cap
    → window (put_from buffer cap p from) cap poped n ≡ drop m from
put_from-over buffer cap p poped m n from h hs over parts fits =
    sym (window-round (put_from buffer cap p from) cap poped n h)
    ∙ ap (λ q. window (put_from buffer cap p from) cap q n) (sym over)
    ∙ behind_window (put_from buffer cap p from) cap p m n from (
        ap (window (put_from buffer cap p from) cap p) parts
        ∙ put_from-window buffer cap p from hs fits)

copied-buffer :
    (w : ResultWire) (from : List ℕ)
    → IsValid w.ring
    → length from ≤ w.ring.capacity
    → (copied w from).ring.buffer ≡ put_from w.ring.buffer w.ring.capacity w.ring.pushed from
unfolding buffer_address
copied-buffer w from v fits =
    write_in_buffer-eq-put_from w.ring.buffer w.ring.capacity w.ring.pushed from (length from)
      v.positive fits (omega arith)
    ∙ ap (put_from w.ring.buffer w.ring.capacity w.ring.pushed)
        (take-all (length from) from (omega arith))

-- A write that waits for room when the client closes the wire goes on with no room. Its bytes from
-- the room on then stand where the oldest bytes that are not read have stood, and the wire holds
-- more bytes than its capacity. The bytes of the write alone fit into the buffer.
pub write_part-overruns :
    (w : ResultWire) (from : List ℕ)
    → IsValid w.ring
    → w.closed ≡ true
    → room w.ring < length from
    → length from ≤ w.ring.capacity
    → w.ring.pushed + length from < 2 ^ 64
    → (t : ResultWire) × (write_part w from ≡ some t)
      × (w.ring.capacity < t.ring.pushed - t.ring.poped)
      × (window t.ring.buffer w.ring.capacity w.ring.poped (length from - room w.ring)
          ≡ drop (room w.ring) from)
unfolding write_part wait_to_resultset_write
write_part-overruns w from v c h fits y = (
  copied w from,
  ground (arith, h, c),
  omega (arith, room-add-stored v, stored-eq-sub v, v.behind, h),
  ap (λ b. window b w.ring.capacity w.ring.poped (length from - room w.ring))
        (copied-buffer w from v fits)
      ∙ put_from-over w.ring.buffer w.ring.capacity w.ring.pushed w.ring.poped (room w.ring)
          (length from - room w.ring) from v.positive v.storage
          (omega (arith, room-add-stored v, stored-eq-sub v, v.behind)) (omega (arith, h)) fits,
)
