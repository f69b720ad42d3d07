-- ===== src/Wire/Pool.antt =====
-- `unidirectional_simple_wires` of src/tateyama/transport/wire.h: the wires of one result set, the
-- buffers that they are given, and the marks by which client and server end it. A buffer is its
-- handle in the shared memory, with 0 for no buffer. What `allocate_aligned` gives is an argument.
pub mod Search
pub mod Sharing
pub mod Acquire
pub mod Release
pub mod Active
mod Tests
use tateyama_bootstrap.Prelude.{
  ℕ, zero, suc, ◌+◌, ◌-◌, ◌%◌, ◌^◌, ◌==◌, List, [], ◌∷◌, Bool, true, false, Option, none, some,
  length, map, get_elem?, get_or, set, replicate, ltb, if◌then◌else◌,
}
use tateyama_bootstrap.Reason.{Error, runtime_error, out_of_range, internal}
use tateyama_bootstrap.Wire.ResultSet.{ResultWire, set_closed}
use tateyama_bootstrap.Wire.Ring.{sub_size, add_size}

-- `buffer_handle_` and `capacity_` of one wire.
pub record Attached : Type 0 where
  pub handle : ℕ
  pub capacity : ℕ

pub record Wires : Type 0 where
  pub wires : List Attached
  pub buffer_size : ℕ
  pub reserved : ℕ
  pub count_using : ℕ
  pub next_index : ℕ
  pub only_one_buffer : Bool
  pub eor : Bool
  pub closed : Bool

-- How an operation ends: with a value, by a throw, or by an end of the process.
pub data Outcome (A : Type 0) : Type 0 where
  done : A → Outcome A
  throws : Error → Outcome A
  aborts : Outcome A

unfoldable pub attach_buffer : ℕ → ℕ → Attached → Attached
attach_buffer handle capacity w = record { handle = handle; capacity = capacity }

unfoldable pub detach_buffer : Attached → Attached
detach_buffer w = record { handle = 0; capacity = 0 }

unfoldable pub equal : ℕ → Attached → Bool
equal handle w = handle == w.handle

unfoldable pub reset_handle : Attached → Attached
reset_handle w = record w { handle = 0 }

-- The constructor, for the buffer that is reserved.
unfoldable pub create : ℕ → ℕ → Option ℕ → Outcome Wires
create count buffer_size none = throws (runtime_error internal)
create count buffer_size (some buffer) = done (record {
  wires = replicate count (record { handle = 0; capacity = 0 });
  buffer_size = buffer_size;
  reserved = buffer;
  count_using = 0;
  next_index = 0;
  only_one_buffer = false;
  eor = false;
  closed = false;
})

abbrev pub one_on : Option ℕ → Option ℕ
one_on none = none
one_on (some i) = some (suc i)

-- The first of `n` wires that has the handle; `none` if there is none, at which the source aborts.
unfoldable pub find_handle : ℕ → List Attached → ℕ → Option ℕ
unfolding equal
find_handle h ws zero = none
find_handle h [] (suc n) = none
find_handle h (w ∷ ws) (suc n) =
    let later = find_handle h ws n in if equal h w then some 0 else one_on later

-- Where the loop of `search_free_wire` ends.
abbrev pub found_free : Wires → Option ℕ → Outcome ℕ × Wires
found_free p none = (aborts, p)
found_free p (some i) = (done i, record p { count_using = add_size p.count_using 1 })

-- `search_free_wire`, with the counters that it moves.
unfoldable pub search_free_wire : Wires → Outcome ℕ × Wires
search_free_wire p =
    if p.count_using == p.next_index
    then (
      done p.next_index,
      record p { count_using = add_size p.count_using 1; next_index = add_size p.next_index 1 },
    )
    else found_free p (find_handle 0 p.wires p.next_index)

unfoldable pub search_wire : ℕ → Wires → Outcome ℕ
search_wire handle p = elim (find_handle handle p.wires p.next_index) [
  | none ↦ aborts
  | some i ↦ done i
]

-- `unidirectional_simple_wires_.at(i).attach_buffer(buffer, buffer_size_)`.
unfoldable pub attach_at : ℕ → ℕ → Wires → Outcome ℕ × Wires
unfolding attach_buffer
attach_at i buffer p = elim (get_elem? p.wires i) [
  | none ↦ (throws out_of_range, p)
  | some w ↦ (done i, record p { wires = set p.wires i (attach_buffer buffer p.buffer_size w) })
]

-- The last steps of `acquire`: in the first case, where the buffer comes from the reserve, and in
-- the others.
abbrev pub first_attached : Outcome ℕ × Wires → Outcome ℕ × Wires
first_attached (done i, p) = (done i, record p { reserved = 0; only_one_buffer = true })
first_attached (throws e, p) = (throws e, p)
first_attached (aborts, p) = (aborts, p)

abbrev pub more_attached : Outcome ℕ × Wires → Outcome ℕ × Wires
more_attached (done i, p) = (done i, record p { only_one_buffer = false })
more_attached (throws e, p) = (throws e, p)
more_attached (aborts, p) = (aborts, p)

abbrev pub attach_found : ℕ → Outcome ℕ × Wires → Outcome ℕ × Wires
attach_found buffer (done i, p) = more_attached (attach_at i buffer p)
attach_found buffer (throws e, p) = (throws e, p)
attach_found buffer (aborts, p) = (aborts, p)

unfoldable pub acquire : Option ℕ → Wires → Outcome ℕ × Wires
acquire allocated p =
    if p.count_using == 0
    then first_attached (attach_at 0 p.reserved (record p { count_using = 1; next_index = 1 }))
    else if p.reserved == 0
    then elim allocated [
      | none ↦ (throws (runtime_error internal), p)
      | some buffer ↦ attach_found buffer (search_free_wire p)
    ]
    else attach_found p.reserved (search_free_wire (record p { reserved = 0 }))

-- The buffer of a wire goes to the reserve, or back to the shared memory.
abbrev pub kept : ℕ → Wires → Wires × Option ℕ
kept buffer p =
    let counted = record p { count_using = sub_size p.count_using 1 } in
    if p.reserved == 0 then (record counted { reserved = buffer }, none) else (counted, some buffer)

-- The steps of `release` after `search_wire`, and the whole, for the wire at an index. Beside the
-- wires it gives the buffer that is deallocated.
abbrev pub reset_at : ℕ → Wires → ℕ → Option Attached → Outcome (Wires × Option ℕ)
reset_at buffer p j none = throws out_of_range
reset_at buffer p j (some v) =
    done (kept buffer (record p { wires = set p.wires j (reset_handle v) }))

abbrev pub release_found : ℕ → Wires → Outcome ℕ → Outcome (Wires × Option ℕ)
release_found buffer p (done j) = reset_at buffer p j (get_elem? p.wires j)
release_found buffer p (throws e) = throws e
release_found buffer p aborts = aborts

abbrev pub release_wire : Wires → Option Attached → Outcome (Wires × Option ℕ)
release_wire p none = aborts
release_wire p (some w) = release_found w.handle p (search_wire w.handle p)

unfoldable pub release : ℕ → Wires → Outcome (Wires × Option ℕ)
release i p = release_wire p (get_elem? p.wires i)

-- `set_closed` of the wires, with the closed marks of the single wires.
unfoldable pub close_wires : List ResultWire → Wires → List ResultWire × Wires
close_wires ws p = (map set_closed ws, record p { closed = true })

unfoldable pub is_closed : Wires → Bool
is_closed p = p.closed

unfoldable pub set_eor : Wires → Wires
set_eor p = record p { eor = true }

unfoldable pub is_eor : Wires → Bool
is_eor p = p.eor

-- The destructor: the buffers that it deallocates, in turn, and the wires that it leaves.
abbrev pub freed_wires : List Attached → List ℕ
freed_wires [] = []
freed_wires (w ∷ ws) = let rest = freed_wires ws in if equal 0 w then rest else w.handle ∷ rest

unfoldable pub destroy : Wires → List ℕ × List Attached
unfolding detach_buffer equal
destroy p = (
  if p.reserved == 0 then freed_wires p.wires else p.reserved ∷ freed_wires p.wires,
  map (λ w. if equal 0 w then w else detach_buffer w) p.wires,
)
