-- ===== src/Wire/Pool/Search.antt =====
-- The searches of src/tateyama/transport/wire.h for a free wire and for a wire, and the number of
-- wires that have a buffer.
use tateyama_bootstrap.Prelude.{
  ℕ, zero, suc, ◌+◌, ◌≤◌, ◌<◌, ◌≡◌, ◌≢◌, inl, inr, refl, sym, ap, List, [], ◌∷◌, Option, none, some,
  arith, length, get_elem?, set, replicate, ◌==◌, Bool-cases, ==_iff,
}
use tateyama_bootstrap.Wire.Pool.{Attached, equal, one_on, find_handle}

-- The handle of a wire, 0 where there is no such wire.
abbrev pub handle_at : List Attached → ℕ → ℕ
handle_at [] i = 0
handle_at (w ∷ ws) zero = w.handle
handle_at (w ∷ ws) (suc i) = handle_at ws i

abbrev pub in_use : List Attached → ℕ
in_use [] = 0
in_use (w ∷ ws) = (elim w.handle [ zero ↦ 0 | suc h ↦ 1 ]) + in_use ws

pub handle_at-set_self :
    (ws : List Attached) (i : ℕ) (w : Attached)
    → i < length ws
    → handle_at (set ws i w) i ≡ w.handle
handle_at-set_self [] i w h = absurd (omega arith)
handle_at-set_self (v ∷ ws) zero w h = refl
handle_at-set_self (v ∷ ws) (suc i) w h = handle_at-set_self ws i w (omega arith)

pub handle_at-set_ne :
    (ws : List Attached) (i j : ℕ) (w : Attached)
    → i ≢ j
    → handle_at (set ws i w) j ≡ handle_at ws j
handle_at-set_ne [] i j w h = refl
handle_at-set_ne (v ∷ ws) zero zero w h = absurd (h refl)
handle_at-set_ne (v ∷ ws) zero (suc j) w h = refl
handle_at-set_ne (v ∷ ws) (suc i) zero w h = refl
handle_at-set_ne (v ∷ ws) (suc i) (suc j) w h = handle_at-set_ne ws i j w (λ e. h (ap suc e))

pub handle_at-beyond : (ws : List Attached) (i : ℕ) → length ws ≤ i → handle_at ws i ≡ 0
handle_at-beyond [] i h = refl
handle_at-beyond (w ∷ ws) zero h = absurd (omega arith)
handle_at-beyond (w ∷ ws) (suc i) h = handle_at-beyond ws i (omega arith)

pub get_elem_at :
    (ws : List Attached) (i : ℕ)
    → i < length ws
    → (w : Attached) × (get_elem? ws i ≡ some w) × (w.handle ≡ handle_at ws i)
get_elem_at [] i h = absurd (omega arith)
get_elem_at (w ∷ ws) zero h = (w, refl, refl)
get_elem_at (w ∷ ws) (suc i) h = get_elem_at ws i (omega arith)

pub in_use-set_more :
    (ws : List Attached) (i : ℕ) (w : Attached)
    → i < length ws
    → handle_at ws i ≡ 0
    → 0 < w.handle
    → in_use (set ws i w) ≡ in_use ws + 1
in_use-set_more [] i w h e p = absurd (omega arith)
in_use-set_more (v ∷ ws) zero w h e p = ground (arith, e, p)
in_use-set_more (v ∷ ws) (suc i) w h e p = ground (arith, in_use-set_more ws i w (omega arith) e p)

pub in_use-set_less :
    (ws : List Attached) (i : ℕ) (w : Attached)
    → i < length ws
    → 0 < handle_at ws i
    → w.handle ≡ 0
    → in_use ws ≡ in_use (set ws i w) + 1
in_use-set_less [] i w h p e = absurd (omega arith)
in_use-set_less (v ∷ ws) zero w h p e = ground (arith, e, p)
in_use-set_less (v ∷ ws) (suc i) w h p e = ground (arith, in_use-set_less ws i w (omega arith) p e)

pub in_use-none : (ws : List Attached) → in_use ws ≡ 0 → (i : ℕ) → handle_at ws i ≡ 0
in_use-none [] e i = refl
in_use-none (w ∷ ws) e zero = ground (arith, e)
in_use-none (w ∷ ws) e (suc i) = in_use-none ws (ground (arith, e)) i

pub in_use-le : (ws : List Attached) → in_use ws ≤ length ws
in_use-le [] = omega arith
in_use-le (w ∷ ws) = ground (arith, in_use-le ws)

-- A wire that is found has the handle, and is among the first `n`.
abbrev pub Found : ℕ → List Attached → ℕ → Option ℕ → Type 0
Found h ws n none = (i : ℕ) → i < n → i < length ws → handle_at ws i ≢ h
Found h ws n (some i) = (handle_at ws i ≡ h) × (i < n) × (i < length ws)

none_on :
    (h : ℕ) (w : Attached) (ws : List Attached) (n : ℕ)
    → w.handle ≢ h
    → Found h ws n none
    → (i : ℕ) → i < suc n
    → i < suc (length ws)
    → handle_at (w ∷ ws) i ≢ h
none_on h w ws n d f zero lt lt' = d
none_on h w ws n d f (suc i) lt lt' = f i (omega arith) (omega arith)

Found-one_on :
    (h : ℕ) (w : Attached) (ws : List Attached) (n : ℕ) (o : Option ℕ)
    → w.handle ≢ h
    → Found h ws n o
    → Found h (w ∷ ws) (suc n) (one_on o)
Found-one_on h w ws n none d f = none_on h w ws n d f
Found-one_on h w ws n (some i) d f = (f.0, omega (arith, f), omega (arith, f))

pub find_handle-Found : (h : ℕ) (ws : List Attached) (n : ℕ) → Found h ws n (find_handle h ws n)
unfolding find_handle equal
find_handle-Found h ws zero = λ i lt lt'. absurd (omega arith)
find_handle-Found h [] (suc n) = λ i lt lt'. absurd (omega arith)
find_handle-Found h (w ∷ ws) (suc n) = elim (Bool-cases (h == w.handle)) [
  | inl e ↦ rw e (sym ((==_iff h w.handle).0 e), omega arith, omega arith)
  | inr e ↦ rw e (
      Found-one_on h w ws n (find_handle h ws n) (λ d. ground (arith, e, d))
        (find_handle-Found h ws n))
]

-- Where no wire among the first `n` is free, `n` wires are in use.
pub none_free : (ws : List Attached) (n : ℕ) → n ≤ length ws → Found 0 ws n none → n ≤ in_use ws
none_free ws zero h f = omega arith
none_free [] (suc n) h f = omega arith
none_free (w ∷ ws) (suc n) h f = ground (
  arith,
  f 0 (omega arith) (omega arith),
  none_free ws n (omega arith) (λ i lt lt'. f (suc i) (omega arith) (omega arith)),
)

pub get_elem_none : (ws : List Attached) (i : ℕ) → length ws ≤ i → get_elem? ws i ≡ none
get_elem_none [] i h = refl
get_elem_none (w ∷ ws) zero h = absurd (omega arith)
get_elem_none (w ∷ ws) (suc i) h = get_elem_none ws i (omega arith)

-- Wires that have no buffers.
abbrev pub detached : Attached
detached = record { handle = 0; capacity = 0 }

pub handle_at-replicate : (n i : ℕ) → handle_at (replicate n detached) i ≡ 0
handle_at-replicate zero i = refl
handle_at-replicate (suc n) zero = refl
handle_at-replicate (suc n) (suc i) = handle_at-replicate n i

pub in_use-replicate : (n : ℕ) → in_use (replicate n detached) ≡ 0
in_use-replicate zero = refl
in_use-replicate (suc n) = omega (arith, in_use-replicate n)
