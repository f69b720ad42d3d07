-- ===== src/Connection/Slots.antt =====
-- Lists of slots, with and without the admin mark.
use mathlib.Core.List.{Mem, mem-cons, not-mem-nil, Nodup, Nodup-cons, Nodup-nil}
use mathlib.Core.Logic.Or
use native.Mathlib.Decide.{ℕ_discrete}
use native.Mathlib.Bridge.{le_prop}
use tateyama_bootstrap.Prelude.{
  ℕ, zero, suc, ◌+◌, ◌^◌, ◌≤◌, ◌<◌, ◌≡◌, refl, ap, List, [], ◌∷◌, ◌++◌, true, false, arith, length,
  get_or, set, if◌then◌else◌,
}
use tateyama_bootstrap.Connection.Indexes.{admin_bit, is_admin, set_admin, reset_admin}

-- i, i + 1, …: `n` numbers.
abbrev pub range_from : ℕ → ℕ → List ℕ
range_from i zero = []
range_from i (suc n) = i ∷ range_from (suc i) n

abbrev pub range : ℕ → List ℕ
range n = range_from 0 n

-- The slots of the requests `sids`.
abbrev pub slots_of : List ℕ → List ℕ
slots_of [] = []
slots_of (sid ∷ sids) = reset_admin sid ∷ slots_of sids

-- How many of the requests are admins'.
abbrev pub admins : List ℕ → ℕ
admins [] = 0
admins (sid ∷ sids) = if is_admin sid then suc (admins sids) else admins sids

abbrev pub AllBelow : ℕ → List ℕ → Type 0
AllBelow n [] = Unit {0}
AllBelow n (x ∷ xs) = (x < n) × AllBelow n xs

pub slots_of-append : (xs ys : List ℕ) → slots_of (xs ++ ys) ≡ slots_of xs ++ slots_of ys
slots_of-append [] ys = refl
slots_of-append (x ∷ xs) ys = ap (◌∷◌ (reset_admin x)) (slots_of-append xs ys)

pub admins-append : (xs ys : List ℕ) → admins (xs ++ ys) ≡ admins xs + admins ys
admins-append [] ys = omega arith
admins-append (x ∷ xs) ys = ground (arith, admins-append xs ys)

pub AllBelow-get_or :
    (n : ℕ) (xs : List ℕ) (i : ℕ) → AllBelow n xs → i < length xs → get_or xs i 0 < n
AllBelow-get_or n [] i a h = elim h [ ]
AllBelow-get_or n (x ∷ xs) zero a h = a.0
AllBelow-get_or n (x ∷ xs) (suc i) a h = AllBelow-get_or n xs i a.1 (omega arith)

pub AllBelow-set : (n : ℕ) (xs : List ℕ) (i v : ℕ) → AllBelow n xs → v < n → AllBelow n (set xs i v)
AllBelow-set n [] i v a h = tt
AllBelow-set n (x ∷ xs) zero v a h = (h, a.1)
AllBelow-set n (x ∷ xs) (suc i) v a h = (a.0, AllBelow-set n xs i v a.1 h)

pub length-range_from : (i n : ℕ) → length (range_from i n) ≡ n
length-range_from i zero = refl
length-range_from i (suc n) = ap suc (length-range_from (suc i) n)

pub AllBelow-range_from : (i k n : ℕ) → i + k ≤ n → AllBelow n (range_from i k)
AllBelow-range_from i zero n h = tt
AllBelow-range_from i (suc k) n h = (omega arith, AllBelow-range_from (suc i) k n (omega arith))

range_from-above : (i n a : ℕ) → Mem a (range_from i n) → i ≤ a
range_from-above i zero a m = absurd (not-mem-nil m)
range_from-above i (suc n) a m =
    Or.elim le_prop (mem-cons.0 m) (λ e. omega (arith, e))
      (λ r. omega (arith, range_from-above (suc i) n a r))

pub range_from-below : (i n a : ℕ) → Mem a (range_from i n) → a < i + n
range_from-below i zero a m = absurd (not-mem-nil m)
range_from-below i (suc n) a m =
    Or.elim le_prop (mem-cons.0 m) (λ e. omega (arith, e))
      (λ r. omega (arith, range_from-below (suc i) n a r))

pub range_from-Nodup : (i n : ℕ) → Nodup (range_from i n)
range_from-Nodup i zero = Nodup-nil
range_from-Nodup i (suc n) =
    Nodup-cons.1
      ((λ m. absurd (omega (arith, range_from-above (suc i) n i m))), range_from-Nodup (suc i) n)

pub mem-range_from : (i n a : ℕ) → i ≤ a → a < i + n → Mem a (range_from i n)
mem-range_from i zero a h k = absurd (omega arith)
mem-range_from i (suc n) a h k = elim (ℕ_discrete a i) [
  | yes e ↦ mem-cons.1 (Or.inl e)
  | no ne ↦ mem-cons.1 (Or.inr (mem-range_from (suc i) n a (omega arith) (omega arith)))
]

-- The marks of a slot below `admin_bit`.
pub marks :
    (x : ℕ)
    → x < admin_bit
    → (is_admin x ≡ false)
      × (reset_admin x ≡ x)
      × (is_admin (set_admin x) ≡ true)
      × (reset_admin (set_admin x) ≡ x)
      × (set_admin x < 2 ^ 64)
unfolding is_admin reset_admin set_admin
marks x h = ground arith
