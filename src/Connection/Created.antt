-- ===== src/Connection/Created.antt =====
-- The constructor of `connection_queue` in src/tateyama/transport/wire.h: every slot is free.
use mathlib.Core.List.{Perm}
use mathlib.Core.List.Perm
use tateyama_bootstrap.Prelude.{
  ℕ, zero, suc, ◌+◌, ◌-◌, ◌%◌, ◌^◌, ◌≤◌, ◌<◌, ◌≡◌, refl, sym, ap, ap₂, ◌∙◌, subst, List, [], ◌∷◌,
  ◌++◌, arith, length, length-append, length-replicate, append_assoc, append-nil, false, replicate,
  set, lt→ltb, get_or, mod-eq_of_lt,
}
use tateyama_bootstrap.Reason.{ok}
use tateyama_bootstrap.Wire.Ring.Window.{window}
use tateyama_bootstrap.Connection.Indexes.{IndexQueue, fill_from, set_at, fill}
use tateyama_bootstrap.Connection.Indexes
use tateyama_bootstrap.Connection.Queue.{ConnectionQueue, create}
use tateyama_bootstrap.Connection.Slots.{range, range_from, AllBelow-range_from, length-range_from}
use tateyama_bootstrap.Connection.Rings.{held}
use tateyama_bootstrap.Connection.Invariant.{Inv}

set-middle : (xs : List ℕ) (y z : ℕ) (ys : List ℕ) → set (xs ++ y ∷ ys) (length xs) z ≡ xs ++ z ∷ ys
set-middle [] y z ys = refl
set-middle (x ∷ xs) y z ys = ap (◌∷◌ x) (set-middle xs y z ys)

fill_from-eq-range_from :
    (n : ℕ) (done rest : List ℕ)
    → length rest ≡ n
    → fill_from n (length done) (done ++ rest) ≡ ok (done ++ range_from (length done) n)
unfolding fill_from
fill_from-eq-range_from zero done [] h = refl
fill_from-eq-range_from zero done (x ∷ rest) h = absurd (omega (arith, h))
fill_from-eq-range_from (suc n) done [] h = absurd (omega (arith, h))
fill_from-eq-range_from (suc n) done (x ∷ rest) h =
    let l : length (done ++ length done ∷ []) ≡ suc (length done) =
      omega (arith, length-append done (length done ∷ [])) in
    rw
      (
        lt→ltb (length done) (length (done ++ x ∷ rest))
            (omega (arith, length-append done (x ∷ rest))),
        set-middle,
        fill_from,
      )
      (ap₂ (λ i xs. fill_from n i xs) (sym l) (sym (append_assoc done (length done ∷ []) rest))
        ∙ fill_from-eq-range_from n (done ++ length done ∷ []) rest (omega (arith, h))
        ∙ ap (λ i. ok ((done ++ length done ∷ []) ++ range_from i n)) l
        ∙ ap ok (append_assoc done (length done ∷ []) (range_from (suc (length done)) n)))

get_or-range_from : (i n k : ℕ) → k < n → get_or (range_from i n) k 0 ≡ i + k
get_or-range_from i zero k h = absurd (omega arith)
get_or-range_from i (suc n) zero h = omega arith
get_or-range_from i (suc n) (suc k) h = omega (arith, get_or-range_from (suc i) n k (omega arith))

window-range : (n p m : ℕ) → p + m ≤ n → window (range n) n p m ≡ range_from p m
window-range n p zero h = refl
window-range n p (suc m) h =
    ap₂ (λ a l. a ∷ l)
      (ap (λ k. get_or (range n) k 0) (mod-eq_of_lt {m = n} (let e : p < n = omega arith in e))
        ∙ get_or-range_from 0 n p (omega arith)
        ∙ (let e : 0 + p ≡ p = omega arith in e))
      (window-range n (p + 1) m (omega arith)
        ∙ ap (λ k. range_from k m) (let e : p + 1 ≡ suc p = omega arith in e))

module _ (n as_n : ℕ) (some : 0 < as_n) (few : as_n < 256) (small : n + as_n < 2 ^ 31) where
  created : ConnectionQueue
  created = record {
    q_free = record {
      queue = range (n + as_n);
      capacity = n + as_n;
      admin_slots_in_use = 0;
      pushed = n;
      poped = 0;
    };
    q_requested = record {
      queue = replicate (n + as_n) 0;
      capacity = n + as_n;
      admin_slots_in_use = 0;
      pushed = 0;
      poped = 0;
    };
    v_requested = replicate (n + as_n) 0;
    terminate = false;
    admin_slots = as_n;
    s_terminated = 0;
    session_id = 0;
  }

  create-eq-created : create n as_n ≡ ok created
  unfolding create created fill Indexes.create
  create-eq-created =
      let total : (n + as_n) % 2 ^ 32 ≡ n + as_n = omega (arith, small) in
      let pushed : (2 ^ 32 + (n + as_n) - as_n) % 2 ^ 32 ≡ n = omega (arith, small) in
      rw (
        total,
        fill_from-eq-range_from (n + as_n) [] (replicate (n + as_n) 0)
            (length-replicate (n + as_n) 0),
        pushed,
      )

  held-created : held created.q_free as_n ≡ range (n + as_n)
  unfolding created
  held-created =
      ap (λ m. window (range (n + as_n)) (n + as_n) 0 m)
        (let e : n + as_n - 0 ≡ n + as_n = omega arith in e)
      ∙ window-range (n + as_n) 0 (n + as_n) (omega arith)

  -- At first every slot is free, and no request and no session is there.
  pub create-Inv :
      (c : ConnectionQueue) × (create n as_n ≡ ok c)
      × Inv (n + as_n) [] c
      × (c.q_free.pushed ≡ n)
      × (c.q_requested.pushed ≡ 0)
      × (c.admin_slots ≡ as_n)
  unfolding created
  create-Inv = (
    created,
    create-eq-created,
    record {
      free_ring = record {
        capacity = refl;
        places = length-range_from 0 (n + as_n);
        positive = omega (arith, some);
        behind = omega arith;
        within = omega arith;
        young = omega (arith, small);
      };
      requested_ring = record {
        capacity = refl;
        places = length-replicate (n + as_n) 0;
        positive = omega (arith, some);
        behind = omega arith;
        within = omega arith;
        young = omega (arith, small);
      };
      filled = omega arith;
      answers = length-replicate (n + as_n) 0;
      some_admin = some;
      few_admin = few;
      below = AllBelow-range_from 0 (n + as_n) (n + as_n) (omega arith);
      wide = tt;
      count = omega (arith, ap length held-created, length-range_from 0 (n + as_n));
      in_use = refl;
      in_use_small = omega arith;
      partition = rw held-created (
          subst (λ l. Perm l (range (n + as_n))) (sym (append-nil (range (n + as_n))))
            (Perm.refl (range (n + as_n))));
    },
    refl,
    refl,
    refl,
  )
