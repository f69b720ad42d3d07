-- ===== src/Connection/Invariant.antt =====
-- What holds between two operations of a `connection_queue` of src/tateyama/transport/wire.h.
use mathlib.Core.List.{Perm, perm_middle}
use mathlib.Core.List.Perm
use tateyama_bootstrap.Prelude.{
  ℕ, ◌+◌, ◌-◌, ◌^◌, ◌≤◌, ◌<◌, ◌≡◌, sym, ap, ◌∙◌, subst, List, [], ◌∷◌, ◌++◌, arith, length,
  append_assoc,
}
use tateyama_bootstrap.Connection.Queue.{ConnectionQueue}
use tateyama_bootstrap.Connection.Slots.{range, slots_of, admins, AllBelow}
use tateyama_bootstrap.Connection.Rings.{held, IsRing}

-- The requests that no one has answered, oldest first, and the slots that nobody uses.
abbrev pub waiting : ConnectionQueue → List ℕ
waiting c = held c.q_requested 0

abbrev pub free : ConnectionQueue → List ℕ
free c = held c.q_free c.admin_slots

abbrev pub All64 : List ℕ → Type 0
All64 [] = Unit {0}
All64 (x ∷ xs) = (x < 2 ^ 64) × All64 xs

-- `n` is the number of all slots, and `connected` holds the requests that have been accepted and
-- have not been disconnected. Each slot is free, or waiting, or connected, and only one of these.
pub record Inv (n : ℕ) (connected : List ℕ) (c : ConnectionQueue) : Type 0 where
  pub free_ring : IsRing n c.admin_slots c.q_free
  pub requested_ring : IsRing n 0 c.q_requested
  pub filled : n ≤ c.q_free.pushed + c.admin_slots
  pub answers : length c.v_requested ≡ n
  pub some_admin : 0 < c.admin_slots
  pub few_admin : c.admin_slots < 256
  pub below : AllBelow n c.q_free.queue
  pub wide : All64 (waiting c ++ connected)
  pub count : length (free c) + (length (waiting c) + length connected) ≡ n
  pub in_use : c.q_free.admin_slots_in_use ≡ admins (waiting c ++ connected)
  pub in_use_small : c.q_free.admin_slots_in_use < 256
  pub partition : Perm (free c ++ (slots_of (waiting c) ++ slots_of connected)) (range n)

-- How many requests and sessions are no admins'.
abbrev pub normals : List ℕ → ConnectionQueue → ℕ
normals connected c = length (waiting c ++ connected) - admins (waiting c ++ connected)

pub admins-le-length : (xs : List ℕ) → admins xs ≤ length xs
admins-le-length [] = omega arith
admins-le-length (x ∷ xs) = ground (arith, admins-le-length xs)

-- A slot that moves from the free ones to the waiting ones.
pub take_slot :
    (n x : ℕ) (fs ws cs : List ℕ)
    → Perm ((x ∷ fs) ++ (ws ++ cs)) (range n)
    → Perm (fs ++ ((ws ++ x ∷ []) ++ cs)) (range n)
take_slot n x fs ws cs p =
    Perm.trans
      (subst (λ l. Perm l (x ∷ (fs ++ (ws ++ cs)))) shape
        (subst (λ l. Perm ((fs ++ ws) ++ x ∷ cs) (x ∷ l)) (append_assoc fs ws cs)
          (perm_middle (fs ++ ws) cs)))
      p
  where
    shape : (fs ++ ws) ++ x ∷ cs ≡ fs ++ ((ws ++ x ∷ []) ++ cs)
    shape = append_assoc fs ws (x ∷ cs) ∙ ap (◌++◌ fs) (sym (append_assoc ws (x ∷ []) cs))

-- A slot that comes back from among the connected ones.
pub give_slot :
    (n x : ℕ) (fs ws cs ds : List ℕ)
    → Perm (fs ++ (ws ++ (cs ++ x ∷ ds))) (range n)
    → Perm ((fs ++ x ∷ []) ++ (ws ++ (cs ++ ds))) (range n)
give_slot n x fs ws cs ds p =
    Perm.trans
      (subst (λ l. Perm l (fs ++ (ws ++ (cs ++ x ∷ ds))))
        (sym (append_assoc fs (x ∷ []) (ws ++ (cs ++ ds))))
        (Perm.append_left fs (
          Perm.symm (
            subst (λ l. Perm (ws ++ (cs ++ x ∷ ds)) (x ∷ l)) (append_assoc ws cs ds)
              (subst (λ l. Perm l (x ∷ ((ws ++ cs) ++ ds))) (append_assoc ws cs (x ∷ ds))
                (perm_middle (ws ++ cs) ds))))))
      p

-- A slot whose request is answered.
pub answer_slot :
    (n x : ℕ) (fs ws cs : List ℕ)
    → Perm (fs ++ ((x ∷ ws) ++ cs)) (range n)
    → Perm (fs ++ (ws ++ x ∷ cs)) (range n)
answer_slot n x fs ws cs p = Perm.trans (Perm.append_left fs (perm_middle ws cs)) p
