-- ===== src/Connection/Reached.antt =====
-- What a `connection_queue` of src/tateyama/transport/wire.h can come to: clients request, the
-- listener answers the oldest request, and sessions are disconnected, in any order.
use mathlib.Core.List.{Nodup, Perm}
use mathlib.Core.List.Perm
use tateyama_bootstrap.Prelude.{
  ℕ, suc, ◌+◌, ◌^◌, ◌≤◌, ◌<◌, ◌≡◌, refl, sym, ap, ◌∙◌, subst, ◌⊎◌, inl, inr, List, [], ◌∷◌, ◌++◌,
  Bool, true, false, arith, length,
}
use tateyama_bootstrap.Reason.{Error, Result, ok, throws, throws≢ok, ok-inj}
use tateyama_bootstrap.Connection.Queue.{
  ConnectionQueue, create, request, request_admin, slot, accept, reject, disconnect,
}
use tateyama_bootstrap.Connection.Slots.{range, range_from-Nodup, slots_of}
use tateyama_bootstrap.Connection.Invariant.{Inv, waiting, free}
use tateyama_bootstrap.Connection.Requests.{
  IsYoung, Pushes, request_cases, request_admin_cases, Granted,
}
use tateyama_bootstrap.Connection.Created.{create-Inv}
use tateyama_bootstrap.Connection.Answers.{accept_lem, slot-oldest}
use tateyama_bootstrap.Connection.Release.{disconnect_lem, reject_lem}

-- The queue of `n` normal and `as_n` admin slots after `k` operations that went through, with the
-- requests that have been accepted and are not disconnected yet.
pub data Reached (n as_n : ℕ) : ℕ → List ℕ → ConnectionQueue → Type 0 where
  created : {c : ConnectionQueue} → create n as_n ≡ ok c → Reached n as_n 0 [] c
  requested :
      {k : ℕ} {connected : List ℕ} (c : ConnectionQueue) {c' : ConnectionQueue} (sid : ℕ)
      → Reached n as_n k connected c
      → request c ≡ ok (sid, c')
      → Reached n as_n (suc k) connected c'
  requested_admin :
      {k : ℕ} {connected : List ℕ} (c : ConnectionQueue) {c' : ConnectionQueue} (sid : ℕ)
      → Reached n as_n k connected c
      → request_admin c ≡ ok (sid, c')
      → Reached n as_n (suc k) connected c'
  accepted :
      {k : ℕ} {connected : List ℕ} (c : ConnectionQueue) {c' : ConnectionQueue} (sid session_id : ℕ)
      → Reached n as_n k connected c
      → 0 < length (waiting c)
      → slot c ≡ ok sid
      → accept sid session_id c ≡ ok c'
      → Reached n as_n (suc k) (sid ∷ connected) c'
  rejected :
      {k : ℕ} {connected : List ℕ} (c : ConnectionQueue) {c' : ConnectionQueue} (sid : ℕ)
      → Reached n as_n k connected c
      → 0 < length (waiting c)
      → slot c ≡ ok sid
      → reject sid c ≡ ok c'
      → Reached n as_n (suc k) connected c'
  disconnected :
      {k : ℕ} (c : ConnectionQueue) {c' : ConnectionQueue} (sid : ℕ) (cs ds : List ℕ)
      → Reached n as_n k (cs ++ sid ∷ ds) c
      → disconnect sid c ≡ ok c'
      → Reached n as_n (suc k) (cs ++ ds) c'

-- Whenever a request that is no admin's went through, no more admins were there than have slots of
-- their own, and never as many as 255.
abbrev pub FewAdmins :
    {n as_n k : ℕ} {connected : List ℕ} {c : ConnectionQueue}
    → Reached n as_n k connected c
    → Type 0
FewAdmins (created e) = Unit {0}
FewAdmins (requested c sid r e) = (c.q_free.admin_slots_in_use ≤ c.admin_slots) × FewAdmins r
FewAdmins (requested_admin c sid r e) = (c.q_free.admin_slots_in_use + 1 < 256) × FewAdmins r
FewAdmins (accepted c sid session_id r w s e) = FewAdmins r
FewAdmins (rejected c sid r w s e) = FewAdmins r
FewAdmins (disconnected c sid cs ds r e) = FewAdmins r

-- The invariant, and how far the counters are after `k` operations.
record Sound (n as_n k : ℕ) (connected : List ℕ) (c : ConnectionQueue) : Type 0 where
  pub inv : Inv (n + as_n) connected c
  pub free_pushed : c.q_free.pushed ≤ n + k
  pub requested_pushed : c.q_requested.pushed ≤ k
  pub slots : c.admin_slots ≡ as_n

module _ (n as_n : ℕ) (some : 0 < as_n) (few : as_n < 256) (small : n + as_n < 2 ^ 31) where
  young :
      {k : ℕ} {connected : List ℕ} {c : ConnectionQueue}
      → k < 2 ^ 62
      → Sound n as_n k connected c
      → IsYoung (n + as_n) c
  young h s =
      (omega (arith, small, s.free_pushed, s.slots, few), omega (arith, small, s.requested_pushed))

  pushed :
      {k f r : ℕ} {connected : List ℕ} {c c' : ConnectionQueue} (left : List ℕ)
      → Sound n as_n k connected c
      → f ≤ 1
      → r ≤ 1
      → Pushes f r c c'
      → Inv (n + as_n) left c'
      → Sound n as_n (suc k) left c'
  pushed left s hf hr p i = record {
    inv = i;
    free_pushed = omega (arith, s.free_pushed, p.free_pushed);
    requested_pushed = omega (arith, s.requested_pushed, p.requested_pushed);
    slots = p.same_slots ∙ s.slots;
  }

  granted-Sound :
      {k : ℕ} {connected : List ℕ} {c c' : ConnectionQueue} (admin : Bool) (sid : ℕ)
      {refused : Type 0} {enough : Type 0} {e : Error} {r : Result (ℕ × ConnectionQueue)}
      → (s : Sound n as_n k connected c)
      → ((refused × (r ≡ throws e))
          ⊎ (enough
              × ((x : ℕ) × (d : ConnectionQueue) × (r ≡ ok (x, d)) × Granted s.inv admin x d)))
      → r ≡ ok (sid, c')
      → Sound n as_n (suc k) connected c'
  granted-Sound admin sid s (inl (_, refused)) e = absurd (throws≢ok (sym refused ∙ e))
  granted-Sound {connected = connected} admin sid s (inr (_, (x, d, given, g))) e =
      subst (Sound n as_n _ connected) (ap (λ p. p.1) (ok-inj (sym given ∙ e)))
        (pushed connected s (omega arith) (omega arith) g.pushes g.inv)

  -- The oldest request is the one that `slot` gave.
  oldest :
      {k : ℕ} {connected : List ℕ} {c : ConnectionQueue} {sid : ℕ}
      → Sound n as_n k connected c
      → 0 < length (waiting c)
      → slot c ≡ ok sid
      → (ws : List ℕ) × (waiting c ≡ sid ∷ ws)
  oldest {c = c} {sid = sid} s some_waiting e = split (waiting c) refl some_waiting
    where
      split : (l : List ℕ) → waiting c ≡ l → 0 < length l → (ws : List ℕ) × (waiting c ≡ sid ∷ ws)
      split [] w h = elim h [ ]
      split (x ∷ ws) w h = (ws, w ∙ ap (λ y. y ∷ ws) (ok-inj (sym (slot-oldest s.inv x ws w) ∙ e)))

  reached-Sound :
      (k : ℕ) (connected : List ℕ) (c : ConnectionQueue) (r : Reached n as_n k connected c)
      → FewAdmins r
      → k < 2 ^ 62
      → Sound n as_n k connected c
  reached-Sound _ _ _ (created e) f h =
      let (d, e', i, p, q, a) = create-Inv n as_n some few small in
      subst (Sound n as_n 0 []) (ok-inj (sym e' ∙ e)) (record {
        inv = i;
        free_pushed = omega (arith, p);
        requested_pushed = omega (arith, q);
        slots = a;
      })
  reached-Sound _ _ _ (requested c sid r e) f h =
      let s = reached-Sound _ _ c r f.1 (omega arith) in
      granted-Sound false sid s (request_cases s.inv (young (omega arith) s) f.0) e
  reached-Sound _ _ _ (requested_admin c sid r e) f h =
      let s = reached-Sound _ _ c r f.1 (omega arith) in
      granted-Sound true sid s (request_admin_cases s.inv (young (omega arith) s) f.0) e
  reached-Sound _ _ _ (accepted c sid session_id r w o e) f h =
      let s = reached-Sound _ _ c r f (omega arith) in
      let (ws, first) = oldest s w o in
      let (d, e', a) = accept_lem s.inv sid session_id ws first in
      subst (Sound n as_n _ _) (ok-inj (sym e' ∙ e))
        (pushed _ s (omega arith) (omega arith) a.pushes a.inv)
  reached-Sound _ _ _ (rejected c sid r w o e) f h =
      let s = reached-Sound _ _ c r f (omega arith) in
      let (ws, first) = oldest s w o in
      let (d, e', i, p, _, _, _) = reject_lem s.inv sid ws (young (omega arith) s) first in
      subst (Sound n as_n _ _) (ok-inj (sym e' ∙ e)) (pushed _ s (omega arith) (omega arith) p i)
  reached-Sound _ _ _ (disconnected c sid cs ds r e) f h =
      let s = reached-Sound _ _ c r f (omega arith) in
      let (d, e', b) = disconnect_lem sid cs ds s.inv (young (omega arith) s) in
      subst (Sound n as_n _ _) (ok-inj (sym e' ∙ e))
        (pushed _ s (omega arith) (omega arith) b.pushes b.inv)

  -- However clients, the listener and the sessions take turns, each operation as one step, every slot
  -- is free between the operations, or one client waits with it, or one session has it: the slots of
  -- these three are all slots, each once. This holds of a queue of 1 to 255 admin slots and fewer
  -- than 2^31 slots in all, for fewer than 2^62 operations, while `FewAdmins` holds. Within a request
  -- its slot is in neither queue for a moment.
  pub reached-slots_apart :
      (k : ℕ) (connected : List ℕ) (c : ConnectionQueue) (r : Reached n as_n k connected c)
      → FewAdmins r
      → k < 2 ^ 62
      → Perm (free c ++ (slots_of (waiting c) ++ slots_of connected)) (range (n + as_n))
        × Nodup (free c ++ (slots_of (waiting c) ++ slots_of connected))
  reached-slots_apart k connected c r f h =
      let s = reached-Sound k connected c r f h in
      (s.inv.partition, Perm.nodup (Perm.symm s.inv.partition) (range_from-Nodup 0 (n + as_n)))
