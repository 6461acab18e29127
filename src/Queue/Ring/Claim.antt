-- ===== src/Queue/Ring/Claim.antt =====
-- The claim of a position.
use Prim.Native.Nat.{bit_and}
use nim_brokers.Queue.Cells.{put, put-same, put-cases}
use nim_brokers.Prelude.{
  ℕ, ◌+◌, ◌≤◌, ◌<◌, ◌≡◌, sym, ap, ◌∙◌, ◌⊎◌, inl, inr, List, [], ◌∷◌, ◌++◌, map-append, some, length,
  length-append, length-map, get_elem?, get_elem?-append, get_elem?-append_last,
  get_elem?-append_cases, take, take-append, arith,
}
use nim_brokers.Queue.Ring.{
  VyukovMpscRing, Producer, idle, returned, called, checked, loaded, compared, claimed, written,
  Consumer, waiting, missed, matched, read, State, stand,
}
use nim_brokers.Queue.Ring.Invariant.{
  items, Holds, Producing, Consuming, IsQuiet, Kept, Holds-put, seq_at,
}

module _ {A : Type 0} where
  abbrev ring_claimed : VyukovMpscRing A → VyukovMpscRing A
  ring_claimed r = record r { enq_pos = r.enq_pos + 1 }

  Producing-claim :
      (r : VyukovMpscRing A) (sent new : List (ℕ × A)) (p : ℕ) (q : Producer A)
      → Producing r sent p q
      → Producing (ring_claimed r) (sent ++ new) p q
  Producing-claim r sent new p idle k = tt
  Producing-claim r sent new p (returned b) k = tt
  Producing-claim r sent new p (called x) k = tt
  Producing-claim r sent new p (checked x) k = tt
  Producing-claim r sent new p (loaded x t) k = omega arith
  Producing-claim r sent new p (compared x t n) k = (omega arith, k.1, k.2)
  Producing-claim r sent new p (claimed x t) k =
      (k.0, omega arith, get_elem?-append sent new t (p, x) k.2, k.3)
  Producing-claim r sent new p (written x t) k =
      (k.0, omega arith, get_elem?-append sent new t (p, x) k.2, k.3, k.4)

  Consuming-claim :
      (r : VyukovMpscRing A) (sent new : List (ℕ × A)) (c : Consumer A)
      → Consuming r sent c
      → Consuming (ring_claimed r) (sent ++ new) c
  Consuming-claim r sent new waiting k = tt
  Consuming-claim r sent new missed k = tt
  Consuming-claim r sent new matched k = k
  Consuming-claim r sent new (read x) k = (
    k.0,
    rw (map-append (λ e. e.1) sent new) (get_elem?-append (items sent) (items new) r.deq_pos x k.1),
  )

  -- The state in which producer `p` has claimed the next position for `x`.
  abbrev pub with_claim : ℕ → A → State A → State A
  with_claim p x s =
      stand p (claimed x s.ring.enq_pos)
        (record s { ring = ring_claimed s.ring; sent = s.sent ++ (p, x) ∷ [] })

  module _ (p : ℕ) (x : A) (s : State A) (k : Kept s) (old : IsQuiet (s.producers p))
      (room : s.ring.enq_pos < s.ring.deq_pos + s.ring.capacity) where
    last : get_elem? (s.sent ++ (p, x) ∷ []) s.ring.enq_pos ≡ some (p, x)
    last = rw (← k.count) (get_elem?-append_last s.sent (p, x))

    claim-held :
        (t r : ℕ) (y : A)
        → s.ring.deq_pos ≤ t
        → get_elem? (s.sent ++ (p, x) ∷ []) t ≡ some (r, y)
        → Holds y t (put p (claimed x s.ring.enq_pos) s.producers r)
          ⊎ ((seq_at s.ring t ≡ t + 1) × ((s.ring.slots (bit_and t s.ring.mask)).payload ≡ y))
    claim-held t r y d e = elim (get_elem?-append_cases s.sent (p, x) t (r, y) e) [
      | inl before ↦ elim (k.held t r y d before) [
        | inl h ↦ inl (Holds-put y t p r (claimed x s.ring.enq_pos) s.producers old h)
        | inr h ↦ inr h
      ]
      | inr (at, same) ↦
          let same_p : p ≡ r = ap (λ e. e.0) same in
          let same_x : x ≡ y = ap (λ e. e.1) same in
          let at_end : s.ring.enq_pos ≡ t = sym k.count ∙ sym at in
          inl (rw (← same_p, put-same p (claimed x s.ring.enq_pos) s.producers) (same_x, at_end))
    ]

    claim-got : s.received ≡ take s.ring.deq_pos (items (s.sent ++ (p, x) ∷ []))
    claim-got =
        let short : s.ring.deq_pos ≤ length (items s.sent) =
          rw (length-map (λ (e : ℕ × A). e.1) s.sent, k.count) k.ahead in
        k.got
        ∙ sym (take-append s.ring.deq_pos (items s.sent) (x ∷ []) short)
        ∙ ap (take s.ring.deq_pos) (sym (map-append (λ e. e.1) s.sent ((p, x) ∷ [])))

    pub claim-Kept : Kept (with_claim p x s)
    claim-Kept = record {
      index = k.index;
      two = k.two;
      ahead = omega (arith, k.ahead);
      behind = omega arith;
      count = length-append s.sent ((p, x) ∷ []) ∙ omega (arith, k.count);
      got = claim-got;
      bound = k.bound;
      passed = k.passed;
      free = λ t h. k.free t (omega arith);
      held = claim-held;
      producing = λ r.
          put-cases (Producing (ring_claimed s.ring) (s.sent ++ (p, x) ∷ [])) p r
            (claimed x s.ring.enq_pos) s.producers
            (k.ahead, omega arith, last, k.free s.ring.enq_pos (omega arith) room)
            (λ n. Producing-claim s.ring s.sent ((p, x) ∷ []) r (s.producers r) (k.producing r));
      consuming = Consuming-claim s.ring s.sent ((p, x) ∷ []) s.consumer k.consuming;
    }
