-- ===== src/Queue/Ring/Consume.antt =====
-- The consumer's accesses.
use Prim.Native.Nat.{bit_and}
use native.Mathlib.Decide.{dec_lt, ℕ_discrete}
use nim_brokers.Queue.Cells.{put-same, put-other, put-cases}
use nim_brokers.Prelude.{
  ℕ, suc, ◌+◌, ◌≤◌, ◌<◌, ◌≡◌, ◌≢◌, sym, ap, ◌∙◌, ◌⊎◌, inl, inr, List, [], ◌∷◌, ◌++◌, some,
  get_elem?, get_elem?-lt, get_elem?-some, get_elem?-map, take, take-suc, arith,
}
use nim_brokers.Queue.Ring.{
  Slot, VyukovMpscRing, Producer, idle, returned, called, checked, loaded, compared, claimed,
  written, Consumer, waiting, State, set_slot,
}
use nim_brokers.Queue.Ring.Invariant.{
  items, Holds, Producing, Consuming, Kept, slots_apart, seq_at, payload_at,
}

module _ {A : Type 0} where
  pub consumer-Kept :
      (c : Consumer A) (s : State A)
      → Kept s
      → Consuming s.ring s.sent c
      → Kept (record s { consumer = c })
  consumer-Kept c s k knows = record {
    index = k.index;
    two = k.two;
    ahead = k.ahead;
    behind = k.behind;
    count = k.count;
    got = k.got;
    bound = k.bound;
    passed = k.passed;
    free = k.free;
    held = k.held;
    producing = k.producing;
    consuming = knows;
  }

  pub Holds-seq :
      (r : VyukovMpscRing A) (sent : List (ℕ × A)) (p t : ℕ) (x : A) (q : Producer A)
      → Holds x t q
      → Producing r sent p q
      → seq_at r t ≡ t
  Holds-seq r sent p t x idle h k = absurd h
  Holds-seq r sent p t x (returned b) h k = absurd h
  Holds-seq r sent p t x (called y) h k = absurd h
  Holds-seq r sent p t x (checked y) h k = absurd h
  Holds-seq r sent p t x (loaded y u) h k = absurd h
  Holds-seq r sent p t x (compared y u n) h k = absurd h
  Holds-seq r sent p t x (claimed y u) h k = rw (← h.1) k.3
  Holds-seq r sent p t x (written y u) h k = rw (← h.1) k.3

-- The slot at the front is published.
module _ {A : Type 0} (s : State A) (k : Kept s)
    (ready : seq_at s.ring s.ring.deq_pos ≡ s.ring.deq_pos + 1) where
  pub claimed_front : s.ring.deq_pos < s.ring.enq_pos
  claimed_front = elim (dec_lt s.ring.deq_pos s.ring.enq_pos) [
    | yes h ↦ h
    | no h ↦ absurd (omega (arith, k.free s.ring.deq_pos (omega arith) (omega (arith, k.two))))
  ]

  -- It has the first item that has not been received.
  pub front_item : get_elem? (items s.sent) s.ring.deq_pos ≡ some (payload_at s.ring s.ring.deq_pos)
  front_item =
      let ((p, x), e) =
        get_elem?-some s.sent s.ring.deq_pos (omega (arith, k.count, claimed_front)) in
      let mapped : get_elem? (items s.sent) s.ring.deq_pos ≡ some x =
        get_elem?-map (λ c. c.1) s.sent s.ring.deq_pos (p, x) e in
      elim (k.held s.ring.deq_pos p x (omega arith) e) [
        | inl h ↦ absurd (
            omega (
              arith,
              ready,
              Holds-seq s.ring s.sent p s.ring.deq_pos x (s.producers p) h (k.producing p),
            ))
        | inr h ↦ mapped ∙ ap some (sym h.1)
      ]

  abbrev freed : Slot A
  freed = record {
    seq = s.ring.deq_pos + s.ring.capacity;
    payload = payload_at s.ring s.ring.deq_pos;
  }

  abbrev pub ring_freed : VyukovMpscRing A
  ring_freed = record (set_slot s.ring s.ring.deq_pos freed) { deq_pos = s.ring.deq_pos + 1 }

  at_front : ring_freed.slots (bit_and s.ring.deq_pos s.ring.mask) ≡ freed
  at_front = put-same (bit_and s.ring.deq_pos s.ring.mask) freed s.ring.slots

  behind_front :
      (u : ℕ)
      → s.ring.deq_pos + 1 ≤ u
      → u < s.ring.deq_pos + s.ring.capacity
      → ring_freed.slots (bit_and u s.ring.mask) ≡ s.ring.slots (bit_and u s.ring.mask)
  behind_front u a b =
      put-other (bit_and s.ring.deq_pos s.ring.mask) (bit_and u s.ring.mask) freed s.ring.slots (
        slots_apart s.ring s.ring.deq_pos u s.ring.deq_pos k.index (λ e. absurd (omega arith))
          (omega arith) b (omega arith) (omega (arith, k.two)))

  -- A position that a producer holds is not the front.
  above : (u : ℕ) → s.ring.deq_pos ≤ u → seq_at s.ring u ≡ u → s.ring.deq_pos + 1 ≤ u
  above u h e = elim (dec_lt s.ring.deq_pos u) [
    | yes l ↦ omega arith
    | no l ↦
        let same : u ≡ s.ring.deq_pos = omega arith in
        let as_front : seq_at s.ring u ≡ seq_at s.ring s.ring.deq_pos = ap (seq_at s.ring) same in
        absurd (omega arith)
  ]

  Producing-release :
      (r : ℕ) (q : Producer A) → Producing s.ring s.sent r q → Producing ring_freed s.sent r q
  Producing-release r idle h = tt
  Producing-release r (returned b) h = tt
  Producing-release r (called y) h = tt
  Producing-release r (checked y) h = tt
  Producing-release r (loaded y u) h = h
  Producing-release r (compared y u n) h = (h.0, omega arith, λ e. let l = h.2 e in omega arith)
  Producing-release r (claimed y u) h =
      let up = above u h.0 h.3 in
      let kept = behind_front u up (omega (arith, k.behind)) in
      (up, h.1, h.2, ap (λ w. w.seq) kept ∙ h.3)
  Producing-release r (written y u) h =
      let up = above u h.0 h.3 in
      let kept = behind_front u up (omega (arith, k.behind)) in
      (up, h.1, h.2, ap (λ w. w.seq) kept ∙ h.3, ap (λ w. w.payload) kept ∙ h.4)

  release-passed : (u : ℕ) → u < s.ring.deq_pos + 1 → u + s.ring.capacity ≤ seq_at ring_freed u
  release-passed u h =
      elim (ℕ_discrete (bit_and u s.ring.mask) (bit_and s.ring.deq_pos s.ring.mask)) [
        | yes same ↦
            let now_freed : seq_at ring_freed u ≡ s.ring.deq_pos + s.ring.capacity =
              ap (λ i. (ring_freed.slots i).seq) same ∙ ap (λ w. w.seq) at_front in
            omega arith
        | no n ↦
            let other : u ≢ s.ring.deq_pos = λ e. n (ap (λ i. bit_and i s.ring.mask) e) in
            let kept : seq_at ring_freed u ≡ seq_at s.ring u =
              ap (λ w. w.seq)
                (put-other (bit_and s.ring.deq_pos s.ring.mask) (bit_and u s.ring.mask) freed
                  s.ring.slots n) in
            let below : u < s.ring.deq_pos = omega arith in omega (arith, k.passed u below)
      ]

  release-free :
      (u : ℕ)
      → s.ring.enq_pos ≤ u
      → u < s.ring.deq_pos + 1 + s.ring.capacity
      → seq_at ring_freed u ≡ u
  release-free u a b = elim (dec_lt u (s.ring.deq_pos + s.ring.capacity)) [
    | yes h ↦ ap (λ w. w.seq) (behind_front u (omega (arith, claimed_front)) h) ∙ k.free u a h
    | no h ↦
        let next : u ≡ s.ring.deq_pos + s.ring.capacity = omega arith in
        let round : bit_and u s.ring.mask ≡ bit_and s.ring.deq_pos s.ring.mask =
          ap (λ i. bit_and i s.ring.mask) next ∙ k.index.round s.ring.deq_pos in
        ap (λ i. (ring_freed.slots i).seq) round ∙ ap (λ w. w.seq) at_front ∙ sym next
  ]

  release-held :
      (u p : ℕ) (y : A)
      → s.ring.deq_pos + 1 ≤ u
      → get_elem? s.sent u ≡ some (p, y)
      → Holds y u (s.producers p) ⊎ ((seq_at ring_freed u ≡ u + 1) × (payload_at ring_freed u ≡ y))
  release-held u p y d e =
      let near : u < s.ring.deq_pos + s.ring.capacity =
        omega (arith, k.behind, k.count, get_elem?-lt s.sent u (p, y) e) in
      elim (k.held u p y (omega arith) e) [
        | inl h ↦ inl h
        | inr h ↦ inr (
          ap (λ w. w.seq) (behind_front u d near) ∙ h.0,
          ap (λ w. w.payload) (behind_front u d near) ∙ h.1,
        )
      ]

  pub release-Kept :
      (x : A)
      → get_elem? (items s.sent) s.ring.deq_pos ≡ some x
      → Kept (record s { ring = ring_freed; consumer = waiting; received = s.received ++ x ∷ [] })
  release-Kept x e = record {
    index = k.index;
    two = k.two;
    ahead = omega (arith, claimed_front);
    behind = omega (arith, k.behind);
    count = k.count;
    got =
        let one_more : suc s.ring.deq_pos ≡ s.ring.deq_pos + 1 = omega arith in
        ap (λ l. l ++ x ∷ []) k.got
        ∙ sym (take-suc s.ring.deq_pos (items s.sent) x e)
        ∙ ap (λ n. take n (items s.sent)) one_more;
    bound = λ i.
        put-cases (λ j (w : Slot A). w.seq ≤ s.ring.deq_pos + 1 + s.ring.capacity)
          (bit_and s.ring.deq_pos s.ring.mask) i freed s.ring.slots (omega arith)
          (λ n. omega (arith, k.bound i));
    passed = release-passed;
    free = release-free;
    held = release-held;
    producing = λ p. Producing-release p (s.producers p) (k.producing p);
    consuming = tt;
  }
