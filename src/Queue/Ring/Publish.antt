-- ===== src/Queue/Ring/Publish.antt =====
-- The writes of a producer to the slot that it has claimed.
use Prim.Native.Nat.{bit_and}
use native.Mathlib.Decide.{ℕ_discrete}
use nim_brokers.Queue.Cells.{put, put-same, put-other, put-cases}
use nim_brokers.Prelude.{
  ℕ, ◌+◌, ◌≤◌, ◌<◌, ◌≡◌, ◌≢◌, sym, ap, ◌∙◌, ◌⊎◌, inl, inr, Option, none, some, get_elem?,
  get_elem?-lt, arith,
}
use nim_brokers.Queue.Ring.{
  Slot, Producer, idle, returned, called, checked, loaded, compared, claimed, written, Consumer,
  waiting, missed, matched, read, State, set_slot, stand,
}
use nim_brokers.Queue.Ring.Invariant.{
  Holds, Producing, Consuming, Kept, slots_apart, seq_at, payload_at,
}

-- Producer `p` has claimed position `t` for `x`, and writes `v` to its slot.
module _ {A : Type 0} (p t : ℕ) (x : A) (s : State A) (k : Kept s) (low : s.ring.deq_pos ≤ t)
    (high : t < s.ring.enq_pos) (mine : get_elem? s.sent t ≡ some (p, x))
    (before : seq_at s.ring t ≡ t) (v : Slot A) where
  -- Another position of the round has another slot.
  elsewhere :
      (u : ℕ)
      → u ≢ t
      → s.ring.deq_pos ≤ u
      → u < s.ring.deq_pos + s.ring.capacity
      → (set_slot s.ring t v).slots (bit_and u s.ring.mask) ≡ s.ring.slots (bit_and u s.ring.mask)
  elsewhere u n a b =
      put-other (bit_and t s.ring.mask) (bit_and u s.ring.mask) v s.ring.slots
        (slots_apart s.ring s.ring.deq_pos u t k.index n a b low (omega (arith, k.behind)))

  here : (set_slot s.ring t v).slots (bit_and t s.ring.mask) ≡ v
  here = put-same (bit_and t s.ring.mask) v s.ring.slots

  -- A position that another producer has claimed is another.
  other_position : (u r : ℕ) (y : A) → r ≢ p → get_elem? s.sent u ≡ some (r, y) → u ≢ t
  other_position u r y n e same = n (
      ap (λ (o : Option (ℕ × A)). elim o [ none ↦ p | some c ↦ c.0 ])
        (sym e ∙ ap (get_elem? s.sent) same ∙ mine))

  Producing-write :
      (r : ℕ) (q : Producer A)
      → r ≢ p
      → Producing s.ring s.sent r q
      → Producing (set_slot s.ring t v) s.sent r q
  Producing-write r idle n h = tt
  Producing-write r (returned b) n h = tt
  Producing-write r (called y) n h = tt
  Producing-write r (checked y) n h = tt
  Producing-write r (loaded y u) n h = h
  Producing-write r (compared y u m) n h = h
  Producing-write r (claimed y u) n h =
      let kept = elsewhere u (other_position u r y n h.2) h.0 (omega (arith, h.1, k.behind)) in
      (h.0, h.1, h.2, ap (λ w. w.seq) kept ∙ h.3)
  Producing-write r (written y u) n h =
      let kept = elsewhere u (other_position u r y n h.2) h.0 (omega (arith, h.1, k.behind)) in
      (h.0, h.1, h.2, ap (λ w. w.seq) kept ∙ h.3, ap (λ w. w.payload) kept ∙ h.4)

  -- The consumer's slot is published, so that it is another.
  at_front : seq_at s.ring s.ring.deq_pos ≡ s.ring.deq_pos + 1 → s.ring.deq_pos ≢ t
  at_front e same =
      let as_before : seq_at s.ring s.ring.deq_pos ≡ t = ap (seq_at s.ring) same ∙ before in
      omega arith

  front :
      seq_at s.ring s.ring.deq_pos ≡ s.ring.deq_pos + 1
      → seq_at (set_slot s.ring t v) s.ring.deq_pos ≡ s.ring.deq_pos + 1
  front e =
      ap (λ w. w.seq) (elsewhere s.ring.deq_pos (at_front e) (omega arith) (omega (arith, k.two)))
      ∙ e

  Consuming-write :
      (c : Consumer A) → Consuming s.ring s.sent c → Consuming (set_slot s.ring t v) s.sent c
  Consuming-write waiting h = tt
  Consuming-write missed h = tt
  Consuming-write matched h = front h
  Consuming-write (read y) h = (front h.0, h.1)

  module _ (q : Producer A) (up : t ≤ v.seq) (within : v.seq ≤ s.ring.deq_pos + s.ring.capacity)
      (now : Holds x t q ⊎ ((v.seq ≡ t + 1) × (v.payload ≡ x)))
      (knows : Producing (set_slot s.ring t v) s.sent p q)
      (only : (y : A) (u : ℕ) → Holds y u (s.producers p) → u ≡ t) where
    write-passed :
        (u : ℕ) → u < s.ring.deq_pos → u + s.ring.capacity ≤ seq_at (set_slot s.ring t v) u
    write-passed u h = elim (ℕ_discrete (bit_and u s.ring.mask) (bit_and t s.ring.mask)) [
      | yes same ↦
          let old : u + s.ring.capacity ≤ seq_at s.ring u = k.passed u h in
          let as_t : seq_at s.ring u ≡ t = ap (λ i. (s.ring.slots i).seq) same ∙ before in
          let now_v : seq_at (set_slot s.ring t v) u ≡ v.seq =
            ap (λ i. ((set_slot s.ring t v).slots i).seq) same ∙ ap (λ w. w.seq) here in
          omega arith
      | no n ↦
          let kept : seq_at (set_slot s.ring t v) u ≡ seq_at s.ring u =
            ap (λ w. w.seq)
              (put-other (bit_and t s.ring.mask) (bit_and u s.ring.mask) v s.ring.slots n) in
          omega (arith, k.passed u h)
    ]

    write-free :
        (u : ℕ)
        → s.ring.enq_pos ≤ u
        → u < s.ring.deq_pos + s.ring.capacity
        → seq_at (set_slot s.ring t v) u ≡ u
    write-free u a b =
        ap (λ w. w.seq) (elsewhere u (omega arith) (omega (arith, k.ahead)) b) ∙ k.free u a b

    Published : A → ℕ → Type 0
    Published y u =
        (seq_at (set_slot s.ring t v) u ≡ u + 1) × (payload_at (set_slot s.ring t v) u ≡ y)

    write-now : (r : ℕ) (y : A) → p ≡ r → x ≡ y → Holds y t (put p q s.producers r) ⊎ Published y t
    unfolding Published
    write-now r y same_p same_x =
        rw (← same_p, ← same_x, put-same p q s.producers)
          (elim now [
            | inl h ↦ inl h
            | inr h ↦ inr (ap (λ w. w.seq) here ∙ h.0, ap (λ w. w.payload) here ∙ h.1)
          ])

    write-held :
        (u r : ℕ) (y : A)
        → s.ring.deq_pos ≤ u
        → get_elem? s.sent u ≡ some (r, y)
        → Holds y u (put p q s.producers r) ⊎ Published y u
    unfolding Published
    write-held u r y d e = elim (ℕ_discrete u t) [
      | yes same ↦
          let both : some (p, x) ≡ some (r, y) = sym mine ∙ ap (get_elem? s.sent) (sym same) ∙ e in
          rw same (write-now r y (cc) (cc))
      | no n ↦
          let far : u < s.ring.deq_pos + s.ring.capacity =
            omega (arith, k.behind, k.count, get_elem?-lt s.sent u (r, y) e) in
          elim (k.held u r y d e) [
            | inl h ↦ inl (
                put-cases (λ j w. Holds y u (s.producers j) → Holds y u w) p r q s.producers
                  (λ h'. absurd (n (only y u h'))) (λ m h'. h') h)
            | inr h ↦ inr (
              ap (λ w. w.seq) (elsewhere u n d far) ∙ h.0,
              ap (λ w. w.payload) (elsewhere u n d far) ∙ h.1,
            )
          ]
    ]

    pub write-Kept : Kept (stand p q (record s { ring = set_slot s.ring t v }))
    unfolding Published
    write-Kept = record {
      index = k.index;
      two = k.two;
      ahead = k.ahead;
      behind = k.behind;
      count = k.count;
      got = k.got;
      bound = λ i.
          put-cases (λ j (w : Slot A). w.seq ≤ s.ring.deq_pos + s.ring.capacity)
            (bit_and t s.ring.mask) i v s.ring.slots within (λ n. k.bound i);
      passed = write-passed;
      free = write-free;
      held = write-held;
      producing = λ r.
          put-cases (Producing (set_slot s.ring t v) s.sent) p r q s.producers knows
            (λ n. Producing-write r (s.producers r) n (k.producing r));
      consuming = Consuming-write s.consumer k.consuming;
    }
