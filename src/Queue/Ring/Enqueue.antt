-- ===== src/Queue/Ring/Enqueue.antt =====
-- The accesses of a producer keep the invariant.
use Prim.Native.Nat.{bit_and}
use native.Mathlib.Decide.{dec_lt}
use nim_brokers.Queue.Cells.{put-same}
use nim_brokers.Prelude.{
  ℕ, ◌+◌, ◌%◌, ◌≤◌, ◌<◌, ◌≡◌, refl, sym, ap, ◌∙◌, inl, inr, true, false, Bool-cases, ◌==◌, ==_iff,
  ltb_ℤ, eq_ℤ, pos, Option, none, some, get_elem?-some, if◌then◌else◌, arith,
}
use nim_brokers.Queue.Ring.{
  Slot, diff, u64_mod, Producer, idle, returned, called, checked, loaded, compared, claimed,
  written, State, slot_of, set_slot, stand, try_claim, on_difference, try_enqueue, call_enqueue,
  fail_weakly,
}
use nim_brokers.Queue.Ring.Invariant.{
  half_range, diff-zero, Producing, IsQuiet, Kept, stand-Kept, seq_at, payload_at,
}
use nim_brokers.Queue.Ring.Claim.{claim-Kept}
use nim_brokers.Queue.Ring.Publish.{write-Kept}
use nim_brokers.Queue.Ring.Consume.{Holds-seq}

module _ {A : Type 0} where
  -- The positions are far below the range.
  abbrev pub IsEarly : State A → Type 0
  IsEarly s = s.ring.enq_pos + s.ring.capacity + 1 < half_range

  -- What a move leads to, if it is possible.
  abbrev pub Good : State A → Option (State A) → Type 0
  Good s none = Unit
  Good s (some t) =
      Kept t × (t.ring.enq_pos ≤ s.ring.enq_pos + 1) × (t.ring.capacity ≡ s.ring.capacity)

  quiet-Good :
      (p : ℕ) (q r : Producer A) (s : State A)
      → Kept s
      → s.producers p ≡ q
      → IsQuiet q
      → IsQuiet r
      → Producing s.ring s.sent p r
      → Good s (some (stand p r s))
  quiet-Good p q r s k e old new knows =
      (stand-Kept p r s k (rw e old) new knows, omega arith, refl)

  pub call_enqueue-Good :
      (p : ℕ) (x : A) (q : Producer A) (s : State A)
      → Kept s
      → s.producers p ≡ q
      → Good s (call_enqueue p x q s)
  unfolding call_enqueue
  call_enqueue-Good p x idle s k e = quiet-Good p idle (called x) s k e tt tt tt
  call_enqueue-Good p x (returned b) s k e = quiet-Good p (returned b) (called x) s k e tt tt tt
  call_enqueue-Good p x (called y) s k e = tt
  call_enqueue-Good p x (checked y) s k e = tt
  call_enqueue-Good p x (loaded y t) s k e = tt
  call_enqueue-Good p x (compared y t n) s k e = tt
  call_enqueue-Good p x (claimed y t) s k e = tt
  call_enqueue-Good p x (written y t) s k e = tt

  try_claim-Good :
      (p : ℕ) (x : A) (t n : ℕ) (s : State A)
      → Kept s
      → IsEarly s
      → s.producers p ≡ compared x t n
      → (t < s.ring.deq_pos + s.ring.capacity)
      → Good s (some (try_claim p x t s))
  unfolding try_claim
  try_claim-Good p x t n s k early e room = elim (Bool-cases (s.ring.enq_pos == t)) [
    | inl y ↦
        let same : s.ring.enq_pos ≡ t = (==_iff s.ring.enq_pos t).0 y in
        let plain : (s.ring.enq_pos + 1) % u64_mod ≡ s.ring.enq_pos + 1 = omega arith in
        rw (y, ← same, plain) (claim-Kept p x s k (rw e tt) (omega arith), omega arith, refl)
    | inr no_ ↦
        rw no_ (quiet-Good p (compared x t n) (loaded x s.ring.enq_pos) s k e tt tt (omega arith))
  ]

  on_difference-Good :
      (p : ℕ) (x : A) (t n : ℕ) (s : State A)
      → Kept s
      → IsEarly s
      → s.producers p ≡ compared x t n
      → Producing s.ring s.sent p (compared x t n)
      → Good s (some (on_difference p x t n s))
  unfolding on_difference
  on_difference-Good p x t n s k early e knows =
      let zero_test = diff-zero n t (omega arith) (omega arith) in
      elim (Bool-cases (n == t)) [
        | inl y ↦
            rw (zero_test, y) (try_claim-Good p x t n s k early e (knows.2 ((==_iff n t).0 y)))
        | inr other ↦ elim (Bool-cases (ltb_ℤ (diff n t) (pos 0))) [
          | inl y ↦
              rw (zero_test, other, y)
                (quiet-Good p (compared x t n) (returned false) s k e tt tt tt)
          | inr no_ ↦
              rw (zero_test, other, no_)
                (quiet-Good p (compared x t n) (loaded x s.ring.enq_pos) s k e tt tt (omega arith))
        ]
      ]

  -- The number of a claimed slot.
  pub claimed_seq :
      (s : State A) (t : ℕ)
      → Kept s
      → s.ring.deq_pos ≤ t
      → t < s.ring.enq_pos
      → (t ≤ seq_at s.ring t) × (seq_at s.ring t ≤ t + 1)
  claimed_seq s t k a b =
      let ((p, x), e) = get_elem?-some s.sent t (omega (arith, k.count)) in
      elim (k.held t p x a e) [
        | inl h ↦
            let still = Holds-seq s.ring s.sent p t x (s.producers p) h (k.producing p) in
            (omega arith, omega arith)
        | inr h ↦ (omega (arith, h.0), omega (arith, h.0))
      ]

  -- When the ring is full, the next position has the slot of the front.
  full_seq :
      (s : State A)
      → Kept s
      → s.ring.enq_pos ≡ s.ring.deq_pos + s.ring.capacity
      → seq_at s.ring s.ring.enq_pos ≤ s.ring.deq_pos + 1
  full_seq s k e =
      let same : seq_at s.ring s.ring.enq_pos ≡ seq_at s.ring s.ring.deq_pos =
        ap (seq_at s.ring) e ∙ ap (λ i. (s.ring.slots i).seq) (k.index.round s.ring.deq_pos) in
      let front = claimed_seq s s.ring.deq_pos k (omega arith) (omega (arith, k.two)) in omega arith

  -- What the load of a slot's number shows: a number that is the position's only while there is room
  -- for the position, and one below it only when the ring is full.
  module _ (s : State A) (k : Kept s) (t : ℕ) (h : t ≤ s.ring.enq_pos) where
    equal_room : seq_at s.ring t ≡ t → t < s.ring.deq_pos + s.ring.capacity
    equal_room e = elim (dec_lt t (s.ring.deq_pos + s.ring.capacity)) [
      | yes y ↦ y
      | no n ↦
          let full : s.ring.enq_pos ≡ s.ring.deq_pos + s.ring.capacity = omega (arith, k.behind) in
          let at_end : t ≡ s.ring.enq_pos = omega (arith, k.behind) in
          let low : seq_at s.ring t ≤ s.ring.deq_pos + 1 = rw at_end (full_seq s k full) in
          absurd (omega (arith, k.two))
    ]

    pub below_full : seq_at s.ring t < t → s.ring.enq_pos ≡ s.ring.deq_pos + s.ring.capacity
    below_full e = elim (dec_lt t s.ring.deq_pos) [
      | yes l ↦ absurd (omega (arith, k.passed t l))
      | no l ↦ elim (dec_lt t s.ring.enq_pos) [
        | yes b ↦ absurd (omega (arith, claimed_seq s t k (omega arith) b))
        | no b ↦ elim (dec_lt s.ring.enq_pos (s.ring.deq_pos + s.ring.capacity)) [
          | yes c ↦ absurd (omega (arith, k.free t (omega arith) (omega arith)))
          | no c ↦ omega (arith, k.behind)
        ]
      ]
    ]

  pub try_enqueue-Good :
      (p : ℕ) (q : Producer A) (s : State A)
      → Kept s
      → IsEarly s
      → s.producers p ≡ q
      → Producing s.ring s.sent p q
      → Good s (try_enqueue p q s)
  unfolding try_enqueue slot_of
  try_enqueue-Good p idle s k early e knows = tt
  try_enqueue-Good p (returned b) s k early e knows = tt
  try_enqueue-Good p (called x) s k early e knows = elim (Bool-cases s.ring.closed) [
    | inl y ↦
        let shut_now : (if s.ring.closed then returned false else checked x) ≡ returned false =
          rw y in
        rw shut_now (quiet-Good p (called x) (returned false) s k e tt tt tt)
    | inr n ↦
        let goes_on : (if s.ring.closed then returned false else checked x) ≡ checked x = rw n in
        rw goes_on (quiet-Good p (called x) (checked x) s k e tt tt tt)
  ]
  try_enqueue-Good p (checked x) s k early e knows =
      quiet-Good p (checked x) (loaded x s.ring.enq_pos) s k e tt tt (omega arith)
  try_enqueue-Good p (loaded x t) s k early e knows =
      quiet-Good p (loaded x t) (compared x t (seq_at s.ring t)) s k e tt tt
        (knows, k.bound (bit_and t s.ring.mask), equal_room s k t knows)
  try_enqueue-Good p (compared x t n) s k early e knows =
      on_difference-Good p x t n s k early e knows
  try_enqueue-Good p (claimed x t) s k early e (low, high, mine, before) =
      let v : Slot A = record { seq = seq_at s.ring t; payload = x } in
      let same : (set_slot s.ring t v).slots (bit_and t s.ring.mask) ≡ v =
        put-same (bit_and t s.ring.mask) v s.ring.slots in
      (
        write-Kept p t x s k low high mine before v (written x t) (omega arith)
            (k.bound (bit_and t s.ring.mask)) (inl (refl, refl))
            (low, high, mine, ap (λ w. w.seq) same ∙ before, ap (λ w. w.payload) same)
            (λ y u. rw e (λ h. sym h.1)),
        omega arith,
        refl,
      )
  try_enqueue-Good p (written x t) s k early e (low, high, mine, before, holds) =
      let plain : (t + 1) % u64_mod ≡ t + 1 = omega arith in
      let v : Slot A = record { seq = t + 1; payload = payload_at s.ring t } in
      rw plain (
        write-Kept p t x s k low high mine before v (returned true) (omega arith)
            (omega (arith, k.behind)) (inr (refl, holds)) tt (λ y u. rw e (λ h. sym h.1)),
        omega arith,
        refl,
      )

  pub fail_weakly-Good :
      (p : ℕ) (q : Producer A) (s : State A)
      → Kept s
      → s.producers p ≡ q
      → Good s (fail_weakly p q s)
  unfolding fail_weakly
  fail_weakly-Good p (compared x t n) s k e = elim (Bool-cases (eq_ℤ (diff n t) (pos 0))) [
    | inl y ↦
        rw y (quiet-Good p (compared x t n) (loaded x s.ring.enq_pos) s k e tt tt (omega arith))
    | inr no_ ↦ rw no_ tt
  ]
  fail_weakly-Good p idle s k e = tt
  fail_weakly-Good p (returned b) s k e = tt
  fail_weakly-Good p (called x) s k e = tt
  fail_weakly-Good p (checked x) s k e = tt
  fail_weakly-Good p (loaded x t) s k e = tt
  fail_weakly-Good p (claimed x t) s k e = tt
  fail_weakly-Good p (written x t) s k e = tt
