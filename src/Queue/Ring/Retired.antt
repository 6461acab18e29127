-- ===== src/Queue/Ring/Retired.antt =====
-- pollCell of brokers/internal/mt_transport.nim: when the consumer of a ring retires.
use nim_brokers.Queue.Cells.{put-same}
use nim_brokers.Prelude.{
  ℕ, ◌+◌, ◌%◌, ◌≤◌, ◌<◌, ◌≡◌, refl, ap, ◌∙◌, true, inl, inr, Bool-cases, ◌==◌, ==_iff, List, [],
  ◌∷◌, ◌++◌, Option, none, some, and_then, pos, eq_ℤ, ltb_ℤ, length, replicate, if◌then◌else◌,
  arith,
}
use nim_brokers.Queue.Ring.{
  VyukovMpscRing, new_vyukov_mpsc_ring, u64_mod, diff, Producer, idle, returned, called, checked,
  loaded, compared, claimed, written, Consumer, waiting, missed, matched, read, State, Move,
  enqueue, produce, spurious, consume, shut, slot_of, stand, close, try_claim, on_difference,
  write_payload, publish, try_enqueue, call_enqueue, fail_weakly, move, run_moves, start,
}
use nim_brokers.Queue.Ring.Invariant.{half_range, diff-zero}
use nim_brokers.Queue.Ring.Fifo.{run_moves-Kept}

-- MtPollStep, but for the decoding of what is dequeued.
pub data MtPollStep : Type 0 where
  mps_empty : MtPollStep
  mps_closed : MtPollStep
  mps_value : MtPollStep

-- What a call of `tryDequeue` that has ended in this way leads to.
unfoldable pub poll_cell : {A : Type 0} → Consumer A → VyukovMpscRing A → MtPollStep
poll_cell missed r = if r.closed then mps_closed else mps_empty
poll_cell waiting r = mps_value
poll_cell matched r = mps_value
poll_cell (read x) r = mps_value

module _ {A : Type 0} where
  -- Not by the consumer.
  abbrev pub IsByOthers : Move A → Type 0
  IsByOthers consume = ⊥
  IsByOthers _ = Unit

  -- The consumer has retired.
  abbrev pub WithoutConsumer : List (Move A) → Type 0
  WithoutConsumer [] = Unit
  WithoutConsumer (m ∷ ms) = IsByOthers m × WithoutConsumer ms

  abbrev Receives : List A → Option (State A) → Type 0
  Receives l none = Unit
  Receives l (some t) = t.received ≡ l

  call-Receives :
      (p : ℕ) (x : A) (q : Producer A) (s : State A) → Receives s.received (call_enqueue p x q s)
  unfolding call_enqueue
  call-Receives p x idle s = refl
  call-Receives p x (returned b) s = refl
  call-Receives p x (called y) s = tt
  call-Receives p x (checked y) s = tt
  call-Receives p x (loaded y t) s = tt
  call-Receives p x (compared y t v) s = tt
  call-Receives p x (claimed y t) s = tt
  call-Receives p x (written y t) s = tt

  difference-Receives :
      (p : ℕ) (x : A) (t v : ℕ) (s : State A) → (on_difference p x t v s).received ≡ s.received
  unfolding on_difference try_claim
  difference-Receives p x t v s = elim (Bool-cases (eq_ℤ (diff v t) (pos 0))) [
    | inl y ↦ elim (Bool-cases (s.ring.enq_pos == t)) [
      | inl z ↦ rw (y, z) refl
      | inr z ↦ rw (y, z) refl
    ]
    | inr n ↦ elim (Bool-cases (ltb_ℤ (diff v t) (pos 0))) [
      | inl z ↦ rw (n, z) refl
      | inr z ↦ rw (n, z) refl
    ]
  ]

  enqueue-Receives :
      (p : ℕ) (q : Producer A) (s : State A) → Receives s.received (try_enqueue p q s)
  unfolding try_enqueue write_payload publish
  enqueue-Receives p idle s = tt
  enqueue-Receives p (returned b) s = tt
  enqueue-Receives p (called x) s = refl
  enqueue-Receives p (checked x) s = refl
  enqueue-Receives p (loaded x t) s = refl
  enqueue-Receives p (compared x t v) s = difference-Receives p x t v s
  enqueue-Receives p (claimed x t) s = refl
  enqueue-Receives p (written x t) s = refl

  weakly-Receives : (p : ℕ) (q : Producer A) (s : State A) → Receives s.received (fail_weakly p q s)
  unfolding fail_weakly
  weakly-Receives p (compared x t v) s = elim (Bool-cases (eq_ℤ (diff v t) (pos 0))) [
    | inl y ↦ rw y refl
    | inr n ↦ rw n tt
  ]
  weakly-Receives p idle s = tt
  weakly-Receives p (returned b) s = tt
  weakly-Receives p (called x) s = tt
  weakly-Receives p (checked x) s = tt
  weakly-Receives p (loaded x t) s = tt
  weakly-Receives p (claimed x t) s = tt
  weakly-Receives p (written x t) s = tt

  move-Receives : (m : Move A) (s : State A) → IsByOthers m → Receives s.received (move m s)
  unfolding move close
  move-Receives (enqueue p x) s o = call-Receives p x (s.producers p) s
  move-Receives (produce p) s o = enqueue-Receives p (s.producers p) s
  move-Receives (spurious p) s o = weakly-Receives p (s.producers p) s
  move-Receives consume s o = absurd o
  move-Receives shut s o = refl

  next_received :
      (l : List A) (t : State A) (o : Option (State A)) (f : State A → Option (State A))
      → Receives l o
      → and_then o f ≡ some t
      → ((u : State A) → f u ≡ some t → t.received ≡ u.received)
      → t.received ≡ l
  next_received l t none f g e next = cc
  next_received l t (some u) f g e next = next u e ∙ g

  -- Without its consumer a ring gives nothing out.
  run_moves-received :
      (ms : List (Move A)) (s t : State A)
      → WithoutConsumer ms
      → run_moves ms s ≡ some t
      → t.received ≡ s.received
  unfolding run_moves
  run_moves-received [] s t o e = let same : s ≡ t = cc in rw same refl
  run_moves-received (m ∷ ms) s t o e =
      next_received s.received t (move m s) (run_moves ms) (move-Receives m s o.0) e
        (λ u e'. run_moves-received ms u t o.1 e')

  goes_on :
      (p : ℕ) (ms : List (Move A)) (s u t : State A)
      → move (produce p) s ≡ some u
      → run_moves ms u ≡ some t
      → run_moves (produce p ∷ ms) s ≡ some t
  unfolding run_moves
  goes_on p ms s u t e f = rw e f

  access :
      (p : ℕ) (q : Producer A) (s : State A)
      → move (produce p) (stand p q s) ≡ try_enqueue p q (stand p q s)
  unfolding move
  access p q s = rw (put-same p q s.producers) refl

  claims_next :
      (p : ℕ) (x : A) (s : State A)
      → s.ring.enq_pos < half_range
      → (slot_of s.ring s.ring.enq_pos).seq ≡ s.ring.enq_pos
      → on_difference p x s.ring.enq_pos (slot_of s.ring s.ring.enq_pos).seq s
        ≡ stand p (claimed x s.ring.enq_pos) (record s {
          ring = record s.ring { enq_pos = (s.ring.enq_pos + 1) % u64_mod };
          sent = s.sent ++ (p, x) ∷ [];
        })
  unfolding on_difference try_claim
  claims_next p x s small free =
      let same = (==_iff s.ring.enq_pos s.ring.enq_pos).1 refl in
      rw (free, diff-zero s.ring.enq_pos s.ring.enq_pos small small, same) refl

  -- On a ring of at least two slots and a run of fewer than 2^63 moves with the capacity and one more,
  -- let the consumer have found the ring closed and empty, upon which it retires, while a producer
  -- is still behind its check of the flag and the ring is not full. Then the producer alone ends its
  -- call with the result true, its item is among those sent, and whatever moves follow without the
  -- consumer, nothing is received any more.
  pub retired_loses :
      (blank : A) (c : ℕ) (r : VyukovMpscRing A) (moves : List (Move A)) (s : State A) (p : ℕ)
      (x : A)
      → 2 ≤ c
      → length moves + c + 1 < half_range
      → new_vyukov_mpsc_ring blank c ≡ some r
      → run_moves moves (start r) ≡ some s
      → poll_cell s.consumer s.ring ≡ mps_closed
      → s.producers p ≡ checked x
      → s.ring.enq_pos < s.ring.deq_pos + s.ring.capacity
      → (t : State A) × (run_moves (replicate 5 (produce p)) s ≡ some t)
        × (t.producers p ≡ returned true)
        × (t.sent ≡ s.sent ++ (p, x) ∷ [])
        × ((later : List (Move A)) (u : State A)
            → WithoutConsumer later
            → run_moves later t ≡ some u
            → u.received ≡ s.received)
  unfolding run_moves move try_enqueue write_payload publish slot_of
  retired_loses blank c r moves s p x two h made e retired at room =
      let (k, far, cap) = run_moves-Kept blank c r moves s two h made e in
      let n = s.ring.enq_pos in
      let free : (slot_of s.ring n).seq ≡ n = k.free n (omega arith) room in
      let s1 = stand p (loaded x n) s in
      let s2 = stand p (compared x n (slot_of s.ring n).seq) s1 in
      let moved : State A = record s2 {
        ring = record s2.ring { enq_pos = (n + 1) % u64_mod };
        sent = s2.sent ++ (p, x) ∷ [];
      } in
      let s3 = stand p (claimed x n) moved in
      let s4 = stand p (written x n) (write_payload x n s3) in
      let s5 = stand p (returned true) (publish n s4) in
      let last : List (Move A) = produce p ∷ [] in
      let claim = claims_next p x s2 (omega arith) free in
      (
        s5,
        goes_on p (produce p ∷ produce p ∷ produce p ∷ last) s s1 s5 (rw at refl) (
            goes_on p (produce p ∷ produce p ∷ last) s1 s2 s5 (access p (loaded x n) s) (
              goes_on p (produce p ∷ last) s2 s3 s5
                (access p (compared x n (slot_of s.ring n).seq) s1 ∙ ap some claim)
                (goes_on p last s3 s4 s5 (access p (claimed x n) moved)
                  (goes_on p [] s4 s5 s5 (access p (written x n) (write_payload x n s3)) refl)))),
        put-same p _ s4.producers,
        refl,
        λ later u o e'. run_moves-received later s5 u o e',
      )
