-- ===== src/Queue/Ring/Dequeue.antt =====
-- The accesses of the consumer keep the invariant, and with them every move.
use Prim.Native.Nat.{bit_and}
use nim_brokers.Prelude.{◌+◌, ◌%◌, ◌≡◌, refl, inl, inr, Bool-cases, ◌==◌, ==_iff, some, arith}
use nim_brokers.Queue.Ring.{
  u64_mod, Consumer, waiting, missed, matched, read, State, Move, enqueue, produce, spurious,
  consume, shut, slot_of, close, poll, release_slot, try_dequeue, move,
}
use nim_brokers.Queue.Ring.Invariant.{diff-zero, Kept, seq_at}
use nim_brokers.Queue.Ring.Enqueue.{
  IsEarly, Good, call_enqueue-Good, try_enqueue-Good, fail_weakly-Good,
}
use nim_brokers.Queue.Ring.Consume.{consumer-Kept, front_item, release-Kept}

module _ {A : Type 0} where
  poll-Good : (s : State A) → Kept s → IsEarly s → Good s (some (poll s))
  unfolding poll slot_of
  poll-Good s k early =
      let plain : (s.ring.deq_pos + 1) % u64_mod ≡ s.ring.deq_pos + 1 = omega (arith, k.ahead) in
      let bound = k.bound (bit_and s.ring.deq_pos s.ring.mask) in
      let test =
        diff-zero (seq_at s.ring s.ring.deq_pos) (s.ring.deq_pos + 1) (omega (arith, k.ahead))
          (omega (arith, k.ahead)) in
      elim (Bool-cases (seq_at s.ring s.ring.deq_pos == s.ring.deq_pos + 1)) [
        | inl y ↦
            rw (plain, test, y) (consumer-Kept matched s k ((==_iff _ _).0 y), omega arith, refl)
        | inr n ↦ rw (plain, test, n) (consumer-Kept missed s k tt, omega arith, refl)
      ]

  pub try_dequeue-Good :
      (c : Consumer A) (s : State A)
      → Kept s
      → IsEarly s
      → s.consumer ≡ c
      → Good s (some (try_dequeue c s))
  unfolding try_dequeue release_slot slot_of
  try_dequeue-Good waiting s k early e = poll-Good s k early
  try_dequeue-Good missed s k early e = poll-Good s k early
  try_dequeue-Good matched s k early e =
      let ready : seq_at s.ring s.ring.deq_pos ≡ s.ring.deq_pos + 1 = rw e at k.consuming in
      (consumer-Kept (read _) s k (ready, front_item s k ready), omega arith, refl)
  try_dequeue-Good (read x) s k early e =
      let (ready, front) = rw e at k.consuming in
      let plain : (s.ring.deq_pos + 1) % u64_mod ≡ s.ring.deq_pos + 1 = omega (arith, k.ahead) in
      let next_seq : (s.ring.deq_pos + s.ring.capacity) % u64_mod
          ≡ s.ring.deq_pos + s.ring.capacity =
        omega (arith, k.ahead) in
      rw (plain, next_seq) (release-Kept s k ready x front, omega arith, refl)

  close-Kept : (s : State A) → Kept s → Kept (close s)
  unfolding close
  close-Kept s k = record {
    index = k.index;
    two = k.two;
    ahead = k.ahead;
    behind = k.behind;
    count = k.count;
    got = k.got;
    bound = k.bound;
    passed = k.passed;
    free = k.free;
    held = k.held;
    producing = k.producing;
    consuming = k.consuming;
  }

  pub move-Good : (m : Move A) (s : State A) → Kept s → IsEarly s → Good s (move m s)
  unfolding move close
  move-Good (enqueue p x) s k early = call_enqueue-Good p x (s.producers p) s k refl
  move-Good (produce p) s k early =
      try_enqueue-Good p (s.producers p) s k early refl (k.producing p)
  move-Good (spurious p) s k early = fail_weakly-Good p (s.producers p) s k refl
  move-Good consume s k early = try_dequeue-Good s.consumer s k early refl
  move-Good shut s k early = (close-Kept s k, omega arith, refl)
