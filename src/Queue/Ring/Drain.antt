-- ===== src/Queue/Ring/Drain.antt =====
-- The consumer takes out all that has been published.
use nim_brokers.Prelude.{
  ℕ, zero, suc, ◌+◌, ◌-◌, ◌%◌, ◌≤◌, ◌<◌, ◌≡◌, refl, ap, ◌∙◌, inl, inr, ==_iff, List, [], ◌∷◌, some,
  and_then, length, get_elem?-some, take, length-map, arith,
}
use nim_brokers.Queue.Ring.{
  VyukovMpscRing, u64_mod, new_vyukov_mpsc_ring, Consumer, waiting, missed, matched, read, State,
  Move, consume, slot_of, poll, release_slot, try_dequeue, move, run_moves, start,
}
use nim_brokers.Queue.Ring.Invariant.{
  half_range, diff-zero, items, IsQuiet, Kept, seq_at, Holds-IsQuiet,
}
use nim_brokers.Queue.Ring.Fifo.{run_moves-Kept}
use nim_brokers.Queue.Ring.Dequeue.{try_dequeue-Good}
use nim_brokers.Queue.Ring.Consume.{consumer-Kept, front_item}

-- So many calls of `tryDequeue`, each of which finds an item.
abbrev pub dequeues : {A : Type 0} → ℕ → List (Move A)
dequeues zero = []
dequeues (suc n) = consume ∷ consume ∷ consume ∷ dequeues n

module _ {A : Type 0} where
  -- The consumer is outside a call.
  abbrev pub IsOutside : Consumer A → Type 0
  IsOutside waiting = Unit
  IsOutside missed = Unit
  IsOutside matched = ⊥
  IsOutside (read x) = ⊥

  -- With no producer between its claim and its publication, the front is published.
  quiet_front :
      (s : State A)
      → Kept s
      → ((p : ℕ) → IsQuiet (s.producers p))
      → s.ring.deq_pos < s.ring.enq_pos
      → seq_at s.ring s.ring.deq_pos ≡ s.ring.deq_pos + 1
  quiet_front s k quiet h =
      let ((p, x), e) = get_elem?-some s.sent s.ring.deq_pos (omega (arith, k.count)) in
      elim (k.held s.ring.deq_pos p x (omega arith) e) [
        | inl holds ↦ absurd (Holds-IsQuiet x s.ring.deq_pos (s.producers p) (quiet p) holds)
        | inr published ↦ published.0
      ]

  module _ (s : State A) (k : Kept s) (quiet : (p : ℕ) → IsQuiet (s.producers p))
      (more : s.ring.deq_pos < s.ring.enq_pos) (early : s.ring.enq_pos + 1 < half_range) where
    found : poll s ≡ record s { consumer = matched }
    unfolding poll slot_of
    found =
        let plain : (s.ring.deq_pos + 1) % u64_mod ≡ s.ring.deq_pos + 1 = omega arith in
        let ready = quiet_front s k quiet more in
        let test =
          diff-zero (s.ring.deq_pos + 1) (s.ring.deq_pos + 1) (omega arith) (omega arith) in
        rw (plain, ready, test, (==_iff (s.ring.deq_pos + 1) _).1 refl)

    first :
        (c : Consumer A)
        → s.consumer ≡ c
        → IsOutside c
        → move consume s ≡ some (record s { consumer = matched })
    unfolding move try_dequeue
    first waiting e o = rw e (ap some found)
    first missed e o = rw e (ap some found)
    first matched e o = absurd o
    first (read x) e o = absurd o

    -- The state after a call of `tryDequeue`.
    taken : State A
    unfolding slot_of
    taken = release_slot (slot_of s.ring s.ring.deq_pos).payload (record s { consumer = matched })

    one_call :
        (ms : List (Move A))
        → IsOutside s.consumer
        → run_moves (consume ∷ consume ∷ consume ∷ ms) s ≡ run_moves ms taken
    unfolding run_moves move try_dequeue taken release_slot slot_of
    one_call ms o =
        ap (λ a. and_then a (run_moves (consume ∷ consume ∷ ms))) (first s.consumer refl o)

    taken-deq_pos : taken.ring.deq_pos ≡ s.ring.deq_pos + 1
    unfolding taken release_slot slot_of
    taken-deq_pos = omega arith

    taken-Kept : s.ring.enq_pos + s.ring.capacity + 1 < half_range → Kept taken
    unfolding taken try_dequeue release_slot slot_of
    taken-Kept early' =
        let ready = quiet_front s k quiet more in
        let item : A = (slot_of s.ring s.ring.deq_pos).payload in
        (try_dequeue-Good (read item) (record s { consumer = read item })
          (consumer-Kept (read item) s k (ready, front_item s k ready)) early' refl).0

    taken-same :
        (taken.producers ≡ s.producers)
        × (taken.sent ≡ s.sent)
        × (taken.consumer ≡ waiting)
        × (taken.ring.enq_pos ≡ s.ring.enq_pos)
        × (taken.ring.capacity ≡ s.ring.capacity)
    unfolding taken release_slot slot_of
    taken-same = (refl, refl, refl, refl, refl)

  take-length : (xs : List A) → take (length xs) xs ≡ xs
  take-length [] = refl
  take-length (x ∷ xs) = ap (λ l. x ∷ l) (take-length xs)

  drain_all :
      (n : ℕ) (s : State A)
      → Kept s
      → ((p : ℕ) → IsQuiet (s.producers p))
      → IsOutside s.consumer
      → s.ring.enq_pos ≡ s.ring.deq_pos + n
      → s.ring.enq_pos + s.ring.capacity + 4 < half_range
      → (t : State A) × (run_moves (dequeues n) s ≡ some t)
        × (t.received ≡ items s.sent)
        × (t.sent ≡ s.sent)
  unfolding run_moves
  drain_all zero s k quiet o e early =
      let at_end : s.ring.deq_pos ≡ length (items s.sent) =
        omega (arith, k.count, length-map (λ (c : ℕ × A). c.1) s.sent) in
      (s, refl, k.got ∙ ap (λ n. take n (items s.sent)) at_end ∙ take-length (items s.sent), refl)
  drain_all (suc n) s k quiet o e early =
      let more : s.ring.deq_pos < s.ring.enq_pos = omega arith in
      let small : s.ring.enq_pos + 1 < half_range = omega arith in
      let (same_p, same_sent, same_c, same_enq, same_cap) = taken-same s k quiet more small in
      let next = taken s k quiet more small in
      let (t, run, all, sent) =
        drain_all n next (taken-Kept s k quiet more small (omega arith)) (λ p. rw same_p (quiet p))
          (rw same_c tt) (omega (arith, taken-deq_pos s k quiet more small, same_enq))
          (omega (arith, same_enq, same_cap)) in
      (
        t,
        one_call s k quiet more small (dequeues n) o ∙ run,
        all ∙ ap items same_sent,
        sent ∙ same_sent,
      )

  -- When, after a run of fewer than 2^63 moves with the capacity and four more on a ring of at least
  -- two slots, no producer is between its claim and its publication and the consumer is between two
  -- calls, then as many further calls of the consumer as there are claimed items not yet received take
  -- out each of these, in order.
  pub dequeues_all :
      (blank : A) (c : ℕ) (r : VyukovMpscRing A) (moves : List (Move A)) (s : State A)
      → 2 ≤ c
      → length moves + c + 4 < half_range
      → new_vyukov_mpsc_ring blank c ≡ some r
      → run_moves moves (start r) ≡ some s
      → ((p : ℕ) → IsQuiet (s.producers p))
      → IsOutside s.consumer
      → (t : State A) × (run_moves (dequeues (s.ring.enq_pos - s.ring.deq_pos)) s ≡ some t)
        × (t.received ≡ items s.sent)
        × (t.sent ≡ s.sent)
  dequeues_all blank c r moves s two h made e quiet o =
      let (k, far, cap) = run_moves-Kept blank c r moves s two (omega arith) made e in
      drain_all (s.ring.enq_pos - s.ring.deq_pos) s k quiet o (omega (arith, k.ahead)) (omega arith)
