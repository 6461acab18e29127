-- ===== src/Queue/Tests.antt =====
-- Runs of the ring, and the theorems at concrete inputs.
use nim_brokers.Prelude.{
  ℕ, ◌+◌, ◌-◌, ◌≡◌, refl, inl, inr, true, false, Bool-cases, ◌==◌, List, [], ◌∷◌, ◌++◌, none, some,
  replicate, arith,
}
use nim_brokers.Queue.Ring
use nim_brokers.Queue.Ring.{
  VyukovMpscRing, fresh_ring, new_vyukov_mpsc_ring, checked, poll, loaded, compared, returned,
  enqueue, produce, consume, shut, start, slot_of, close, try_claim, on_difference, write_payload,
  publish, try_enqueue, call_enqueue, release_slot, try_dequeue,
}
use nim_brokers.Queue.Ring.Invariant.{items, IsQuiet}
use nim_brokers.Queue.Ring.Fifo.{IsFifo, run_moves-IsFifo, refused_only_full}
use nim_brokers.Queue.Ring.Drain.{dequeues, IsOutside, dequeues_all}
use nim_brokers.Queue.Ring.Single.{whole_call, single_loses}
use nim_brokers.Queue.Ring.Retired.{poll_cell, mps_closed, WithoutConsumer, retired_loses}

abbrev ring : VyukovMpscRing ℕ
ring = fresh_ring 0 2

two_slots : new_vyukov_mpsc_ring 0 2 ≡ some ring
unfolding new_vyukov_mpsc_ring
two_slots = refl

no_three_slots : new_vyukov_mpsc_ring {A = ℕ} 0 3 ≡ none
unfolding new_vyukov_mpsc_ring
no_three_slots = refl

-- Two producers whose accesses alternate, and a consumer that finds the first item.
abbrev alternating : List (Ring.Move ℕ)
alternating =
    enqueue 0 7
    ∷ enqueue 1 8
    ∷ produce 0
    ∷ produce 1
    ∷ produce 0
    ∷ produce 1
    ∷ produce 0
    ∷ produce 1
    ∷ produce 1
    ∷ produce 0
    ∷ produce 0
    ∷ produce 0
    ∷ produce 0
    ∷ produce 1
    ∷ produce 1
    ∷ consume
    ∷ consume
    ∷ consume
    ∷ []

alternated :
    (s : Ring.State ℕ) × (Ring.run_moves alternating (start ring) ≡ some s)
    × (items s.sent ≡ 8 ∷ 7 ∷ [])
    × (s.received ≡ 8 ∷ [])
unfolding Ring.run_moves Ring.move start try_enqueue call_enqueue try_dequeue Ring.poll release_slot
    on_difference try_claim write_payload publish slot_of
alternated = (_, refl, refl, refl)

run_moves-IsFifo_example : IsFifo alternated.0
run_moves-IsFifo_example =
    run_moves-IsFifo 0 2 ring alternating alternated.0 (omega arith) (omega arith) two_slots
      alternated.1

-- A third producer looks at the slot of its position in a full ring.
abbrev filled_up : List (Ring.Move ℕ)
filled_up = whole_call 0 7 ++ whole_call 1 8 ++ enqueue 2 9 ∷ produce 2 ∷ produce 2 ∷ []

full :
    (s u t : Ring.State ℕ) × (Ring.run_moves filled_up (start ring) ≡ some s)
    × (s.producers 2 ≡ loaded 9 2)
    × (Ring.move (produce 2) s ≡ some u)
    × (u.producers 2 ≡ compared 9 2 (slot_of s.ring 2).seq)
    × (Ring.move (produce 2) u ≡ some t)
    × (t.producers 2 ≡ returned false)
unfolding Ring.run_moves Ring.move start try_enqueue call_enqueue on_difference try_claim
    write_payload publish slot_of
full = (_, _, _, refl, refl, refl, refl, refl, refl)

refused_only_full_example : full.0.ring.enq_pos ≡ full.0.ring.deq_pos + full.0.ring.capacity
refused_only_full_example =
    refused_only_full 0 2 ring filled_up full.0 full.1 full.2 2 9 2 (omega arith) (omega arith)
      two_slots full.3 full.4 full.6 full.7 full.8

one_sent :
    (s : Ring.State ℕ) × (Ring.run_moves (whole_call 0 7) (start ring) ≡ some s)
    × ((p : ℕ) → IsQuiet (s.producers p))
    × IsOutside s.consumer
unfolding Ring.run_moves Ring.move start try_enqueue call_enqueue on_difference try_claim
    write_payload publish slot_of
one_sent = (_, refl, λ p. elim (Bool-cases (p == 0)) [ inl y ↦ rw y tt | inr n ↦ rw n tt ], tt)

dequeues_all_example :
    (t : Ring.State ℕ) × (Ring.run_moves
        (dequeues (one_sent.0.ring.enq_pos - one_sent.0.ring.deq_pos))
        one_sent.0
      ≡ some t)
    × (t.received ≡ items one_sent.0.sent)
    × (t.sent ≡ one_sent.0.sent)
dequeues_all_example =
    dequeues_all 0 2 ring (whole_call 0 7) one_sent.0 (omega arith) (omega arith) two_slots
      one_sent.1 one_sent.2 one_sent.3

single_loses_example :
    (r : VyukovMpscRing ℕ) × (s : Ring.State ℕ) × (new_vyukov_mpsc_ring 0 1 ≡ some r)
    × (Ring.run_moves ((whole_call 0 7 ++ whole_call 1 8) ++ replicate 3 consume) (start r)
        ≡ some s)
    × (s.producers 0 ≡ returned true)
    × (s.producers 1 ≡ returned true)
    × (s.received ≡ [])
single_loses_example = single_loses 0 7 8 3

-- The consumer finds the ring closed and empty behind a producer's check of the flag.
abbrev shut_behind : List (Ring.Move ℕ)
shut_behind = enqueue 0 7 ∷ produce 0 ∷ shut ∷ consume ∷ []

was_shut_behind :
    (s : Ring.State ℕ) × (Ring.run_moves shut_behind (start ring) ≡ some s)
    × (poll_cell s.consumer s.ring ≡ mps_closed)
    × (s.producers 0 ≡ checked 7)
    × (s.ring.enq_pos ≡ 0)
    × (s.ring.deq_pos + s.ring.capacity ≡ 2)
unfolding poll_cell Ring.run_moves Ring.move start try_enqueue call_enqueue try_dequeue poll close
    slot_of
was_shut_behind = (_, refl, refl, refl, refl, refl)

retired_loses_example :
    (t : Ring.State ℕ) × (Ring.run_moves (replicate 5 (produce 0)) was_shut_behind.0 ≡ some t)
    × (t.producers 0 ≡ returned true)
    × (t.sent ≡ was_shut_behind.0.sent ++ (0, 7) ∷ [])
    × ((later : List (Ring.Move ℕ)) (u : Ring.State ℕ)
        → WithoutConsumer later
        → Ring.run_moves later t ≡ some u
        → u.received ≡ was_shut_behind.0.received)
retired_loses_example =
    retired_loses 0 2 ring shut_behind was_shut_behind.0 0 7 (omega arith) (omega arith) two_slots
      was_shut_behind.1 was_shut_behind.2 was_shut_behind.3
      (omega (arith, was_shut_behind.4, was_shut_behind.5))

-- After `close` a call returns false at its first access.
closed_refuses :
    (s : Ring.State ℕ) × (Ring.run_moves (shut ∷ enqueue 0 7 ∷ produce 0 ∷ []) (start ring)
      ≡ some s)
    × (s.producers 0 ≡ returned false)
unfolding Ring.run_moves Ring.move start try_enqueue call_enqueue close
closed_refuses = (_, refl, refl)
