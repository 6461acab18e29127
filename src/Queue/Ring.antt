-- ===== src/Queue/Ring.antt =====
-- VyukovMpscRing of brokers/internal/mt_queue.nim: a bounded queue of many producers and one
-- consumer. A run is a list of moves, each of which makes at most one access to the memory that the
-- threads share; a producer stands where its last access has left it.
pub mod Index
pub mod Invariant
pub mod Claim
pub mod Publish
pub mod Consume
pub mod Enqueue
pub mod Dequeue
pub mod Fifo
pub mod Drain
pub mod Single
pub mod Retired
use Prim.Native.Nat.{bit_and}
use nim_brokers.Queue.Cells.{put}
use nim_brokers.Prelude.{
  ℕ, ◌+◌, ◌-◌, ◌%◌, ℤ, pos, negsuc, pos_part, neg_part, sub_ℕ, eq_ℤ, ltb_ℤ, Bool, true, false, ◌&&◌,
  ltb, ◌==◌, List, [], ◌∷◌, ◌++◌, Option, none, some, and_then, if◌then◌else◌,
}

pub record Slot (A : Type 0) : Type 0 where
  pub seq : ℕ
  pub payload : A

pub record VyukovMpscRing (A : Type 0) : Type 0 where
  pub capacity : ℕ
  pub mask : ℕ
  pub closed : Bool
  pub enq_pos : ℕ
  pub deq_pos : ℕ
  pub slots : ℕ → Slot A

-- The uint64 numbers, and the difference of two of them after a cast to int64.
abbrev pub u64_mod : ℕ
u64_mod = 0x10000000000000000

abbrev pub to_int64 : ℕ → ℤ
to_int64 v = if ltb v 0x8000000000000000 then pos v else negsuc (u64_mod - 1 - v)

abbrev pub diff : ℕ → ℕ → ℤ
diff a b =
    sub_ℕ (pos_part (to_int64 a) + neg_part (to_int64 b))
      (neg_part (to_int64 a) + pos_part (to_int64 b))

-- The memory is zeroed, which makes `blank` of a payload.
abbrev pub fresh_ring : {A : Type 0} → A → ℕ → VyukovMpscRing A
fresh_ring blank capacity = record {
  capacity = capacity;
  mask = capacity - 1;
  closed = false;
  enq_pos = 0;
  deq_pos = 0;
  slots = λ i. record { seq = if ltb i capacity then i else 0; payload = blank };
}

-- None where the assertion fails.
unfoldable pub new_vyukov_mpsc_ring : {A : Type 0} → A → ℕ → Option (VyukovMpscRing A)
new_vyukov_mpsc_ring blank capacity =
    if ltb 0 capacity && bit_and capacity (capacity - 1) == 0
    then some (fresh_ring blank capacity)
    else none

-- Where a producer stands: outside a call, or behind its last one with the result; in `tryEnqueue`
-- at its start, behind the check of `closed`, behind the load of a position, behind the load of the
-- slot's number, behind the claim of the position, behind the write of the payload.
pub data Producer (A : Type 0) : Type 0 where
  idle : Producer A
  returned : Bool → Producer A
  called : A → Producer A
  checked : A → Producer A
  loaded : A → ℕ → Producer A
  compared : A → ℕ → ℕ → Producer A
  claimed : A → ℕ → Producer A
  written : A → ℕ → Producer A

-- Where the consumer stands: outside a call, or behind its last one with the result; in `tryDequeue`
-- behind the load of the slot's number, if that was the one it waits for, or behind the read.
pub data Consumer (A : Type 0) : Type 0 where
  waiting : Consumer A
  missed : Consumer A
  matched : Consumer A
  read : A → Consumer A

-- `sent` lists the claims in their order, each with its producer, and `received` what the consumer
-- has taken out.
pub record State (A : Type 0) : Type 0 where
  pub ring : VyukovMpscRing A
  pub producers : ℕ → Producer A
  pub consumer : Consumer A
  pub sent : List (ℕ × A)
  pub received : List A

-- `enqueue p x` is the call by producer `p`, and `produce p` its next access; `spurious p` is a
-- weak exchange that fails without a cause. `consume` is the consumer's next access.
pub data Move (A : Type 0) : Type 0 where
  enqueue : ℕ → A → Move A
  produce : ℕ → Move A
  spurious : ℕ → Move A
  consume : Move A
  shut : Move A

module _ {A : Type 0} where
  unfoldable pub slot_of : VyukovMpscRing A → ℕ → Slot A
  slot_of r position = r.slots (bit_and position r.mask)

  abbrev pub set_slot : VyukovMpscRing A → ℕ → Slot A → VyukovMpscRing A
  set_slot r position v = record r { slots = put (bit_and position r.mask) v r.slots }

  abbrev pub stand : ℕ → Producer A → State A → State A
  stand p at s = record s { producers = put p at s.producers }

  unfoldable pub close : State A → State A
  close s = record s { ring = record s.ring { closed = true } }

  -- The exchange of the position: the slot is claimed, or the loop goes on with the position found.
  unfoldable pub try_claim : ℕ → A → ℕ → State A → State A
  try_claim p x position s =
      if s.ring.enq_pos == position
      then stand p (claimed x position) (record s {
        ring = record s.ring { enq_pos = (position + 1) % u64_mod };
        sent = s.sent ++ (p, x) ∷ [];
      })
      else stand p (loaded x s.ring.enq_pos) s

  -- The branch on the difference, with the access that it makes: the exchange, none, or the load.
  unfoldable pub on_difference : ℕ → A → ℕ → ℕ → State A → State A
  unfolding try_claim
  on_difference p x position seq_v s =
      if eq_ℤ (diff seq_v position) (pos 0)
      then try_claim p x position s
      else if ltb_ℤ (diff seq_v position) (pos 0)
      then stand p (returned false) s
      else stand p (loaded x s.ring.enq_pos) s

  unfoldable pub write_payload : A → ℕ → State A → State A
  unfolding slot_of
  write_payload x position s = record s {
    ring = set_slot s.ring position (record { seq = (slot_of s.ring position).seq; payload = x });
  }

  unfoldable pub publish : ℕ → State A → State A
  unfolding slot_of
  publish position s = record s {
    ring =
        set_slot s.ring position
          (record { seq = (position + 1) % u64_mod; payload = (slot_of s.ring position).payload });
  }

  -- The next access of a producer in `tryEnqueue`; none outside the call.
  unfoldable pub try_enqueue : ℕ → Producer A → State A → Option (State A)
  unfolding on_difference write_payload publish slot_of
  try_enqueue p idle s = none
  try_enqueue p (returned b) s = none
  try_enqueue p (called x) s =
      some (stand p (if s.ring.closed then returned false else checked x) s)
  try_enqueue p (checked x) s = some (stand p (loaded x s.ring.enq_pos) s)
  try_enqueue p (loaded x position) s =
      some (stand p (compared x position (slot_of s.ring position).seq) s)
  try_enqueue p (compared x position seq_v) s = some (on_difference p x position seq_v s)
  try_enqueue p (claimed x position) s =
      some (stand p (written x position) (write_payload x position s))
  try_enqueue p (written x position) s = some (stand p (returned true) (publish position s))

  unfoldable pub call_enqueue : ℕ → A → Producer A → State A → Option (State A)
  call_enqueue p x idle s = some (stand p (called x) s)
  call_enqueue p x (returned b) s = some (stand p (called x) s)
  call_enqueue p x _ s = none

  -- The weak exchange fails although the position is as expected.
  unfoldable pub fail_weakly : ℕ → Producer A → State A → Option (State A)
  fail_weakly p (compared x position seq_v) s =
      if eq_ℤ (diff seq_v position) (pos 0)
      then some (stand p (loaded x s.ring.enq_pos) s)
      else none
  fail_weakly p _ s = none

  -- `deqPos` is the consumer's own, and moves on with the release of the slot.
  unfoldable pub release_slot : A → State A → State A
  release_slot x s =
      let r = s.ring in
      record s {
        ring =
            record (set_slot r r.deq_pos (record {
              seq = (r.deq_pos + r.capacity) % u64_mod;
              payload = (slot_of r r.deq_pos).payload;
            })) { deq_pos = (r.deq_pos + 1) % u64_mod };
        consumer = waiting;
        received = s.received ++ x ∷ [];
      }

  unfoldable pub poll : State A → State A
  unfolding slot_of
  poll s =
      let r = s.ring in
      record s {
        consumer =
            if eq_ℤ (diff (slot_of r r.deq_pos).seq ((r.deq_pos + 1) % u64_mod)) (pos 0)
            then matched
            else missed;
      }

  -- The next access of the consumer in `tryDequeue`.
  unfoldable pub try_dequeue : Consumer A → State A → State A
  unfolding poll release_slot slot_of
  try_dequeue waiting s = poll s
  try_dequeue missed s = poll s
  try_dequeue matched s = record s { consumer = read (slot_of s.ring s.ring.deq_pos).payload }
  try_dequeue (read x) s = release_slot x s

  unfoldable pub move : Move A → State A → Option (State A)
  unfolding try_enqueue call_enqueue fail_weakly try_dequeue close
  move (enqueue p x) s = call_enqueue p x (s.producers p) s
  move (produce p) s = try_enqueue p (s.producers p) s
  move (spurious p) s = fail_weakly p (s.producers p) s
  move consume s = some (try_dequeue s.consumer s)
  move shut s = some (close s)

  -- None if a move is not possible where it is made.
  unfoldable pub run_moves : List (Move A) → State A → Option (State A)
  unfolding move
  run_moves [] s = some s
  run_moves (m ∷ ms) s = and_then (move m s) (λ s'. run_moves ms s')

  unfoldable pub start : VyukovMpscRing A → State A
  start r = record { ring = r; producers = λ p. idle; consumer = waiting; sent = []; received = [] }
