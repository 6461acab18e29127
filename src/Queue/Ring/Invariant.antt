-- ===== src/Queue/Ring/Invariant.antt =====
-- What holds of a ring at each moment of a run: which positions are claimed, published and free.
use Prim.Native.Nat.{bit_and}
use native.Mathlib.Decide.{dec_lt}
use nim_brokers.Queue.Cells.{put, put-cases}
use nim_brokers.Prelude.{
  ℕ, ◌+◌, ◌≤◌, ◌<◌, ◌≡◌, ◌≢◌, sym, ◌⊎◌, inl, inr, ltb, ◌==◌, ltb_ℤ, eq_ℤ, pos, List, map, some,
  length, get_elem?, take, arith,
}
use nim_brokers.Queue.Ring.{
  VyukovMpscRing, diff, Producer, idle, returned, called, checked, loaded, compared, claimed,
  written, Consumer, matched, read, State, stand,
}
use nim_brokers.Queue.Ring.Index.{IsIndex}

-- Below this the difference of two positions is their difference as integers.
abbrev pub half_range : ℕ
half_range = 0x8000000000000000

pub diff-zero : (a b : ℕ) → a < half_range → b < half_range → eq_ℤ (diff a b) (pos 0) ≡ (a == b)
diff-zero a b h k = ground arith

pub diff-neg : (a b : ℕ) → a < half_range → b < half_range → ltb_ℤ (diff a b) (pos 0) ≡ ltb a b
diff-neg a b h k = ground arith

-- The items in the order of their claims.
abbrev pub items : {A : Type 0} → List (ℕ × A) → List A
items = map (λ e. e.1)

module _ {A : Type 0} where
  -- The producer has claimed position `t` for `x` and not published it yet.
  abbrev pub Holds : A → ℕ → Producer A → Type 0
  Holds x t (claimed y u) = (y ≡ x) × (u ≡ t)
  Holds x t (written y u) = (y ≡ x) × (u ≡ t)
  Holds x t _ = ⊥

  abbrev pub seq_at : VyukovMpscRing A → ℕ → ℕ
  seq_at r t = (r.slots (bit_and t r.mask)).seq

  abbrev pub payload_at : VyukovMpscRing A → ℕ → A
  payload_at r t = (r.slots (bit_and t r.mask)).payload

  -- What producer `p` knows of the positions.
  abbrev pub Producing : VyukovMpscRing A → List (ℕ × A) → ℕ → Producer A → Type 0
  Producing r sent p (loaded x t) = t ≤ r.enq_pos
  Producing r sent p (compared x t n) =
      (t ≤ r.enq_pos) × (n ≤ r.deq_pos + r.capacity) × (n ≡ t → t < r.deq_pos + r.capacity)
  Producing r sent p (claimed x t) =
      (r.deq_pos ≤ t) × (t < r.enq_pos) × (get_elem? sent t ≡ some (p, x)) × (seq_at r t ≡ t)
  Producing r sent p (written x t) =
      (r.deq_pos ≤ t)
      × (t < r.enq_pos)
      × (get_elem? sent t ≡ some (p, x))
      × (seq_at r t ≡ t)
      × (payload_at r t ≡ x)
  Producing r sent p _ = Unit

  abbrev pub Consuming : VyukovMpscRing A → List (ℕ × A) → Consumer A → Type 0
  Consuming r sent matched = seq_at r r.deq_pos ≡ r.deq_pos + 1
  Consuming r sent (read x) =
      (seq_at r r.deq_pos ≡ r.deq_pos + 1) × (get_elem? (items sent) r.deq_pos ≡ some x)
  Consuming r sent _ = Unit

  -- The producer holds no position.
  abbrev pub IsQuiet : Producer A → Type 0
  IsQuiet (claimed x t) = ⊥
  IsQuiet (written x t) = ⊥
  IsQuiet _ = Unit

  -- The positions from `deq_pos` up to `enq_pos` are claimed, and published or held by the producer
  -- that claimed them; the others of the round from `deq_pos` on are free; the slots of those before
  -- are of later rounds.
  pub record Kept (s : State A) : Type 0 where
    pub index : IsIndex s.ring.mask s.ring.capacity
    pub two : 2 ≤ s.ring.capacity
    pub ahead : s.ring.deq_pos ≤ s.ring.enq_pos
    pub behind : s.ring.enq_pos ≤ s.ring.deq_pos + s.ring.capacity
    pub count : length s.sent ≡ s.ring.enq_pos
    pub got : s.received ≡ take s.ring.deq_pos (items s.sent)
    pub bound : (i : ℕ) → (s.ring.slots i).seq ≤ s.ring.deq_pos + s.ring.capacity
    pub passed : (t : ℕ) → t < s.ring.deq_pos → t + s.ring.capacity ≤ seq_at s.ring t
    pub free :
        (t : ℕ) → s.ring.enq_pos ≤ t → t < s.ring.deq_pos + s.ring.capacity → seq_at s.ring t ≡ t
    pub held :
        (t p : ℕ) (x : A)
        → s.ring.deq_pos ≤ t
        → get_elem? s.sent t ≡ some (p, x)
        → Holds x t (s.producers p) ⊎ ((seq_at s.ring t ≡ t + 1) × (payload_at s.ring t ≡ x))
    pub producing : (p : ℕ) → Producing s.ring s.sent p (s.producers p)
    pub consuming : Consuming s.ring s.sent s.consumer

  pub Holds-IsQuiet : (x : A) (t : ℕ) (q : Producer A) → IsQuiet q → Holds x t q → ⊥
  Holds-IsQuiet x t idle h k = k
  Holds-IsQuiet x t (returned b) h k = k
  Holds-IsQuiet x t (called y) h k = k
  Holds-IsQuiet x t (checked y) h k = k
  Holds-IsQuiet x t (loaded y u) h k = k
  Holds-IsQuiet x t (compared y u n) h k = k
  Holds-IsQuiet x t (claimed y u) h k = h
  Holds-IsQuiet x t (written y u) h k = h

  -- What a producer holds is not touched by what one does that holds nothing.
  pub Holds-put :
      (x : A) (t p r : ℕ) (q : Producer A) (producers : ℕ → Producer A)
      → IsQuiet (producers p)
      → Holds x t (producers r)
      → Holds x t (put p q producers r)
  Holds-put x t p r q producers old =
      put-cases (λ j v. Holds x t (producers j) → Holds x t v) p r q producers
        (λ h. absurd (Holds-IsQuiet x t (producers p) old h)) (λ n h. h)

  -- A producer that holds no position goes on without the claim of one.
  pub stand-Kept :
      (p : ℕ) (q : Producer A) (s : State A)
      → Kept s
      → IsQuiet (s.producers p)
      → IsQuiet q
      → Producing s.ring s.sent p q
      → Kept (stand p q s)
  stand-Kept p q s k old new knows = record {
    index = k.index;
    two = k.two;
    ahead = k.ahead;
    behind = k.behind;
    count = k.count;
    got = k.got;
    bound = k.bound;
    passed = k.passed;
    free = k.free;
    consuming = k.consuming;
    held = λ t r x d e. elim (k.held t r x d e) [
      | inl h ↦ inl (Holds-put x t p r q s.producers old h)
      | inr h ↦ inr h
    ];
    producing =
        λ r. put-cases (Producing s.ring s.sent) p r q s.producers knows (λ n. k.producing r);
  }

  pub slots_apart :
      (r : VyukovMpscRing A) (d t u : ℕ)
      → IsIndex r.mask r.capacity
      → t ≢ u
      → d ≤ t
      → t < d + r.capacity
      → d ≤ u
      → u < d + r.capacity
      → bit_and t r.mask ≢ bit_and u r.mask
  slots_apart r d t u i n a b c e same = elim (dec_lt t u) [
    | yes h ↦ i.apart t u h (omega arith) same
    | no h ↦ i.apart u t (omega arith) (omega arith) (sym same)
  ]
