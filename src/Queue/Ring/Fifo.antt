-- ===== src/Queue/Ring/Fifo.antt =====
-- Runs of the ring are runs of a bounded queue.
use Prim.Native.Nat.{bit_and}
use nim_brokers.Prelude.{
  ℕ, suc, ◌+◌, ◌-◌, ◌≤◌, ◌<◌, ◌≡◌, refl, sym, ap, ◌∙◌, inl, inr, false, Bool-cases, ltb, lt→ltb,
  ◌==◌, ==_iff, List, [], ◌∷◌, ◌++◌, Option, none, some, and_then, length, drop, drop-length,
  length-map, take-drop, arith,
}
use nim_brokers.Queue.Ring.{
  VyukovMpscRing, fresh_ring, new_vyukov_mpsc_ring, loaded, compared, claimed, returned, State,
  Move, produce, slot_of, on_difference, try_claim, try_enqueue, move, run_moves, start,
}
use nim_brokers.Queue.Ring.Index.{PowerOfTwo-IsIndex, test-PowerOfTwo, IsIndex}
use nim_brokers.Queue.Ring.Invariant.{half_range, diff-zero, diff-neg, items, Kept}
use nim_brokers.Queue.Cells.{put-same}
use native.Mathlib.Decide.{dec_lt}
use nim_brokers.Queue.Ring.Enqueue.{Good, below_full}
use nim_brokers.Queue.Ring.Dequeue.{move-Good}

module _ {A : Type 0} where
  fresh-Kept : (blank : A) (c : ℕ) → 2 ≤ c → IsIndex (c - 1) c → Kept (start (fresh_ring blank c))
  unfolding start
  fresh-Kept blank c two index = record {
    index = index;
    two = two;
    ahead = omega arith;
    behind = omega arith;
    count = refl;
    got = refl;
    bound = λ i. elim (Bool-cases (ltb i c)) [
      | inl y ↦ rw y (ground arith)
      | inr n ↦ rw n (omega arith)
    ];
    passed = λ t h. absurd (omega arith);
    free = λ t a b. let b' : t < c = omega arith in rw (index.small t b', lt→ltb t c b');
    held = λ t p x d e. cc;
    producing = λ p. tt;
    consuming = tt;
  }

  -- A ring that can be made, of more than one slot.
  pub new-Kept :
      (blank : A) (c : ℕ) (r : VyukovMpscRing A)
      → 2 ≤ c
      → new_vyukov_mpsc_ring blank c ≡ some r
      → Kept (start r) × (r.enq_pos ≡ 0) × (r.capacity ≡ c)
  unfolding new_vyukov_mpsc_ring
  new-Kept blank c r two e = elim (Bool-cases (bit_and c (c - 1) == 0)) [
    | inl y ↦
        let index : IsIndex (c - 1) c =
          PowerOfTwo-IsIndex (test-PowerOfTwo c (omega arith) ((==_iff _ _).0 y)) in
        let made : new_vyukov_mpsc_ring blank c ≡ some (fresh_ring blank c) =
          rw (lt→ltb 0 c (omega arith), y) in
        let same : fresh_ring blank c ≡ r = cc in
        rw (← same) (fresh-Kept blank c two index, refl, refl)
    | inr n ↦
        let refused : new_vyukov_mpsc_ring blank c ≡ none = rw (lt→ltb 0 c (omega arith), n) in cc
  ]

  pub Within : ℕ → State A → State A → Type 0
  Within n s t =
      Kept t × (t.ring.enq_pos ≤ s.ring.enq_pos + n) × (t.ring.capacity ≡ s.ring.capacity)

  step_run :
      (n : ℕ) (s t : State A) (o : Option (State A)) (f : State A → Option (State A))
      → Good s o
      → and_then o f ≡ some t
      → ((u : State A) → Good s (some u) → f u ≡ some t → Within n u t)
      → Within (suc n) s t
  unfolding Within
  step_run n s t none f g e next = cc
  step_run n s t (some u) f g e next =
      let (k, far, same) = next u g e in (k, omega (arith, g.1), same ∙ g.2)

  pub run-Within :
      (ms : List (Move A)) (s t : State A)
      → Kept s
      → s.ring.enq_pos + length ms + s.ring.capacity + 1 < half_range
      → run_moves ms s ≡ some t
      → Within (length ms) s t
  unfolding run_moves Within
  run-Within [] s t k h e = let same : s ≡ t = cc in rw (← same) (k, omega arith, refl)
  run-Within (m ∷ ms) s t k h e =
      step_run (length ms) s t (move m s) (run_moves ms) (move-Good m s k (omega arith)) e
        (λ u g. run-Within ms u t g.0 (omega (arith, g.1, g.2)))

  pub run_moves-Kept :
      (blank : A) (c : ℕ) (r : VyukovMpscRing A) (moves : List (Move A)) (s : State A)
      → 2 ≤ c
      → length moves + c + 1 < half_range
      → new_vyukov_mpsc_ring blank c ≡ some r
      → run_moves moves (start r) ≡ some s
      → Kept s × (s.ring.enq_pos ≤ length moves) × (s.ring.capacity ≡ c)
  unfolding Within start
  run_moves-Kept blank c r moves s two h made e =
      let (k, zero_pos, cap) = new-Kept blank c r two made in
      let (k', far, same) = run-Within moves (start r) s k (omega arith) e in
      (k', omega arith, same ∙ cap)

  -- What a bounded queue promises: the items taken out are the first of those put in, in the same
  -- order, and no more than `capacity` are on the way.
  pub record IsFifo (s : State A) : Type 0 where
    pub rest : List A
    pub in_order : items s.sent ≡ s.received ++ rest
    pub fits : length rest ≤ s.ring.capacity

  -- On a ring of at least two slots, whatever the moves of the producers, of the consumer and of a
  -- `close` are, fewer than 2^63 with the capacity and one more, the items received are the first of
  -- those whose positions were claimed, in the order of the claims, so that none is lost, repeated
  -- or overtaken; and the claimed items not yet received are no more than the capacity.
  pub run_moves-IsFifo :
      (blank : A) (c : ℕ) (r : VyukovMpscRing A) (moves : List (Move A)) (s : State A)
      → 2 ≤ c
      → length moves + c + 1 < half_range
      → new_vyukov_mpsc_ring blank c ≡ some r
      → run_moves moves (start r) ≡ some s
      → IsFifo s
  run_moves-IsFifo blank c r moves s two h made e =
      let k = (run_moves-Kept blank c r moves s two h made e).0 in
      record {
        rest = drop s.ring.deq_pos (items s.sent);
        in_order =
            sym (take-drop s.ring.deq_pos (items s.sent))
            ∙ ap (λ l. l ++ drop s.ring.deq_pos (items s.sent)) (sym k.got);
        fits = omega (
          arith,
          k.behind,
          k.count,
          drop-length s.ring.deq_pos (items s.sent),
          length-map (λ (c' : ℕ × A). c'.1) s.sent,
        );
      }

  -- A comparison that makes the call return false has found a number below the position.
  refused-below :
      (p : ℕ) (x : A) (position v : ℕ) (u : State A)
      → position < half_range
      → v < half_range
      → (on_difference p x position v u).producers p ≡ returned false
      → v < position
  unfolding on_difference try_claim
  refused-below p x position v u h k e = elim (dec_lt v position) [
    | yes less ↦ less
    | no other ↦
        let below : ltb v position ≡ false = ground arith in
        elim (Bool-cases (v == position)) [
          | inl y ↦ elim (Bool-cases (u.ring.enq_pos == position)) [
            | inl z ↦
                let e' =
                  rw (diff-zero v position k h, y, z, put-same p (claimed x position) u.producers)
                    at e in
                cc
            | inr z ↦
                let e' =
                  rw
                    (
                      diff-zero v position k h,
                      y,
                      z,
                      put-same p (loaded x u.ring.enq_pos) u.producers,
                    )
                    at e in
                cc
          ]
          | inr n ↦
              let e' =
                rw
                  (
                    diff-zero v position k h,
                    n,
                    diff-neg v position k h,
                    below,
                    put-same p (loaded x u.ring.enq_pos) u.producers,
                  )
                  at e in
              cc
        ]
  ]

  -- On a ring of at least two slots and a run of fewer than 2^63 moves with the capacity and one more,
  -- let a producer load the number of its position's slot. If the branch on that number, whatever
  -- has been moved in between, makes its call return false, the ring was full when it was loaded.
  pub refused_only_full :
      (blank : A) (c : ℕ) (r : VyukovMpscRing A) (moves : List (Move A)) (s u t : State A) (p : ℕ)
      (x : A) (position : ℕ)
      → 2 ≤ c
      → length moves + c + 1 < half_range
      → new_vyukov_mpsc_ring blank c ≡ some r
      → run_moves moves (start r) ≡ some s
      → s.producers p ≡ loaded x position
      → u.producers p ≡ compared x position (slot_of s.ring position).seq
      → move (produce p) u ≡ some t
      → t.producers p ≡ returned false
      → s.ring.enq_pos ≡ s.ring.deq_pos + s.ring.capacity
  unfolding slot_of move try_enqueue
  refused_only_full blank c r moves s u t p x position two h made e at compares moved refused =
      let (k, far, cap) = run_moves-Kept blank c r moves s two h made e in
      let know : position ≤ s.ring.enq_pos = rw at at (k.producing p) in
      let v = (slot_of s.ring position).seq in
      let stepped : some (on_difference p x position v u) ≡ some t = rw compares at moved in
      let same : on_difference p x position v u ≡ t = cc in
      let less =
        refused-below p x position v u (omega arith)
          (omega (arith, k.bound (bit_and position s.ring.mask), k.ahead))
          (ap (λ w. w.producers p) same ∙ refused) in
      below_full s k position know less
