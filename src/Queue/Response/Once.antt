-- ===== src/Queue/Response/Once.antt =====
-- The end of a claim of a slot, for the free-list and for the response. The theorems are under
-- `InTime`; Queue/Response/Overrun.antt is about the runs it leaves out.
use native.Mathlib.Decide.{dec_lt}
use nim_brokers.Prelude.{ℕ, suc, ◌+◌, ◌≤◌, ◌<◌, ◌≡◌, List, Option, some, length, arith}
use nim_brokers.Queue.Response.{finished, State, Move, InTime, run_moves, new_slot}
use nim_brokers.Queue.Response.Word.{gen_mod}
use nim_brokers.Queue.Response.Stages.{Reads, InertR, InertP, LeftR, left, fresh, armed, busy, Kept}
use nim_brokers.Queue.Response.Requesters.{LeftR-InertR, LeftP-InertP, BusyR-finished}
use nim_brokers.Queue.Response.Runs.{run_moves-Kept}
use nim_brokers.Queue.Response.Over.{
  KeepsOffR, KeepsOffP, IsOver, InertR-off, absent-InertR, InertP-off, unsent-InertP,
  FreshR-not_over, SendR-not_over, Busy-not_over,
}

module _ {A : Type 0} where
  module _ (answer : ℕ → A) (s : State A) (k : Kept answer s) where
    free_once : s.free ≤ 1
    free_once = elim k.stage [
      | left f c a b ↦ omega arith
      | fresh f c a b d u ↦ omega arith
      | armed f c a b d ↦ omega arith
      | busy f c a b ↦ omega arith
    ]

    free_alone : s.free ≡ 1 → (n : ℕ) → InertR answer n (s.requesters n) × InertP n (s.providers n)
    free_alone e n = elim (dec_lt n k.gen) [
      | yes l ↦ k.early n l
      | no l ↦ elim k.stage [
        | left f c a b ↦ elim (dec_lt s.claims n) [
          | yes h ↦ (
            absent-InertR answer n (s.requesters n) (k.late n h).0,
            unsent-InertP n (s.providers n) (k.late n h).1,
          )
          | no h ↦
              let now : n ≡ k.gen = omega arith in
              rw now (
                LeftR-InertR answer k.state k.gen (s.requesters k.gen) a,
                LeftP-InertP answer k.state k.gen (s.providers k.gen) b,
              )
        ]
        | fresh f c a b d u ↦ absurd (omega arith)
        | armed f c a b d ↦ absurd (omega arith)
        | busy f c a b ↦ absurd (omega arith)
      ]
    ]

    over_free : ((n : ℕ) → n ≤ s.claims → IsOver (s.requesters n) (s.providers n)) → s.free ≡ 1
    over_free over = elim k.stage [
      | left f c a b ↦ f
      | fresh f c a b d u ↦ absurd (
          FreshR-not_over answer k.gen (s.requesters (suc k.gen)) (s.providers (suc k.gen)) d
            (over (suc k.gen) (omega arith)))
      | armed f c a b d ↦ absurd (
          SendR-not_over answer k.gen (s.requesters k.gen) (s.providers k.gen) b
            (over k.gen (omega arith)))
      | busy f c a b ↦ absurd (
          Busy-not_over answer k.state s.payload k.gen (s.requesters k.gen) (s.providers k.gen) a b
            (over k.gen (omega arith)))
    ]

    finished-Reads : (n : ℕ) (o : Option A) → s.requesters n ≡ finished o → Reads answer n o
    finished-Reads n o e = elim (dec_lt n k.gen) [
      | yes l ↦ rw e at (k.early n l).0
      | no l ↦ elim (dec_lt s.claims n) [
        | yes h ↦ absurd (rw e at (k.late n h).0)
        | no h ↦ elim k.stage [
          | left f c a b ↦ let now : n ≡ k.gen = omega arith in at_gen now a
          | fresh f c a b d u ↦ elim (dec_lt k.gen n) [
            | yes m ↦ let next : n ≡ suc k.gen = omega arith in absurd (rw e at (rw (← next) at d))
            | no m ↦ let now : n ≡ k.gen = omega arith in at_gen now a
          ]
          | armed f c a b d ↦
              let now : n ≡ k.gen = omega arith in absurd (rw e at (rw (← now) at b))
          | busy f c a b ↦
              let now : n ≡ k.gen = omega arith in
              BusyR-finished answer k.state n o (rw e at (rw (← now) at a))
        ]
      ]
    ]
      where
        at_gen : n ≡ k.gen → LeftR answer k.state k.gen (s.requesters k.gen) → Reads answer n o
        at_gen now a = LeftR-InertR answer k.state n (finished o) (rw e at (rw (← now) at a))

  -- Whatever the moves of the requesters, the provider, of cancellations with any generation and of
  -- the mark that the provider is gone are, fewer than 2^32 with one more, the slot's index is on the
  -- free-list at most once, if no limit of `withTimeout` ends the wait for a request that the poller
  -- has settled.
  pub run_moves_once :
      (answer : ℕ → A) (blank : A) (moves : List Move) (s : State A)
      → InTime moves
      → length moves + 1 < gen_mod
      → run_moves answer moves (new_slot blank) ≡ some s
      → s.free ≤ 1
  run_moves_once answer blank moves s i h e =
      free_once answer s (run_moves-Kept answer blank moves s i h e)

  -- On a run of fewer than 2^32 moves with one more, in which no limit of `withTimeout` ends the wait
  -- for a request that the poller has settled: while the index is on the free-list, every
  -- requester is before its claim, in its wait or through, and no provider is between its reservation
  -- of the slot and its release.
  pub run_moves_alone :
      (answer : ℕ → A) (blank : A) (moves : List Move) (s : State A) (n : ℕ)
      → InTime moves
      → length moves + 1 < gen_mod
      → run_moves answer moves (new_slot blank) ≡ some s
      → s.free ≡ 1
      → KeepsOffR (s.requesters n) × KeepsOffP (s.providers n)
  run_moves_alone answer blank moves s n i h e e' =
      let (r, p) = free_alone answer s (run_moves-Kept answer blank moves s i h e) e' n in
      (InertR-off answer n (s.requesters n) r, InertP-off n (s.providers n) p)

  -- On a run of fewer than 2^32 moves with one more, in which no limit of `withTimeout` ends the wait
  -- for a request that the poller has settled: when every claim is over for its requester and, if it
  -- was sent, for the provider, the index is on the free-list, so that no slot is leaked.
  pub run_moves_no_leak :
      (answer : ℕ → A) (blank : A) (moves : List Move) (s : State A)
      → InTime moves
      → length moves + 1 < gen_mod
      → run_moves answer moves (new_slot blank) ≡ some s
      → ((n : ℕ) → n ≤ s.claims → IsOver (s.requesters n) (s.providers n))
      → s.free ≡ 1
  run_moves_no_leak answer blank moves s i h e over =
      over_free answer s (run_moves-Kept answer blank moves s i h e) over

  -- On a run of fewer than 2^32 moves with one more, in which no limit of `withTimeout` ends the wait
  -- for a request that the poller has settled: whatever requests have used the slot before and were
  -- given up, a response that a requester has read is the provider's answer to its request.
  pub run_moves_answer :
      (answer : ℕ → A) (blank : A) (moves : List Move) (s : State A) (n : ℕ) (v : A)
      → InTime moves
      → length moves + 1 < gen_mod
      → run_moves answer moves (new_slot blank) ≡ some s
      → s.requesters n ≡ finished (some v)
      → v ≡ answer n
  run_moves_answer answer blank moves s n v i h e read =
      finished-Reads answer s (run_moves-Kept answer blank moves s i h e) n (some v) read
