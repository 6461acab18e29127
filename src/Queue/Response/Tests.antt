-- ===== src/Queue/Response/Tests.antt =====
-- Runs of a response slot, and the theorems at concrete inputs.
use nim_brokers.Prelude.{
  ℕ, ◌+◌, ◌≤◌, ◌≡◌, refl, inl, inr, true, Bool-cases, ◌==◌, List, [], ◌∷◌, ◌++◌, none, some,
  replicate, arith,
}
use nim_brokers.Queue.Response
use nim_brokers.Queue.Response.{
  InTime, resume, polling, ready, end_await, end_wait_late, claim, send, poll, time_out, request,
  reply, cancel, mark, gone_test, abandoned_test, ready_test, weighing, waiting, reserved, finished,
  through, new_slot, pop, end_send, end_poll, end_wait, on_test, is_at, next_access, weigh,
  exchange, next_reply, begin_write, commit_write, release, abandon_if_gen, mark_provider_gone,
  pack_control, control_gen, control_state,
}
use nim_brokers.Queue.Response.Over.{KeepsOffR, KeepsOffP, IsOver}
use nim_brokers.Queue.Response.Once.{
  run_moves_once, run_moves_alone, run_moves_no_leak, run_moves_answer,
}
use nim_brokers.Queue.Response.GiveUp.{give_up_ends}
use nim_brokers.Queue.Response.Overrun.{late_limit, overrun_releases_twice}

-- The answers of the provider, by request.
abbrev answers : ℕ → ℕ
answers n = n + 40

-- A request that is answered and read.
abbrev answered : List Response.Move
answered =
    claim
    ∷ request 1
    ∷ request 1
    ∷ request 1
    ∷ send 1 true
    ∷ reply 1
    ∷ reply 1
    ∷ reply 1
    ∷ poll 1 gone_test
    ∷ reply 1
    ∷ poll 1 ready_test
    ∷ request 1
    ∷ request 1
    ∷ []

was_answered :
    (s : Response.State ℕ) × (Response.run_moves answers answered (new_slot 0) ≡ some s)
    × (s.requesters 1 ≡ finished (some 41))
    × (s.free ≡ 1)
    × ((n : ℕ) → n ≤ s.claims → IsOver (s.requesters n) (s.providers n))
unfolding Response.run_moves Response.move new_slot pop end_send end_poll on_test is_at next_access
    weigh next_reply begin_write commit_write release pack_control control_gen control_state
was_answered = (
  _,
  refl,
  refl,
  refl,
  λ n h. elim (Bool-cases (n == 1)) [ inl y ↦ rw y tt | inr other ↦ rw other tt ],
)

answered-InTime : InTime answered
answered-InTime = (tt, (tt, (tt, (tt, (tt, (tt, (tt, (tt, (tt, (tt, (tt, (tt, (tt, tt)))))))))))))

run_moves_once_example : was_answered.0.free ≤ 1
run_moves_once_example =
    run_moves_once answers 0 answered was_answered.0 answered-InTime (omega arith) was_answered.1

run_moves_alone_example :
    KeepsOffR (was_answered.0.requesters 1) × KeepsOffP (was_answered.0.providers 1)
run_moves_alone_example =
    run_moves_alone answers 0 answered was_answered.0 1 answered-InTime (omega arith) was_answered.1
      was_answered.3

run_moves_no_leak_example : was_answered.0.free ≡ 1
run_moves_no_leak_example =
    run_moves_no_leak answers 0 answered was_answered.0 answered-InTime (omega arith) was_answered.1
      was_answered.4

run_moves_answer_example : 41 ≡ answers 1
run_moves_answer_example =
    run_moves_answer answers 0 answered was_answered.0 1 41 answered-InTime (omega arith)
      was_answered.1 was_answered.2

-- A requester that is about to give up while the provider writes.
abbrev giving_up : List Response.Move
giving_up =
    claim ∷ request 1 ∷ request 1 ∷ request 1 ∷ send 1 true ∷ reply 1 ∷ reply 1 ∷ time_out 1 ∷ []

was_giving_up :
    (s : Response.State ℕ) × (Response.run_moves answers giving_up (new_slot 0) ≡ some s)
    × (s.requesters 1 ≡ waiting weighing 1)
    × (s.providers 1 ≡ reserved 1)
unfolding Response.run_moves Response.move new_slot pop end_send end_wait next_access next_reply
    begin_write is_at pack_control control_gen control_state
was_giving_up = (_, refl, refl, refl)

give_up_ends_example :
    (j : ℕ) × (j ≤ 2)
    × (t : Response.State ℕ) × (Response.run_moves answers (replicate j (request 1)) was_giving_up.0
        ≡ some t)
    × (t.requesters 1 ≡ finished none)
give_up_ends_example =
    give_up_ends answers 0 giving_up was_giving_up.0 1 1 was_giving_up.1 was_giving_up.2

-- A request whose response is ready and not seen yet.
abbrev replied_to : List Response.Move
replied_to =
    claim
    ∷ request 1
    ∷ request 1
    ∷ request 1
    ∷ send 1 true
    ∷ reply 1
    ∷ reply 1
    ∷ reply 1
    ∷ reply 1
    ∷ []

was_replied_to :
    (s : Response.State ℕ) × (Response.run_moves answers replied_to (new_slot 0) ≡ some s)
    × (s.requesters 1 ≡ waiting polling 1)
    × (s.awaits 1 ≡ some 1)
    × (s.control ≡ pack_control 1 ready)
    × (s.free ≡ 0)
unfolding Response.run_moves Response.move new_slot pop end_send next_access next_reply begin_write
    commit_write is_at pack_control control_gen control_state
was_replied_to = (_, refl, refl, refl, refl, refl)

overrun_releases_twice_example :
    (t : Response.State ℕ) × (Response.run_moves answers (late_limit 1) was_replied_to.0 ≡ some t)
    × (t.requesters 1 ≡ finished none)
    × (t.free ≡ was_replied_to.0.free + 2)
overrun_releases_twice_example =
    overrun_releases_twice answers 1 1 (omega arith) was_replied_to.0 was_replied_to.2
      was_replied_to.3 was_replied_to.4

-- With the index on the free-list twice, requests 2 and 3 get the slot with the same generation, and
-- request 3 is given the answer to request 2.
crossed :
    (s : Response.State ℕ) × (Response.run_moves answers
        (replied_to
          ++ late_limit 1
          ++ claim
            ∷ claim
            ∷ request 2
            ∷ request 3
            ∷ request 2
            ∷ request 3
            ∷ request 2
            ∷ request 3
            ∷ send 2 true
            ∷ send 3 true
            ∷ reply 2
            ∷ reply 2
            ∷ reply 2
            ∷ reply 2
            ∷ poll 3 ready_test
            ∷ request 3
            ∷ request 3
            ∷ resume 3
            ∷ [])
        (new_slot 0)
      ≡ some s)
    × (s.requesters 3 ≡ finished (some 42))
unfolding Response.run_moves Response.move new_slot pop end_send end_poll end_wait_late end_await
    on_test next_access weigh next_reply begin_write commit_write release is_at pack_control
    control_gen control_state
crossed = (_, refl, refl)

-- The requester gives up while the provider writes: its commit fails, and it hands the slot back.
cut_off_returns :
    (s : Response.State ℕ) × (Response.run_moves answers
        (claim
          ∷ request 1
          ∷ request 1
          ∷ request 1
          ∷ send 1 true
          ∷ reply 1
          ∷ reply 1
          ∷ reply 1
          ∷ time_out 1
          ∷ request 1
          ∷ request 1
          ∷ reply 1
          ∷ reply 1
          ∷ [])
        (new_slot 0)
      ≡ some s)
    × (s.requesters 1 ≡ finished none)
    × (s.providers 1 ≡ through)
    × (s.free ≡ 1)
unfolding Response.run_moves Response.move new_slot pop end_send end_wait next_access weigh exchange
    next_reply begin_write commit_write release is_at pack_control control_gen control_state
cut_off_returns = (_, refl, refl, refl, refl)

-- The provider is cleared before it has begun: the requester hands the slot back, and a reply that
-- comes later does not touch it.
gone_returns :
    (s : Response.State ℕ) × (Response.run_moves answers
        (claim
          ∷ request 1
          ∷ request 1
          ∷ request 1
          ∷ send 1 true
          ∷ reply 1
          ∷ mark
          ∷ mark
          ∷ poll 1 gone_test
          ∷ request 1
          ∷ reply 1
          ∷ [])
        (new_slot 0)
      ≡ some s)
    × (s.requesters 1 ≡ finished none)
    × (s.providers 1 ≡ through)
    × (s.free ≡ 1)
unfolding Response.run_moves Response.move new_slot pop end_send end_poll on_test next_access
    next_reply begin_write release mark_provider_gone is_at pack_control control_gen control_state
gone_returns = (_, refl, refl, refl, refl)

-- A cancellation that comes before the dispatch: the provider hands the slot back.
cancelled_returns :
    (s : Response.State ℕ) × (Response.run_moves answers
        (claim
          ∷ request 1
          ∷ request 1
          ∷ request 1
          ∷ send 1 true
          ∷ cancel 1
          ∷ reply 1
          ∷ reply 1
          ∷ poll 1 abandoned_test
          ∷ [])
        (new_slot 0)
      ≡ some s)
    × (s.requesters 1 ≡ finished none)
    × (s.free ≡ 1)
unfolding Response.run_moves Response.move new_slot pop end_send end_poll on_test next_access
    next_reply abandon_if_gen release is_at pack_control control_gen control_state
cancelled_returns = (_, refl, refl, refl)
