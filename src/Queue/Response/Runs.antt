-- ===== src/Queue/Response/Runs.antt =====
-- Every move keeps the stages, and so does every run.
use nim_brokers.Prelude.{
  ℕ, ◌+◌, ◌<◌, ◌≤◌, ◌≡◌, refl, Bool, true, false, List, [], ◌∷◌, Option, none, some, and_then,
  length, arith,
}
use nim_brokers.Queue.Response.{
  empty, abandoned, abandoned_writing, writing, provider_gone, ready, polling, weighing, from_empty,
  from_writing, Requester, absent, popped, loaded, stored, sending, waiting, reading, releasing,
  finished, State, Test, gone_test, abandoned_test, ready_test, Move, claim, send, poll, time_out,
  overrun, resume, request, reply, cancel, mark, end_send, on_test, end_poll, end_wait, end_await,
  InTime, IsInTime, next_access, move, run_moves, new_slot,
}
use nim_brokers.Queue.Response.Word.{gen_mod}
use nim_brokers.Queue.Response.Stages.{left, Kept}
use nim_brokers.Queue.Response.Turns.{awaits-Kept}
use nim_brokers.Queue.Response.Waits.{
  Good, gen-le, wait-Kept, test-Good, weigh-Good, exchange-Good, read_it, gone, cancelled, cut_off,
}
use nim_brokers.Queue.Response.Relabel.{
  to_abandoned, to_abandoned_writing, abandon_if_gen-Good, mark-Good,
}
use nim_brokers.Queue.Response.Requesters.{pop-Good}
use nim_brokers.Queue.Response.Arming.{load-Good, slot_gen-Good, claim-Good, end_send-Good}
use nim_brokers.Queue.Response.Release.{release-Good, read-Good}
use nim_brokers.Queue.Response.Commits.{next_reply-Good}

module _ {A : Type 0} (answer : ℕ → A) where
  module _ (n : ℕ) (s : State A) (k : Kept answer s) (small : s.claims + 1 < gen_mod) where
    send-Good : (b : Bool) (r : Requester A) → s.requesters n ≡ r → Good answer s (end_send n b r s)
    unfolding end_send
    send-Good b (sending g) e = end_send-Good answer n s k small b g e
    send-Good true absent e = tt
    send-Good true popped e = tt
    send-Good true (loaded v) e = tt
    send-Good true stored e = tt
    send-Good true (waiting w g) e = tt
    send-Good true reading e = tt
    send-Good true (releasing o) e = tt
    send-Good true (finished o) e = tt
    send-Good false absent e = tt
    send-Good false popped e = tt
    send-Good false (loaded v) e = tt
    send-Good false stored e = tt
    send-Good false (waiting w g) e = tt
    send-Good false reading e = tt
    send-Good false (releasing o) e = tt
    send-Good false (finished o) e = tt

    gen_small : k.gen < gen_mod
    gen_small = omega (arith, gen-le answer s k)

    poll-Good : (t : Test) (r : Requester A) → s.requesters n ≡ r → Good answer s (end_poll n t r s)
    unfolding end_poll on_test
    poll-Good gone_test (waiting polling g) e =
        test-Good answer n g polling s k e gen_small provider_gone (releasing none) gone
    poll-Good abandoned_test (waiting polling g) e =
        test-Good answer n g polling s k e gen_small abandoned (finished none) cancelled
    poll-Good ready_test (waiting polling g) e =
        test-Good answer n g polling s k e gen_small ready reading read_it
    poll-Good t (waiting weighing g) e = tt
    poll-Good t (waiting from_empty g) e = tt
    poll-Good t (waiting from_writing g) e = tt
    poll-Good t absent e = tt
    poll-Good t popped e = tt
    poll-Good t (loaded v) e = tt
    poll-Good t stored e = tt
    poll-Good t (sending g) e = tt
    poll-Good t reading e = tt
    poll-Good t (releasing o) e = tt
    poll-Good t (finished o) e = tt

    time_out-Good : (r : Requester A) → s.requesters n ≡ r → Good answer s (end_wait n r s)
    unfolding end_wait
    time_out-Good (waiting polling g) e =
        (awaits-Kept answer n _ (wait-Kept answer n g polling s k e weighing) _, omega arith)
    time_out-Good (waiting weighing g) e = tt
    time_out-Good (waiting from_empty g) e = tt
    time_out-Good (waiting from_writing g) e = tt
    time_out-Good absent e = tt
    time_out-Good popped e = tt
    time_out-Good (loaded v) e = tt
    time_out-Good stored e = tt
    time_out-Good (sending g) e = tt
    time_out-Good reading e = tt
    time_out-Good (releasing o) e = tt
    time_out-Good (finished o) e = tt

    resume-Good : (o : Option ℕ) (r : Requester A) → Good answer s (end_await n o r s)
    unfolding end_await
    resume-Good (some g) (finished o) = (awaits-Kept answer n s k _, omega arith)
    resume-Good none r = tt
    resume-Good (some g) absent = tt
    resume-Good (some g) popped = tt
    resume-Good (some g) (loaded v) = tt
    resume-Good (some g) stored = tt
    resume-Good (some g) (sending h) = tt
    resume-Good (some g) (waiting w h) = tt
    resume-Good (some g) reading = tt
    resume-Good (some g) (releasing o) = tt

    next_access-Good : (r : Requester A) → s.requesters n ≡ r → Good answer s (next_access n r s)
    unfolding next_access
    next_access-Good popped e = load-Good answer n s k small e
    next_access-Good (loaded v) e = claim-Good answer n s k small v e
    next_access-Good stored e = slot_gen-Good answer n s k small e
    next_access-Good (waiting weighing g) e = weigh-Good answer n g weighing s k e gen_small
    next_access-Good (waiting from_empty g) e =
        exchange-Good answer n g from_empty s k empty abandoned e cancelled
          (to_abandoned answer s k)
    next_access-Good (waiting from_writing g) e =
        exchange-Good answer n g from_writing s k writing abandoned_writing e cut_off
          (to_abandoned_writing answer s k)
    next_access-Good reading e = read-Good answer n s k e
    next_access-Good (releasing o) e = release-Good answer n s k o e
    next_access-Good (waiting polling g) e = tt
    next_access-Good absent e = tt
    next_access-Good (sending g) e = tt
    next_access-Good (finished o) e = tt

  move-Good :
      (m : Move) (s : State A)
      → IsInTime m
      → Kept answer s
      → s.claims + 1 < gen_mod
      → Good answer s (move answer m s)
  unfolding move
  move-Good claim s i k small = pop-Good answer s.free s k refl
  move-Good (send n b) s i k small = send-Good n s k small b (s.requesters n) refl
  move-Good (poll n t) s i k small = poll-Good n s k small t (s.requesters n) refl
  move-Good (time_out n) s i k small = time_out-Good n s k small (s.requesters n) refl
  move-Good (overrun n) s i k small = absurd i
  move-Good (resume n) s i k small = resume-Good n s k small (s.awaits n) (s.requesters n)
  move-Good (request n) s i k small = next_access-Good n s k small (s.requesters n) refl
  move-Good (reply n) s i k small = next_reply-Good answer n s k (s.providers n) refl (omega arith)
  move-Good (cancel g) s i k small = abandon_if_gen-Good answer s k g
  move-Good mark s i k small = mark-Good answer s.marker s k refl (omega arith)

  new-Kept : (blank : A) → Kept answer (new_slot blank)
  unfolding new_slot
  new-Kept blank = record {
    gen = 0;
    state = empty;
    word = refl;
    stage = left refl refl tt tt;
    early = λ n h. absurd (omega arith);
    late = λ n h. (tt, tt);
    marked = tt;
  }

  -- The invariant, with a bound on the claims.
  Within : ℕ → State A → Type 0
  Within most s = Kept answer s × (s.claims ≤ most)

  run_next :
      (most : ℕ) (s t : State A) (o : Option (State A)) (f : State A → Option (State A))
      → Good answer s o
      → and_then o f ≡ some t
      → ((u : State A) → Good answer s (some u) → f u ≡ some t → Within most t)
      → Within most t
  run_next most s t none f g e next = cc
  run_next most s t (some u) f g e next = next u g e

  run-Within :
      (ms : List Move) (s t : State A)
      → InTime ms
      → Kept answer s
      → s.claims + length ms + 1 < gen_mod
      → run_moves answer ms s ≡ some t
      → Within (s.claims + length ms) t
  unfolding run_moves Within
  run-Within [] s t i k h e = let same : s ≡ t = cc in rw (← same) (k, omega arith)
  run-Within (m ∷ ms) s t i k h e =
      run_next (s.claims + length (m ∷ ms)) s t (move answer m s) (run_moves answer ms)
        (move-Good m s i.0 k (omega arith)) e
        (λ u g run.
          let (kept, few) = run-Within ms u t i.1 g.0 (omega (arith, g.1)) run in
          (kept, omega (arith, g.1)))

  pub run_moves-Kept :
      (blank : A) (moves : List Move) (s : State A)
      → InTime moves
      → length moves + 1 < gen_mod
      → run_moves answer moves (new_slot blank) ≡ some s
      → Kept answer s
  unfolding new_slot Within
  run_moves-Kept blank moves s i h e =
      (run-Within moves (new_slot blank) s i (new-Kept blank) (omega arith) e).0
