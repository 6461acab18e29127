-- ===== src/Queue/Response/Words.antt =====
-- What the word of a slot is on any run.
use nim_brokers.Prelude.{
  ℕ, zero, suc, ◌+◌, ◌%◌, ◌<◌, ◌≡◌, refl, sym, ap, ◌∙◌, Bool, true, false, Bool-cases, inl, inr,
  ◌==◌, List, [], ◌∷◌, Option, none, some, and_then, arith,
}
use nim_brokers.Queue.Response.{
  ResponseState, pack_control, control_gen, control_state, ordinal, is_at, empty, writing, ready,
  abandoned, abandoned_writing, provider_gone, polling, weighing, from_empty, from_writing,
  Requester, absent, popped, loaded, stored, sending, waiting, reading, releasing, finished,
  Provider, unsent, queued, at_work, reserved, filled, handing_back, through, State, Test,
  gone_test, Move, claim, send, poll, time_out, overrun, resume, request, reply, cancel, mark, pop,
  end_send, end_poll, end_wait, end_wait_late, end_await, exchange, next_access, begin_write,
  commit_write, next_reply, abandon_if_gen, mark_provider_gone, move, run_moves, new_slot,
}
use nim_brokers.Queue.Response.Word.{gen_mod, pack-true}

module _ {A : Type 0} where
  -- The word is of a generation below 2^32.
  pub record HasWord (s : State A) : Type 0 where
    pub gen : ℕ
    pub state : ResponseState
    pub small : gen < gen_mod
    pub word : s.control ≡ pack_control gen state

  abbrev KeepsWord : Option (State A) → Type 0
  KeepsWord none = Unit
  KeepsWord (some t) = HasWord t

  module _ (s : State A) (k : HasWord s) where
    -- A step beside the word.
    beside : (t : State A) → t.control ≡ s.control → HasWord t
    beside t e = record { gen = k.gen; state = k.state; small = k.small; word = e ∙ k.word }

    found-small : (g : ℕ) (a : ResponseState) → (s.control == pack_control g a) ≡ true → g < gen_mod
    found-small g a y =
        let now =
          (pack-true g k.gen k.state a (ap (λ v. v == pack_control g a) (sym k.word) ∙ y)).0 in
        omega (arith, now, k.small)

    pop-HasWord : (f : ℕ) → KeepsWord (pop f s)
    unfolding pop
    pop-HasWord zero = tt
    pop-HasWord (suc f) = beside _ refl

    send-HasWord : (n : ℕ) (b : Bool) (r : Requester A) → KeepsWord (end_send n b r s)
    unfolding end_send
    send-HasWord n true (sending g) = beside _ refl
    send-HasWord n false (sending g) = beside _ refl
    send-HasWord n true absent = tt
    send-HasWord n true popped = tt
    send-HasWord n true (loaded v) = tt
    send-HasWord n true stored = tt
    send-HasWord n true (waiting w g) = tt
    send-HasWord n true reading = tt
    send-HasWord n true (releasing o) = tt
    send-HasWord n true (finished o) = tt
    send-HasWord n false absent = tt
    send-HasWord n false popped = tt
    send-HasWord n false (loaded v) = tt
    send-HasWord n false stored = tt
    send-HasWord n false (waiting w g) = tt
    send-HasWord n false reading = tt
    send-HasWord n false (releasing o) = tt
    send-HasWord n false (finished o) = tt

    wait-HasWord :
        (n : ℕ) (t : Test) (r : Requester A)
        → KeepsWord (end_poll n t r s) × KeepsWord (end_wait n r s)
    unfolding end_poll end_wait
    wait-HasWord n t (waiting polling g) = (beside _ refl, beside _ refl)
    wait-HasWord n t (waiting weighing g) = (tt, tt)
    wait-HasWord n t (waiting from_empty g) = (tt, tt)
    wait-HasWord n t (waiting from_writing g) = (tt, tt)
    wait-HasWord n t absent = (tt, tt)
    wait-HasWord n t popped = (tt, tt)
    wait-HasWord n t (loaded v) = (tt, tt)
    wait-HasWord n t stored = (tt, tt)
    wait-HasWord n t (sending g) = (tt, tt)
    wait-HasWord n t reading = (tt, tt)
    wait-HasWord n t (releasing o) = (tt, tt)
    wait-HasWord n t (finished o) = (tt, tt)

    await-HasWord :
        (n : ℕ) (o : Option ℕ) (r : Requester A)
        → KeepsWord (end_wait_late n o r s) × KeepsWord (end_await n o r s)
    unfolding end_wait_late end_await
    await-HasWord n (some g) (finished o) = (beside _ refl, beside _ refl)
    await-HasWord n none r = (tt, tt)
    await-HasWord n (some g) absent = (tt, tt)
    await-HasWord n (some g) popped = (tt, tt)
    await-HasWord n (some g) (loaded v) = (tt, tt)
    await-HasWord n (some g) stored = (tt, tt)
    await-HasWord n (some g) (sending h) = (tt, tt)
    await-HasWord n (some g) (waiting w h) = (tt, tt)
    await-HasWord n (some g) reading = (tt, tt)
    await-HasWord n (some g) (releasing o) = (tt, tt)

    exchange-HasWord : (n g : ℕ) (old new : ResponseState) → HasWord (exchange n g old new s)
    unfolding exchange
    exchange-HasWord n g old new = elim (Bool-cases (s.control == pack_control g old)) [
      | inl y ↦ rw y (record { gen = g; state = new; small = found-small g old y; word = refl })
      | inr f ↦ rw f (beside _ refl)
    ]

    access-HasWord : (n : ℕ) (r : Requester A) → KeepsWord (next_access n r s)
    unfolding next_access
    access-HasWord n popped = beside _ refl
    access-HasWord n (loaded v) = record {
      gen = (control_gen v + 1) % gen_mod;
      state = empty;
      small = omega arith;
      word = refl;
    }
    access-HasWord n stored = beside _ refl
    access-HasWord n (waiting weighing g) = beside _ refl
    access-HasWord n (waiting from_empty g) = exchange-HasWord n g empty abandoned
    access-HasWord n (waiting from_writing g) = exchange-HasWord n g writing abandoned_writing
    access-HasWord n reading = beside _ refl
    access-HasWord n (releasing o) = beside _ refl
    access-HasWord n absent = tt
    access-HasWord n (sending g) = tt
    access-HasWord n (waiting polling g) = tt
    access-HasWord n (finished o) = tt

    begin-HasWord : (n g : ℕ) → HasWord (begin_write n g s)
    unfolding begin_write
    begin-HasWord n g = elim (Bool-cases (s.control == pack_control g empty)) [
      | inl y ↦
          rw y (record { gen = g; state = writing; small = found-small g empty y; word = refl })
      | inr f ↦ rw f (elim (Bool-cases (is_at g abandoned s.control)) [
        | inl y ↦ rw y (beside _ refl)
        | inr f' ↦ rw f' (beside _ refl)
      ])
    ]

    commit-HasWord : (n g : ℕ) → HasWord (commit_write n g s)
    unfolding commit_write
    commit-HasWord n g = elim (Bool-cases (s.control == pack_control g writing)) [
      | inl y ↦
          rw y (record { gen = g; state = ready; small = found-small g writing y; word = refl })
      | inr f ↦ rw f (beside _ refl)
    ]

    reply-HasWord : (n : ℕ) (a : A) (p : Provider) → KeepsWord (next_reply n a p s)
    unfolding next_reply
    reply-HasWord n a unsent = tt
    reply-HasWord n a (queued g) = beside _ refl
    reply-HasWord n a (at_work g) = begin-HasWord n g
    reply-HasWord n a (reserved g) = beside _ refl
    reply-HasWord n a (filled g) = commit-HasWord n g
    reply-HasWord n a handing_back = beside _ refl
    reply-HasWord n a through = tt

    cancel-HasWord : (g : ℕ) → HasWord (abandon_if_gen g s)
    unfolding abandon_if_gen
    cancel-HasWord g = elim (Bool-cases (s.control == pack_control g empty)) [
      | inl y ↦
          rw y (record { gen = g; state = abandoned; small = found-small g empty y; word = refl })
      | inr f ↦ rw f k
    ]

    mark-HasWord : (m : Option ℕ) → HasWord (mark_provider_gone m s)
    unfolding mark_provider_gone control_gen
    mark-HasWord none = elim (Bool-cases (control_state s.control == ordinal empty)) [
      | inl y ↦ rw y (beside _ refl)
      | inr f ↦ rw f k
    ]
    mark-HasWord (some v) = elim (Bool-cases (s.control == v)) [
      | inl y ↦
          rw y (record {
            gen = control_gen v;
            state = provider_gone;
            small = omega arith;
            word = refl;
          })
      | inr f ↦ rw f (beside _ refl)
    ]

  module _ (answer : ℕ → A) where
    move-HasWord : (m : Move) (s : State A) → HasWord s → KeepsWord (move answer m s)
    unfolding move
    move-HasWord claim s k = pop-HasWord s k s.free
    move-HasWord (send n b) s k = send-HasWord s k n b (s.requesters n)
    move-HasWord (poll n t) s k = (wait-HasWord s k n t (s.requesters n)).0
    move-HasWord (time_out n) s k = (wait-HasWord s k n gone_test (s.requesters n)).1
    move-HasWord (overrun n) s k = (await-HasWord s k n (s.awaits n) (s.requesters n)).0
    move-HasWord (resume n) s k = (await-HasWord s k n (s.awaits n) (s.requesters n)).1
    move-HasWord (request n) s k = access-HasWord s k n (s.requesters n)
    move-HasWord (reply n) s k = reply-HasWord s k n (answer n) (s.providers n)
    move-HasWord (cancel g) s k = cancel-HasWord s k g
    move-HasWord mark s k = mark-HasWord s k s.marker

    word_next :
        (t : State A) (o : Option (State A)) (f : State A → Option (State A))
        → KeepsWord o
        → and_then o f ≡ some t
        → ((u : State A) → HasWord u → f u ≡ some t → HasWord t)
        → HasWord t
    word_next t none f g e next = cc
    word_next t (some u) f g e next = next u g e

    run-HasWord :
        (ms : List Move) (s t : State A) → HasWord s → run_moves answer ms s ≡ some t → HasWord t
    unfolding run_moves
    run-HasWord [] s t k e = let same : s ≡ t = cc in rw (← same) k
    run-HasWord (m ∷ ms) s t k e =
        word_next t (move answer m s) (run_moves answer ms) (move-HasWord m s k) e
          (λ u g. run-HasWord ms u t g)

    pub run_moves-HasWord :
        (blank : A) (moves : List Move) (s : State A)
        → run_moves answer moves (new_slot blank) ≡ some s
        → HasWord s
    unfolding new_slot
    run_moves-HasWord blank moves s e =
        let new : HasWord (new_slot blank) = record {
          gen = 0;
          state = empty;
          small = omega arith;
          word = refl;
        } in
        run-HasWord moves (new_slot blank) s new e
