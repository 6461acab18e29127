-- ===== src/Monitor/Cpp/Async.antt =====
-- The asynchronous queries of `main` in examples/ffiapi/cpp_example/main.cpp. The main thread and the
-- library's delivery thread share the counter `pending`; a run is a list of the moves of both, and
-- each access to the counter is a move of its own. The timeout that the calls are given is not
-- modelled: a callback may run at any time after its call, so that a run of the program is one of the
-- model's.
pub mod Counter
use nim_brokers.Prelude.{
  ℕ, zero, suc, ◌+◌, ℤ, pos, negsuc, ◌+ℤ◌, Bool, true, false, ltb, ltb_ℤ, List, [], ◌∷◌, Option,
  none, some, and_then, if◌then◌else◌,
}

-- Mylib::asyncAgain.
abbrev pub async_again : ℤ
async_again = negsuc 5

-- Where the main thread stands: at a call to come for the first id, behind the increment, behind
-- the call with its status, in the loop that waits after so many pauses, behind the block after so
-- many.
pub data Phase : Type 0 where
  at_call : List ℤ → Phase
  counted : ℤ → List ℤ → Phase
  called : ℤ → ℤ → List ℤ → Phase
  waiting : ℕ → Phase
  left : ℕ → Phase

-- `in_flight` is how many callbacks the library owes.
pub record State : Type 0 where
  pub phase : Phase
  pub pending : ℤ
  pub in_flight : ℕ

-- `step` is the next action of the main thread but for the library's answer to a call, which is
-- `answer`; `fire` is the run of a callback on the delivery thread.
pub data Move : Type 0 where
  step : Move
  answer : ℤ → Move
  fire : Move

abbrev pub is_zero : ℤ → Bool
is_zero (pos zero) = true
is_zero (pos (suc n)) = false
is_zero (negsuc n) = false

abbrev pub is_again : ℤ → Bool
is_again (negsuc (suc (suc (suc (suc (suc zero)))))) = true
is_again _ = false

abbrev pub add_pending : ℤ → State → State
add_pending d s = record s { pending = s.pending +ℤ d }

-- After the call: the roll-back of a call that was not queued, and the loop's condition.
abbrev pub after_call : ℤ → ℤ → List ℤ → State → State
after_call rc q qs s =
    if is_zero rc
    then record s { phase = at_call qs }
    else if is_again rc
    then add_pending (negsuc 0) (record s { phase = at_call (q ∷ qs) })
    else add_pending (negsuc 0) (record s { phase = at_call qs })

-- The main thread's own step; none where it waits for an answer or is through.
abbrev pub advance : Phase → State → Option State
advance (at_call []) s = some (record s { phase = waiting 0 })
advance (at_call (q ∷ qs)) s = some (add_pending (pos 1) (record s { phase = counted q qs }))
advance (counted q qs) s = none
advance (called rc q qs) s = some (after_call rc q qs s)
advance (waiting n) s = some (
    if ltb_ℤ (pos 0) s.pending
    then (if ltb n 500 then record s { phase = waiting (suc n) } else record s { phase = left n })
    else record s { phase = left n })
advance (left n) s = none

-- A call that returns 0 is queued, and its callback will run.
abbrev pub accept : ℤ → ℕ → ℕ
accept rc n = if is_zero rc then suc n else n

abbrev pub answered : ℤ → Phase → State → Option State
answered rc (counted q qs) s =
    some (record s { phase = called rc q qs; in_flight = accept rc s.in_flight })
answered rc _ s = none

abbrev pub fired : ℕ → State → Option State
fired zero s = none
fired (suc n) s = some (add_pending (negsuc 0) (record s { in_flight = n }))

abbrev pub move : Move → State → Option State
move step s = advance s.phase s
move (answer rc) s = answered rc s.phase s
move fire s = fired s.in_flight s

-- None if a move is not possible where it is made.
unfoldable pub run_moves : List Move → State → Option State
run_moves [] s = some s
run_moves (m ∷ ms) s = and_then (move m s) (λ s'. run_moves ms s')

abbrev pub queries : List ℤ → State
queries ids = record { phase = at_call ids; pending = pos 0; in_flight = 0 }
