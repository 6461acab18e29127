-- ===== src/Queue/Response/Types.antt =====
-- The word of a response slot (brokers/internal/mt_queue.nim), where the requesters and the provider
-- stand in its protocol (brokers/internal/mt_request_broker.nim), and the moves of a run.
use nim_brokers.Prelude.{ℕ, ◌+◌, ◌*◌, ◌/◌, ◌%◌, Bool, ◌&&◌, ◌==◌, List, [], ◌∷◌, Option}

pub data ResponseState : Type 0 where
  empty : ResponseState
  writing : ResponseState
  ready : ResponseState
  abandoned : ResponseState
  provider_gone : ResponseState
  abandoned_writing : ResponseState

abbrev pub ordinal : ResponseState → ℕ
ordinal empty = 0
ordinal writing = 1
ordinal ready = 2
ordinal abandoned = 3
ordinal provider_gone = 5
ordinal abandoned_writing = 4

-- A word is a generation above a state; the halves do not overlap, so that `or` adds them.
unfoldable pub pack_control : ℕ → ResponseState → ℕ
pack_control gen state = gen * 4294967296 + ordinal state

unfoldable pub control_gen : ℕ → ℕ
control_gen v = v / 4294967296 % 4294967296

-- The state of a word, as its ordinal.
unfoldable pub control_state : ℕ → ℕ
control_state v = v % 256

-- The word is of this generation and in this state.
unfoldable pub is_at : ℕ → ResponseState → ℕ → Bool
unfolding control_gen control_state
is_at gen state v = control_gen v == gen && control_state v == ordinal state

-- A requester that waits is between two tests of its poll, at the load of `giveUpSlot`, or at its
-- exchange from Empty or from Writing.
pub data WaitPoint : Type 0 where
  polling : WaitPoint
  weighing : WaitPoint
  from_empty : WaitPoint
  from_writing : WaitPoint

-- Where a requester stands: before its claim; behind the pop of the slot's index, the load of the
-- old word, the store of the new one, and `slotGen`; waiting; at the read of the response; at the
-- release, and behind all, with the response if it has read one.
pub data Requester (A : Type 0) : Type 0 where
  absent : Requester A
  popped : Requester A
  loaded : ℕ → Requester A
  stored : Requester A
  sending : ℕ → Requester A
  waiting : WaitPoint → ℕ → Requester A
  reading : Requester A
  releasing : Option A → Requester A
  finished : Option A → Requester A

-- Where the provider stands with a request: not sent to it; in its ring; at work on it; behind
-- `beginWrite`, behind the write of the bytes; at the release, and behind all.
pub data Provider : Type 0 where
  unsent : Provider
  queued : ℕ → Provider
  at_work : ℕ → Provider
  reserved : ℕ → Provider
  filled : ℕ → Provider
  handing_back : Provider
  through : Provider

-- Request `n` is the n-th claim of the slot. `awaits n` is the generation that `awaitReply` holds
-- for it while it is suspended in `withTimeout`. `free` is how often the slot's index is on the
-- free-list, and `marker` the word that `markProviderGone` has loaded, if it is between its load and
-- its exchange.
pub record State (A : Type 0) : Type 0 where
  pub control : ℕ
  pub payload : A
  pub free : ℕ
  pub claims : ℕ
  pub requesters : ℕ → Requester A
  pub providers : ℕ → Provider
  pub awaits : ℕ → Option ℕ
  pub marker : Option ℕ

-- The tests of a poll: isProviderGone, isAbandoned and readyState.
pub data Test : Type 0 where
  gone_test : Test
  abandoned_test : Test
  ready_test : Test

-- `send n b` is the requester's enqueueing, which succeeds if `b`; `poll n t` one test of its poll;
-- `time_out n` is the end of `withTimeout` by its limit, with the poller still registered, and
-- `overrun n` the same when the poller has settled the request after the future was cancelled and
-- before `awaitReply` goes on; `resume n` is the end of `withTimeout` with the result. `request n` and `reply n` the next access of the requester
-- and the provider. `cancel g` comes from any thread with any generation.
pub data Move : Type 0 where
  claim : Move
  send : ℕ → Bool → Move
  poll : ℕ → Test → Move
  time_out : ℕ → Move
  overrun : ℕ → Move
  resume : ℕ → Move
  request : ℕ → Move
  reply : ℕ → Move
  cancel : ℕ → Move
  mark : Move

abbrev pub IsInTime : Move → Type 0
IsInTime (overrun n) = ⊥
IsInTime _ = Unit

-- Wherever a poller settles a request, `withTimeout` ends with the result, and not by its limit.
abbrev pub InTime : List Move → Type 0
InTime [] = Unit
InTime (m ∷ ms) = IsInTime m × InTime ms
