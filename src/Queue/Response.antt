-- ===== src/Queue/Response.antt =====
-- A response slot of brokers/internal/mt_queue.nim with the code that uses it, which is
-- brokers/internal/mt_request_broker.nim: the requester's claim of the slot, its wait, its giving up
-- and its release, the provider's reply, cancellation from any thread, and the mark that the
-- provider is gone. A run is a list of moves, each of which makes at most one access to the slot.
pub mod Types
pub mod Word
pub mod Stages
pub mod Turns
pub mod Waits
pub mod Relabel
pub mod Requesters
pub mod Arming
pub mod Release
pub mod Providers
pub mod Replies
pub mod Commits
pub mod Runs
pub mod Over
pub mod Once
pub mod Words
pub mod GiveUp
pub mod Overrun
mod Tests
use nim_brokers.Queue.Cells.{put}
unfoldable pub use Types.*
use nim_brokers.Prelude.{
  ℕ, zero, suc, ◌+◌, ◌*◌, ◌/◌, ◌%◌, Bool, true, false, ◌&&◌, ◌==◌, List, [], ◌∷◌, Option, none,
  some, and_then, if◌then◌else◌,
}

module _ {A : Type 0} where
  abbrev pub stand : ℕ → Requester A → State A → State A
  stand n r s = record s { requesters = put n r s.requesters }

  abbrev pub serve : ℕ → Provider → State A → State A
  serve n p s = record s { providers = put n p s.providers }

  abbrev pub suspend : ℕ → Option ℕ → State A → State A
  suspend n o s = record s { awaits = put n o s.awaits }

  -- The pop of the index by the next request.
  unfoldable pub pop : ℕ → State A → Option (State A)
  pop zero s = none
  pop (suc f) s = let n = suc s.claims in some (stand n popped (record s { free = f; claims = n }))

  unfoldable pub release : State A → State A
  release s = record s { free = suc s.free }

  -- The end of `sendPrologue`; none elsewhere.
  unfoldable pub end_send : ℕ → Bool → Requester A → State A → Option (State A)
  end_send n true (sending g) s =
      some (suspend n (some g) (stand n (waiting polling g) (serve n (queued g) s)))
  end_send n false (sending g) s = some (stand n (releasing none) s)
  end_send n b _ s = none

  unfoldable pub on_test : Test → ℕ → ℕ → Requester A
  unfolding is_at
  on_test gone_test g v = if is_at g provider_gone v then releasing none else waiting polling g
  on_test abandoned_test g v = if is_at g abandoned v then finished none else waiting polling g
  on_test ready_test g v = if is_at g ready v then reading else waiting polling g

  unfoldable pub end_poll : ℕ → Test → Requester A → State A → Option (State A)
  unfolding on_test
  end_poll n t (waiting polling g) s = some (stand n (on_test t g s.control) s)
  end_poll n t _ s = none

  unfoldable pub end_wait : ℕ → Requester A → State A → Option (State A)
  end_wait n (waiting polling g) s = some (suspend n none (stand n (waiting weighing g) s))
  end_wait n _ s = none

  -- `awaitReply` goes on after its limit although the poller has settled the request: `giveUp` does
  -- not ask whether it has.
  unfoldable pub end_wait_late : ℕ → Option ℕ → Requester A → State A → Option (State A)
  end_wait_late n (some g) (finished o) s = some (suspend n none (stand n (waiting weighing g) s))
  end_wait_late n _ _ s = none

  -- `awaitReply` goes on with the result.
  unfoldable pub end_await : ℕ → Option ℕ → Requester A → State A → Option (State A)
  end_await n (some g) (finished o) s = some (suspend n none s)
  end_await n _ _ s = none

  -- The load of `giveUpSlot` with the branch on what it finds.
  unfoldable pub weigh : ℕ → ℕ → Requester A
  unfolding control_gen control_state
  weigh g v =
      if control_gen v == g
      then (if control_state v == ordinal empty
          then waiting from_empty g
          else if control_state v == ordinal writing
          then waiting from_writing g
          else if control_state v == ordinal ready
          then releasing none
          else if control_state v == ordinal provider_gone
          then releasing none
          else finished none)
      else finished none

  -- The exchange of `giveUpSlot`; when it fails, the loop loads again.
  unfoldable pub exchange : ℕ → ℕ → ResponseState → ResponseState → State A → State A
  unfolding pack_control
  exchange n g old new s =
      if s.control == pack_control g old
      then stand n (finished none) (record s { control = pack_control g new })
      else stand n (waiting weighing g) s

  -- The requester's next access; none where another move is due.
  unfoldable pub next_access : ℕ → Requester A → State A → Option (State A)
  unfolding pack_control control_gen weigh exchange release
  next_access n popped s = some (stand n (loaded s.control) s)
  next_access n (loaded v) s = some (
      stand n stored (record s { control = pack_control ((control_gen v + 1) % 4294967296) empty }))
  next_access n stored s = some (stand n (sending (control_gen s.control)) s)
  next_access n (waiting weighing g) s = some (stand n (weigh g s.control) s)
  next_access n (waiting from_empty g) s = some (exchange n g empty abandoned s)
  next_access n (waiting from_writing g) s = some (exchange n g writing abandoned_writing s)
  next_access n reading s = some (stand n (releasing (some s.payload)) s)
  next_access n (releasing o) s = some (stand n (finished o) (release s))
  next_access n absent s = none
  next_access n (sending g) s = none
  next_access n (waiting polling g) s = none
  next_access n (finished o) s = none

  -- beginWrite, with what the provider does on its result.
  unfoldable pub begin_write : ℕ → ℕ → State A → State A
  unfolding pack_control is_at
  begin_write n g s =
      if s.control == pack_control g empty
      then serve n (reserved g) (record s { control = pack_control g writing })
      else if is_at g abandoned s.control
      then serve n handing_back s
      else serve n through s

  unfoldable pub commit_write : ℕ → ℕ → State A → State A
  unfolding pack_control
  commit_write n g s =
      if s.control == pack_control g writing
      then serve n through (record s { control = pack_control g ready })
      else serve n handing_back s

  -- The provider's next access for a request to which the answer is `a`; none where there is none.
  unfoldable pub next_reply : ℕ → A → Provider → State A → Option (State A)
  unfolding is_at begin_write commit_write release
  next_reply n a unsent s = none
  next_reply n a (queued g) s =
      some (serve n (if is_at g abandoned s.control then handing_back else at_work g) s)
  next_reply n a (at_work g) s = some (begin_write n g s)
  next_reply n a (reserved g) s = some (serve n (filled g) (record s { payload = a }))
  next_reply n a (filled g) s = some (commit_write n g s)
  next_reply n a handing_back s = some (serve n through (release s))
  next_reply n a through s = none

  -- abandonIfGen.
  unfoldable pub abandon_if_gen : ℕ → State A → State A
  unfolding pack_control
  abandon_if_gen g s =
      if s.control == pack_control g empty
      then record s { control = pack_control g abandoned }
      else s

  -- The access of markProviderGone to this slot: its load, then its exchange.
  unfoldable pub mark_provider_gone : Option ℕ → State A → State A
  unfolding pack_control control_gen control_state
  mark_provider_gone none s =
      if control_state s.control == ordinal empty then record s { marker = some s.control } else s
  mark_provider_gone (some v) s =
      if s.control == v
      then record s { control = pack_control (control_gen v) provider_gone; marker = none }
      else record s { marker = none }

  unfoldable pub move : (ℕ → A) → Move → State A → Option (State A)
  unfolding pop end_send end_poll end_wait end_wait_late end_await next_access next_reply
      abandon_if_gen mark_provider_gone
  move answer claim s = pop s.free s
  move answer (send n b) s = end_send n b (s.requesters n) s
  move answer (poll n t) s = end_poll n t (s.requesters n) s
  move answer (time_out n) s = end_wait n (s.requesters n) s
  move answer (overrun n) s = end_wait_late n (s.awaits n) (s.requesters n) s
  move answer (resume n) s = end_await n (s.awaits n) (s.requesters n) s
  move answer (request n) s = next_access n (s.requesters n) s
  move answer (reply n) s = next_reply n (answer n) (s.providers n) s
  move answer (cancel g) s = some (abandon_if_gen g s)
  move answer mark s = some (mark_provider_gone s.marker s)

  -- The answers of the provider are by request. None if a move is not possible where it is made.
  unfoldable pub run_moves : (ℕ → A) → List Move → State A → Option (State A)
  unfolding move
  run_moves answer [] s = some s
  run_moves answer (m ∷ ms) s = and_then (move answer m s) (λ s'. run_moves answer ms s')

  -- The slot as initResponseSlotPool leaves it.
  unfoldable pub new_slot : A → State A
  unfolding pack_control
  new_slot blank = record {
    control = pack_control 0 empty;
    payload = blank;
    free = 1;
    claims = 0;
    requesters = λ n. absent;
    providers = λ n. unsent;
    awaits = λ n. none;
    marker = none;
  }
