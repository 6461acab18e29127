-- ===== src/Torpedo/Session.antt =====
-- `main` of examples/torpedo/cpp_example/main.cpp, with `registerCallbacks` and
-- `unregisterCallbacks`. The library behind the generated torpedolib.hpp, the keyboard and the
-- threads that run the listeners are one parameter, `Library`: what they do may depend on all that
-- the client has done so far, which is the trace of events, newest first.
pub mod Setup
pub mod Rounds
pub mod Main
pub mod Listeners
pub mod Kept
pub mod Attached
pub mod Ending
pub mod Detach
pub mod Cleanup
use nim_brokers.Prelude.{ℕ, ℤ, Option, none, some, List, [], ◌∷◌, Bytes}
use nim_brokers.Torpedo.EventLog.{EventLog}
use nim_brokers.Torpedo.Status.{PublicBoard}

pub data Side : Type 0 where
  red blue : Side

pub data Kind : Type 0 where
  remark shot match volley : Kind

-- A call and how it ended: `none` is success, `some e` an error.
pub data Event : Type 0 where
  created : Side → Option Bytes → Event
  listened : Side → Kind → ℕ → Event
  initialized : Side → Bytes → ℤ → Bytes → ℤ → ℕ → Option Bytes → Event
  placed : Side → Option Bytes → Event
  linked : Side → ℕ → Option Bytes → Event
  started : Side → Option Bytes → Event
  raw_terminal : Event
  key_read : ℕ → Event
  viewed : Side → Event
  drawn : Bytes → Event
  last_read : Bytes → Event
  slept : ℕ → Event
  restored : Event
  unlistened : Side → Kind → ℕ → Event
  shut_down : Side → Event

abbrev pub Trace : Type 0
Trace = List Event

pub data Answer {ℓ} (A : Type ℓ) : Type ℓ where
  ok : A → Answer A
  error : Bytes → Answer A

-- `arrived` is what the listeners have pushed into the log since it was last read.
pub record Library : Type 0 where
  pub create_context : Trace → Side → Option Bytes
  pub listen : Trace → Side → Kind → ℕ
  pub initialize_captain : Trace → Side → Option Bytes
  pub auto_place_fleet : Trace → Side → Answer ℤ
  pub ctx : Side → ℕ
  pub link_opponent : Trace → Side → Option Bytes
  pub start_game : Trace → Side → Option Bytes
  pub get_public_board : Trace → Side → Answer PublicBoard
  pub key_pressed : Trace → ℕ
  pub arrived : Trace → List Bytes

pub record State : Type 0 where
  pub trace : Trace
  pub log : EventLog
  pub banner : Bytes

-- `stop n` is `return n` from `main`. `crash` is undefined behaviour or an exception that nobody
-- catches, `running` a loop that has used its fuel.
pub data Step {ℓ} (A : Type ℓ) : Type ℓ where
  next : A → State → Step A
  stop : ℕ → State → Step A
  crash : Step A
  running : Step A

abbrev pub M : Type 0 → Type 0
M A = State → Step A

abbrev pub bind_step : {A B : Type 0} → Step A → (A → M B) → Step B
bind_step (next a s) f = f a s
bind_step (stop n s) f = stop n s
bind_step crash f = crash
bind_step running f = running

infixl 5 ◌>>=◌ ◌>>◌
unfoldable pub ◌>>=◌ : {A B : Type 0} → M A → (A → M B) → M B
◌>>=◌ m f s = bind_step (m s) f

abbrev pub ◌>>◌ : {A B : Type 0} → M A → M B → M B
m >> n = m >>= λ _. n

abbrev pub pure : {A : Type 0} → A → M A
pure a s = next a s

abbrev pub emit : Event → M (Unit {0})
emit e s = next tt (record s { trace = e ∷ s.trace })

-- The event of a call that may fail; a failure is printed and `main` returns 1.
abbrev pub checked : Event → Option Bytes → M (Unit {0})
checked e none s = next tt (record s { trace = e ∷ s.trace })
checked e (some err) s = stop 1 (record s { trace = e ∷ s.trace })

pub record Handles : Type 0 where
  pub remark : ℕ
  pub shot : ℕ
  pub match : ℕ
  pub volley : ℕ

-- How a round of the loop ends: by another round, or by `break` with the exit code.
pub data Verdict : Type 0 where
  again : Verdict
  done : ℕ → Verdict

pub data Exit : Type 0 where
  exited : ℕ → Trace → Exit
  crashed : Exit
  unfinished : Exit

abbrev pub leave : Step ℕ → Exit
leave (next code s) = exited code (shut_down red ∷ shut_down blue ∷ s.trace)
leave (stop code s) = exited code (shut_down red ∷ shut_down blue ∷ s.trace)
leave crash = crashed
leave running = unfinished
