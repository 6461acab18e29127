-- ===== src/Persist/Client.antt =====
-- examples/persistence/cpp_example/main.cpp: waitFor and roundtrip, in a build that has
-- assertions. An event is handled after a number of the client's pauses.
pub mod Roundtrip
pub mod Program
pub mod Scenarios
use nim_brokers.Prelude.{
  ℕ, zero, suc, ◌+◌, ◌/◌, ◌==◌, ltb, ℤ, pos, Bool, true, false, not, ◌&&◌, Option, none, some, List,
  [], ◌∷◌, ◌++◌, Bytes, codes, str_eq, length, if◌then◌else◌,
}
use nim_brokers.Client.{Step, next, stop, crash, M, ◌>>=◌, ◌>>◌, pure, fail, assert}
use nim_brokers.Context.{BrokerContext, class_ctx}
use nim_brokers.Persist.Server.{
  Server, create_context, make_backend, list_backends, terminate_backend, store, read, shutdown,
  close, at_start,
}

abbrev pub kind_memory : ℤ
kind_memory = pos 0

abbrev pub kind_file : ℤ
kind_file = pos 1

-- An event of a backend or of the facade with this context.
pub data Event : Type 0 where
  read_completed : BrokerContext → Option Bytes → Event
  backend_created : BrokerContext → Event

pub record ReadSink : Type 0 where
  pub value : Bytes
  pub found : Bool
  pub count : ℕ

abbrev pub no_reads : ReadSink
no_reads = record { value = []; found = false; count = 0 }

-- The server, the events under way with the pauses to come, the contexts that the callbacks are
-- registered at, what they write to, and how many events have been sent.
pub record World : Type 0 where
  pub server : Server
  pub under_way : List (ℕ × Event)
  pub reading : Option BrokerContext
  pub sink : ReadSink
  pub creating : Option BrokerContext
  pub created : ℕ
  pub sent : ℕ

abbrev pub is_at : Option BrokerContext → BrokerContext → Bool
is_at none c = false
is_at (some b) c = b == c

abbrev pub set : Option Bytes → ReadSink → ReadSink
set none s = record { value = []; found = false; count = s.count + 1 }
set (some v) s = record { value = v; found = true; count = s.count + 1 }

abbrev handle : Event → World → World
handle (read_completed b r) w = if is_at w.reading b then record w { sink = set r w.sink } else w
handle (backend_created p) w =
    if is_at w.creating p then record w { created = w.created + 1 } else w

abbrev pub post : ℕ → Event → World → World
post zero e w = handle e w
post (suc d) e w = record w { under_way = (suc d, e) ∷ w.under_way }

abbrev later : List (ℕ × Event) → World → World
later [] w = w
later ((zero, e) ∷ es) w = handle e (later es w)
later ((suc d, e) ∷ es) w = post d e (later es w)

abbrev pub pause : World → World
pause w = later w.under_way (record w { under_way = [] })

-- The loop of waitFor, with so many pauses before the deadline.
abbrev pub wait : (World → Bool) → ℕ → World → World
wait done zero w = w
wait done (suc n) w = let rest = wait done n (pause w) in if done w then w else rest

-- How many pauses pass before the n-th event is handled, and how many waitFor makes.
pub record Timing : Type 0 where
  pub delay : ℕ → ℕ
  pub polls : ℕ

abbrev pub wait_for : Timing → (World → Bool) → M World Bool
wait_for t done w = let w' = wait done t.polls w in next (done w') w'

abbrev sent_on : Event → ℕ → World → World
sent_on e d w = post d e (record w { sent = w.sent + 1 })

abbrev pub send : Timing → Event → M World (Unit {0})
send t e w = next tt (sent_on e (t.delay w.sent) w)

abbrev pub taken : {A : Type 0} → World → Option (A × Server) → Step World A
taken w none = crash
taken w (some (a, s)) = next a (record w { server = s })

abbrev pub on_read_completed : BrokerContext → M World (Unit {0})
on_read_completed b w = next tt (record w { reading = some b; sink = no_reads })

abbrev pub off_read_completed : M World (Unit {0})
off_read_completed w = next tt (record w { reading = none })

abbrev pub asserted : World → Option Server → Step World (Unit {0})
asserted w none = crash
asserted w (some s) = next tt (record w { server = s })

abbrev pub store_at : BrokerContext → Bytes → Bytes → M World (Unit {0})
store_at b key value w = asserted w (store b key value w.server)

-- The result goes out as an event of the backend.
abbrev pub accepted : Timing → BrokerContext → Option (Option Bytes) → M World (Unit {0})
accepted t b none = fail
accepted t b (some r) = send t (read_completed b r)

abbrev pub read_at : Timing → BrokerContext → Bytes → M World (Unit {0})
read_at t b key w = accepted t b (read b key w.server) w

abbrev pub count : M World ℕ
count w = next w.sink.count w

abbrev pub more_than : ℕ → World → Bool
more_than n w = ltb n w.sink.count

abbrev pub found_value : M World Bytes
found_value w = if w.sink.found then next w.sink.value w else crash

unfoldable pub roundtrip : Timing → BrokerContext → Bytes → Bytes → M World Bytes
roundtrip t b key value = do
  on_read_completed b
  store_at b key value
  before ← count
  read_at t b key
  ok ← wait_for t (more_than before)
  assert ok
  off_read_completed
  found_value
