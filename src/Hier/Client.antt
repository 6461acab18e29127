-- ===== src/Hier/Client.antt =====
-- `main` of examples/ffiapi/hierlib/cpp_example/main.cpp, in a build that has assertions. What is sent
-- one way, a signal or an event, is handled after a number of the client's pauses.
use nim_brokers.Prelude.{
  ℕ, zero, suc, ◌==◌, ℤ, pos, negsuc, eq_ℤ, ltb_ℤ, Bool, true, false, not, List, [], ◌∷◌, Bytes,
  codes, if◌then◌else◌,
}
use nim_brokers.Client.{Answer, ok, error, Step, next, M, ◌>>=◌, ◌>>◌, pure, fail, assert}
use nim_brokers.Hier.Impl.{
  Server, setup_providers, get_value, echo_len, on_nudge_signal, initialize_request, make_widget,
  fire_tick, area, scale, on_resize_signal, release,
}

-- How many pauses pass before each of the one-way messages is handled, and how many a loop makes
-- before its deadline.
pub record Timing : Type 0 where
  pub nudge_delay : ℕ
  pub nudge_polls : ℕ
  pub tick_delay : ℕ
  pub tick_polls : ℕ
  pub resize_delay : ℕ
  pub resize_polls : ℕ

pub data Message : Type 0 where
  nudge : ℤ → Message
  tick : ℤ → Message
  resize : ℕ → ℤ → Message

-- The server, the messages under way with the pauses to come, whether the callback of Tick is
-- registered, and the variable that it writes to.
pub record World : Type 0 where
  pub server : Server
  pub under_way : List (ℕ × Message)
  pub listening : Bool
  pub received : ℤ
  pub out : List Bytes

abbrev handle : Message → World → World
handle (nudge by) w = record w { server = on_nudge_signal by w.server }
handle (tick n) w = if w.listening then record w { received = n } else w
handle (resize i delta) w = record w { server = on_resize_signal i delta w.server }

abbrev pub post : ℕ → Message → World → World
post zero m w = handle m w
post (suc d) m w = record w { under_way = (suc d, m) ∷ w.under_way }

abbrev later : List (ℕ × Message) → World → World
later [] w = w
later ((zero, m) ∷ ms) w = handle m (later ms w)
later ((suc d, m) ∷ ms) w = post d m (later ms w)

abbrev pub pause : World → World
pause w = later w.under_way (record w { under_way = [] })

-- `while (busy && now < deadline) sleep`, with so many sleeps before the deadline.
abbrev pub wait : (World → Bool) → ℕ → World → World
wait busy zero w = w
wait busy (suc n) w = let rest = wait busy n (pause w) in if busy w then rest else w

abbrev answered : {A : Type 0} → World → A × Server → Step World A
answered w (a, s) = next a (record w { server = s })

abbrev ask : {A : Type 0} → (Server → A × Server) → M World A
ask call w = answered w (call w.server)

abbrev is_ok : {A : Type 0} → Answer A → Bool
is_ok (ok a) = true
is_ok (error e) = false

-- `value()`, which needs a result without an error.
abbrev value : {A : Type 0} → Answer A → M World A
value (ok a) = pure a
value (error e) = fail

abbrev is_value : ℤ → Answer ℤ → Bool
is_value n (ok m) = eq_ℤ m n
is_value n (error e) = false

-- `assert(call.value() == n)`.
abbrev expect : ℤ → (Server → Answer ℤ × Server) → M World (Unit {0})
expect n call = ask call >>= value >>= λ m. assert (eq_ℤ m n)

abbrev send : ℕ → Message → M World (Unit {0})
send d m w = next tt (post d m w)

abbrev wait_for : (World → Bool) → ℕ → M World (Unit {0})
wait_for busy n w = next tt (wait busy n w)

abbrev pub set_up : M World (Unit {0})
set_up = do
  c ← ask (initialize_request (codes "cfg"))
  assert (is_ok c)
  expect (pos 7) get_value
  expect (pos 4) (echo_len (codes "abcd"))

abbrev pub value_is : ℤ → World → Bool
value_is n w = is_value n (get_value w.server).0

abbrev pub area_is : ℕ → ℤ → World → Bool
area_is i n w = is_value n (area i w.server).0

unfoldable pub nudge_value : Timing → M World (Unit {0})
nudge_value t = do
  send t.nudge_delay (nudge (pos 10))
  wait_for (value_is (pos 7)) t.nudge_polls
  expect (pos 17) get_value

-- Gives a handle.
abbrev pub on_tick : M World ℕ
on_tick w = next 1 (record w { listening = true })

abbrev pub off_tick : M World (Unit {0})
off_tick w = next tt (record w { listening = false })

abbrev pub nothing_received : World → Bool
nothing_received w = ltb_ℤ w.received (pos 0)

abbrev assert_received : ℤ → M World (Unit {0})
assert_received n w = assert (eq_ℤ w.received n) w

unfoldable pub receive_tick : Timing → M World (Unit {0})
receive_tick t = do
  h ← on_tick
  assert (not (h == 0))
  send t.tick_delay (tick (pos 99))
  expect (pos 99) (fire_tick (pos 99))
  wait_for nothing_received t.tick_polls
  assert_received (pos 99)
  off_tick

abbrev pub make : ℤ → M World ℕ
make size = ask (make_widget size) >>= value

abbrev pub first_widget : M World ℕ
first_widget = do
  i ← make (pos 5)
  assert (not (i == 0))
  expect (pos 25) (area i)
  expect (pos 15) (scale i (pos 3))
  expect (pos 225) (area i)
  pure i

abbrev pub resize_widget : Timing → ℕ → M World (Unit {0})
resize_widget t i = do
  send t.resize_delay (resize i (pos 5))
  wait_for (area_is i (pos 225)) t.resize_polls
  expect (pos 400) (area i)

-- A widget that is closed keeps its instance, and is released once.
abbrev pub close : ℕ → M World (Unit {0})
close i w = next tt (record w { server = release i w.server })

abbrev expect_error : ℕ → M World (Unit {0})
expect_error i = do r ← ask (area i); assert (not (is_ok r))

abbrev pub close_widgets : ℕ → M World (Unit {0})
close_widgets i = do
  j ← make (pos 2)
  expect (pos 4) (area j)
  close i
  close i
  expect_error i
  close j

unfoldable pub use_widgets : Timing → M World (Unit {0})
use_widgets t = do i ← first_widget; resize_widget t i; close_widgets i

abbrev pub say : Bytes → M World (Unit {0})
say text w = next tt (record w { out = text ∷ w.out })

abbrev pub shutdown : M World (Unit {0})
shutdown w = next tt (record w { under_way = []; listening = false })

unfoldable pub main : Timing → M World ℕ
main t = do
  say (codes "hierlib version: 0.1.0")
  set_up
  nudge_value t
  receive_tick t
  use_widgets t
  shutdown
  say (codes "hierlib cpp example: OK")
  pure 0

abbrev pub at_start : World
at_start = record {
  server = setup_providers;
  under_way = [];
  listening = false;
  received = negsuc 0;
  out = [];
}
