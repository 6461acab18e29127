-- ===== src/Persist/Client/Program.antt =====
-- examples/persistence/cpp_example/main.cpp: the scenarios A and B, and main.
use nim_brokers.Prelude.{
  ℕ, ◌/◌, ◌==◌, ℤ, Bool, true, false, not, ◌&&◌, Option, none, some, List, [], ◌∷◌, Bytes, codes,
  str_eq, length, if◌then◌else◌,
}
use nim_brokers.Client.{Step, next, crash, M, ◌>>=◌, ◌>>◌, pure, assert}
use nim_brokers.Context.{BrokerContext, class_ctx}
use nim_brokers.Persist.Server.{
  Server, create_context, make_backend, list_backends, terminate_backend, store, shutdown, close,
  at_start,
}
use nim_brokers.Persist.Client.{
  kind_memory, kind_file, no_reads, World, is_at, Timing, wait_for, send, taken, asserted,
  roundtrip, backend_created,
}

abbrev pub create : M World BrokerContext
create w = taken w (create_context w.server)

abbrev pub make : BrokerContext → ℤ → M World BrokerContext
make p kind w = taken w (make_backend p kind w.server)

-- The event of the facade, which goes out if a callback is registered for it.
abbrev pub emit_created : Timing → BrokerContext → M World (Unit {0})
emit_created t p w = if is_at w.creating p then send t (backend_created p) w else next tt w

abbrev pub make_backend_at : Timing → BrokerContext → ℤ → M World BrokerContext
make_backend_at t p kind = do b ← make p kind; emit_created t p; pure b

abbrev pub shut_down : BrokerContext → M World (Unit {0})
shut_down p w = next tt (record w { server = shutdown p w.server })

abbrev pub expect_roundtrip : Timing → BrokerContext → Bytes → Bytes → M World (Unit {0})
expect_roundtrip t b key value = do v ← roundtrip t b key value; assert (str_eq v value)

unfoldable pub scenario_two_contexts : Timing → M World (Unit {0})
scenario_two_contexts t = do
  p_file ← create
  bf ← make_backend_at t p_file kind_file
  assert (not (bf == 0))
  expect_roundtrip t bf (codes "alpha") (codes "file-payload")
  p_mem ← create
  bm ← make_backend_at t p_mem kind_memory
  assert (not (bm == 0))
  expect_roundtrip t bm (codes "alpha") (codes "memory-payload")
  assert (not (class_ctx bf == class_ctx bm))
  shut_down p_file
  shut_down p_mem

abbrev pub on_backend_created : BrokerContext → M World (Unit {0})
on_backend_created p w = next tt (record w { creating = some p; created = 0 })

abbrev pub off_backend_created : M World (Unit {0})
off_backend_created w = next tt (record w { creating = none })

abbrev pub two_created : World → Bool
two_created w = w.created == 2

-- Both backends of a facade, and its BackendCreated events.
unfoldable pub make_both : Timing → BrokerContext → M World (BrokerContext × BrokerContext)
make_both t p = do
  on_backend_created p
  bf ← make_backend_at t p kind_file
  bm ← make_backend_at t p kind_memory
  ok ← wait_for t two_created
  assert ok
  off_backend_created
  pure (bf, bm)

abbrev pub all_alive : List (BrokerContext × ℤ × Bool) → Bool
all_alive [] = true
all_alive ((h, kind, alive) ∷ rest) = alive && all_alive rest

-- The last entry with this handle, with its `alive` or not, as the loop leaves it.
abbrev pub state_of : BrokerContext → (Bool → Bool) → Bool → List (BrokerContext × ℤ × Bool) → Bool
state_of b f known [] = known
state_of b f known ((h, kind, alive) ∷ rest) = state_of b f (if h == b then f alive else known) rest

abbrev pub items : BrokerContext → M World (List (BrokerContext × ℤ × Bool))
items p w = next (list_backends p w.server.backends) w

abbrev pub terminate : BrokerContext → BrokerContext → M World (Unit {0})
terminate p b w = asserted w (terminate_backend p b w.server)

abbrev pub refused : World → Option Server → Step World (Unit {0})
refused w none = next tt w
refused w (some s) = crash

abbrev pub expect_refused : BrokerContext → Bytes → Bytes → M World (Unit {0})
expect_refused b key value w = refused w (store b key value w.server)

abbrev pub close_backend : BrokerContext → M World (Unit {0})
close_backend b w =
    next tt (record w { server = record w.server { backends = close b w.server.backends } })

abbrev pub assert_contexts : BrokerContext → BrokerContext → BrokerContext → M World (Unit {0})
assert_contexts p bf bm = do
  assert (class_ctx bf == class_ctx p)
  assert (class_ctx bm == class_ctx p)
  assert (not (bf / 65536 == bm / 65536))
  assert (not (bf == bm))

abbrev pub assert_alive : BrokerContext → M World (Unit {0})
assert_alive p = do st ← items p; assert (length st == 2); assert (all_alive st)

abbrev pub assert_terminated : BrokerContext → BrokerContext → BrokerContext → M World (Unit {0})
assert_terminated p bf bm = do
  st ← items p
  assert (state_of bf not false st)
  assert (state_of bm (λ alive. alive) false st)

unfoldable pub scenario_mixed_one_context : Timing → M World (Unit {0})
scenario_mixed_one_context t = do
  p ← create
  both ← make_both t p
  assert_contexts p both.0 both.1
  expect_roundtrip t both.0 (codes "x") (codes "FILE-X")
  expect_roundtrip t both.1 (codes "x") (codes "MEM-X")
  assert_alive p
  terminate p both.0
  assert_terminated p both.0 both.1
  expect_refused both.0 (codes "y") (codes "z")
  expect_roundtrip t both.1 (codes "y") (codes "MEM-Y")
  close_backend both.0
  shut_down p

-- The program, without its third scenario.
unfoldable pub run : Timing → M World ℕ
run t = do scenario_two_contexts t; scenario_mixed_one_context t; pure 0

abbrev pub start : World
start = record {
  server = at_start;
  under_way = [];
  reading = none;
  sink = no_reads;
  creating = none;
  created = 0;
  sent = 0;
}
