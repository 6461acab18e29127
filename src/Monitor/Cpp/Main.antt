-- ===== src/Monitor/Cpp/Main.antt =====
-- `main` of examples/ffiapi/cpp_example/main.cpp.
pub mod Unguarded
pub mod Quiet
pub mod Verified
use nim_brokers.Prelude.{
  ℕ, zero, suc, ℤ, pos, eq_ℤ, Bool, true, false, ◌&&◌, ◌==◌, not, Option, none, some, List, [], ◌∷◌,
  ◌++◌, Bytes, codes, dec, dec_int, length, get_elem?, if◌then◌else◌,
}
use nim_brokers.Client.{
  Answer, ok, error, Step, next, stop, crash, running, M, ◌>>=◌, ◌>>◌, pure, return, for_each,
}
use nim_brokers.Monitor.Types.{
  Library, DeviceInfo, Configured, Reading, EventKind, device_discovered, device_status_changed,
  device_batch, sensor_alert,
}
use nim_brokers.Monitor.Format.{newline, em_dash, hex8, fixed2, yes_no}
use nim_brokers.Monitor.Cpp.{World, Handles, no_handles, Line, say, complain, ask, tell, sleep}
use nim_brokers.Monitor.Cpp.Async.{Move}
use nim_brokers.Monitor.Cpp.Queries.{
  add_fleet, inventory, async_queries, future_queries, query_one, type_demos, remove_two,
  device_row,
}

-- Not `rb->count != 2 || rb->deviceId != 42 || rb->value != 7.25`.
abbrev pub is_second : Reading → Bool
is_second r = eq_ℤ r.count (pos 2) && eq_ℤ r.device_id (pos 42) && eq_ℤ r.value (pos 725)

module _ {S : Type 0} where
  abbrev pub created : Answer ℕ → M (World S) (Unit {0})
  created (error e) = do complain (codes "FATAL: " ∷ e ∷ newline ∷ []); return 1
  created (ok ctx) = say (codes "Library context: 0x" ∷ hex8 ctx ∷ newline ∷ newline ∷ [])

  abbrev pub create : Library S → M (World S) (Unit {0})
  create lib = do
    say (
        codes "=== Device Monitor "
        ∷ em_dash
        ∷ codes " Modern C++ Example ==="
        ∷ newline
        ∷ newline
        ∷ [])
    r ← ask lib.create_context
    created r

  abbrev pub subscribe : Library S → M (World S) Handles
  subscribe lib = do
    say (codes "--- Subscribing to events ---" ∷ newline ∷ [])
    disc ← ask (lib.on device_discovered)
    status ← ask (lib.on device_status_changed)
    batch ← ask (lib.on device_batch)
    alert ← ask (lib.on sensor_alert)
    say (codes "  SensorAlert handle: " ∷ dec alert ∷ newline ∷ [])
    status2 ← ask (lib.on device_status_changed)
    say (
        codes "  Handles: discovered="
        ∷ dec disc
        ∷ codes "  status="
        ∷ dec status
        ∷ codes "  status2="
        ∷ dec status2
        ∷ codes "  batch="
        ∷ dec batch
        ∷ newline
        ∷ newline
        ∷ [])
    pure (record { disc = disc; status = status; batch = batch; alert = alert; status2 = status2 })

  abbrev pub configured : Answer Configured → M (World S) (Unit {0})
  configured (error e) = do complain (codes "Initialize error: " ∷ e ∷ newline ∷ []); return 1
  configured (ok c) = say (
      codes "  config="
      ∷ c.config_path
      ∷ codes "  initialized="
      ∷ yes_no c.initialized
      ∷ newline
      ∷ newline
      ∷ [])

  abbrev pub configure : Library S → M (World S) (Unit {0})
  configure lib = do
    say (codes "--- Configuring library ---" ∷ newline ∷ [])
    r ← ask (lib.initialize (codes "/opt/devices.yaml"))
    configured r

  abbrev pub drop_first_listener : Library S → Handles → M (World S) (Unit {0})
  drop_first_listener lib h = do
    say (codes "--- Removing first status listener (keeping logger) ---" ∷ newline ∷ [])
    tell (lib.off device_status_changed h.status)
    say (codes "  Removed handle " ∷ dec h.status ∷ newline ∷ newline ∷ [])

  abbrev pub one_removed : ℤ → Answer Bool → M (World S) (Unit {0})
  one_removed id (error e) = pure tt
  one_removed id (ok success) = say (codes "  Removed id=" ∷ dec_int id ∷ newline ∷ [])

  abbrev pub remove_second : Library S → Option ℤ → M (World S) (Unit {0})
  remove_second lib none = pure tt
  remove_second lib (some id) = do r ← ask (lib.remove_device id); one_removed id r

  -- Guarded by `ids.size() > 1`.
  abbrev pub remove_one : Library S → Handles → List ℤ → M (World S) (Unit {0})
  remove_one lib h ids = do
    say (codes "--- Removing one more device (only logger active) ---" ∷ newline ∷ [])
    remove_second lib (get_elem? ids 1)
    sleep lib h 200
    say (newline ∷ [])

  abbrev pub remaining : Answer (List DeviceInfo) → M (World S) (Unit {0})
  remaining (error e) = pure tt
  remaining (ok devices) = do
    say (codes "  Count: " ∷ dec (length devices) ∷ newline ∷ [])
    for_each devices (λ d. say (codes "  " ∷ device_row d))

  abbrev pub list_remaining : Library S → M (World S) (Unit {0})
  list_remaining lib = do
    say (codes "--- Remaining devices ---" ∷ newline ∷ [])
    r ← ask lib.list_devices
    remaining r
    say (newline ∷ [])

  abbrev pub fatal : {A : Type 0} → Bytes → M (World S) A
  fatal text = do complain (codes "FATAL: " ∷ text ∷ newline ∷ []); return 1

  abbrev pub ingested : Answer (Unit {0}) → M (World S) (Unit {0})
  ingested (ok done) = pure tt
  ingested (error e) = fatal (codes "ingestReading: " ++ e)

  abbrev pub read_back : Answer Reading → M (World S) (Unit {0})
  read_back (error e) = fatal (codes "lastReading: " ++ e)
  read_back (ok r) = do
    say (
        codes "  LastReading: deviceId="
        ∷ dec_int r.device_id
        ∷ codes " value="
        ∷ fixed2 r.value
        ∷ codes " count="
        ∷ dec_int r.count
        ∷ newline
        ∷ [])
    if is_second r
        then say (codes "  Signal round-trip verified." ∷ newline ∷ newline ∷ [])
        else fatal (codes "signal round-trip mismatch")

  abbrev pub fire_signals : Library S → Handles → M (World S) (Unit {0})
  fire_signals lib h = do
    say (codes "--- Firing IngestReading signals (one-way, slot-free) ---" ∷ newline ∷ [])
    s1 ← ask (lib.ingest_reading (pos 42) (pos 350))
    ingested s1
    s2 ← ask (lib.ingest_reading (pos 42) (pos 725))
    ingested s2
    sleep lib h 50
    rb ← ask lib.last_reading
    read_back rb

  abbrev pub unsubscribe : Library S → Handles → M (World S) (Unit {0})
  unsubscribe lib h = do
    say (codes "--- Unsubscribing all ---" ∷ newline ∷ [])
    tell (lib.off device_discovered 0)
    tell (lib.off sensor_alert 0)
    tell (lib.off device_batch h.batch)
    tell (lib.off device_status_changed 0)
    say (codes "  All event listeners removed." ∷ newline ∷ newline ∷ [])

  abbrev pub summary : M (World S) (Unit {0})
  summary w =
      say
        (codes "  Total discovery events received: "
          ∷ dec w.discovery_count
          ∷ newline
          ∷ codes "  Total status events received: "
          ∷ dec w.status_count
          ∷ newline
          ∷ newline
          ∷ codes "  Total batch events received:    "
          ∷ dec w.batch_count
          ∷ newline
          ∷ newline
          ∷ codes "--- Shutting down (RAII) ---"
          ∷ newline
          ∷ newline
          ∷ codes "=== Modern C++ example complete ==="
          ∷ newline
          ∷ [])
        w

  -- From the fleet to the end.
  unfoldable pub monitor : Library S → List Move → Handles → M (World S) ℕ
  monitor lib moves h = do
    ids ← add_fleet lib
    sleep lib h 300
    say (newline ∷ [])
    inventory lib ids
    async_queries moves ids
    future_queries lib ids
    query_one lib ids
    type_demos lib h ids
    remove_two lib h ids
    drop_first_listener lib h
    remove_one lib h ids
    list_remaining lib
    fire_signals lib h
    unsubscribe lib h
    summary
    pure 0

  unfoldable pub body : Library S → List Move → M (World S) ℕ
  unfolding monitor
  body lib moves = do create lib; h ← subscribe lib; configure lib; monitor lib moves h

  abbrev pub at_start : S → World S
  at_start s = record { lib = s; out = []; discovery_count = 0; status_count = 0; batch_count = 0 }

-- The destructor shuts the library down, whichever way `main` returns.
pub data Exit (S : Type 0) : Type 0 where
  exited : ℕ → World S → Exit S
  crashed : Exit S
  unfinished : Exit S

abbrev pub destroy : {S : Type 0} → Library S → Step (World S) ℕ → Exit S
destroy lib (next code w) = exited code (record w { lib = lib.shutdown w.lib })
destroy lib (stop code w) = exited code (record w { lib = lib.shutdown w.lib })
destroy lib crash = crashed
destroy lib running = unfinished

unfoldable pub main : {S : Type 0} → Library S → List Move → S → Exit S
unfolding body
main lib moves s = destroy lib (body lib moves (at_start s))
