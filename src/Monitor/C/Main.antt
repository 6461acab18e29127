-- ===== src/Monitor/C/Main.antt =====
-- `main` of examples/ffiapi/example/main.c.
use nim_brokers.Prelude.{
  ℕ, ℤ, pos, eq_ℤ, ltb_ℤ, true, false, none, some, [], ◌∷◌, Bytes, codes, dec, if◌then◌else◌,
}
use nim_brokers.Client.{Step, next, stop, crash, running, M, ◌>>=◌, ◌>>◌, pure, return}
use nim_brokers.Monitor.Types.{device_discovered, device_status_changed, device_batch, sensor_alert}
use nim_brokers.Monitor.Format.{newline, em_dash, hex8}
use nim_brokers.Monitor.C.Types.{
  Text, Configured, Library, create_context_result, initialize_result,
}
use nim_brokers.Monitor.C.Callbacks.{
  World, quoted, true_false, say, complain, ask, tell, obtain, free, opened, shutdown,
}
use nim_brokers.Monitor.C.Queries.{
  name_line, device_line, add_devices, list_all, query_single, remove_one, type_demos,
}

-- MYLIB_SCHEMA_HASH is in the generated header.
module _ (schema_hash : Bytes) {S : Type 0} where
  abbrev pub schema_status : Library S → ℤ × Bytes → M (World S) (Unit {0})
  schema_status lib (rc, lib_hash) =
      if ltb_ℤ rc (pos 0)
      then complain (
          codes "   FATAL: schema mismatch: mylib "
          ∷ lib.version
          ∷ codes " has "
          ∷ lib_hash
          ∷ codes ", header has "
          ∷ schema_hash
          ∷ newline
          ∷ [])
        >> return 1
      else say (
          codes "   schema "
          ∷ lib_hash
          ∷ (if eq_ℤ rc (pos 1) then codes " (mismatch ignored: opt-out env set)" else [])
          ∷ newline
          ∷ newline
          ∷ [])

  abbrev pub verify_schema : Library S → M (World S) (Unit {0})
  verify_schema lib = do
    say (codes "=== Device Monitor " ∷ em_dash ∷ codes " C Example ===" ∷ newline ∷ newline ∷ [])
    say (codes "0. Verify schema" ∷ newline ∷ [])
    r ← ask (lib.verify_schema schema_hash)
    schema_status lib r

  -- A context without an error is open until it is shut down.
  abbrev pub created : Text → ℕ → M (World S) ℕ
  created (some e) ctx = do
    complain (codes "   FATAL: " ∷ e ∷ newline ∷ [])
    free create_context_result
    return 1
  created none ctx = do
    opened ctx
    free create_context_result
    say (codes "   ctx = 0x" ∷ hex8 ctx ∷ newline ∷ newline ∷ [])
    pure ctx

  abbrev pub create_context : Library S → M (World S) ℕ
  create_context lib = do
    say (codes "1. Create library context" ∷ newline ∷ [])
    r ← obtain create_context_result lib.create_context
    created r.error_message r.body

  -- Gives the handle of the batches' listener.
  abbrev pub register : Library S → M (World S) ℕ
  register lib = do
    say (codes "2. Register event listeners" ∷ newline ∷ [])
    h_discovered ← ask (lib.on device_discovered true)
    h_status ← ask (lib.on device_status_changed true)
    h_alert ← ask (lib.on sensor_alert false)
    h_batch ← ask (lib.on device_batch true)
    say (
        codes "   DeviceDiscovered handle:     "
        ∷ dec h_discovered
        ∷ newline
        ∷ codes "   DeviceStatusChanged handle:  "
        ∷ dec h_status
        ∷ newline
        ∷ codes "   SensorAlert handle:          "
        ∷ dec h_alert
        ∷ newline
        ∷ codes "   DeviceBatch handle:          "
        ∷ dec h_batch
        ∷ newline
        ∷ newline
        ∷ [])
    pure h_batch

  abbrev pub configured : Library S → ℕ → Text → Configured → M (World S) (Unit {0})
  configured lib ctx (some e) c = do
    complain (codes "   ERROR: " ∷ e ∷ newline ∷ [])
    free initialize_result
    shutdown lib ctx
    return 1
  configured lib ctx none c = do
    say (
        codes "   initialized="
        ∷ true_false c.initialized
        ∷ codes "  configPath="
        ∷ quoted c.config_path
        ∷ newline
        ∷ [])
    free initialize_result
    say (newline ∷ [])

  abbrev pub configure : Library S → ℕ → M (World S) (Unit {0})
  configure lib ctx = do
    say (codes "3. Configure library (InitializeRequest)" ∷ newline ∷ [])
    r ← obtain initialize_result (lib.initialize (codes "/etc/devices.conf"))
    configured lib ctx r.error_message r.body

  abbrev pub clean_up : Library S → ℕ → ℕ → M (World S) (Unit {0})
  clean_up lib ctx h_batch = do
    say (codes "10. Cleanup and shutdown" ∷ newline ∷ [])
    tell (lib.off device_discovered 0)
    tell (lib.off device_status_changed 0)
    tell (lib.off sensor_alert 0)
    tell (lib.off device_batch h_batch)
    say (codes "    Listeners removed." ∷ newline ∷ [])
    shutdown lib ctx
    say (codes "    Context shut down." ∷ newline ∷ newline ∷ [])

  abbrev pub summary : M (World S) (Unit {0})
  summary w =
      say
        (codes "    Discovery callbacks: "
          ∷ dec w.discovered_count
          ∷ newline
          ∷ codes "    Status callbacks:    "
          ∷ dec w.status_count
          ∷ newline
          ∷ codes "    Batch callbacks:     "
          ∷ dec w.batch_count
          ∷ newline
          ∷ newline
          ∷ codes "=== C example complete ==="
          ∷ newline
          ∷ [])
        w

  -- With a context that is initialized.
  unfoldable pub monitor : Library S → ℕ → ℕ → M (World S) ℕ
  monitor lib ctx h_batch = do
    ids ← add_devices lib
    list_all lib (codes "5. List all devices") device_line
    query_single lib ids.sensor
    remove_one lib ids.cam
    list_all lib (codes "8. List devices after removal") name_line
    type_demos lib ids
    clean_up lib ctx h_batch
    summary
    pure 0

  unfoldable pub body : Library S → M (World S) ℕ
  body lib = do
    verify_schema lib
    ctx ← create_context lib
    h_batch ← register lib
    configure lib ctx
    monitor lib ctx h_batch

abbrev pub at_start : {S : Type 0} → S → World S
at_start s = record {
  lib = s;
  held = [];
  contexts = [];
  out = [];
  err = [];
  discovered_count = 0;
  status_count = 0;
  batch_count = 0;
}

-- How `main` ends.
pub data Exit (S : Type 0) : Type 0 where
  exited : ℕ → World S → Exit S
  crashed : Exit S
  unfinished : Exit S

abbrev pub exit_of : {S : Type 0} → Step (World S) ℕ → Exit S
exit_of (next code w) = exited code w
exit_of (stop code w) = exited code w
exit_of crash = crashed
exit_of running = unfinished

unfoldable pub main : {S : Type 0} → Bytes → Library S → S → Exit S
main schema_hash lib s = exit_of (body schema_hash lib (at_start s))
