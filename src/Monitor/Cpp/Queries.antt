-- ===== src/Monitor/Cpp/Queries.antt =====
-- The parts of `main` in examples/ffiapi/cpp_example/main.cpp that add, list, query and remove devices.
-- In the two asynchronous parts the lines that the callbacks print are left out; the second prints
-- the answers of its futures.
use nim_brokers.Prelude.{
  ℕ, zero, suc, ℤ, Bool, Option, none, some, List, [], ◌∷◌, ◌++◌, Bytes, codes, dec, dec_int,
  length, get_elem?, take, pad_right,
}
use nim_brokers.Client.{
  Answer, ok, error, M, ◌>>=◌, ◌>>◌, pure, return, fail, still_running, for_each,
}
use nim_brokers.Monitor.Types.{Library, AddDeviceSpec, DeviceInfo, SensorData, Capabilities}
use nim_brokers.Monitor.Format.{newline, hex2, yes_no, on_off_line, commas, quoted}
use nim_brokers.Monitor.Cpp.{World, Handles, say, complain, ask, sleep}
use nim_brokers.Monitor.Cpp.Async.{Move, Phase, left, State, run_moves, queries}

abbrev pub make_device_spec : Bytes → Bytes → Bytes → AddDeviceSpec
make_device_spec name device_type address = record {
  name = name;
  device_type = device_type;
  address = address;
}

abbrev pub fleet : List AddDeviceSpec
fleet =
    make_device_spec (codes "Core-Router") (codes "router") (codes "10.0.0.1")
    ∷ make_device_spec (codes "Edge-Switch-A") (codes "switch") (codes "10.0.1.1")
    ∷ make_device_spec (codes "Edge-Switch-B") (codes "switch") (codes "10.0.1.2")
    ∷ make_device_spec (codes "AP-Floor-3") (codes "ap") (codes "10.0.2.10")
    ∷ make_device_spec (codes "TempSensor-DC1") (codes "sensor") (codes "10.0.3.50")
    ∷ []

abbrev pub ids_of : List DeviceInfo → List ℤ
ids_of [] = []
ids_of (d ∷ ds) = d.device_id ∷ ids_of ds

-- id=%-3lld  %-18s  type=%-10s  addr=%-16s  %s
abbrev pub device_row : DeviceInfo → List Bytes
device_row d =
    codes "id="
    ∷ pad_right 3 (dec_int d.device_id)
    ∷ codes "  "
    ∷ pad_right 18 d.name
    ∷ codes "  type="
    ∷ pad_right 10 d.device_type
    ∷ codes "  addr="
    ∷ pad_right 16 d.address
    ∷ codes "  "
    ∷ on_off_line d.online
    ∷ newline
    ∷ []

abbrev pub spaced : List ℕ → Bytes
spaced [] = []
spaced (b ∷ bs) = codes " 0x" ++ hex2 b ++ spaced bs

abbrev pub bytes_line : List ℕ → Bytes
bytes_line [] = []
bytes_line (b ∷ bs) = codes "0x" ++ hex2 b ++ spaced bs

module _ {S : Type 0} where
  abbrev pub announce_added : DeviceInfo → M (World S) (Unit {0})
  announce_added d =
      say (codes "  + " ∷ d.name ∷ codes " -> id=" ∷ dec_int d.device_id ∷ newline ∷ [])

  abbrev pub added : Answer (List DeviceInfo) → M (World S) (List ℤ)
  added (error e) = do complain (codes "  AddDevice error: " ∷ e ∷ newline ∷ []); return 1
  added (ok devices) = do for_each devices announce_added; pure (ids_of devices)

  abbrev pub add_fleet : Library S → M (World S) (List ℤ)
  add_fleet lib = do
    say (codes "--- Adding devices ---" ∷ newline ∷ [])
    r ← ask (lib.add_device fleet)
    added r

  -- Rows with the index in front.
  abbrev pub list_rows : ℕ → List DeviceInfo → M (World S) (Unit {0})
  list_rows i [] = pure tt
  list_rows i (d ∷ ds) = do
    say (codes "  [" ∷ dec i ∷ codes "] " ∷ device_row d)
    list_rows (suc i) ds

  abbrev pub listed : Answer (List DeviceInfo) → M (World S) (Unit {0})
  listed (error e) = complain (codes "  ListDevices error: " ∷ e ∷ newline ∷ [])
  listed (ok devices) = do
    say (codes "  Count: " ∷ dec (length devices) ∷ newline ∷ [])
    list_rows 0 devices

  abbrev pub inventory : Library S → List ℤ → M (World S) (Unit {0})
  inventory lib ids = do
    say (codes "--- Device inventory (" ∷ dec (length ids) ∷ codes " added) ---" ∷ newline ∷ [])
    r ← ask lib.list_devices
    listed r
    say (newline ∷ [])

  abbrev pub waited : Phase → ℤ → M (World S) (Unit {0})
  waited (left n) pending = say (
      codes "  All async queries completed ("
      ∷ dec_int pending
      ∷ codes " pending left)."
      ∷ newline
      ∷ newline
      ∷ [])
  waited _ pending = still_running

  abbrev pub left_with : Option State → M (World S) (Unit {0})
  left_with none = still_running
  left_with (some s) = waited s.phase s.pending

  -- The moves of the two threads go on until the main thread leaves the block.
  abbrev pub async_queries : List Move → List ℤ → M (World S) (Unit {0})
  async_queries moves ids = do
    say (codes "--- Async device queries (fire-and-forget) ---" ∷ newline ∷ [])
    left_with (run_moves moves (queries ids))

  abbrev pub got_future : ℤ × Answer DeviceInfo → M (World S) (Unit {0})
  got_future (id, ok d) = say (
      codes "  [future] id="
      ∷ dec_int id
      ∷ codes " -> "
      ∷ quoted d.name
      ∷ codes " ("
      ∷ on_off_line d.online
      ∷ codes ")"
      ∷ newline
      ∷ [])
  got_future (id, error e) =
      say (codes "  [future] id=" ∷ dec_int id ∷ codes " -> error: " ∷ e ∷ newline ∷ [])

  abbrev pub futures : Library S → List ℤ → M (World S) (List (ℤ × Answer DeviceInfo))
  futures lib [] = pure []
  futures lib (q ∷ qs) = do r ← ask (lib.get_device q); rs ← futures lib qs; pure ((q, r) ∷ rs)

  abbrev pub future_queries : Library S → List ℤ → M (World S) (Unit {0})
  future_queries lib ids = do
    say (codes "--- Async device queries (std::future) ---" ∷ newline ∷ [])
    futs ← futures lib ids
    for_each futs got_future
    say (codes "  All future queries completed." ∷ newline ∷ newline ∷ [])

  abbrev pub got : Answer DeviceInfo → M (World S) (Unit {0})
  got (error e) = complain (codes "  GetDevice error: " ∷ e ∷ newline ∷ [])
  got (ok d) = say (
      codes "  name="
      ∷ quoted d.name
      ∷ codes "  type="
      ∷ quoted d.device_type
      ∷ codes "  addr="
      ∷ quoted d.address
      ∷ codes "  online="
      ∷ yes_no d.online
      ∷ newline
      ∷ [])

  -- `ids[i]`, which is undefined behind the end.
  abbrev pub index : List ℤ → ℕ → M (World S) ℤ
  index [] i = fail
  index (x ∷ xs) zero = pure x
  index (x ∷ xs) (suc i) = index xs i

  -- Guarded by `!ids.empty()`, for an element further on.
  abbrev pub query_one : Library S → List ℤ → M (World S) (Unit {0})
  query_one lib [] = pure tt
  query_one lib (x ∷ xs) = do
    qid ← index (x ∷ xs) 2
    say (codes "--- Query device id=" ∷ dec_int qid ∷ codes " ---" ∷ newline ∷ [])
    r ← ask (lib.get_device qid)
    got r
    say (newline ∷ [])

  abbrev pub sensed : Answer SensorData → M (World S) (Unit {0})
  sensed (error e) = complain (codes "  GetSensorData error: " ∷ e ∷ newline ∷ [])
  sensed (ok d) = say (
      codes "  sensorId="
      ∷ dec_int d.sensor_id
      ∷ codes "  status="
      ∷ dec_int d.status
      ∷ codes "  rawData["
      ∷ dec (length d.raw_data)
      ∷ codes "]: "
      ∷ bytes_line (take 8 d.raw_data)
      ∷ newline
      ∷ [])

  abbrev pub tagged : Answer (List Bytes) → M (World S) (Unit {0})
  tagged (error e) = complain (codes "  GetDeviceTags error: " ∷ e ∷ newline ∷ [])
  tagged (ok tags) =
      say (codes "  tags[" ∷ dec (length tags) ∷ codes "]: " ∷ commas quoted tags ∷ newline ∷ [])

  abbrev pub capable : Answer Capabilities → M (World S) (Unit {0})
  capable (error e) = complain (codes "  GetDeviceCaps error: " ∷ e ∷ newline ∷ [])
  capable (ok c) = say (
      codes "  capturedAt="
      ∷ dec_int c.captured_at
      ∷ codes "  caps=["
      ∷ commas dec_int (c.max_rate ∷ c.buf_size ∷ c.channels ∷ c.flags ∷ [])
      ∷ codes "]"
      ∷ newline
      ∷ [])

  abbrev pub type_demos : Library S → Handles → List ℤ → M (World S) (Unit {0})
  type_demos lib h [] = pure tt
  type_demos lib h (qid ∷ ids) = do
    say (codes "--- GetSensorData (seq[byte] + enum + distinct) ---" ∷ newline ∷ [])
    s ← ask (lib.get_sensor_data qid)
    sensed s
    say (codes "--- GetDeviceTags (seq[string]) ---" ∷ newline ∷ [])
    t ← ask (lib.get_device_tags qid)
    tagged t
    say (codes "--- GetDeviceCapabilities (array[4,int32] + Timestamp) ---" ∷ newline ∷ [])
    c ← ask (lib.get_device_capabilities qid)
    capable c
    sleep lib h 200
    say (newline ∷ [])

  abbrev pub removed : ℤ → Answer Bool → M (World S) (Unit {0})
  removed id (error e) = complain (codes "  RemoveDevice error: " ∷ e ∷ newline ∷ [])
  removed id (ok success) =
      say (codes "  Removed id=" ∷ dec_int id ∷ codes "  success=" ∷ yes_no success ∷ newline ∷ [])

  -- `if (i >= ids.size()) continue;`
  abbrev pub remove_at : Library S → Option ℤ → M (World S) (Unit {0})
  remove_at lib none = pure tt
  remove_at lib (some id) = do r ← ask (lib.remove_device id); removed id r

  abbrev pub remove_two : Library S → Handles → List ℤ → M (World S) (Unit {0})
  remove_two lib h ids = do
    say (codes "--- Removing devices ---" ∷ newline ∷ [])
    for_each (0 ∷ 3 ∷ []) (λ i. remove_at lib (get_elem? ids i))
    sleep lib h 200
    say (newline ∷ [])
