-- ===== src/Monitor/C/Queries.antt =====
-- The parts of `main` in examples/ffiapi/example/main.c that add, list, query and remove devices. Each
-- frees its result at its end, whatever the result says.
use nim_brokers.Prelude.{
  ℕ, zero, suc, ℤ, pos, ltb_ℤ, Bool, true, false, Option, none, some, List, [], ◌∷◌, Bytes, codes,
  dec, dec_int, pad_right, leb, ◌&&◌, if◌then◌else◌,
}
use nim_brokers.Client.{M, ◌>>=◌, ◌>>◌, pure}
use nim_brokers.Monitor.Types.{AddDeviceSpec, Capabilities}
use nim_brokers.Monitor.Format.{newline, hex2, commas}
use nim_brokers.Monitor.C.Types.{
  Text, Array, DeviceItem, SensorData, Library, add_device_result, list_devices_result,
  get_device_result, remove_device_result, get_sensor_data_result, get_device_tags_result,
  get_device_capabilities_result,
}
use nim_brokers.Monitor.C.Callbacks.{
  World, or_null, true_false, turns, say, complain, obtain, free, item, loop, print_items, quoted,
  sleep_ms,
}

-- id_gw, id_sensor and id_cam.
pub record Ids : Type 0 where
  pub gw : ℤ
  pub sensor : ℤ
  pub cam : ℤ

abbrev no_ids : Ids
no_ids = record { gw = pos 0; sensor = pos 0; cam = pos 0 }

abbrev pub fleet : List AddDeviceSpec
fleet =
    record {
      name = codes "Gateway-01";
      device_type = codes "gateway";
      address = codes "192.168.1.1";
    }
    ∷ record {
      name = codes "TempSensor-A3";
      device_type = codes "sensor";
      address = codes "192.168.1.42";
    }
    ∷ record {
      name = codes "Camera-North";
      device_type = codes "camera";
      address = codes "192.168.1.80";
    }
    ∷ []

abbrev pub smaller : ℕ → ℕ → ℕ
smaller a b = if leb a b then a else b

abbrev pub name_line : ℕ → DeviceItem → List Bytes
name_line i d =
    codes "   ["
    ∷ dec i
    ∷ codes "] id="
    ∷ dec_int d.device_id
    ∷ codes "  name="
    ∷ quoted d.name
    ∷ newline
    ∷ []

abbrev pub device_line : ℕ → DeviceItem → List Bytes
device_line i d =
    codes "   ["
    ∷ dec i
    ∷ codes "] id="
    ∷ dec_int d.device_id
    ∷ codes "  name="
    ∷ quoted d.name
    ∷ codes "  type="
    ∷ quoted d.device_type
    ∷ codes "  addr="
    ∷ quoted d.address
    ∷ codes "  online="
    ∷ true_false d.online
    ∷ newline
    ∷ []

abbrev pub is_there : {A : Type 0} → Option A → Bool
is_there none = false
is_there (some a) = true

-- `i ? " " : ""`.
abbrev pub space : ℕ → Bytes
space zero = []
space (suc i) = codes " "

module _ {S : Type 0} where
  -- `if (r.error_message) …; else …`.
  unfoldable pub reported : Bytes → Text → M (World S) (Unit {0}) → M (World S) (Unit {0})
  reported label none use_it = use_it
  reported label (some e) use_it = complain (label ∷ e ∷ newline ∷ [])

  -- The ids of the first three devices, if there are three.
  abbrev pub three_ids : Array DeviceItem → M (World S) Ids
  three_ids a = do
    gw ← item a 0
    sensor ← item a 1
    cam ← item a 2
    pure (record { gw = gw.device_id; sensor = sensor.device_id; cam = cam.device_id })

  abbrev pub take_ids : Array DeviceItem → M (World S) Ids
  take_ids a = if ltb_ℤ (pos 2) a.count && is_there a.items then three_ids a else pure no_ids

  abbrev pub announce_added : Array DeviceItem → ℕ → M (World S) (Unit {0})
  announce_added a i = do
    d ← item a i
    say (
        codes "   Added "
        ∷ pad_right 14 (or_null d.name)
        ∷ codes " -> id="
        ∷ dec_int d.device_id
        ∷ newline
        ∷ [])

  abbrev pub added : Text → Array DeviceItem → M (World S) Ids
  added (some e) a = do complain (codes "   ERROR: " ∷ e ∷ newline ∷ []); pure no_ids
  added none a = do ids ← take_ids a; loop 0 (turns a.count) (announce_added a); pure ids

  abbrev pub add_devices : Library S → M (World S) Ids
  add_devices lib = do
    say (codes "4. Add devices" ∷ newline ∷ [])
    r ← obtain add_device_result (lib.add_device fleet)
    ids ← added r.error_message r.body
    free add_device_result
    sleep_ms lib 200
    say (newline ∷ [])
    pure ids

  abbrev pub rows : (ℕ → DeviceItem → List Bytes) → Array DeviceItem → M (World S) (Unit {0})
  rows line a = do
    say (codes "   Total devices: " ∷ dec_int a.count ∷ newline ∷ [])
    loop 0 (turns a.count) (λ i. item a i >>= λ d. say (line i d))

  -- Parts 5 and 8.
  abbrev pub list_all : Library S → Bytes → (ℕ → DeviceItem → List Bytes) → M (World S) (Unit {0})
  list_all lib title line = do
    say (title ∷ newline ∷ [])
    r ← obtain list_devices_result lib.list_devices
    reported (codes "   ERROR: ") r.error_message (rows line r.body)
    free list_devices_result
    say (newline ∷ [])

  abbrev pub query_single : Library S → ℤ → M (World S) (Unit {0})
  query_single lib id = do
    say (codes "6. Query single device (id=" ∷ dec_int id ∷ codes ")" ∷ newline ∷ [])
    r ← obtain get_device_result (lib.get_device id)
    reported (codes "   ERROR: ") r.error_message (
        say (
          codes "   name="
          ∷ quoted r.body.name
          ∷ codes "  type="
          ∷ quoted r.body.device_type
          ∷ codes "  addr="
          ∷ quoted r.body.address
          ∷ codes "  online="
          ∷ true_false r.body.online
          ∷ newline
          ∷ []))
    free get_device_result
    say (newline ∷ [])

  abbrev pub remove_one : Library S → ℤ → M (World S) (Unit {0})
  remove_one lib id = do
    say (codes "7. Remove device (id=" ∷ dec_int id ∷ codes ")" ∷ newline ∷ [])
    r ← obtain remove_device_result (lib.remove_device id)
    reported (codes "   ERROR: ") r.error_message
        (say (codes "   success=" ∷ true_false r.body ∷ newline ∷ []))
    free remove_device_result
    sleep_ms lib 200
    say (newline ∷ [])

  abbrev pub raw_bytes : Array ℕ → M (World S) (Unit {0})
  raw_bytes a =
      loop 0 (smaller (turns a.count) 8)
        (λ i. item a i >>= λ b. say (space i ∷ codes "0x" ∷ hex2 b ∷ []))

  abbrev pub sensor_line : SensorData → M (World S) (Unit {0})
  sensor_line d = do
    say (
        codes "   GetSensorData: sensorId="
        ∷ dec_int d.sensor_id
        ∷ codes "  status="
        ∷ dec_int d.status
        ∷ codes "  rawBytes="
        ∷ dec_int d.raw_data.count
        ∷ codes " ["
        ∷ [])
    raw_bytes d.raw_data
    say (codes "]" ∷ newline ∷ [])

  abbrev pub sensor_demo : Library S → ℤ → M (World S) (Unit {0})
  sensor_demo lib id = do
    r ← obtain get_sensor_data_result (lib.get_sensor_data id)
    reported (codes "   GetSensorData ERROR: ") r.error_message (sensor_line r.body)
    free get_sensor_data_result

  abbrev pub tags_line : Array Text → M (World S) (Unit {0})
  tags_line a = do
    say (codes "   GetDeviceTags: " ∷ dec_int a.count ∷ codes " tags [" ∷ [])
    print_items quoted a
    say (codes "]" ∷ newline ∷ [])

  abbrev pub tags_demo : Library S → ℤ → M (World S) (Unit {0})
  tags_demo lib id = do
    r ← obtain get_device_tags_result (lib.get_device_tags id)
    reported (codes "   GetDeviceTags ERROR: ") r.error_message (tags_line r.body)
    free get_device_tags_result

  abbrev pub caps_line : Capabilities → M (World S) (Unit {0})
  caps_line c = say (
      codes "   GetDeviceCaps: capturedAt="
      ∷ dec_int c.captured_at
      ∷ codes "  caps=["
      ∷ commas dec_int (c.max_rate ∷ c.buf_size ∷ c.channels ∷ c.flags ∷ [])
      ∷ codes "]"
      ∷ newline
      ∷ [])

  abbrev pub caps_demo : Library S → ℤ → M (World S) (Unit {0})
  caps_demo lib id = do
    r ← obtain get_device_capabilities_result (lib.get_device_capabilities id)
    reported (codes "   GetDeviceCaps ERROR: ") r.error_message (caps_line r.body)
    free get_device_capabilities_result

  abbrev pub type_demos : Library S → Ids → M (World S) (Unit {0})
  type_demos lib ids = do
    say (codes "9. New type demos" ∷ newline ∷ [])
    sensor_demo lib ids.gw
    tags_demo lib ids.sensor
    caps_demo lib ids.gw
    sleep_ms lib 200
    say (newline ∷ [])
