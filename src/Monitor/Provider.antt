-- ===== src/Monitor/Provider.antt =====
-- The library examples/ffiapi/nimlib/mylib.nim: the state of its processing thread and the providers
-- that setupProviders registers, each of which runs to its end without a pause.
pub mod Valid
pub mod Requests
use nim_brokers.Prelude.{
  ℕ, zero, suc, ◌+◌, ◌-◌, ℤ, pos, negsuc, ◌+ℤ◌, eq_ℤ, Bool, true, false, ◌==◌, Option, none, some,
  List, [], ◌∷◌, ◌++◌, Bytes, codes, dec_int, length, if◌then◌else◌,
}
use nim_brokers.Client.{Answer, ok, error}
use nim_brokers.Monitor.Types.{
  AddDeviceSpec, DeviceInfo, Configured, SensorData, Capabilities, Reading, Notice, discovered,
  status_changed, batch, alerted,
}

-- gDevices and the counters, and the events emitted, oldest first. A Device and a DeviceInfo have the
-- same fields.
pub record Store : Type 0 where
  pub devices : List DeviceInfo
  pub next_device_id : ℕ
  pub next_sensor_id : ℕ
  pub initialized : Bool
  pub config_path : Bytes
  pub last_reading : Reading
  pub emitted : List Notice

abbrev no_reading : Reading
no_reading = record { device_id = pos 0; value = pos 0; count = pos 0 }

abbrev pub setup_providers : Store
setup_providers = record {
  devices = [];
  next_device_id = 1;
  next_sensor_id = 100;
  initialized = false;
  config_path = [];
  last_reading = no_reading;
  emitted = [];
}

abbrev pub emit : Notice → Store → Store
emit n s = record s { emitted = s.emitted ++ n ∷ [] }

abbrev pub not_initialized : {A : Type 0} → Answer A
not_initialized = error (codes "Library not initialized")

abbrev pub not_found : {A : Type 0} → ℤ → Answer A
not_found id = error (codes "Device not found: " ++ dec_int id)

unfoldable pub initialize : Bytes → Store → Answer Configured × Store
initialize config_path s = (
  ok (record { config_path = config_path; initialized = true }),
  record s { config_path = config_path; initialized = true },
)

unfoldable pub shutdown_request : Store → Answer ℤ × Store
shutdown_request s = (ok (pos 0), record s { initialized = false; devices = [] })

abbrev pub info_of : ℕ → AddDeviceSpec → DeviceInfo
info_of id spec = record {
  device_id = pos id;
  name = spec.name;
  device_type = spec.device_type;
  address = spec.address;
  online = true;
}

abbrev pub add_one : AddDeviceSpec → Store → Store
add_one spec s =
    let d = info_of s.next_device_id spec in
    emit (discovered d.device_id d.name d.device_type d.address)
      (record s { devices = s.devices ++ d ∷ []; next_device_id = suc s.next_device_id })

abbrev pub add_all : List AddDeviceSpec → Store → List DeviceInfo × Store
add_all [] s = ([], s)
add_all (spec ∷ specs) s =
    let (infos, s') = add_all specs (add_one spec s) in (info_of s.next_device_id spec ∷ infos, s')

abbrev pub names_of : List DeviceInfo → List Bytes
names_of [] = []
names_of (d ∷ ds) = d.name ∷ names_of ds

abbrev pub ids_of : List DeviceInfo → List ℤ
ids_of [] = []
ids_of (d ∷ ds) = d.device_id ∷ ids_of ds

abbrev pub batched : List DeviceInfo → Store → Store
batched infos s =
    emit
      (batch (names_of infos) (ids_of infos)
        (pos (length infos) ∷ pos (s.next_device_id - 1) ∷ pos 0 ∷ pos 0 ∷ []))
      s

unfoldable pub add_device : List AddDeviceSpec → Store → Answer (List DeviceInfo) × Store
add_device specs s =
    let (infos, s') = add_all specs s in
    if s.initialized then (ok infos, batched infos s') else (not_initialized, s)

abbrev pub one_later : Option (ℕ × DeviceInfo) → Option (ℕ × DeviceInfo)
one_later none = none
one_later (some (i, d)) = some (suc i, d)

-- The index and the device with this id, the first if there are several.
abbrev pub find : ℤ → List DeviceInfo → Option (ℕ × DeviceInfo)
find id [] = none
find id (d ∷ ds) =
    let rest = find id ds in if eq_ℤ d.device_id id then some (zero, d) else one_later rest

-- Nim's `del`: the last element takes the place of the one that goes.
abbrev pub last_or : DeviceInfo → List DeviceInfo → DeviceInfo
last_or d [] = d
last_or d (e ∷ es) = last_or e es

abbrev pub but_last : DeviceInfo → List DeviceInfo → List DeviceInfo
but_last d [] = []
but_last d (e ∷ es) = d ∷ but_last e es

abbrev pub put_last : List DeviceInfo → List DeviceInfo
put_last [] = []
put_last (e ∷ es) = last_or e es ∷ but_last e es

abbrev pub del : ℕ → List DeviceInfo → List DeviceInfo
del i [] = []
del zero (d ∷ ds) = put_last ds
del (suc i) (d ∷ ds) = d ∷ del i ds

abbrev pub drop_found : ℤ → ℤ → Option (ℕ × DeviceInfo) → Store → Answer Bool × Store
drop_found now id none s = (not_found id, s)
drop_found now id (some (i, d)) s = (
  ok true,
  emit (status_changed d.device_id d.name false now) (record s { devices = del i s.devices }),
)

-- `now` is what nowMs() returns.
unfoldable pub remove_device : ℤ → ℤ → Store → Answer Bool × Store
remove_device now id s =
    if s.initialized then drop_found now id (find id s.devices) s else (not_initialized, s)

abbrev pub found : {A : Type 0} → ℤ → Option (ℕ × DeviceInfo) → (DeviceInfo → A) → Answer A
found id none f = not_found id
found id (some (i, d)) f = ok (f d)

unfoldable pub get_device : ℤ → Store → Answer DeviceInfo × Store
get_device id s =
    if s.initialized then (found id (find id s.devices) (λ d. d), s) else (not_initialized, s)

unfoldable pub list_devices : Store → Answer (List DeviceInfo) × Store
list_devices s = if s.initialized then (ok s.devices, s) else (not_initialized, s)

abbrev pub sample : List ℕ
sample = 0xDE ∷ 0xAD ∷ 0xBE ∷ 0xEF ∷ 1 ∷ 2 ∷ 3 ∷ 4 ∷ []

abbrev pub sense_found : ℤ → ℤ → Option (ℕ × DeviceInfo) → Store → Answer SensorData × Store
sense_found now id none s = (not_found id, s)
sense_found now id (some e) s = (
  ok (record { sensor_id = pos s.next_sensor_id; raw_data = sample; status = pos 1 }),
  emit (alerted (pos s.next_sensor_id) id (pos 1) now)
      (record s { next_sensor_id = suc s.next_sensor_id }),
)

unfoldable pub get_sensor_data : ℤ → ℤ → Store → Answer SensorData × Store
get_sensor_data now id s =
    if s.initialized then sense_found now id (find id s.devices) s else (not_initialized, s)

unfoldable pub get_device_tags : ℤ → Store → Answer (List Bytes) × Store
get_device_tags id s =
    if s.initialized
    then (
      found id (find id s.devices)
          (λ d. codes "monitored" ∷ codes "production" ∷ d.device_type ∷ []),
      s,
    )
    else (not_initialized, s)

unfoldable pub get_device_capabilities : ℤ → ℤ → Store → Answer Capabilities × Store
get_device_capabilities now id s =
    if s.initialized
    then (
      found id (find id s.devices) (λ d. record {
        max_rate = pos 1000;
        buf_size = pos 4096;
        channels = pos 8;
        flags = pos 3;
        captured_at = now;
      }),
      s,
    )
    else (not_initialized, s)

-- The handler of a signal, which runs some time after the call that sends it.
unfoldable pub on_ingest_reading : ℤ → ℤ → Store → Store
on_ingest_reading id value s = record s {
  last_reading = record { device_id = id; value = value; count = s.last_reading.count +ℤ pos 1 };
}

unfoldable pub last_reading : Store → Answer Reading × Store
last_reading s = (ok s.last_reading, s)
