-- ===== src/Monitor/Types.antt =====
-- The values of the device monitor that its library and its clients share
-- (examples/ffiapi/nimlib/mylib.nim), and the interface of the generated C++ class Mylib.
use nim_brokers.Prelude.{ℕ, ℤ, Bool, Bytes, List}
use nim_brokers.Client.{Answer}

pub record AddDeviceSpec : Type 0 where
  pub name : Bytes
  pub device_type : Bytes
  pub address : Bytes

pub record DeviceInfo : Type 0 where
  pub device_id : ℤ
  pub name : Bytes
  pub device_type : Bytes
  pub address : Bytes
  pub online : Bool

pub record Configured : Type 0 where
  pub config_path : Bytes
  pub initialized : Bool

pub record SensorData : Type 0 where
  pub sensor_id : ℤ
  pub raw_data : Bytes
  pub status : ℤ

pub record Capabilities : Type 0 where
  pub max_rate : ℤ
  pub buf_size : ℤ
  pub channels : ℤ
  pub flags : ℤ
  pub captured_at : ℤ

-- A value is counted in hundredths.
pub record Reading : Type 0 where
  pub device_id : ℤ
  pub value : ℤ
  pub count : ℤ

pub data EventKind : Type 0 where
  device_discovered device_status_changed device_batch sensor_alert : EventKind

-- An event as it reaches a callback.
pub data Notice : Type 0 where
  discovered : ℤ → Bytes → Bytes → Bytes → Notice
  status_changed : ℤ → Bytes → Bool → ℤ → Notice
  batch : List Bytes → List ℤ → List ℤ → Notice
  alerted : ℤ → ℤ → ℤ → ℤ → Notice

-- The library, whose state is an `S`: what each call answers and leaves. `pause` is a sleep of so many
-- milliseconds, with the notices that reach callbacks in it, each with the handle that the callback
-- was registered under.
pub record Library (S : Type 0) : Type 0 where
  pub create_context : S → Answer ℕ × S
  pub on : EventKind → S → ℕ × S
  pub off : EventKind → ℕ → S → S
  pub initialize : Bytes → S → Answer Configured × S
  pub add_device : List AddDeviceSpec → S → Answer (List DeviceInfo) × S
  pub list_devices : S → Answer (List DeviceInfo) × S
  pub get_device : ℤ → S → Answer DeviceInfo × S
  pub remove_device : ℤ → S → Answer Bool × S
  pub get_sensor_data : ℤ → S → Answer SensorData × S
  pub get_device_tags : ℤ → S → Answer (List Bytes) × S
  pub get_device_capabilities : ℤ → S → Answer Capabilities × S
  pub ingest_reading : ℤ → ℤ → S → Answer (Unit {0}) × S
  pub last_reading : S → Answer Reading × S
  pub pause : ℕ → S → List (ℕ × Notice) × S
  pub shutdown : S → S
