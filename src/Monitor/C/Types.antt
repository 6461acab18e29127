-- ===== src/Monitor/C/Types.antt =====
-- The results of mylib.h as the C client reads them: texts and arrays that may be NULL, and an error
-- message in each; and the interface of the library.
use nim_brokers.Prelude.{ℕ, ℤ, Bool, Bytes, Option, List}
use nim_brokers.Monitor.Types.{AddDeviceSpec, Capabilities, EventKind}

-- `char*`.
abbrev pub Text : Type 0
Text = Option Bytes

-- A pointer with its count.
pub record Array (A : Type 0) : Type 0 where
  pub items : Option (List A)
  pub count : ℤ

-- A result, or what an event says, by value.
pub record Reply (A : Type 0) : Type 0 where
  pub error_message : Text
  pub body : A

pub record DeviceItem : Type 0 where
  pub device_id : ℤ
  pub name : Text
  pub device_type : Text
  pub address : Text
  pub online : Bool

pub record Configured : Type 0 where
  pub initialized : Bool
  pub config_path : Text

pub record SensorData : Type 0 where
  pub sensor_id : ℤ
  pub status : ℤ
  pub raw_data : Array ℕ

pub data Notice : Type 0 where
  discovered : ℤ → Text → Text → Text → Notice
  batch : Array Text → Array ℤ → Array ℤ → Notice
  alerted : ℤ → ℤ → ℤ → ℤ → Notice
  status_changed : ℤ → Text → Bool → ℤ → Notice

-- The results that the caller has to free, each with a function of its own.
pub data Owned : Type 0 where
  create_context_result initialize_result add_device_result list_devices_result : Owned
  get_device_result remove_device_result get_sensor_data_result get_device_tags_result : Owned
  get_device_capabilities_result : Owned

-- The library, whose state is an `S`. `verify_schema` gives its status and the hash that it writes.
-- With a callback goes whether its `userData` is the client's counters (true) or NULL, and with a
-- notice of a pause what was registered.
pub record Library (S : Type 0) : Type 0 where
  pub version : Bytes
  pub verify_schema : Bytes → S → (ℤ × Bytes) × S
  pub create_context : S → Reply ℕ × S
  pub on : EventKind → Bool → S → ℕ × S
  pub off : EventKind → ℕ → S → S
  pub initialize : Bytes → S → Reply Configured × S
  pub add_device : List AddDeviceSpec → S → Reply (Array DeviceItem) × S
  pub list_devices : S → Reply (Array DeviceItem) × S
  pub get_device : ℤ → S → Reply DeviceItem × S
  pub remove_device : ℤ → S → Reply Bool × S
  pub get_sensor_data : ℤ → S → Reply SensorData × S
  pub get_device_tags : ℤ → S → Reply (Array Text) × S
  pub get_device_capabilities : ℤ → S → Reply Capabilities × S
  pub pause : ℕ → S → List (Bool × Notice) × S
  pub shutdown : S → S
