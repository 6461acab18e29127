-- ===== src/Monitor/C/Bound.antt =====
-- The library of this repository behind the interface of mylib.h: a result holds copies in C of what
-- the request answers, or its error message and zeros; a callback has the `userData` of its handle.
use nim_brokers.Prelude.{
  ℕ, ◌≤◌, ◌≡◌, refl, arith, ◌==◌, ℤ, pos, Bool, false, List, [], ◌∷◌, Bytes, codes, Option, none,
  some, length, map, if◌then◌else◌,
}
use nim_brokers.Client.{Answer, ok, error}
use nim_brokers.Monitor.Types.{Capabilities}
use nim_brokers.Monitor.Types
use nim_brokers.Monitor.Session.{Session, fresh, mylib}
use nim_brokers.Monitor.C.Types.{
  Array, Reply, DeviceItem, SensorData, Notice, discovered, batch, alerted, status_changed, Library,
}
use nim_brokers.Monitor.C.Sound.{Fits, IsSound, NoticesFit}
use nim_brokers.Monitor.C.Main.{Exit, exited, crashed, unfinished, body, monitor, main}
use nim_brokers.Client.{◌>>=◌}
use nim_brokers.Monitor.C.Queries.{reported}
use nim_brokers.Monitor.Provider.{
  initialize, shutdown_request, add_device, remove_device, get_device, list_devices,
  get_sensor_data, get_device_tags, get_device_capabilities, on_ingest_reading, last_reading,
}

pub record Bound : Type 0 where
  pub session : Session
  pub user_data : List (ℕ × Bool)

abbrev pub unbound : Bound
unbound = record { session = fresh; user_data = [] }

abbrev array_of : {A B : Type 0} → (A → B) → List A → Array B
array_of f xs = record { items = some (map f xs); count = pos (length xs) }

abbrev no_array : {A : Type 0} → Array A
no_array = record { items = none; count = pos 0 }

abbrev item_of : Types.DeviceInfo → DeviceItem
item_of d = record {
  device_id = d.device_id;
  name = some d.name;
  device_type = some d.device_type;
  address = some d.address;
  online = d.online;
}

abbrev no_item : DeviceItem
no_item = record {
  device_id = pos 0;
  name = none;
  device_type = none;
  address = none;
  online = false;
}

abbrev reply : {A B : Type 0} → (A → B) → B → Answer A → Reply B
reply f b (ok a) = record { error_message = none; body = f a }
reply f b (error e) = record { error_message = some e; body = b }

abbrev sensed : Types.SensorData → SensorData
sensed d = record {
  sensor_id = d.sensor_id;
  status = d.status;
  raw_data = array_of (λ b. b) d.raw_data;
}

abbrev no_data : SensorData
no_data = record { sensor_id = pos 0; status = pos 0; raw_data = no_array }

abbrev no_capabilities : Capabilities
no_capabilities = record {
  max_rate = pos 0;
  buf_size = pos 0;
  channels = pos 0;
  flags = pos 0;
  captured_at = pos 0;
}

abbrev in_c : Types.Notice → Notice
in_c (Types.discovered id name kind addr) = discovered id (some name) (some kind) (some addr)
in_c (Types.status_changed id name online ts) = status_changed id (some name) online ts
in_c (Types.batch labels ids caps) =
    batch (array_of some labels) (array_of (λ i. i) ids) (array_of (λ k. k) caps)
in_c (Types.alerted sensor device status ts) = alerted sensor device status ts

abbrev data_of : ℕ → List (ℕ × Bool) → Bool
data_of h [] = false
data_of h ((k, b) ∷ rest) = if k == h then b else data_of h rest

abbrev handed : List (ℕ × Bool) → List (ℕ × Types.Notice) → List (Bool × Notice)
handed ud [] = []
handed ud ((h, n) ∷ rest) = (data_of h ud, in_c n) ∷ handed ud rest

abbrev within : {A B : Type 0} → (A → B) → Bound → A × Session → B × Bound
within f b (a, s) = (f a, record b { session = s })

abbrev subscribed : Bool → Bound → ℕ × Session → ℕ × Bound
subscribed ud b (h, s) = (h, record { session = s; user_data = (h, ud) ∷ b.user_data })

-- The header's hash is the library's.
abbrev pub in_c_library : Types.Library Session → Library Bound
in_c_library lib = record {
  version = codes "1.0.0";
  verify_schema = λ hash b. ((pos 0, hash), b);
  create_context = λ b. within (reply (λ c. c) 0) b (lib.create_context b.session);
  on = λ kind ud b. subscribed ud b (lib.on kind b.session);
  off = λ kind h b. record b { session = lib.off kind h b.session };
  initialize = λ path b.
      within
        (reply (λ c. record { initialized = c.initialized; config_path = some c.config_path })
          (record { initialized = false; config_path = none }))
        b (lib.initialize path b.session);
  add_device =
      λ specs b. within (reply (array_of item_of) no_array) b (lib.add_device specs b.session);
  list_devices = λ b. within (reply (array_of item_of) no_array) b (lib.list_devices b.session);
  get_device = λ id b. within (reply item_of no_item) b (lib.get_device id b.session);
  remove_device = λ id b. within (reply (λ r. r) false) b (lib.remove_device id b.session);
  get_sensor_data = λ id b. within (reply sensed no_data) b (lib.get_sensor_data id b.session);
  get_device_tags =
      λ id b. within (reply (array_of some) no_array) b (lib.get_device_tags id b.session);
  get_device_capabilities =
      λ id b. within (reply (λ c. c) no_capabilities) b (lib.get_device_capabilities id b.session);
  pause = λ ms b. within (handed b.user_data) b (lib.pause ms b.session);
  shutdown = λ b. record b { session = lib.shutdown b.session };
}

array_of-Fits : {A B : Type 0} (f : A → B) (xs : List A) → Fits (array_of f xs)
array_of-Fits f [] = omega arith
array_of-Fits f (x ∷ xs) =
    let ih : length xs ≤ length (map f xs) = array_of-Fits f xs in omega arith

reply-Fits :
    {A B : Type 0} (f : A → B) (a : Answer (List A)) → Fits (reply (array_of f) no_array a).body
reply-Fits f (ok xs) = array_of-Fits f xs
reply-Fits f (error e) = refl

sensed-Fits : (a : Answer Types.SensorData) → Fits (reply sensed no_data a).body.raw_data
sensed-Fits (ok d) = array_of-Fits (λ b. b) d.raw_data
sensed-Fits (error e) = refl

handed-Fit : (ud : List (ℕ × Bool)) (ns : List (ℕ × Types.Notice)) → NoticesFit (handed ud ns)
handed-Fit ud [] = tt
handed-Fit ud ((h, Types.discovered id name kind addr) ∷ ns) = (tt, handed-Fit ud ns)
handed-Fit ud ((h, Types.status_changed id name online ts) ∷ ns) = (tt, handed-Fit ud ns)
handed-Fit ud ((h, Types.batch labels ids caps) ∷ ns) = (
  (array_of-Fits some labels, array_of-Fits (λ i. i) ids, array_of-Fits (λ k. k) caps),
  handed-Fit ud ns,
)
handed-Fit ud ((h, Types.alerted sensor device status ts) ∷ ns) = (tt, handed-Fit ud ns)

pub in_c_library-IsSound : (lib : Types.Library Session) → IsSound (in_c_library lib)
in_c_library-IsSound lib = record {
  adds = λ specs b. reply-Fits item_of (lib.add_device specs b.session).0;
  lists = λ b. reply-Fits item_of (lib.list_devices b.session).0;
  senses = λ id b. sensed-Fits (lib.get_sensor_data id b.session).0;
  tags = λ id b. reply-Fits some (lib.get_device_tags id b.session).0;
  pauses = λ ms b. handed-Fit b.user_data (lib.pause ms b.session).0;
}

-- The exit code, and the counts of discoveries, of changes of status and of batches.
abbrev pub counts_of : {S : Type 0} → Exit S → Option (ℕ × ℕ × ℕ × ℕ)
counts_of (exited n w) = some (n, w.discovered_count, w.status_count, w.batch_count)
counts_of crashed = none
counts_of unfinished = none

-- With the library of this repository behind it, whatever the clock shows and whatever the schema's
-- hash, the C client ends with 0 and has received the three discoveries and the batch of its fleet and
-- the one change of status of the device that it removed.
pub main-counts :
    (hash : Bytes) (now : ℤ)
    → counts_of (main hash (in_c_library (mylib now)) unbound) ≡ some (0, 3, 1, 1)
unfolding main body monitor ◌>>=◌ reported initialize shutdown_request add_device remove_device
    get_device list_devices get_sensor_data get_device_tags get_device_capabilities
    on_ingest_reading last_reading
main-counts hash now = refl
