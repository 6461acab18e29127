-- ===== src/Monitor/Session.antt =====
-- The library of the device monitor behind its generated class: the providers of nimlib/mylib.nim, and
-- what the generated code keeps for a context. A notice reaches every callback of its kind, with its
-- handle; handle 0 takes all callbacks of a kind off; a signal is handled in the next pause. The theorems about the clients are for every
-- library; this one is for runs of them.
use nim_brokers.Prelude.{
  ℕ, suc, ℤ, Bool, true, false, ◌&&◌, ◌||◌, ◌==◌, List, [], ◌∷◌, ◌++◌, if◌then◌else◌,
}
use nim_brokers.Client.{ok}
use nim_brokers.Monitor.Types.{
  Library, EventKind, device_discovered, device_status_changed, device_batch, sensor_alert, Notice,
  discovered, status_changed, batch, alerted,
}
use nim_brokers.Monitor.Provider.{
  Store, setup_providers, initialize, shutdown_request, add_device, remove_device, get_device,
  list_devices, get_sensor_data, get_device_tags, get_device_capabilities, on_ingest_reading,
  last_reading,
}

pub record Session : Type 0 where
  pub store : Store
  pub subscriptions : List (EventKind × ℕ)
  pub last_handle : ℕ
  pub signals : List (ℤ × ℤ)

abbrev pub fresh : Session
fresh = record { store = setup_providers; subscriptions = []; last_handle = 0; signals = [] }

abbrev same_kind : EventKind → EventKind → Bool
same_kind device_discovered device_discovered = true
same_kind device_status_changed device_status_changed = true
same_kind device_batch device_batch = true
same_kind sensor_alert sensor_alert = true
same_kind _ _ = false

abbrev kind_of : Notice → EventKind
kind_of (discovered id name kind addr) = device_discovered
kind_of (status_changed id name online ts) = device_status_changed
kind_of (batch labels ids caps) = device_batch
kind_of (alerted sensor device status ts) = sensor_alert

abbrev unsubscribe : EventKind → ℕ → List (EventKind × ℕ) → List (EventKind × ℕ)
unsubscribe kind h [] = []
unsubscribe kind h ((k, i) ∷ rest) =
    let others = unsubscribe kind h rest in
    if same_kind k kind && (h == 0 || i == h) then others else (k, i) ∷ others

abbrev reach : Notice → List (EventKind × ℕ) → List (ℕ × Notice)
reach n [] = []
reach n ((k, i) ∷ rest) = if same_kind k (kind_of n) then (i, n) ∷ reach n rest else reach n rest

abbrev reach_all : List Notice → List (EventKind × ℕ) → List (ℕ × Notice)
reach_all [] subs = []
reach_all (n ∷ ns) subs = reach n subs ++ reach_all ns subs

abbrev handle_all : List (ℤ × ℤ) → Store → Store
handle_all [] s = s
handle_all ((id, value) ∷ rest) s = handle_all rest (on_ingest_reading id value s)

-- A request is served by the store.
abbrev through : {A : Type 0} → (Store → A × Store) → Session → A × Session
through serve c = let (a, s) = serve c.store in (a, record c { store = s })

-- `now` is what nowMs() returns, the same for the whole run.
abbrev pub mylib : ℤ → Library Session
mylib now = record {
  create_context = λ c. (ok 65538, c);
  on = λ kind c. (
    suc c.last_handle,
    record c {
      subscriptions = c.subscriptions ++ (kind, suc c.last_handle) ∷ [];
      last_handle = suc c.last_handle;
    },
  );
  off = λ kind h c. record c { subscriptions = unsubscribe kind h c.subscriptions };
  initialize = λ path. through (initialize path);
  add_device = λ specs. through (add_device specs);
  list_devices = through list_devices;
  get_device = λ id. through (get_device id);
  remove_device = λ id. through (remove_device now id);
  get_sensor_data = λ id. through (get_sensor_data now id);
  get_device_tags = λ id. through (get_device_tags id);
  get_device_capabilities = λ id. through (get_device_capabilities now id);
  ingest_reading = λ id value c. (ok tt, record c { signals = c.signals ++ (id, value) ∷ [] });
  last_reading = through last_reading;
  pause = λ ms c. (
    reach_all c.store.emitted c.subscriptions,
    record c { store = handle_all c.signals (record c.store { emitted = [] }); signals = [] },
  );
  shutdown = λ c. record c { store = (shutdown_request c.store).1 };
}
