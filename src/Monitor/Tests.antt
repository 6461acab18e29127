-- ===== src/Monitor/Tests.antt =====
-- Runs of the device monitor's parts, and the theorems about them at concrete inputs.
use nim_brokers.Prelude.{
  ℕ, zero, suc, ◌<◌, ◌↔◌, ◌≡◌, refl, pos, negsuc, eq_ℤ, true, some, List, [], ◌∷◌, Bytes, codes,
  if◌then◌else◌,
}
use nim_brokers.Client.{crash}
use nim_brokers.Monitor.Types.{AddDeviceSpec, DeviceInfo}
use nim_brokers.Monitor.Session.{fresh, mylib}
use nim_brokers.Monitor.Provider.{
  Store, setup_providers, initialize, add_device, not_found, get_device, remove_device,
}
use nim_brokers.Monitor.Provider.Requests.{
  IsValid, Request, init, add, remove, serve_all, serve_all-IsValid, get_device-remove_device,
}
use nim_brokers.Monitor.Cpp.Async.{Move, step, answer, fire, State, left, run_moves, queries}
use nim_brokers.Monitor.Cpp.Async.Counter.{Exact, run_moves-Exact}
use nim_brokers.Monitor.Cpp.Queries.{query_one}
use nim_brokers.Monitor.Cpp.Main.{main, at_start}
use nim_brokers.Monitor.Cpp.Main.Unguarded.{query_one_past}
use nim_brokers.Monitor.Cpp.Main.Verified.{Reports, main-Reports}
use nim_brokers.Monitor.C
use nim_brokers.Monitor.C.Freed.{Freed, main-Freed}
use nim_brokers.Monitor.C.Bound.{unbound, in_c_library, in_c_library-IsSound}

abbrev two_specs : List AddDeviceSpec
two_specs =
    record { name = codes "A"; device_type = codes "ap"; address = codes "10.0.0.1" }
    ∷ record { name = codes "B"; device_type = codes "ap"; address = codes "10.0.0.2" }
    ∷ record { name = codes "C"; device_type = codes "ap"; address = codes "10.0.0.3" }
    ∷ []

abbrev requests : List Request
requests = init (codes "/etc") ∷ add two_specs ∷ remove (pos 0) (pos 1) ∷ []

serve_all-IsValid_example : IsValid (serve_all requests setup_providers)
serve_all-IsValid_example = serve_all-IsValid requests

-- Initialized, with three devices.
abbrev three_devices : Store
three_devices = serve_all (init (codes "/etc") ∷ add two_specs ∷ []) setup_providers

three_devices-initialized : three_devices.initialized ≡ true
unfolding initialize add_device
three_devices-initialized = refl

get_device-remove_device_example :
    (get_device (pos 3) (remove_device (pos 0) (pos 1) three_devices).1).0
    ≡ (if eq_ℤ (pos 1) (pos 3) then not_found (pos 3) else (get_device (pos 3) three_devices).0)
get_device-remove_device_example =
    get_device-remove_device (pos 0) (pos 1) (pos 3) three_devices three_devices-initialized
      (serve_all-IsValid (init (codes "/etc") ∷ add two_specs ∷ []))

abbrev device : ℕ → DeviceInfo
device n = record {
  device_id = pos n;
  name = codes "A";
  device_type = codes "ap";
  address = codes "10.0.0.1";
  online = true;
}

abbrev stored : Store
stored = record setup_providers {
  initialized = true;
  devices = device 1 ∷ device 2 ∷ device 3 ∷ [];
}

-- Each call is queued, and its callback runs at once.
abbrev each_at_once : ℕ → List Move
each_at_once zero = step ∷ step ∷ []
each_at_once (suc n) = step ∷ answer (pos 0) ∷ step ∷ fire ∷ each_at_once n

abbrev at_end : State
at_end = record { phase = left 0; pending = pos 0; in_flight = 0 }

-- A full queue, which makes the client call again.
abbrev with_retry : List Move
with_retry = step ∷ answer (negsuc 5) ∷ step ∷ each_at_once 1

retry_answered : run_moves with_retry (queries (pos 7 ∷ [])) ≡ some at_end
unfolding run_moves
retry_answered = refl

run_moves-Exact_example : Exact at_end
run_moves-Exact_example = run_moves-Exact (pos 7 ∷ []) with_retry at_end retry_answered

query_one_past_example :
    (query_one (mylib (pos 99)) (pos 1 ∷ pos 2 ∷ []) (at_start fresh) ≡ crash) ↔ ((0 < 2) × (2 < 3))
query_one_past_example = query_one_past (mylib (pos 99)) (pos 1 ∷ pos 2 ∷ []) (at_start fresh)

main-Reports_example : Reports (mylib (pos 99)) (main (mylib (pos 99)) (each_at_once 5) fresh)
main-Reports_example = main-Reports (mylib (pos 99)) (each_at_once 5) fresh

abbrev hash : Bytes
hash = codes "schema"

main-Freed_example : Freed (C.Main.main hash (in_c_library (mylib (pos 99))) unbound)
main-Freed_example =
    main-Freed hash (in_c_library (mylib (pos 99))) unbound (in_c_library-IsSound (mylib (pos 99)))
