-- ===== src/Persist/Server.antt =====
-- PersistenceImpl and its backends (examples/persistence/nimlib), for all the facades of a process.
-- The data of a file backend is a map, as a memory backend's: reading and writing files is taken to
-- succeed.
use nim_brokers.Prelude.{
  ◌==◌, ℤ, Bool, true, false, ◌&&◌, str_eq, Option, none, some, and_then, List, [], ◌∷◌, ◌++◌,
  Bytes, if◌then◌else◌,
}
use nim_brokers.Context.{BrokerContext, Counters, zeroed, new_broker_context, new_instance_ctx}

-- BackendEntry, with the facade that owns it and what it stores.
pub record Entry : Type 0 where
  pub owner : BrokerContext
  pub kind : ℤ
  pub handle : BrokerContext
  pub alive : Bool
  pub data_ : List (Bytes × Bytes)

pub record Server : Type 0 where
  pub counters : Counters
  pub backends : List Entry

abbrev pub at_start : Server
at_start = record { counters = zeroed; backends = [] }

abbrev pub put : Bytes → Bytes → List (Bytes × Bytes) → List (Bytes × Bytes)
put key value [] = (key, value) ∷ []
put key value ((k, v) ∷ rest) =
    let others = put key value rest in if str_eq k key then (key, value) ∷ rest else (k, v) ∷ others

abbrev pub get : Bytes → List (Bytes × Bytes) → Option Bytes
get key [] = none
get key ((k, v) ∷ rest) = let later = get key rest in if str_eq k key then some v else later

-- The context allocation can fail on an assertion.
abbrev pub create_context : Server → Option (BrokerContext × Server)
create_context s =
    and_then (new_broker_context s.counters) (λ new. some (new.0, record s { counters = new.1 }))

abbrev pub entry : BrokerContext → ℤ → BrokerContext → Entry
entry owner kind handle = record {
  owner = owner;
  kind = kind;
  handle = handle;
  alive = true;
  data_ = [];
}

abbrev pub make_backend : BrokerContext → ℤ → Server → Option (BrokerContext × Server)
make_backend owner kind s = and_then (new_instance_ctx owner s.counters) (λ new.
    some (new.0, record { counters = new.1; backends = s.backends ++ entry owner kind new.0 ∷ [] }))

-- The handle, the kind, and whether it is alive.
abbrev pub list_backends : BrokerContext → List Entry → List (BrokerContext × ℤ × Bool)
list_backends owner [] = []
list_backends owner (e ∷ es) =
    let rest = list_backends owner es in
    if e.owner == owner then (e.handle, e.kind, e.alive) ∷ rest else rest

-- None if no such backend is alive.
abbrev pub terminated : BrokerContext → BrokerContext → List Entry → Option (List Entry)
terminated owner handle [] = none
terminated owner handle (e ∷ es) =
    let rest = terminated owner handle es in
    if e.owner == owner && e.handle == handle && e.alive
    then some (record e { alive = false } ∷ es)
    else and_then rest (λ es'. some (e ∷ es'))

abbrev pub terminate_backend : BrokerContext → BrokerContext → Server → Option Server
terminate_backend owner handle s =
    and_then (terminated owner handle s.backends) (λ es. some (record s { backends = es }))

-- The backend that provides for a context.
abbrev pub serves : BrokerContext → Entry → Bool
serves handle e = e.handle == handle && e.alive

-- What the backend at a context holds; none without a provider there.
abbrev pub held : BrokerContext → List Entry → Option (List (Bytes × Bytes))
held handle [] = none
held handle (e ∷ es) = let rest = held handle es in if serves handle e then some e.data_ else rest

abbrev pub stored : BrokerContext → Bytes → Bytes → List Entry → List Entry
stored handle key value [] = []
stored handle key value (e ∷ es) =
    let rest = stored handle key value es in
    if serves handle e then record e { data_ = put key value e.data_ } ∷ es else e ∷ rest

-- The request `store`; none if it is an error.
abbrev pub store : BrokerContext → Bytes → Bytes → Server → Option Server
store handle key value s =
    and_then (held handle s.backends)
      (λ m. some (record s { backends = stored handle key value s.backends }))

-- The request `read`, with the result that goes out as an event: none if the key is not there.
abbrev pub read : BrokerContext → Bytes → Server → Option (Option Bytes)
read handle key s = and_then (held handle s.backends) (λ m. some (get key m))

-- The shutdown of a facade takes its backends with it.
abbrev pub shut : BrokerContext → List Entry → List Entry
shut owner [] = []
shut owner (e ∷ es) =
    let rest = shut owner es in
    if e.owner == owner then record e { alive = false } ∷ rest else e ∷ rest

abbrev pub shutdown : BrokerContext → Server → Server
shutdown owner s = record s { backends = shut owner s.backends }

-- The wrapper of a backend is released; a backend that is terminated already stays so.
abbrev pub close : BrokerContext → List Entry → List Entry
close handle [] = []
close handle (e ∷ es) =
    let rest = close handle es in
    if e.handle == handle then record e { alive = false } ∷ rest else e ∷ rest
