-- ===== src/Monitor/C/Callbacks.antt =====
-- What the C client keeps, its calls, and its callbacks.
use nim_brokers.Prelude.{
  ℕ, zero, suc, ◌+◌, ◌==◌, ℤ, pos, negsuc, Bool, true, false, List, [], ◌∷◌, ◌++◌, Bytes, codes,
  cat, dec_int, Option, none, some, and_then, get_elem?, if◌then◌else◌,
}
use nim_brokers.Client.{Step, next, crash, M, ◌>>=◌, ◌>>◌, pure, for_each}
use nim_brokers.Monitor.Format.{newline}
use nim_brokers.Monitor.C.Types.{
  Text, Array, Notice, discovered, batch, alerted, status_changed, Library, Owned,
  create_context_result, initialize_result, add_device_result, list_devices_result,
  get_device_result, remove_device_result, get_sensor_data_result, get_device_tags_result,
  get_device_capabilities_result,
}

-- The library's state; the results that are not freed yet and the contexts that are not shut down
-- yet, newest first; what went to stdout and stderr, newest first; and the counters.
pub record World (S : Type 0) : Type 0 where
  pub lib : S
  pub held : List Owned
  pub contexts : List ℕ
  pub out : List Bytes
  pub err : List Bytes
  pub discovered_count : ℕ
  pub status_count : ℕ
  pub batch_count : ℕ

abbrev pub tag : Owned → ℕ
tag create_context_result = 0
tag initialize_result = 1
tag add_device_result = 2
tag list_devices_result = 3
tag get_device_result = 4
tag remove_device_result = 5
tag get_sensor_data_result = 6
tag get_device_tags_result = 7
tag get_device_capabilities_result = 8

-- The list without the first element of that tag; none if there is no such element.
abbrev pub without : {A : Type 0} → (A → ℕ) → ℕ → List A → Option (List A)
without f n [] = none
without f n (x ∷ xs) =
    let rest = without f n xs in if f x == n then some xs else and_then rest (λ ys. some (x ∷ ys))

-- `s ? s : "(null)"`.
abbrev pub or_null : Text → Bytes
or_null none = codes "(null)"
or_null (some s) = s

abbrev pub quoted : Text → Bytes
quoted s = codes "\"" ++ or_null s ++ codes "\""

abbrev pub true_false : Bool → Bytes
true_false true = codes "true"
true_false false = codes "false"

-- The number of turns of a loop from 0 to a count.
abbrev pub turns : ℤ → ℕ
turns (pos n) = n
turns (negsuc n) = 0

abbrev pub comma : ℕ → Bytes
comma zero = []
comma (suc i) = codes ", "

module _ {S : Type 0} where
  abbrev pub say : List Bytes → M (World S) (Unit {0})
  say parts w = next tt (record w { out = cat parts ∷ w.out })

  abbrev pub complain : List Bytes → M (World S) (Unit {0})
  complain parts w = next tt (record w { err = cat parts ∷ w.err })

  abbrev answered : {A : Type 0} → World S → A × S → Step (World S) A
  answered w (a, s) = next a (record w { lib = s })

  abbrev pub ask : {A : Type 0} → (S → A × S) → M (World S) A
  ask call w = answered w (call w.lib)

  abbrev pub tell : (S → S) → M (World S) (Unit {0})
  tell call w = next tt (record w { lib = call w.lib })

  -- A call whose result the caller then owns.
  abbrev pub obtain : {A : Type 0} → Owned → (S → A × S) → M (World S) A
  obtain o call w = ask call (record w { held = o ∷ w.held })

  abbrev freed : World S → Option (List Owned) → Step (World S) (Unit {0})
  freed w none = crash
  freed w (some held) = next tt (record w { held = held })

  -- mylib_free_…_result. To free what is not held is undefined.
  abbrev pub free : Owned → M (World S) (Unit {0})
  free o w = freed w (without tag (tag o) w.held)

  abbrev pub opened : ℕ → M (World S) (Unit {0})
  opened ctx w = next tt (record w { contexts = ctx ∷ w.contexts })

  abbrev closed : World S → Option (List ℕ) → Step (World S) (Unit {0})
  closed w none = crash
  closed w (some rest) = next tt (record w { contexts = rest })

  -- mylib_shutdown.
  abbrev pub shutdown : Library S → ℕ → M (World S) (Unit {0})
  shutdown lib ctx w =
      closed (record w { lib = lib.shutdown w.lib }) (without (λ n. n) ctx w.contexts)

  abbrev read : {A : Type 0} → Option A → M (World S) A
  read none w = crash
  read (some a) w = next a w

  -- `a[i]`, which is undefined through NULL and behind the end.
  abbrev pub item : {A : Type 0} → Array A → ℕ → M (World S) A
  item a i = read (and_then a.items (λ xs. get_elem? xs i))

  -- `n` turns of a loop, from `i`.
  abbrev pub loop : ℕ → ℕ → (ℕ → M (World S) (Unit {0})) → M (World S) (Unit {0})
  loop i zero f = pure tt
  loop i (suc n) f = f i >>= λ _. loop (suc i) n f

  -- The elements of an array with commas between them.
  abbrev pub print_items : {A : Type 0} → (A → Bytes) → Array A → M (World S) (Unit {0})
  print_items f a = loop 0 (turns a.count) (λ i. item a i >>= λ x. say (comma i ∷ f x ∷ []))

  abbrev pub on_device_discovered : Bool → ℤ → Text → Text → Text → M (World S) (Unit {0})
  on_device_discovered state id name kind addr w =
      say
        (codes "  [event] DeviceDiscovered: id="
          ∷ dec_int id
          ∷ codes " name="
          ∷ quoted name
          ∷ codes " type="
          ∷ quoted kind
          ∷ codes " addr="
          ∷ quoted addr
          ∷ newline
          ∷ [])
        (if state then record w { discovered_count = w.discovered_count + 1 } else w)

  abbrev pub counted_batch : Bool → M (World S) (Unit {0})
  counted_batch state w =
      next tt (if state then record w { batch_count = w.batch_count + 1 } else w)

  abbrev pub on_device_batch : Bool → Array Text → Array ℤ → Array ℤ → M (World S) (Unit {0})
  on_device_batch state labels ids caps = do
    counted_batch state
    say (codes "  [event] DeviceBatch: " ∷ dec_int labels.count ∷ codes " devices  labels=[" ∷ [])
    print_items quoted labels
    say (codes "]  ids=[" ∷ [])
    print_items dec_int ids
    say (codes "]  caps=[" ∷ [])
    print_items dec_int caps
    say (codes "]" ∷ newline ∷ [])

  abbrev pub on_sensor_alert : Bool → ℤ → ℤ → ℤ → ℤ → M (World S) (Unit {0})
  on_sensor_alert state sensor device status ts = say (
      codes "  [event] SensorAlert: sensorId="
      ∷ dec_int sensor
      ∷ codes " deviceId="
      ∷ dec_int device
      ∷ codes " status="
      ∷ dec_int status
      ∷ codes " ts="
      ∷ dec_int ts
      ∷ newline
      ∷ [])

  abbrev pub on_device_status_changed : Bool → ℤ → Text → Bool → ℤ → M (World S) (Unit {0})
  on_device_status_changed state id name online ts w =
      say
        (codes "  [event] DeviceStatusChanged: id="
          ∷ dec_int id
          ∷ codes " name="
          ∷ quoted name
          ∷ codes " online="
          ∷ true_false online
          ∷ codes " ts="
          ∷ dec_int ts
          ∷ newline
          ∷ [])
        (if state then record w { status_count = w.status_count + 1 } else w)

  abbrev pub dispatch : Bool × Notice → M (World S) (Unit {0})
  dispatch (state, discovered id name kind addr) = on_device_discovered state id name kind addr
  dispatch (state, batch labels ids caps) = on_device_batch state labels ids caps
  dispatch (state, alerted sensor device status ts) = on_sensor_alert state sensor device status ts
  dispatch (state, status_changed id name online ts) =
      on_device_status_changed state id name online ts

  -- A sleep, with the callbacks that run in it.
  abbrev pub sleep_ms : Library S → ℕ → M (World S) (Unit {0})
  sleep_ms lib ms = ask (lib.pause ms) >>= λ notices. for_each notices dispatch
