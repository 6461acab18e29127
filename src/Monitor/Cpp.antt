-- ===== src/Monitor/Cpp.antt =====
-- The client examples/ffiapi/cpp_example/main.cpp: what it keeps, what it prints, and its callbacks.
pub mod Async
pub mod Queries
pub mod Main
use nim_brokers.Prelude.{
  ℕ, zero, suc, ◌+◌, ℤ, Bool, true, false, ◌==◌, List, [], ◌∷◌, ◌++◌, Bytes, codes, cat, dec,
  dec_int, length, pad_right, if◌then◌else◌,
}
use nim_brokers.Client.{Step, next, stop, crash, M, ◌>>=◌, ◌>>◌, pure, for_each}
use nim_brokers.Monitor.Types.{Library, Notice, discovered, status_changed, batch, alerted}
use nim_brokers.Monitor.Format.{newline, commas, quoted}

pub data Line : Type 0 where
  to_stdout : Bytes → Line
  to_stderr : Bytes → Line

-- The handles of the callbacks, 0 before they are registered.
pub record Handles : Type 0 where
  pub disc : ℕ
  pub status : ℕ
  pub batch : ℕ
  pub alert : ℕ
  pub status2 : ℕ

abbrev pub no_handles : Handles
no_handles = record { disc = 0; status = 0; batch = 0; alert = 0; status2 = 0 }

-- The library's state, the output, newest first, and the local variables that callbacks write to.
pub record World (S : Type 0) : Type 0 where
  pub lib : S
  pub out : List Line
  pub discovery_count : ℕ
  pub status_count : ℕ
  pub batch_count : ℕ

abbrev print_span : {A : Type 0} → Bytes → (A → Bytes) → List A → Bytes
print_span label f xs =
    cat (codes "      " ∷ pad_right 13 label ∷ codes " [" ∷ commas f xs ∷ codes "]" ∷ newline ∷ [])

module _ {S : Type 0} where
  abbrev pub say : List Bytes → M (World S) (Unit {0})
  say parts w = next tt (record w { out = to_stdout (cat parts) ∷ w.out })

  abbrev pub complain : List Bytes → M (World S) (Unit {0})
  complain parts w = next tt (record w { out = to_stderr (cat parts) ∷ w.out })

  abbrev answered : {A : Type 0} → World S → A × S → Step (World S) A
  answered w (a, s) = next a (record w { lib = s })

  -- A call of the library.
  abbrev pub ask : {A : Type 0} → (S → A × S) → M (World S) A
  ask call w = answered w (call w.lib)

  abbrev pub tell : (S → S) → M (World S) (Unit {0})
  tell call w = next tt (record w { lib = call w.lib })

  abbrev pub on_discovered : ℤ → Bytes → Bytes → Bytes → M (World S) (Unit {0})
  on_discovered id name kind addr w =
      say
        (codes "  >>> DeviceDiscovered #"
          ∷ dec (w.discovery_count + 1)
          ∷ codes ": id="
          ∷ dec_int id
          ∷ codes "  "
          ∷ quoted name
          ∷ codes "  ["
          ∷ kind
          ∷ codes "]  "
          ∷ addr
          ∷ newline
          ∷ [])
        (record w { discovery_count = w.discovery_count + 1 })

  abbrev pub on_status : ℤ → Bytes → Bool → ℤ → M (World S) (Unit {0})
  on_status id name online ts w =
      say
        (codes "  >>> DeviceStatusChanged #"
          ∷ dec (w.status_count + 1)
          ∷ codes ": id="
          ∷ dec_int id
          ∷ codes "  "
          ∷ quoted name
          ∷ codes "  "
          ∷ (if online then codes "ONLINE" else codes "OFFLINE")
          ∷ codes "  (ts="
          ∷ dec_int ts
          ∷ codes ")"
          ∷ newline
          ∷ [])
        (record w { status_count = w.status_count + 1 })

  abbrev pub on_batch : List Bytes → List ℤ → List ℤ → M (World S) (Unit {0})
  on_batch labels ids caps w =
      say
        (codes "  >>> DeviceBatch #"
          ∷ dec (w.batch_count + 1)
          ∷ codes ": "
          ∷ dec (length labels)
          ∷ codes " devices"
          ∷ newline
          ∷ print_span (codes "labels:") quoted labels
          ∷ print_span (codes "ids:") dec_int ids
          ∷ print_span (codes "capabilities:") dec_int caps
          ∷ [])
        (record w { batch_count = w.batch_count + 1 })

  abbrev pub on_alert : ℤ → ℤ → ℤ → ℤ → M (World S) (Unit {0})
  on_alert sensor device status ts = say (
      codes "  >>> SensorAlert: sensorId="
      ∷ dec_int sensor
      ∷ codes "  deviceId="
      ∷ dec_int device
      ∷ codes "  status="
      ∷ dec_int status
      ∷ codes "  ts="
      ∷ dec_int ts
      ∷ newline
      ∷ [])

  abbrev pub on_logged : Bytes → Bool → M (World S) (Unit {0})
  on_logged name online = say (
      codes "  >>> [Logger] "
      ∷ name
      ∷ codes " is now "
      ∷ (if online then codes "UP" else codes "DOWN")
      ∷ newline
      ∷ [])

  -- The callback that a handle stands for.
  abbrev pub dispatch : Handles → ℕ × Notice → M (World S) (Unit {0})
  dispatch h (k, discovered id name kind addr) = on_discovered id name kind addr
  dispatch h (k, status_changed id name online ts) =
      if k == h.status2 then on_logged name online else on_status id name online ts
  dispatch h (k, batch labels ids caps) = on_batch labels ids caps
  dispatch h (k, alerted sensor device status ts) = on_alert sensor device status ts

  -- A sleep, with the callbacks that run in it.
  abbrev pub sleep : Library S → Handles → ℕ → M (World S) (Unit {0})
  sleep lib h ms = ask (lib.pause ms) >>= λ notices. for_each notices (dispatch h)
