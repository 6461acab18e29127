-- ===== src/Monitor/Provider/Requests.antt =====
-- The providers as operations on a map from ids to devices.
use nim_brokers.Prelude.{
  ℕ, suc, ◌<◌, ◌≡◌, refl, sym, ap, ◌∙◌, ℤ, pos, eq_ℤ, eq_ℤ_iff, Bool, true, false, Bool-cases, inl,
  inr, Option, none, some, List, [], ◌∷◌, ◌++◌, Bytes, if◌then◌else◌, arith,
}
use nim_brokers.Client.{Answer, ok}
use nim_brokers.Monitor.Types.{AddDeviceSpec, DeviceInfo}
use nim_brokers.Monitor.Provider.{
  Store, setup_providers, not_initialized, not_found, initialize, shutdown_request, info_of,
  add_one, add_all, add_device, find, drop_found, remove_device, found, get_device, sense_found,
  get_sensor_data, on_ingest_reading,
}
use nim_brokers.Monitor.Provider.Valid.{All, Differ, Apart, lookup, All-del, Found, find-Found}

-- An id that has been given out.
abbrev pub IsOld : ℕ → DeviceInfo → Type 0
IsOld n d = (i : ℕ) × (d.device_id ≡ pos i) × (i < n)

pub record IsValid (s : Store) : Type 0 where
  pub apart : Apart s.devices
  pub old : All (IsOld s.next_device_id) s.devices

-- A device at the end with an id that no other has.
All-snoc :
    (P : DeviceInfo → Type 0) (ds : List DeviceInfo) (d : DeviceInfo)
    → All P ds
    → P d
    → All P (ds ++ d ∷ [])
All-snoc P [] d a p = (p, tt)
All-snoc P (e ∷ es) d (q, a) p = (q, All-snoc P es d a p)

All-older : (n : ℕ) (ds : List DeviceInfo) → All (IsOld n) ds → All (IsOld (suc n)) ds
All-older n [] a = tt
All-older n (d ∷ ds) ((i, e, h), a) = ((i, e, omega arith), All-older n ds a)

new-Differ :
    (n i : ℕ) (d : DeviceInfo) → d.device_id ≡ pos i → i < n → eq_ℤ d.device_id (pos n) ≡ false
new-Differ n i d e h = rw e (ground arith)

Apart-snoc :
    (n : ℕ) (ds : List DeviceInfo) (spec : AddDeviceSpec)
    → Apart ds
    → All (IsOld n) ds
    → Apart (ds ++ info_of n spec ∷ [])
Apart-snoc n [] spec a o = (tt, tt)
Apart-snoc n (d ∷ ds) spec (f, a) ((i, e, h), o) =
    (All-snoc (Differ d) ds (info_of n spec) f (new-Differ n i d e h), Apart-snoc n ds spec a o)

add_one-IsValid : (spec : AddDeviceSpec) (s : Store) → IsValid s → IsValid (add_one spec s)
add_one-IsValid spec s v = record {
  apart = Apart-snoc s.next_device_id s.devices spec v.apart v.old;
  old =
      All-snoc (IsOld (suc s.next_device_id)) s.devices _
        (All-older s.next_device_id s.devices v.old) (s.next_device_id, refl, omega arith);
}

add_all-IsValid : (specs : List AddDeviceSpec) (s : Store) → IsValid s → IsValid (add_all specs s).1
add_all-IsValid [] s v = v
add_all-IsValid (spec ∷ specs) s v =
    add_all-IsValid specs (add_one spec s) (add_one-IsValid spec s v)

-- Both parts of the state that matter are the same.
same-IsValid :
    (s t : Store)
    → t.devices ≡ s.devices
    → t.next_device_id ≡ s.next_device_id
    → IsValid s
    → IsValid t
same-IsValid s t d n v = record { apart = rw d v.apart; old = rw (d, n) v.old }

if-IsValid :
    {A : Type 0} (b : Bool) (x y : Answer A × Store)
    → IsValid x.1
    → IsValid y.1
    → IsValid (if b then x else y).1
if-IsValid true x y v w = v
if-IsValid false x y v w = w

add_device-IsValid :
    (specs : List AddDeviceSpec) (s : Store) → IsValid s → IsValid (add_device specs s).1
unfolding add_device
add_device-IsValid specs s v =
    if-IsValid s.initialized _ _
      (same-IsValid (add_all specs s).1 _ refl refl (add_all-IsValid specs s v)) v

drop_found-IsValid :
    (now x : ℤ) (o : Option (ℕ × DeviceInfo)) (s : Store)
    → Found x s.devices o
    → IsValid s
    → IsValid (drop_found now x o s).1
drop_found-IsValid now x none s f v = v
drop_found-IsValid now x (some (i, d)) s (l, m, a) v = record {
  apart = a;
  old = All-del (IsOld s.next_device_id) i s.devices v.old;
}

remove_device-IsValid : (now x : ℤ) (s : Store) → IsValid s → IsValid (remove_device now x s).1
unfolding remove_device
remove_device-IsValid now x s v =
    if-IsValid s.initialized _ _
      (drop_found-IsValid now x (find x s.devices) s (find-Found x s.devices v.apart) v) v

sense_found-IsValid :
    (now x : ℤ) (o : Option (ℕ × DeviceInfo)) (s : Store)
    → IsValid s
    → IsValid (sense_found now x o s).1
sense_found-IsValid now x none s v = v
sense_found-IsValid now x (some e) s v = same-IsValid s _ refl refl v

get_sensor_data-IsValid : (now x : ℤ) (s : Store) → IsValid s → IsValid (get_sensor_data now x s).1
unfolding get_sensor_data
get_sensor_data-IsValid now x s v =
    if-IsValid s.initialized _ _ (sense_found-IsValid now x (find x s.devices) s v) v

-- The requests and the signal that change the state.
pub data Request : Type 0 where
  init : Bytes → Request
  add : List AddDeviceSpec → Request
  remove : ℤ → ℤ → Request
  sense : ℤ → ℤ → Request
  ingest : ℤ → ℤ → Request
  shut : Request

abbrev pub serve : Request → Store → Store
serve (init path) s = (initialize path s).1
serve (add specs) s = (add_device specs s).1
serve (remove now id) s = (remove_device now id s).1
serve (sense now id) s = (get_sensor_data now id s).1
serve (ingest id value) s = on_ingest_reading id value s
serve shut s = (shutdown_request s).1

abbrev pub serve_all : List Request → Store → Store
serve_all [] s = s
serve_all (r ∷ rs) s = serve_all rs (serve r s)

serve-IsValid : (r : Request) (s : Store) → IsValid s → IsValid (serve r s)
unfolding initialize shutdown_request on_ingest_reading
serve-IsValid (init path) s v = same-IsValid s _ refl refl v
serve-IsValid (add specs) s v = add_device-IsValid specs s v
serve-IsValid (remove now id) s v = remove_device-IsValid now id s v
serve-IsValid (sense now id) s v = get_sensor_data-IsValid now id s v
serve-IsValid (ingest id value) s v = same-IsValid s _ refl refl v
serve-IsValid shut s v = record { apart = tt; old = tt }

serve_all-kept : (rs : List Request) (s : Store) → IsValid s → IsValid (serve_all rs s)
serve_all-kept [] s v = v
serve_all-kept (r ∷ rs) s v = serve_all-kept rs (serve r s) (serve-IsValid r s v)

-- Whatever requests and signals the library serves from its start on, in whatever order, no two
-- devices have the same id, and every id has been given out.
pub serve_all-IsValid : (rs : List Request) → IsValid (serve_all rs setup_providers)
serve_all-IsValid rs = serve_all-kept rs setup_providers (record { apart = tt; old = tt })

-- The answer to a query by the map.
abbrev answer_of : ℤ → Option DeviceInfo → Answer DeviceInfo
answer_of x none = not_found x
answer_of x (some d) = ok d

found-lookup :
    (x : ℤ) (ds : List DeviceInfo) (o : Option (ℕ × DeviceInfo))
    → Found x ds o
    → found x o (λ d. d) ≡ answer_of x (lookup x ds)
found-lookup x ds none f = rw f
found-lookup x ds (some (i, d)) f = rw f.0

module _ (now x y : ℤ) (s : Store) (up : s.initialized ≡ true) where
  remove_device-up : remove_device now x s ≡ drop_found now x (find x s.devices) s
  unfolding remove_device
  remove_device-up =
      ap (λ b. if b then drop_found now x (find x s.devices) s else (not_initialized, s)) up

  get_device-up : (get_device y s).0 ≡ found y (find y s.devices) (λ d. d)
  unfolding get_device
  get_device-up =
      ap (λ (r : Answer DeviceInfo × Store). r.0)
        (ap (λ b. if b then (found y (find y s.devices) (λ d. d), s) else (not_initialized, s)) up)

get_device-lookup :
    (y : ℤ) (s : Store)
    → s.initialized ≡ true
    → Apart s.devices
    → (get_device y s).0 ≡ answer_of y (lookup y s.devices)
get_device-lookup y s up a =
    get_device-up (pos 0) y y s up
    ∙ found-lookup y s.devices (find y s.devices) (find-Found y s.devices a)

get_device-drop_found :
    (now x y : ℤ) (o : Option (ℕ × DeviceInfo)) (s : Store)
    → s.initialized ≡ true
    → IsValid s
    → Found x s.devices o
    → (get_device y (drop_found now x o s).1).0
      ≡ (if eq_ℤ x y then not_found y else answer_of y (lookup y s.devices))
get_device-drop_found now x y none s up v f =
    get_device-lookup y s up v.apart ∙ elim (Bool-cases (eq_ℤ x y)) [
      | inl t ↦
          let same : x ≡ y = (eq_ℤ_iff x y).0 t in
          rw t (ap (answer_of y) (ap (λ z. lookup z s.devices) (sym same) ∙ f))
      | inr n ↦ rw n
    ]
get_device-drop_found now x y (some (i, d)) s up v (l, m, a) =
    get_device-lookup y (drop_found now x (some (i, d)) s).1 up a
    ∙ ap (answer_of y) (m y)
    ∙ elim (Bool-cases (eq_ℤ x y)) [ inl t ↦ rw t | inr n ↦ rw n ]

-- In an initialized library whose devices have ids of their own, a removal takes its id out of the
-- map and leaves every other: after it, whatever it answered, a query for that id finds nothing, and
-- a query for another is answered as before.
pub get_device-remove_device :
    (now x y : ℤ) (s : Store)
    → s.initialized ≡ true
    → IsValid s
    → (get_device y (remove_device now x s).1).0
      ≡ (if eq_ℤ x y then not_found y else (get_device y s).0)
get_device-remove_device now x y s up v =
    ap (λ r. (get_device y r.1).0) (remove_device-up now x y s up)
    ∙ get_device-drop_found now x y (find x s.devices) s up v (find-Found x s.devices v.apart)
    ∙ ap (λ k. if eq_ℤ x y then not_found y else k) (sym (get_device-lookup y s up v.apart))
