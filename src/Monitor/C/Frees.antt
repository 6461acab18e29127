-- ===== src/Monitor/C/Frees.antt =====
-- The parts of the C client that free what they obtain.
use nim_brokers.Prelude.{
  ℕ, ◌≤◌, ◌<◌, ◌≡◌, arith, inl, inr, ℤ, pos, negsuc, ltb_ℤ, true, Bool-cases, List, [], ◌∷◌, none,
  some, Bytes,
}
use nim_brokers.Client.{M, ◌>>=◌, Runs-bind}
use nim_brokers.Monitor.Format.{newline}
use nim_brokers.Monitor.C.Types.{
  Text, Array, DeviceItem, SensorData, Library, Owned, add_device_result, list_devices_result,
  get_device_result, remove_device_result, get_sensor_data_result, get_device_tags_result,
  get_device_capabilities_result,
}
use nim_brokers.Monitor.C.Callbacks.{World, turns, say, quoted}
use nim_brokers.Monitor.C.Queries.{
  Ids, fleet, reported, three_ids, take_ids, announce_added, added, add_devices, rows, list_all,
  query_single, remove_one, raw_bytes, sensor_line, sensor_demo, tags_line, tags_demo, caps_demo,
  type_demos, is_there, smaller,
}
use nim_brokers.Monitor.C.Sound.{
  Fits, IsSound, Has, obtain-bind, free-Leads, Keeps, item-Keeps, loop-Keeps, print_items-Keeps,
  said, sleep_ms-Keeps,
}

more_than_two : (n : ℤ) → ltb_ℤ (pos 2) n ≡ true → 2 < turns n
more_than_two (pos n) e = ground arith
more_than_two (negsuc n) e = absurd (ground arith)

smaller_le : (a b : ℕ) → smaller a b ≤ a
smaller_le a b = ground arith

module _ {S : Type 0} (h : List Owned) (c : List ℕ) where
  abbrev Keep : {A : Type 0} → M (World S) A → Type 0
  Keep m = Keeps h c m

  reported-Keeps :
      (label : Bytes) (e : Text) (m : M (World S) (Unit {0})) → Keep m → Keep (reported label e m)
  unfolding reported
  reported-Keeps label none m k = k
  reported-Keeps label (some e) m k = record { at = λ w p. p }

  three_ids-Keeps : (a : Array DeviceItem) → Fits a → 2 < turns a.count → Keep (three_ids a)
  three_ids-Keeps a f l = Runs-bind (item-Keeps h c a 0 f (omega arith)) λ gw.
      Runs-bind (item-Keeps h c a 1 f (omega arith))
        λ sensor. Runs-bind (item-Keeps h c a 2 f (omega arith)) λ cam. record { at = λ w p. p }

  take_ids-Keeps : (a : Array DeviceItem) → Fits a → Keep (take_ids a)
  take_ids-Keeps a f = elim (Bool-cases (ltb_ℤ (pos 2) a.count)) [
    | inl y ↦ elim (Bool-cases (is_there a.items)) [
      | inl t ↦ rw (y, t) (three_ids-Keeps a f (more_than_two a.count y))
      | inr n ↦ rw (y, n) (record { at = λ w p. p })
    ]
    | inr n ↦ rw n (record { at = λ w p. p })
  ]

  announce_added-Keeps :
      (a : Array DeviceItem) (i : ℕ) → Fits a → i < turns a.count → Keep (announce_added a i)
  announce_added-Keeps a i f l = Runs-bind (item-Keeps h c a i f l) λ d. record { at = λ w p. p }

  added-Keeps : (e : Text) (a : Array DeviceItem) → Fits a → Keep (added e a)
  unfolding ◌>>=◌
  added-Keeps (some e) a f = record { at = λ w p. p }
  added-Keeps none a f = Runs-bind (take_ids-Keeps a f) λ ids.
      Runs-bind
        (loop-Keeps h c (turns a.count) 0 (announce_added a)
          λ j l. announce_added-Keeps a j f (omega arith))
        λ _. record { at = λ w p. p }

  rows-Keeps :
      (line : ℕ → DeviceItem → List Bytes) (a : Array DeviceItem) → Fits a → Keep (rows line a)
  rows-Keeps line a f =
      said h c _ _ (λ w p. p)
        λ _.
          loop-Keeps h c (turns a.count) 0 _
            λ j l. Runs-bind (item-Keeps h c a j f (omega arith)) λ d. record { at = λ w p. p }

  raw_bytes-Keeps : (a : Array ℕ) → Fits a → Keep (raw_bytes a)
  raw_bytes-Keeps a f = loop-Keeps h c (smaller (turns a.count) 8) 0 _ λ j l.
      let below : smaller (turns a.count) 8 ≤ turns a.count = smaller_le (turns a.count) 8 in
      Runs-bind (item-Keeps h c a j f (omega (arith, below, l))) λ d. record { at = λ w p. p }

  sensor_line-Keeps : (d : SensorData) → Fits d.raw_data → Keep (sensor_line d)
  sensor_line-Keeps d f =
      said h c _ _ (λ w p. p)
        λ _. Runs-bind (raw_bytes-Keeps d.raw_data f) λ _. record { at = λ w p. p }

  tags_line-Keeps : (a : Array Text) → Fits a → Keep (tags_line a)
  tags_line-Keeps a f =
      said h c _ _ (λ w p. p)
        λ _. Runs-bind (print_items-Keeps h c quoted a f) λ _. record { at = λ w p. p }

module _ {S : Type 0} (lib : Library S) (ok : IsSound lib) (c : List ℕ) where
  abbrev Clean : World S → Type 0
  Clean w = Has [] c w

  -- It frees all that it obtains.
  abbrev Frees : {A : Type 0} → M (World S) A → Type 0
  Frees m = Keeps [] c m

  -- Nothing but words.
  end : Frees (say (newline ∷ []))
  end = record { at = λ w p. p }

  pub add_devices-Frees : Frees (add_devices lib)
  add_devices-Frees =
      said [] c _ _ (λ w p. p)
        λ _. obtain-bind add_device_result _ _ [] c λ s.
          Runs-bind (added-Keeps (add_device_result ∷ []) c _ _ (ok.adds fleet s)) λ ids.
            Runs-bind (free-Leads add_device_result [] c) λ _.
              Runs-bind (sleep_ms-Keeps [] c lib 200 ok)
                λ _. said [] c _ _ (λ w p. p) λ _. record { at = λ w p. p }

  pub list_all-Frees :
      (title : Bytes) (line : ℕ → DeviceItem → List Bytes) → Frees (list_all lib title line)
  list_all-Frees title line =
      said [] c _ _ (λ w p. p)
        λ _. obtain-bind list_devices_result _ _ [] c λ s.
          Runs-bind
            (reported-Keeps (list_devices_result ∷ []) c _ _ _ (
              rows-Keeps (list_devices_result ∷ []) c line (lib.list_devices s).0.body
                (ok.lists s)))
            λ _. Runs-bind (free-Leads list_devices_result [] c) λ _. end

  pub query_single-Frees : (id : ℤ) → Frees (query_single lib id)
  query_single-Frees id =
      said [] c _ _ (λ w p. p)
        λ _. obtain-bind get_device_result _ _ [] c λ s.
          Runs-bind (reported-Keeps (get_device_result ∷ []) c _ _ _ (record { at = λ w p. p }))
            λ _. Runs-bind (free-Leads get_device_result [] c) λ _. end

  pub remove_one-Frees : (id : ℤ) → Frees (remove_one lib id)
  remove_one-Frees id =
      said [] c _ _ (λ w p. p)
        λ _. obtain-bind remove_device_result _ _ [] c λ s.
          Runs-bind (reported-Keeps (remove_device_result ∷ []) c _ _ _ (record { at = λ w p. p }))
            λ _.
              Runs-bind (free-Leads remove_device_result [] c)
                λ _. Runs-bind (sleep_ms-Keeps [] c lib 200 ok) λ _. end

  sensor_demo-Frees : (id : ℤ) → Frees (sensor_demo lib id)
  sensor_demo-Frees id = obtain-bind get_sensor_data_result _ _ [] c λ s.
      Runs-bind
        (reported-Keeps (get_sensor_data_result ∷ []) c _ _ _ (
          sensor_line-Keeps (get_sensor_data_result ∷ []) c (lib.get_sensor_data id s).0.body
            (ok.senses id s)))
        λ _. free-Leads get_sensor_data_result [] c

  tags_demo-Frees : (id : ℤ) → Frees (tags_demo lib id)
  tags_demo-Frees id = obtain-bind get_device_tags_result _ _ [] c λ s.
      Runs-bind
        (reported-Keeps (get_device_tags_result ∷ []) c _ _ _ (
          tags_line-Keeps (get_device_tags_result ∷ []) c (lib.get_device_tags id s).0.body
            (ok.tags id s)))
        λ _. free-Leads get_device_tags_result [] c

  caps_demo-Frees : (id : ℤ) → Frees (caps_demo lib id)
  caps_demo-Frees id = obtain-bind get_device_capabilities_result _ _ [] c λ s.
      Runs-bind
        (reported-Keeps (get_device_capabilities_result ∷ []) c _ _ _ (record { at = λ w p. p }))
        λ _. free-Leads get_device_capabilities_result [] c

  pub type_demos-Frees : (ids : Ids) → Frees (type_demos lib ids)
  type_demos-Frees ids =
      said [] c _ _ (λ w p. p)
        λ _. Runs-bind (sensor_demo-Frees ids.gw) λ _. Runs-bind (tags_demo-Frees ids.sensor) λ _.
          Runs-bind (caps_demo-Frees ids.gw)
            λ _. Runs-bind (sleep_ms-Keeps [] c lib 200 ok) λ _. end
