-- ===== src/Monitor/Cpp/Main/Quiet.antt =====
-- The parts of the client that return no other status than 1.
use nim_brokers.Prelude.{
  ℕ, zero, suc, ◌==◌, get_elem?, ◌≡◌, refl, ℤ, Bool, Bool-cases, inl, inr, Option, none, some, List,
  [], ◌∷◌, Bytes,
}
use nim_brokers.Client.{Answer, ok, error, M, ◌>>=◌, pure, After, Runs, Runs-bind, Runs-for_each}
use nim_brokers.Monitor.Types.{
  Library, DeviceInfo, Configured, SensorData, Capabilities, Notice, discovered, status_changed,
  batch, alerted,
}
use nim_brokers.Monitor.Format.{newline}
use nim_brokers.Monitor.Cpp.{World, Handles, say, ask, sleep, dispatch}
use nim_brokers.Monitor.Cpp.Async.{Move, Phase, at_call, counted, called, waiting, left, State}
use nim_brokers.Monitor.Cpp.Queries.{
  add_fleet, announce_added, added, inventory, list_rows, listed, waited, left_with, async_queries,
  futures, got_future, future_queries, got, index, query_one, sensed, tagged, capable, type_demos,
  removed, remove_at, remove_two,
}
use nim_brokers.Monitor.Cpp.Main.{
  created, create, subscribe, configured, configure, drop_first_listener, one_removed,
  remove_second, remove_one, remaining, list_remaining, ingested,
}

module _ {S : Type 0} where
  abbrev pub Any : World S → Type 0
  Any w = Unit

  abbrev pub Fails : ℕ → World S → Type 0
  Fails n w = n ≡ 1

  -- It may crash or wait for ever, and returns no other code than 1.
  abbrev Quiet : {A : Type 0} → M (World S) A → Type 0
  Quiet m = Runs Unit Unit Any (λ _. Any) Fails m

  say-Quiet : (parts : List Bytes) → Quiet (say parts)
  say-Quiet parts = record { at = λ w p. tt }

  pub ask-Quiet : {A : Type 0} (call : S → A × S) → Quiet (ask call)
  ask-Quiet call = record { at = λ w p. tt }

  -- A call, and what is done with its answer.
  ask-bind :
      {A B : Type 0} (call : S → A × S) (f : A → M (World S) B)
      → ((a : A) → Quiet (f a))
      → Quiet (ask call >>= f)
  ask-bind call f h = Runs-bind (ask-Quiet call) h

  after :
      {A B : Type 0} (m : M (World S) A) (f : A → M (World S) B)
      → Quiet m
      → ((a : A) → Quiet (f a))
      → Quiet (m >>= f)
  after m f h k = Runs-bind h k

  dispatch-Quiet : (h : Handles) (n : ℕ × Notice) → Quiet (dispatch h n)
  dispatch-Quiet h (k, discovered id name kind addr) = record { at = λ w p. tt }
  dispatch-Quiet h (k, status_changed id name online ts) = elim (Bool-cases (k == h.status2)) [
    | inl y ↦ rw y (record { at = λ w p. tt })
    | inr n ↦ rw n (record { at = λ w p. tt })
  ]
  dispatch-Quiet h (k, batch labels ids caps) = record { at = λ w p. tt }
  dispatch-Quiet h (k, alerted sensor device status ts) = record { at = λ w p. tt }

  pub sleep-Quiet : (lib : Library S) (h : Handles) (ms : ℕ) → Quiet (sleep lib h ms)
  sleep-Quiet lib h ms =
      ask-bind _ _ λ notices. Runs-for_each notices (dispatch h) (dispatch-Quiet h)

  created-Quiet : (a : Answer ℕ) → Quiet (created a)
  unfolding ◌>>=◌
  created-Quiet (ok ctx) = record { at = λ w p. tt }
  created-Quiet (error e) = record { at = λ w p. refl }

  pub create-Quiet : (lib : Library S) → Quiet (create lib)
  create-Quiet lib = after _ _ (record { at = λ w p. tt }) λ _. ask-bind _ _ created-Quiet

  pub subscribe-Quiet : (lib : Library S) → Quiet (subscribe lib)
  unfolding ◌>>=◌
  subscribe-Quiet lib = record { at = λ w p. tt }

  configured-Quiet : (a : Answer Configured) → Quiet (configured a)
  unfolding ◌>>=◌
  configured-Quiet (ok c) = record { at = λ w p. tt }
  configured-Quiet (error e) = record { at = λ w p. refl }

  pub configure-Quiet : (lib : Library S) → Quiet (configure lib)
  configure-Quiet lib = after _ _ (record { at = λ w p. tt }) λ _. ask-bind _ _ configured-Quiet

  pure-Quiet : {A : Type 0} (a : A) → Quiet (pure {W = World S} a)
  pure-Quiet a = record { at = λ w p. tt }

  added-Quiet : (a : Answer (List DeviceInfo)) → Quiet (added a)
  unfolding ◌>>=◌
  added-Quiet (ok ds) =
      Runs-bind (Runs-for_each ds announce_added (λ d. record { at = λ w p. tt })) λ _. pure-Quiet _
  added-Quiet (error e) = record { at = λ w p. refl }

  pub add_fleet-Quiet : (lib : Library S) → Quiet (add_fleet lib)
  add_fleet-Quiet lib = after _ _ (record { at = λ w p. tt }) λ _. ask-bind _ _ added-Quiet

  list_rows-Quiet : (i : ℕ) (ds : List DeviceInfo) → Quiet (list_rows i ds)
  list_rows-Quiet i [] = record { at = λ w p. tt }
  list_rows-Quiet i (d ∷ ds) = after _ _ (record { at = λ w p. tt }) λ _. list_rows-Quiet (suc i) ds

  listed-Quiet : (a : Answer (List DeviceInfo)) → Quiet (listed a)
  listed-Quiet (ok ds) = after _ _ (record { at = λ w p. tt }) λ _. list_rows-Quiet 0 ds
  listed-Quiet (error e) = record { at = λ w p. tt }

  pub inventory-Quiet : (lib : Library S) (ids : List ℤ) → Quiet (inventory lib ids)
  inventory-Quiet lib ids =
      after _ _ (record { at = λ w p. tt })
        λ _. ask-bind _ _ λ r. Runs-bind (listed-Quiet r) λ _. record { at = λ w p. tt }

  waited-Quiet : (p : Phase) (pending : ℤ) → Quiet (waited p pending)
  waited-Quiet (left n) pending = record { at = λ w p. tt }
  waited-Quiet (at_call qs) pending = record { at = λ w p. tt }
  waited-Quiet (counted q qs) pending = record { at = λ w p. tt }
  waited-Quiet (called rc q qs) pending = record { at = λ w p. tt }
  waited-Quiet (waiting n) pending = record { at = λ w p. tt }

  left_with-Quiet : (o : Option State) → Quiet (left_with o)
  left_with-Quiet none = record { at = λ w p. tt }
  left_with-Quiet (some s) = waited-Quiet s.phase s.pending

  pub async_queries-Quiet : (moves : List Move) (ids : List ℤ) → Quiet (async_queries moves ids)
  async_queries-Quiet moves ids = after _ _ (record { at = λ w p. tt }) λ _. left_with-Quiet _

  futures-Quiet : (lib : Library S) (ids : List ℤ) → Quiet (futures lib ids)
  futures-Quiet lib [] = record { at = λ w p. tt }
  futures-Quiet lib (q ∷ qs) = ask-bind _ _ λ r. Runs-bind (futures-Quiet lib qs) λ rs. pure-Quiet _

  got_future-Quiet : (x : ℤ × Answer DeviceInfo) → Quiet (got_future x)
  got_future-Quiet (id, ok d) = record { at = λ w p. tt }
  got_future-Quiet (id, error e) = record { at = λ w p. tt }

  pub future_queries-Quiet : (lib : Library S) (ids : List ℤ) → Quiet (future_queries lib ids)
  future_queries-Quiet lib ids =
      after _ _ (record { at = λ w p. tt })
        λ _. Runs-bind (futures-Quiet lib ids) λ futs.
          Runs-bind (Runs-for_each futs got_future got_future-Quiet) λ _. record { at = λ w p. tt }

  got-Quiet : (a : Answer DeviceInfo) → Quiet (got a)
  got-Quiet (ok d) = record { at = λ w p. tt }
  got-Quiet (error e) = record { at = λ w p. tt }

  index-Quiet : (ids : List ℤ) (i : ℕ) → Quiet (index {S = S} ids i)
  index-Quiet [] i = record { at = λ w p. tt }
  index-Quiet (x ∷ xs) zero = pure-Quiet x
  index-Quiet (x ∷ xs) (suc i) = index-Quiet xs i

  pub query_one-Quiet : (lib : Library S) (ids : List ℤ) → Quiet (query_one lib ids)
  query_one-Quiet lib [] = record { at = λ w p. tt }
  query_one-Quiet lib (x ∷ xs) = Runs-bind (index-Quiet (x ∷ xs) 2) λ qid.
      after _ _ (record { at = λ w p. tt })
        λ _. ask-bind _ _ λ r. Runs-bind (got-Quiet r) λ _. record { at = λ w p. tt }

  sensed-Quiet : (a : Answer SensorData) → Quiet (sensed a)
  sensed-Quiet (ok d) = record { at = λ w p. tt }
  sensed-Quiet (error e) = record { at = λ w p. tt }

  tagged-Quiet : (a : Answer (List Bytes)) → Quiet (tagged a)
  tagged-Quiet (ok tags) = record { at = λ w p. tt }
  tagged-Quiet (error e) = record { at = λ w p. tt }

  capable-Quiet : (a : Answer Capabilities) → Quiet (capable a)
  capable-Quiet (ok c) = record { at = λ w p. tt }
  capable-Quiet (error e) = record { at = λ w p. tt }

  said_after_sleep :
      (lib : Library S) (h : Handles) (ms : ℕ) → Quiet (sleep lib h ms >>= λ _. say (newline ∷ []))
  said_after_sleep lib h ms = after _ _ (sleep-Quiet lib h ms) λ _. record { at = λ w p. tt }

  pub said :
      {B : Type 0} {Q : B → World S → Type 0} (m : M (World S) (Unit {0}))
      (f : Unit {0} → M (World S) B)
      → ((w : World S) → After Unit Unit (λ _. Any) Fails (m w))
      → ((u : Unit {0}) → Runs Unit Unit Any Q Fails (f u))
      → Runs Unit Unit Any Q Fails (m >>= f)
  said m f h k = Runs-bind {P = Any} {m = m} (record { at = λ w p. h w }) k

  pub type_demos-Quiet :
      (lib : Library S) (h : Handles) (ids : List ℤ) → Quiet (type_demos lib h ids)
  type_demos-Quiet lib h [] = record { at = λ w p. tt }
  type_demos-Quiet lib h (q ∷ qs) =
      said _ _ (λ w. tt)
        λ _. ask-bind _ _ λ s. after _ _ (sensed-Quiet s) λ _.
          said _ _ (λ w. tt)
            λ _. ask-bind _ _ λ t. after _ _ (tagged-Quiet t) λ _.
              said _ _ (λ w. tt)
                λ _. ask-bind _ _ λ c. after _ _ (capable-Quiet c) λ _. said_after_sleep lib h 200

  removed-Quiet : (id : ℤ) (a : Answer Bool) → Quiet (removed id a)
  removed-Quiet id (ok b) = record { at = λ w p. tt }
  removed-Quiet id (error e) = record { at = λ w p. tt }

  remove_at-Quiet : (lib : Library S) (o : Option ℤ) → Quiet (remove_at lib o)
  remove_at-Quiet lib none = record { at = λ w p. tt }
  remove_at-Quiet lib (some id) = ask-bind _ _ (removed-Quiet id)

  pub remove_two-Quiet :
      (lib : Library S) (h : Handles) (ids : List ℤ) → Quiet (remove_two lib h ids)
  remove_two-Quiet lib h ids =
      said _ _ (λ w. tt)
        λ _.
          after _ _ (Runs-for_each (0 ∷ 3 ∷ []) _ λ i. remove_at-Quiet lib (get_elem? ids i))
            λ _. said_after_sleep lib h 200

  pub drop_first_listener-Quiet :
      (lib : Library S) (h : Handles) → Quiet (drop_first_listener lib h)
  unfolding ◌>>=◌
  drop_first_listener-Quiet lib h = record { at = λ w p. tt }

  one_removed-Quiet : (id : ℤ) (a : Answer Bool) → Quiet (one_removed id a)
  one_removed-Quiet id (ok b) = record { at = λ w p. tt }
  one_removed-Quiet id (error e) = record { at = λ w p. tt }

  remove_second-Quiet : (lib : Library S) (o : Option ℤ) → Quiet (remove_second lib o)
  remove_second-Quiet lib none = record { at = λ w p. tt }
  remove_second-Quiet lib (some id) = ask-bind _ _ (one_removed-Quiet id)

  pub remove_one-Quiet :
      (lib : Library S) (h : Handles) (ids : List ℤ) → Quiet (remove_one lib h ids)
  remove_one-Quiet lib h ids =
      said _ _ (λ w. tt)
        λ _. after _ _ (remove_second-Quiet lib (get_elem? ids 1)) λ _. said_after_sleep lib h 200

  remaining-Quiet : (a : Answer (List DeviceInfo)) → Quiet (remaining a)
  remaining-Quiet (error e) = record { at = λ w p. tt }
  remaining-Quiet (ok ds) =
      said _ _ (λ w. tt) λ _. Runs-for_each ds _ λ d. record { at = λ w p. tt }

  pub list_remaining-Quiet : (lib : Library S) → Quiet (list_remaining lib)
  list_remaining-Quiet lib =
      said _ _ (λ w. tt)
        λ _. ask-bind _ _ λ r. after _ _ (remaining-Quiet r) λ _. record { at = λ w p. tt }

  pub ingested-Quiet : (a : Answer (Unit {0})) → Quiet (ingested a)
  unfolding ◌>>=◌
  ingested-Quiet (ok u) = record { at = λ w p. tt }
  ingested-Quiet (error e) = record { at = λ w p. refl }
