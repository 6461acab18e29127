-- ===== src/Monitor/Cpp/Main/Verified.antt =====
-- Status 0 means that the signals have come through.
use nim_brokers.Prelude.{
  ℕ, ◌≡◌, refl, true, false, pos, eq_ℤ, eq_ℤ_iff, Bool-cases, ◌⊎◌, inl, inr, List, [], ◌∷◌, codes,
  cat,
}
use nim_brokers.Client.{
  Answer, ok, error, Step, next, stop, crash, running, M, ◌>>=◌, pure, After, Runs, Runs-bind,
}
use nim_brokers.Monitor.Types.{Library, Reading}
use nim_brokers.Monitor.Format.{newline}
use nim_brokers.Monitor.Cpp.{World, Line, to_stdout, ask, Handles}
use nim_brokers.Monitor.Cpp.Async.{Move}
use nim_brokers.Monitor.Cpp.Main.{
  Exit, exited, crashed, unfinished, is_second, read_back, fire_signals, unsubscribe, summary,
  destroy, body, monitor, main,
}
use nim_brokers.Monitor.Cpp.Main.Quiet.{
  Any, Fails, ask-Quiet, sleep-Quiet, create-Quiet, subscribe-Quiet, configure-Quiet,
  add_fleet-Quiet, inventory-Quiet, async_queries-Quiet, future_queries-Quiet, query_one-Quiet,
  said, type_demos-Quiet, remove_two-Quiet, drop_first_listener-Quiet, remove_one-Quiet,
  list_remaining-Quiet, ingested-Quiet,
}

abbrev verified : Line
verified = to_stdout (cat (codes "  Signal round-trip verified." ∷ newline ∷ newline ∷ []))

-- The line has been printed.
abbrev pub Printed : Line → List Line → Type 0
Printed l [] = ⊥
Printed l (m ∷ ms) = (m ≡ l) ⊎ Printed l ms

-- In some state the library answers that it has taken in two signals, and the values of the second.
abbrev pub Confirms : {S : Type 0} → Library S → Type 0
Confirms {S} lib =
    (s : S) × (r : Reading) × ((lib.last_reading s).0 ≡ ok r)
    × (r.count ≡ pos 2)
    × (r.device_id ≡ pos 42)
    × (r.value ≡ pos 725)

is_second-true :
    (r : Reading)
    → is_second r ≡ true
    → (r.count ≡ pos 2) × (r.device_id ≡ pos 42) × (r.value ≡ pos 725)
is_second-true r e = elim (Bool-cases (eq_ℤ r.count (pos 2))) [
  | inl x ↦ elim (Bool-cases (eq_ℤ r.device_id (pos 42))) [
    | inl y ↦
        let z : eq_ℤ r.value (pos 725) ≡ true = rw (x, y) at e in
        ((eq_ℤ_iff _ _).0 x, (eq_ℤ_iff _ _).0 y, (eq_ℤ_iff _ _).0 z)
    | inr n ↦ let f : false ≡ true = rw (x, n) at e in cc
  ]
  | inr n ↦ let f : false ≡ true = rw n at e in cc
]

module _ {S : Type 0} (lib : Library S) where
  abbrev Verified : World S → Type 0
  Verified w = Printed verified w.out × Confirms lib

  -- The answer is the library's in some state.
  abbrev Answers : Answer Reading → World S → Type 0
  Answers a w = (s : S) × ((lib.last_reading s).0 ≡ a)

  last_reading-Answers : Runs Unit Unit Any Answers Fails (ask lib.last_reading)
  last_reading-Answers = record { at = λ w p. (w.lib, refl) }

  -- What goes on has printed the line.
  abbrev Verifies : {A : Type 0} → (World S → Type 0) → M (World S) A → Type 0
  Verifies P m = Runs Unit Unit P (λ _. Verified) Fails m

  read_back-Verifies : (a : Answer Reading) → Verifies (Answers a) (read_back a)
  unfolding ◌>>=◌
  read_back-Verifies (error e) = record { at = λ w p. refl }
  read_back-Verifies (ok r) = elim (Bool-cases (is_second r)) [
    | inl y ↦ rw y (record {
      at = λ w p. (inl refl, let v = is_second-true r y in (p.0, r, p.1, v.0, v.1, v.2));
    })
    | inr n ↦ rw n (record { at = λ w p. refl })
  ]

  fire_signals-Verifies : (h : Handles) → Verifies Any (fire_signals lib h)
  fire_signals-Verifies h =
      said _ _ (λ w. tt)
        λ _. Runs-bind (ask-Quiet _) λ s1. Runs-bind (ingested-Quiet s1) λ _.
          Runs-bind (ask-Quiet _) λ s2. Runs-bind (ingested-Quiet s2) λ _.
            Runs-bind (sleep-Quiet lib h 50) λ _. Runs-bind last_reading-Answers read_back-Verifies

  unsubscribe-Verifies : (h : Handles) → Verifies Verified (unsubscribe lib h)
  unfolding ◌>>=◌
  unsubscribe-Verifies h = record { at = λ w p. (inr (inr p.0), p.1) }

  -- It has printed the line, and gives 0.
  abbrev Done : ℕ → World S → Type 0
  Done code w = (code ≡ 0) × Printed verified w.out × Confirms lib

  summary-Done : Runs Unit Unit Verified Done Fails (summary >>= λ _. pure 0)
  unfolding ◌>>=◌
  summary-Done = record { at = λ w p. (refl, inr p.0, p.1) }

  monitor-Verifies :
      (moves : List Move) (h : Handles) → Runs Unit Unit Any Done Fails (monitor lib moves h)
  unfolding monitor
  monitor-Verifies moves h = Runs-bind (add_fleet-Quiet lib) λ ids.
      Runs-bind (sleep-Quiet lib h 300) λ _.
        said _ _ (λ w. tt)
          λ _. Runs-bind (inventory-Quiet lib ids) λ _.
            Runs-bind (async_queries-Quiet moves ids) λ _.
              Runs-bind (future_queries-Quiet lib ids) λ _. Runs-bind (query_one-Quiet lib ids) λ _.
                Runs-bind (type_demos-Quiet lib h ids) λ _.
                  Runs-bind (remove_two-Quiet lib h ids) λ _.
                    Runs-bind (drop_first_listener-Quiet lib h) λ _.
                      Runs-bind (remove_one-Quiet lib h ids) λ _.
                        Runs-bind (list_remaining-Quiet lib) λ _.
                          Runs-bind (fire_signals-Verifies h)
                            λ _. Runs-bind (unsubscribe-Verifies h) λ _. summary-Done

  body-Verifies : (moves : List Move) → Runs Unit Unit Any Done Fails (body lib moves)
  unfolding body
  body-Verifies moves = Runs-bind (create-Quiet lib) λ _.
      Runs-bind (subscribe-Quiet lib)
        λ h. Runs-bind (configure-Quiet lib) λ _. monitor-Verifies moves h

-- What a program that has exited has returned and printed, and what its library has then answered.
abbrev pub Reports : {S : Type 0} → Library S → Exit S → Type 0
Reports lib (exited code w) = (code ≡ 1) ⊎ ((code ≡ 0) × Printed verified w.out × Confirms lib)
Reports lib crashed = Unit
Reports lib unfinished = Unit

destroy-Reports :
    {S : Type 0} (lib : Library S) (r : Step (World S) ℕ)
    → After Unit Unit
        (λ code w. (code ≡ 0) × Printed verified w.out × Confirms lib)
        (λ code w. code ≡ 1)
        r
    → Reports lib (destroy lib r)
destroy-Reports lib (next code w) p = inr p
destroy-Reports lib (stop code w) e = inl e
destroy-Reports lib crash p = tt
destroy-Reports lib running p = tt

-- Whatever library the client runs against, and however its threads interleave, it returns 0 or 1, if it
-- returns; and 0 only after it has printed that the signals have come through, against a library
-- that in some state answers with a count of two signals and the second one's device and value.
pub main-Reports :
    {S : Type 0} (lib : Library S) (moves : List Move) (s : S) → Reports lib (main lib moves s)
unfolding main
main-Reports lib moves s = destroy-Reports lib _ ((body-Verifies lib moves).at _ tt)
