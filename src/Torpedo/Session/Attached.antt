-- ===== src/Torpedo/Session/Attached.antt =====
-- Up to the end of the loop the listeners stay attached.
use nim_brokers.Prelude.{ℕ, zero, suc, Bool, true, false, refl, ◌∷◌}
use nim_brokers.Torpedo.Config.{Config}
use nim_brokers.Torpedo.Session.{
  Side, red, blue, Kind, Event, raw_terminal, key_read, Trace, Library, M, emit, Verdict, again,
  done,
}
use nim_brokers.Torpedo.Session.Setup.{create, prepare}
use nim_brokers.Torpedo.Session.Rounds.{frame, loop, next_round}
use nim_brokers.Torpedo.Session.Listeners.{Holds, IsPlain, Holds-cons, Runs, Runs-bind, Never}
use nim_brokers.Torpedo.Session.Kept.{
  create-Prepares, initialize-Prepares, place-Prepares, link-Prepares, start-Prepares,
  push_log-Prepares, on_key-Keeps,
}

module _ (lib : Library) (hr hb : Kind → ℕ) (cfg : Config) where
  abbrev Ready : Trace → Type 0
  Ready = Holds false hr hb

  abbrev Attached : Trace → Type 0
  Attached = Holds true hr hb

  keep : {o : Bool} (t : Trace) (e : Event) → IsPlain e → Holds o hr hb t → Holds o hr hb (e ∷ t)
  keep t e n p = Holds-cons e n p

  pub create-Ready : (side : Side) → Runs Unit Ready Ready Ready (create lib side)
  create-Ready = create-Prepares lib cfg Unit Ready keep

  raw_terminal-Attached : Runs Unit Ready Attached Ready (emit raw_terminal)
  raw_terminal-Attached = record {
    at = λ s p. record { stage = refl; on_red = p.on_red; on_blue = p.on_blue; safe = p.safe };
  }

  pub prepare-Attached : Runs Unit Ready Attached Ready (prepare lib cfg)
  unfolding prepare
  prepare-Attached = Runs-bind (initialize-Prepares lib cfg Unit Ready keep red) λ _.
      Runs-bind (initialize-Prepares lib cfg Unit Ready keep blue) λ _.
        Runs-bind (place-Prepares lib cfg Unit Ready keep red) λ _.
          Runs-bind (place-Prepares lib cfg Unit Ready keep blue) λ _.
            Runs-bind (link-Prepares lib cfg Unit Ready keep red blue) λ _.
              Runs-bind (link-Prepares lib cfg Unit Ready keep blue red) λ _.
                Runs-bind (push_log-Prepares lib cfg Unit Ready keep _) λ _.
                  Runs-bind (start-Prepares lib cfg Unit Ready keep _) λ _. raw_terminal-Attached

  frame-Attached : Runs Unit Attached Attached Never (frame lib cfg)
  unfolding frame
  frame-Attached = record {
    at = λ s p. (on_key-Keeps lib cfg Unit Attached keep _).at _ (Holds-cons (key_read _) tt p);
  }

  next_round-Attached :
      (v : Verdict) (rest : M ℕ)
      → Runs Unit Attached Attached Never rest
      → Runs Unit Attached Attached Never (next_round v rest)
  next_round-Attached again rest k = k
  next_round-Attached (done code) rest k = record { at = λ s p. p }

  pub loop-Attached : (fuel : ℕ) → Runs Unit Attached Attached Never (loop lib fuel cfg)
  unfolding loop
  loop-Attached zero = record { at = λ s p. tt }
  loop-Attached (suc fuel) =
      Runs-bind frame-Attached λ v. next_round-Attached v (loop lib fuel cfg) (loop-Attached fuel)
