-- ===== src/Torpedo/Session/Ending.antt =====
-- The loop ends: a player who presses q in the end is heard.
use nim_brokers.Prelude.{ℕ, zero, suc, ◌+◌, ◌≤◌, ◌<◌, ◌≡◌, ◌≢◌, ◌||◌, ◌==◌, true, ◌∷◌, [], arith}
use native.Mathlib.Decide.{dec_le}
use nim_brokers.Torpedo.Config.{Config}
use nim_brokers.Torpedo.Session.{
  Side, red, blue, Kind, remark, shot, match, volley, Event, key_read, Trace, Library, State, Step,
  next, stop, crash, running, M, bind_step, ◌>>=◌, Handles, Verdict, again, done, unfinished, leave,
}
use nim_brokers.Torpedo.Session.Setup.{register_callbacks, off, unregister_callbacks, prepare}
use nim_brokers.Torpedo.Session.Rounds.{frame, loop, next_round}
use nim_brokers.Torpedo.Session.Main.{duel, session, body, run}
use nim_brokers.Torpedo.Session.Listeners.{IsPlain, After, Runs, Runs-bind, Never}
use nim_brokers.Torpedo.Session.Kept.{
  create-Prepares, initialize-Prepares, place-Prepares, link-Prepares, start-Prepares,
  push_log-Prepares, on_key-Keeps,
}

-- How often the keyboard was read.
abbrev pub rounds : Trace → ℕ
rounds [] = 0
rounds (key_read k ∷ t) = suc (rounds t)
rounds (_ ∷ t) = rounds t

rounds-cons : (k : ℕ) (t : Trace) (e : Event) → IsPlain e → k ≤ rounds t → k ≤ rounds (e ∷ t)
rounds-cons k t (key_read c) n h = omega arith
rounds-cons k t _ n h = h

abbrev pub Ends : {A : Type 0} → Step A → Type 0
Ends running = ⊥
Ends _ = Unit

module _ (lib : Library) (cfg : Config) where
  -- After a round the keyboard has been read once more, and a round never runs out of fuel.
  frame-rounds :
      (k : ℕ) (s : State)
      → k ≤ rounds s.trace
      → After ⊥ (λ t. suc k ≤ rounds t) Never (frame lib cfg s)
  unfolding frame
  frame-rounds k s h =
      (on_key-Keeps lib cfg ⊥ (λ t. suc k ≤ rounds t) (rounds-cons (suc k)) _).at _ (omega arith)

  quit_frame :
      (s : State)
      → lib.key_pressed s.trace ≡ b'q'
      → frame lib cfg s
        ≡ next (done 0) (record s { trace = key_read (lib.key_pressed s.trace) ∷ s.trace })
  unfolding frame
  quit_frame s e =
      let hit : (lib.key_pressed s.trace == b'q' || lib.key_pressed s.trace == b'Q') ≡ true =
        ground arith in
      rw hit

  loop-Ends :
      (n : ℕ)
      → ((t : Trace) → n ≤ rounds t → lib.key_pressed t ≡ b'q')
      → (fuel k : ℕ) (s : State) → k ≤ rounds s.trace
      → n < k + fuel
      → 0 < fuel
      → Ends (loop lib fuel cfg s)
  unfolding loop ◌>>=◌
  loop-Ends n quits zero k s h b f = absurd (omega arith)
  loop-Ends n quits (suc fuel) k s h b f = elim (dec_le n (rounds s.trace)) [
    | yes late ↦ rw (quit_frame s (quits s.trace late)) tt
    | no early ↦
        go (frame lib cfg s) (frame-rounds k s h)
          (λ s' h'. loop-Ends n quits fuel (suc k) s' h' (omega arith) (omega arith))
  ]
    where
      go :
          (x : Step Verdict)
          → After ⊥ (λ t. suc k ≤ rounds t) Never x
          → ((s' : State) → suc k ≤ rounds s'.trace → Ends (loop lib fuel cfg s'))
          → Ends (bind_step x (λ v. next_round v (loop lib fuel cfg)))
      go (next again s') a ih = ih s' a
      go (next (done c) s') a ih = tt
      go (stop c s') a ih = tt
      go crash a ih = tt
      go running a ih = a

abbrev Any : Trace → Type 0
Any t = Unit

After-Ends : {A : Type 0} (x : Step A) → Ends x → After ⊥ Any Any x
After-Ends (next a s) e = tt
After-Ends (stop n s) e = tt
After-Ends crash e = tt
After-Ends running e = e

Ends-leave : (x : Step ℕ) → After ⊥ Any Any x → leave x ≢ unfinished
Ends-leave (next a s) a' e = cc
Ends-leave (stop n s) a' e = cc
Ends-leave crash a' e = cc
Ends-leave running a' e = a'

module _ (lib : Library) (cfg : Config) where
  abbrev Goes : {A : Type 0} → M A → Type 0
  Goes = Runs ⊥ Any Any Any

  any : (t : Trace) (e : Event) → IsPlain e → Any t → Any (e ∷ t)
  any t e n p = tt

  prepare-Goes : Goes (prepare lib cfg)
  unfolding prepare
  prepare-Goes = Runs-bind (initialize-Prepares lib cfg ⊥ Any any red) λ _.
      Runs-bind (initialize-Prepares lib cfg ⊥ Any any blue) λ _.
        Runs-bind (place-Prepares lib cfg ⊥ Any any red) λ _.
          Runs-bind (place-Prepares lib cfg ⊥ Any any blue) λ _.
            Runs-bind (link-Prepares lib cfg ⊥ Any any red blue) λ _.
              Runs-bind (link-Prepares lib cfg ⊥ Any any blue red) λ _.
                Runs-bind (push_log-Prepares lib cfg ⊥ Any any _)
                  λ _. Runs-bind (start-Prepares lib cfg ⊥ Any any _) λ _. record { at = λ s p. tt }

  register-Goes : (side : Side) → Goes (register_callbacks lib side)
  unfolding register_callbacks ◌>>=◌
  register-Goes side = record { at = λ s p. tt }

  off-Goes : (side : Side) (kind : Kind) (h : ℕ) → Goes (off lib side kind h)
  off-Goes side kind zero = record { at = λ s p. tt }
  off-Goes side kind (suc h) = record { at = λ s p. tt }

  unregister-Goes : (side : Side) (h : Handles) → Goes (unregister_callbacks lib side h)
  unfolding unregister_callbacks
  unregister-Goes side h = Runs-bind (off-Goes side remark h.remark) λ _.
      Runs-bind (off-Goes side shot h.shot)
        λ _. Runs-bind (off-Goes side match h.match) λ _. off-Goes side volley h.volley

  loop-Goes :
      (n : ℕ)
      → ((t : Trace) → n ≤ rounds t → lib.key_pressed t ≡ b'q')
      → Goes (loop lib (suc n) cfg)
  loop-Goes n quits = record {
    at = λ s p.
        After-Ends (loop lib (suc n) cfg s)
          (loop-Ends lib cfg n quits (suc n) 0 s (omega arith) (omega arith) (omega arith));
  }

  body-Goes :
      (n : ℕ)
      → ((t : Trace) → n ≤ rounds t → lib.key_pressed t ≡ b'q')
      → Goes (body lib (suc n) cfg)
  unfolding body session duel
  body-Goes n quits = Runs-bind (create-Prepares lib cfg ⊥ Any any red) λ _.
      Runs-bind (create-Prepares lib cfg ⊥ Any any blue) λ _.
        Runs-bind
          (Runs-bind (register-Goes red)
            λ r. Runs-bind (register-Goes blue) λ b. record { at = λ s p. tt })
          λ h. Runs-bind prepare-Goes λ _. Runs-bind (loop-Goes n quits) λ code.
            Runs-bind
              (Runs-bind (record { at = λ s p. tt })
                λ _. Runs-bind (unregister-Goes red h.0) λ _. unregister-Goes blue h.1)
              λ _. record { at = λ s p. tt }

-- If the key read is q from the time on when the keyboard has been read n times, fuel for n + 1
-- rounds is enough: whatever the library answers, the program does not go on for ever.
pub run_ends :
    (lib : Library) (cfg : Config) (n : ℕ)
    → ((t : Trace) → n ≤ rounds t → lib.key_pressed t ≡ b'q')
    → run lib (suc n) cfg ≢ unfinished
unfolding run
run_ends lib cfg n quits = Ends-leave _ ((body-Goes lib cfg n quits).at _ tt)
