-- ===== src/Torpedo/Session/Cleanup.antt =====
-- Whether the listeners are detached when `main` returns.
use nim_brokers.Prelude.{ℕ, true, false, ◌≡◌, ◌≢◌, refl, sym, ap, ◌∙◌, ◌⊎◌, inl, inr, none, [], ◌∷◌}
use nim_brokers.Torpedo.Config.{Config}
use nim_brokers.Torpedo.EventLog.{new}
use nim_brokers.Torpedo.Session.{
  Kind, Side, red, blue, remark, shot, match, volley, created, shut_down, Trace, Library, State,
  Step, next, stop, crash, running, bind_step, ◌>>=◌, Handles, exited, leave,
}
use nim_brokers.Torpedo.Session.Setup.{create, register_callbacks, attach}
use nim_brokers.Torpedo.Session.Main.{duel, session, body, run}
use nim_brokers.Torpedo.Session.Listeners.{
  open_at, SafeShutdown, handle_of, opened, Holds, After, Runs, Runs-bind, After-map, Runs-map,
}
use nim_brokers.Torpedo.Session.Attached.{create-Ready, prepare-Attached, loop-Attached}
use nim_brokers.Torpedo.Session.Detach.{nothing, cleanup-Runs}

module _ (lib : Library) where
  duel-Runs :
      (fuel : ℕ) (cfg : Config) (h : Handles × Handles)
      → Runs Unit
          (Holds false (handle_of h.0) (handle_of h.1))
          (Holds true nothing nothing)
          (Holds false (handle_of h.0) (handle_of h.1))
          (duel lib fuel cfg h)
  unfolding duel
  duel-Runs fuel cfg h = Runs-bind (prepare-Attached lib (handle_of h.0) (handle_of h.1) cfg) λ _.
      Runs-map
        (Runs-bind (loop-Attached lib (handle_of h.0) (handle_of h.1) cfg fuel)
          λ _. Runs-bind (cleanup-Runs lib h) λ _. record { at = λ s p. p })
        (λ t p. p) (λ t n. absurd n)

  -- The eight registrations never fail, and their handles are those that the trace shows.
  abbrev Attaches : State → Type 0
  Attaches s =
      (h : Handles × Handles) × (s' : State) × (attach lib s ≡ next h s')
      × Holds false (handle_of h.0) (handle_of h.1) s'.trace
      × (h.0.remark ≡ lib.listen s.trace red remark)

  attach-Attaches : (s : State) → Holds false nothing nothing s.trace → Attaches s
  unfolding register_callbacks ◌>>=◌
  attach-Attaches s p = (
    _,
    _,
    refl,
    record {
      stage = p.stage;
      on_red = elim [ remark ↦ refl | shot ↦ refl | match ↦ refl | volley ↦ refl ];
      on_blue = elim [ remark ↦ refl | shot ↦ refl | match ↦ refl | volley ↦ refl ];
      safe = p.safe;
    },
    refl,
  )

  -- How a run leaves the trace that the destructors meet.
  abbrev Leaves : (Trace → Type 0) → (Trace → Type 0) → ℕ → Trace → Type 0
  Leaves P Q code t = (u : Trace) × (t ≡ shut_down red ∷ shut_down blue ∷ u) × (P u ⊎ Q u)

  leave-Leaves :
      {P Q : Trace → Type 0} (r : Step ℕ) {code : ℕ} {t : Trace}
      → After Unit P Q r
      → leave r ≡ exited code t
      → Leaves P Q code t
  leave-Leaves (next c s) a e = (s.trace, cc, inl a)
  leave-Leaves (stop c s) a e = (s.trace, cc, inr a)
  leave-Leaves crash a e = cc
  leave-Leaves running a e = cc

  session-duel :
      (fuel : ℕ) (cfg : Config) (s s' : State) (h : Handles × Handles)
      → attach lib s ≡ next h s'
      → session lib fuel cfg s ≡ duel lib fuel cfg h s'
  unfolding session ◌>>=◌
  session-duel fuel cfg s s' h e = ap (λ r. bind_step r (duel lib fuel cfg)) e

  -- With the terminal opened all listeners are off, and without it Red's remarks still come in
  -- under the handle that the library gave.
  abbrev Early : State → Trace → Type 0
  Early s t = (opened t ≡ false) × (open_at red remark t ≡ lib.listen s.trace red remark)

  session-After :
      (fuel : ℕ) (cfg : Config) (s : State)
      → Holds false nothing nothing s.trace
      → After Unit (Holds true nothing nothing) (Early s) (session lib fuel cfg s)
  session-After fuel cfg s p =
      let (h, s', e, q, given) = attach-Attaches s p in
      rw (session-duel fuel cfg s s' h e) (
        After-map Unit (Holds true nothing nothing) (Holds false (handle_of h.0) (handle_of h.1)) _
          _ (duel lib fuel cfg h s') ((duel-Runs fuel cfg h).at s' q) (λ t p. p)
          (λ t p. (p.stage, p.on_red remark ∙ given)))

  abbrev Unopened : Trace → Type 0
  Unopened t = opened t ≡ false

  session-Runs :
      (fuel : ℕ) (cfg : Config)
      → Runs Unit
          (Holds false nothing nothing)
          (Holds true nothing nothing)
          Unopened
          (session lib fuel cfg)
  session-Runs fuel cfg = record {
    at = λ s p.
        After-map Unit (Holds true nothing nothing) (Early s) _ _ (session lib fuel cfg s)
          (session-After fuel cfg s p) (λ t h. h) (λ t h. h.0);
  }

  create-Runs :
      (cfg : Config) (side : Side)
      → Runs Unit
          (Holds false nothing nothing)
          (Holds false nothing nothing)
          Unopened
          (create lib side)
  create-Runs cfg side =
      Runs-map (create-Ready lib nothing nothing cfg side) (λ t p. p) (λ t p. p.stage)

  body-Runs :
      (fuel : ℕ) (cfg : Config)
      → Runs Unit
          (Holds false nothing nothing)
          (Holds true nothing nothing)
          Unopened
          (body lib fuel cfg)
  unfolding body
  body-Runs fuel cfg =
      Runs-bind (create-Runs cfg red)
        λ _. Runs-bind (create-Runs cfg blue) λ _. session-Runs fuel cfg

start_state-Holds : Holds false nothing nothing []
start_state-Holds = record { stage = refl; on_red = λ k. refl; on_blue = λ k. refl; safe = tt }

-- A run that returns after the terminal was opened has ended by shutting both contexts down, Blue's
-- first, with none of a context's listeners attached when it was shut down, whatever the library did
-- and whichever way the loop ended.
pub run-SafeShutdown :
    (lib : Library) (fuel : ℕ) (cfg : Config) (code : ℕ) (t : Trace)
    → run lib fuel cfg ≡ exited code t
    → opened t ≡ true
    → (u : Trace) × (t ≡ shut_down red ∷ shut_down blue ∷ u)
      × ((kind : Kind) → (open_at red kind u ≡ 0) × (open_at blue kind u ≡ 0))
      × SafeShutdown t
unfolding run
run-SafeShutdown lib fuel cfg code t e o =
    let (u, t_is, side) = leave-Leaves lib _ ((body-Runs lib fuel cfg).at _ start_state-Holds) e in
    go u t_is (rw t_is at o) side
  where
    go :
        (u : Trace)
        → t ≡ shut_down red ∷ shut_down blue ∷ u
        → opened u ≡ true
        → (Holds true nothing nothing u ⊎ (opened u ≡ false))
        → (v : Trace) × (t ≡ shut_down red ∷ shut_down blue ∷ v)
          × ((kind : Kind) → (open_at red kind v ≡ 0) × (open_at blue kind v ≡ 0))
          × SafeShutdown t
    go u t_is o (inl p) =
        (u, t_is, λ k. (p.on_red k, p.on_blue k), rw t_is (p.on_red, (p.on_blue, p.safe)))
    go u t_is o (inr n) = cc

-- A run that returns before the terminal is opened, although both contexts were created and the
-- library gave Red's first listener a handle, shuts the contexts down with that listener attached:
-- so it is whenever a request between the registration and the first frame fails.
pub early_exit_leaks :
    (lib : Library) (fuel : ℕ) (cfg : Config) (code : ℕ) (t : Trace)
    → run lib fuel cfg ≡ exited code t
    → opened t ≡ false
    → lib.create_context [] red ≡ none
    → lib.create_context (created red none ∷ []) blue ≡ none
    → lib.listen (created blue none ∷ created red none ∷ []) red remark ≢ 0
    → ¬ SafeShutdown t
unfolding run ◌>>=◌
early_exit_leaks lib fuel cfg code t e o cr cb given safe =
    let start : State = record {
      trace = created blue none ∷ created red none ∷ [];
      log = new 24;
      banner = [];
    } in
    let p : Holds false nothing nothing (created blue none ∷ created red none ∷ []) = record {
      stage = refl;
      on_red = λ k. refl;
      on_blue = λ k. refl;
      safe = tt;
    } in
    let e' : leave (session lib fuel cfg start) ≡ exited code t = rw (cr, cb) at e in
    let (u, t_is, side) = leave-Leaves lib _ (session-After lib fuel cfg start p) e' in
    go u (rw t_is at o) (rw t_is at safe) side
  where
    go :
        (u : Trace)
        → opened u ≡ false
        → SafeShutdown (shut_down red ∷ shut_down blue ∷ u)
        → (Holds true nothing nothing u
            ⊎ ((opened u ≡ false)
                × (open_at red remark u
                    ≡ lib.listen (created blue none ∷ created red none ∷ []) red remark)))
        → ⊥
    go u o s (inl h) = cc (h.stage)
    go u o s (inr h) = given (sym h.1 ∙ s.0 remark)
