-- ===== src/Hier/Asserts.antt =====
-- When the client's assertions hold.
use nim_brokers.Prelude.{
  ℕ, zero, suc, ◌-◌, ◌<◌, arith, ◌≡◌, refl, ap, ◌⊎◌, inl, inr, leb, ◌&&◌, pos, Bool, true, false,
  Bool-cases, [], ◌∷◌, codes, if◌then◌else◌,
}
use nim_brokers.Client.{next, crash, ◌>>=◌}
use nim_brokers.Hier.Impl.{setup_providers}
use nim_brokers.Hier.Client.{
  Timing, Message, nudge, tick, resize, World, post, wait, value_is, area_is, nudge_value,
  nothing_received, receive_tick, use_widgets, main, at_start,
}

-- With nothing under way.
abbrev idle : World → World
idle w = record w { under_way = [] }

-- A message that the loop waits for: what is left of its pauses is handled in the loop.
wait-post :
    (busy : World → Bool) (m : Message) (w : World)
    → ((d : ℕ) → busy (post (suc d) m (idle w)) ≡ true)
    → busy (post 0 m (idle w)) ≡ false
    → (n d : ℕ) → wait busy n (post d m (idle w)) ≡ post (d - n) m (idle w)
wait-post busy m w b f zero d =
    let same : d ≡ d - 0 = omega arith in ap (λ k. post k m (idle w)) same
wait-post busy m w b f (suc n) zero = let same : 0 - suc n ≡ 0 = omega arith in rw (f, same)
wait-post busy m w b f (suc n) (suc d) =
    let same : suc d - suc n ≡ d - n = omega arith in rw (b d, same) (wait-post busy m w b f n d)

left_over :
    (d n : ℕ) → ((d - n ≡ 0) × (leb d n ≡ true)) ⊎ ((k : ℕ) × (d - n ≡ suc k) × (leb d n ≡ false))
left_over d n = elim (Bool-cases (leb d n)) [
  | inl y ↦ inl (ground arith, y)
  | inr f ↦ let more : n < d = ground arith in inr (d - n - 1, omega arith, f)
]

abbrev started : World
started = record at_start { out = codes "hierlib version: 0.1.0" ∷ [] }

abbrev nudged : World
nudged = record started { server = record setup_providers { value = pos 17 } }

abbrev ticked : World
ticked = record nudged { received = pos 99 }

module _ (t : Timing) where
  nudge_value-started :
      nudge_value t started ≡ (if leb t.nudge_delay t.nudge_polls then next tt nudged else crash)
  unfolding nudge_value ◌>>=◌
  nudge_value-started =
      let waited =
        wait-post (value_is (pos 7)) (nudge (pos 10)) started (λ d. refl) refl t.nudge_polls
          t.nudge_delay in
      elim (left_over t.nudge_delay t.nudge_polls) [
        | inl (e, l) ↦ rw (waited, e, l)
        | inr (k, e, l) ↦ rw (waited, e, l)
      ]

  receive_tick-nudged :
      receive_tick t nudged ≡ (if leb t.tick_delay t.tick_polls then next tt ticked else crash)
  unfolding receive_tick ◌>>=◌
  receive_tick-nudged =
      let waited =
        wait-post nothing_received (tick (pos 99)) (record nudged { listening = true }) (λ d. refl)
          refl t.tick_polls t.tick_delay in
      elim (left_over t.tick_delay t.tick_polls) [
        | inl (e, l) ↦ rw (waited, e, l)
        | inr (k, e, l) ↦ rw (waited, e, l)
      ]

  -- The first widget with a size of 15, and at the end.
  abbrev widened : World
  widened = record ticked {
    server = record ticked.server { widgets = (1, pos 15) ∷ []; last_instance = 1 };
  }

  abbrev closed : World
  closed = record ticked { server = record ticked.server { widgets = []; last_instance = 2 } }

  use_widgets-ticked :
      use_widgets t ticked ≡ (if leb t.resize_delay t.resize_polls then next tt closed else crash)
  unfolding use_widgets ◌>>=◌
  use_widgets-ticked =
      let waited =
        wait-post (area_is 1 (pos 225)) (resize 1 (pos 5)) widened (λ d. refl) refl t.resize_polls
          t.resize_delay in
      elim (left_over t.resize_delay t.resize_polls) [
        | inl (e, l) ↦ rw (waited, e, l)
        | inr (k, e, l) ↦ rw (waited, e, l)
      ]

  abbrev pub done : World
  done = record closed {
    out = codes "hierlib cpp example: OK" ∷ codes "hierlib version: 0.1.0" ∷ [];
  }

  -- Every assertion of the client holds if the signal to the library, the event and the signal to the
  -- widget are each handled within the pauses that the loop waiting for it makes before its deadline,
  -- and one fails if any of them comes later: there is no other way in which the program can end.
  pub main-at_start : main t at_start ≡ (
      if leb t.nudge_delay t.nudge_polls
        && leb t.tick_delay t.tick_polls
        && leb t.resize_delay t.resize_polls
      then next 0 done
      else crash)
  unfolding main ◌>>=◌
  main-at_start = elim (Bool-cases (leb t.nudge_delay t.nudge_polls)) [
    | inl y1 ↦ elim (Bool-cases (leb t.tick_delay t.tick_polls)) [
      | inl y2 ↦ elim (Bool-cases (leb t.resize_delay t.resize_polls)) [
        | inl y3 ↦ rw (nudge_value-started, y1, receive_tick-nudged, y2, use_widgets-ticked, y3)
        | inr n3 ↦ rw (nudge_value-started, y1, receive_tick-nudged, y2, use_widgets-ticked, n3)
      ]
      | inr n2 ↦ rw (nudge_value-started, y1, receive_tick-nudged, n2)
    ]
    | inr n1 ↦ rw (nudge_value-started, n1)
  ]
