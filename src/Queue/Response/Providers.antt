-- ===== src/Queue/Response/Providers.antt =====
-- The accesses of the provider.
use native.Mathlib.Decide.{dec_lt}
use nim_brokers.Prelude.{ℕ, suc, ◌≡◌, ◌≢◌, refl, arith}
use nim_brokers.Queue.Response.{
  ResponseState, empty, writing, ready, abandoned, provider_gone, abandoned_writing, Requester,
  Provider, queued, at_work, reserved, filled, handing_back, through, State,
}
use nim_brokers.Queue.Response.Stages.{
  LeftR, BusyR, InertP, LeftP, IsUnsent, BusyP, left, fresh, armed, busy, Kept,
}
use nim_brokers.Queue.Response.Relabel.{AbandonedR-InertR}
use nim_brokers.Queue.Response.Requesters.{LeftP-InertP}

module _ {A : Type 0} (answer : ℕ → A) where
  -- The provider has the present request in hand.
  pub record InHand (n : ℕ) (p : Provider) (s : State A) (k : Kept answer s) : Type 0 where
    pub now : n ≡ k.gen
    pub taken : s.free ≡ 0
    pub last : s.claims ≡ k.gen
    pub requester : BusyR answer k.state n (s.requesters n)
    pub provider : BusyP answer k.state s.payload n p

  pub in_hand :
      (n : ℕ) (p : Provider) (s : State A) (k : Kept answer s)
      → s.providers n ≡ p
      → (InertP n p → ⊥)
      → (IsUnsent p → ⊥)
      → InHand n p s k
  in_hand n p s k e inert not_unsent = elim (dec_lt n k.gen) [
    | yes l ↦ absurd (inert (rw e at (k.early n l).1))
    | no l ↦ elim (dec_lt s.claims n) [
      | yes h ↦ absurd (not_unsent (rw e at (k.late n h).1))
      | no h ↦ elim k.stage [
        | left f c a b ↦
            let now : n ≡ k.gen = omega arith in
            absurd (inert (LeftP-InertP answer k.state n p (rw e at (rw (← now) at b))))
        | fresh f c a b d u ↦ elim (dec_lt k.gen n) [
          | yes m ↦
              let next : n ≡ suc k.gen = omega arith in
              absurd (not_unsent (rw e at (rw (← next) at u)))
          | no m ↦
              let now : n ≡ k.gen = omega arith in
              absurd (inert (LeftP-InertP answer k.state n p (rw e at (rw (← now) at b))))
        ]
        | armed f c a b d ↦
            let now : n ≡ k.gen = omega arith in absurd (not_unsent (rw e at (rw (← now) at d)))
        | busy f c a b ↦
            let now : n ≡ k.gen = omega arith in
            record {
              now = now;
              taken = f;
              last = c;
              requester = rw now a;
              provider = rw e at (rw (← now) at b);
            }
      ]
    ]
  ]

  pub LeftP-own :
      (a : ResponseState) (n g : ℕ) → LeftP a n (at_work g) → (g ≡ n) × (a ≡ provider_gone)
  LeftP-own provider_gone n g h = (h, refl)
  LeftP-own empty n g h = absurd h
  LeftP-own writing n g h = absurd h
  LeftP-own ready n g h = absurd h
  LeftP-own abandoned n g h = absurd h
  LeftP-own abandoned_writing n g h = absurd h

  pub LeftP-start : (a : ResponseState) (n g : ℕ) → LeftP a n (queued g) → LeftP a n (at_work g)
  LeftP-start provider_gone n g h = h
  LeftP-start empty n g h = absurd h
  LeftP-start writing n g h = absurd h
  LeftP-start ready n g h = absurd h
  LeftP-start abandoned n g h = absurd h
  LeftP-start abandoned_writing n g h = absurd h

  pub BusyP-own : (a : ResponseState) (v : A) (n g : ℕ) → BusyP answer a v n (at_work g) → g ≡ n
  BusyP-own empty v n g h = h
  BusyP-own abandoned v n g h = h
  BusyP-own provider_gone v n g h = h
  BusyP-own writing v n g h = absurd h
  BusyP-own ready v n g h = absurd h
  BusyP-own abandoned_writing v n g h = absurd h

  pub BusyP-start :
      (a : ResponseState) (v : A) (n g : ℕ)
      → BusyP answer a v n (queued g)
      → BusyP answer a v n (at_work g)
  BusyP-start empty v n g h = h
  BusyP-start abandoned v n g h = h
  BusyP-start provider_gone v n g h = h
  BusyP-start writing v n g h = absurd h
  BusyP-start ready v n g h = absurd h
  BusyP-start abandoned_writing v n g h = absurd h

  -- A reply that is neither written nor owed.
  pub BusyP-drop :
      (a : ResponseState) (v : A) (n g : ℕ)
      → a ≢ empty
      → a ≢ abandoned
      → BusyP answer a v n (at_work g)
      → BusyP answer a v n through
  BusyP-drop empty v n g x y h = absurd (x refl)
  BusyP-drop abandoned v n g x y h = absurd (y refl)
  BusyP-drop provider_gone v n g x y h = tt
  BusyP-drop writing v n g x y h = absurd h
  BusyP-drop ready v n g x y h = absurd h
  BusyP-drop abandoned_writing v n g x y h = absurd h

  -- The bytes are written, whether or not the requester still waits.
  pub BusyP-fill :
      (a : ResponseState) (v : A) (n g : ℕ)
      → BusyP answer a v n (reserved g)
      → BusyP answer a (answer n) n (filled g)
  BusyP-fill writing v n g h = (h, refl)
  BusyP-fill abandoned_writing v n g h = h
  BusyP-fill empty v n g h = absurd h
  BusyP-fill ready v n g h = absurd h
  BusyP-fill abandoned v n g h = absurd h
  BusyP-fill provider_gone v n g h = absurd h

  -- A commit that fails leaves the release to the provider.
  pub BusyP-cut :
      (a : ResponseState) (v : A) (n g : ℕ)
      → a ≢ writing
      → BusyP answer a v n (filled g)
      → BusyP answer a v n handing_back
  BusyP-cut writing v n g x h = absurd (x refl)
  BusyP-cut abandoned_writing v n g x h = tt
  BusyP-cut empty v n g x h = absurd h
  BusyP-cut ready v n g x h = absurd h
  BusyP-cut abandoned v n g x h = absurd h
  BusyP-cut provider_gone v n g x h = absurd h

  -- A provider at its release leaves a requester that does not touch the slot.
  pub handing_back-left :
      (a : ResponseState) (v : A) (n : ℕ) (r : Requester A)
      → BusyP answer a v n handing_back
      → BusyR answer a n r
      → LeftR answer a n r × LeftP a n through
  handing_back-left abandoned v n r h b = (AbandonedR-InertR answer n r b, tt)
  handing_back-left abandoned_writing v n r h b = (AbandonedR-InertR answer n r b, tt)
  handing_back-left empty v n r h b = absurd h
  handing_back-left writing v n r h b = absurd h
  handing_back-left ready v n r h b = absurd h
  handing_back-left provider_gone v n r h b = absurd h
