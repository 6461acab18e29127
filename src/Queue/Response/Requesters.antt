-- ===== src/Queue/Response/Requesters.antt =====
-- A requester's pop of the slot, and which request has it.
use native.Mathlib.Decide.{dec_lt}
use nim_brokers.Queue.Cells.{put-same, put-other}
use nim_brokers.Prelude.{ℕ, zero, suc, ◌≡◌, ◌≢◌, ap, ◌⊎◌, inl, inr, Option, arith}
use nim_brokers.Queue.Response.{
  ResponseState, empty, writing, ready, abandoned, provider_gone, abandoned_writing, Requester,
  absent, popped, loaded, stored, sending, waiting, reading, releasing, finished, Provider, State,
  pop,
}
use nim_brokers.Queue.Response.Stages.{
  Reads, InertR, WaitR, AbandonedR, ReadyR, GoneR, LeftR, FreshR, SendR, BusyR, InertP, LeftP,
  IsUnsent, BusyP, CanSend, left, fresh, armed, busy, IsAbsent, Kept,
}
use nim_brokers.Queue.Response.Waits.{Good}
use nim_brokers.Queue.Response.Relabel.{EndedR-InertR, QuietP-InertP}

module _ {A : Type 0} (answer : ℕ → A) where
  pub LeftR-InertR :
      (a : ResponseState) (n : ℕ) (r : Requester A) → LeftR answer a n r → InertR answer n r
  LeftR-InertR abandoned n r h = h
  LeftR-InertR empty n r h = EndedR-InertR answer n r h
  LeftR-InertR writing n r h = EndedR-InertR answer n r h
  LeftR-InertR ready n r h = EndedR-InertR answer n r h
  LeftR-InertR provider_gone n r h = EndedR-InertR answer n r h
  LeftR-InertR abandoned_writing n r h = h

  pub LeftP-InertP : (a : ResponseState) (n : ℕ) (p : Provider) → LeftP a n p → InertP n p
  LeftP-InertP provider_gone n p h = h
  LeftP-InertP empty n p h = QuietP-InertP n p h
  LeftP-InertP writing n p h = QuietP-InertP n p h
  LeftP-InertP ready n p h = QuietP-InertP n p h
  LeftP-InertP abandoned n p h = QuietP-InertP n p h
  LeftP-InertP abandoned_writing n p h = QuietP-InertP n p h

  -- The pop of the index: the slot was on the free-list.
  pub pop-Good : (f : ℕ) (s : State A) → Kept answer s → s.free ≡ f → Good answer s (pop f s)
  unfolding pop
  pop-Good zero s k e = tt
  pop-Good (suc f) s k e = elim k.stage [
    | left one c a b ↦
        let next = suc s.claims in
        let other : k.gen ≢ next = λ h. absurd (omega arith) in
        let at_next : next ≡ suc k.gen = ap suc c in
        (
          record {
            gen = k.gen;
            state = k.state;
            word = k.word;
            stage =
                fresh (omega arith) at_next (rw (put-other next k.gen popped s.requesters other) a)
                  b (rw (← at_next, put-same next popped s.requesters) tt)
                  (rw (← at_next) (k.late next (omega arith)).1);
            early = λ n h.
                let apart : n ≢ next = λ h'. absurd (omega arith) in
                (rw (put-other next n popped s.requesters apart) (k.early n h).0, (k.early n h).1);
            late = λ n h.
                let apart : n ≢ next = λ h'. absurd (omega arith) in
                (
                  rw (put-other next n popped s.requesters apart) (k.late n (omega arith)).0,
                  (k.late n (omega arith)).1,
                );
            marked = k.marked;
          },
          omega arith,
        )
    | fresh z c a b d u ↦ absurd (omega arith)
    | armed z c a b d ↦ absurd (omega arith)
    | busy z c a b ↦ absurd (omega arith)
  ]

  BusyR-none :
      (a : ResponseState) (n : ℕ) (r : Requester A)
      → (WaitR answer n r → ⊥)
      → (AbandonedR answer n r → ⊥)
      → (ReadyR answer n r → ⊥)
      → (GoneR answer n r → ⊥)
      → BusyR answer a n r
      → ⊥
  BusyR-none empty n r w x y z h = w h
  BusyR-none writing n r w x y z h = w h
  BusyR-none ready n r w x y z h = y h
  BusyR-none abandoned n r w x y z h = x h
  BusyR-none provider_gone n r w x y z h = z h
  BusyR-none abandoned_writing n r w x y z h = x h

  -- Outside a wait, a read and a release.
  abbrev pub IsEarlyR : Requester A → Type 0
  IsEarlyR popped = Unit
  IsEarlyR (loaded v) = Unit
  IsEarlyR stored = Unit
  IsEarlyR (sending g) = Unit
  IsEarlyR _ = ⊥

  pub early-BusyR :
      (a : ResponseState) (n : ℕ) (r : Requester A) → IsEarlyR r → BusyR answer a n r → ⊥
  early-BusyR a n popped u = BusyR-none a n popped (λ h. h) (λ h. h) (λ h. h) (λ h. h)
  early-BusyR a n (loaded v) u = BusyR-none a n (loaded v) (λ h. h) (λ h. h) (λ h. h) (λ h. h)
  early-BusyR a n stored u = BusyR-none a n stored (λ h. h) (λ h. h) (λ h. h) (λ h. h)
  early-BusyR a n (sending g) u = BusyR-none a n (sending g) (λ h. h) (λ h. h) (λ h. h) (λ h. h)
  early-BusyR a n absent u = absurd u
  early-BusyR a n (waiting w g) u = absurd u
  early-BusyR a n reading u = absurd u
  early-BusyR a n (releasing o) u = absurd u
  early-BusyR a n (finished o) u = absurd u

  -- The requester has the slot to itself, or has handed it to the provider.
  pub record HasSlot (n : ℕ) (r : Requester A) (s : State A) (k : Kept answer s) : Type 0 where
    pub now : n ≡ k.gen
    pub taken : s.free ≡ 0
    pub last : s.claims ≡ k.gen
    pub stands :
        (CanSend k.state × SendR answer n r × IsUnsent (s.providers n))
        ⊎ (BusyR answer k.state n r × BusyP answer k.state s.payload n (s.providers n))

  pub has_slot :
      (n : ℕ) (r : Requester A) (s : State A) (k : Kept answer s)
      → s.requesters n ≡ r
      → (InertR answer n r → ⊥)
      → (IsAbsent r → ⊥)
      → (FreshR answer k.gen r → ⊥)
      → HasSlot n r s k
  has_slot n r s k e inert absent' fresh' = elim (dec_lt n k.gen) [
    | yes l ↦ absurd (inert (rw e at (k.early n l).0))
    | no l ↦ elim (dec_lt s.claims n) [
      | yes h ↦ absurd (absent' (rw e at (k.late n h).0))
      | no h ↦ elim k.stage [
        | left f c a b ↦
            let now : n ≡ k.gen = omega arith in
            absurd (inert (LeftR-InertR k.state n r (rw e at (rw (← now) at a))))
        | fresh f c a b d u ↦ elim (dec_lt k.gen n) [
          | yes m ↦
              let next : n ≡ suc k.gen = omega arith in absurd (fresh' (rw e at (rw (← next) at d)))
          | no m ↦
              let now : n ≡ k.gen = omega arith in
              absurd (inert (LeftR-InertR k.state n r (rw e at (rw (← now) at a))))
        ]
        | armed f c a b d ↦
            let now : n ≡ k.gen = omega arith in
            record {
              now = now;
              taken = f;
              last = c;
              stands = inl (a, rw e at (rw (← now) at b), rw now d);
            }
        | busy f c a b ↦
            let now : n ≡ k.gen = omega arith in
            record {
              now = now;
              taken = f;
              last = c;
              stands = inr (rw e at (rw (← now) at a), rw now b);
            }
      ]
    ]
  ]

  -- The requester has popped the slot and not yet stored its word.
  pub record IsFresh (n : ℕ) (r : Requester A) (s : State A) (k : Kept answer s) : Type 0 where
    pub next : n ≡ suc k.gen
    pub taken : s.free ≡ 0
    pub last : s.claims ≡ suc k.gen
    pub before : LeftR answer k.state k.gen (s.requesters k.gen)
    pub provider_before : LeftP k.state k.gen (s.providers k.gen)
    pub knows : FreshR answer k.gen r
    pub unsent_yet : IsUnsent (s.providers n)

  pub is_fresh :
      (n : ℕ) (r : Requester A) (s : State A) (k : Kept answer s)
      → s.requesters n ≡ r
      → (InertR answer n r → ⊥)
      → (IsAbsent r → ⊥)
      → (SendR answer n r → ⊥)
      → (BusyR answer k.state n r → ⊥)
      → IsFresh n r s k
  is_fresh n r s k e inert absent' send busy' = elim (dec_lt n k.gen) [
    | yes l ↦ absurd (inert (rw e at (k.early n l).0))
    | no l ↦ elim (dec_lt s.claims n) [
      | yes h ↦ absurd (absent' (rw e at (k.late n h).0))
      | no h ↦ elim k.stage [
        | left f c a b ↦
            let now : n ≡ k.gen = omega arith in
            absurd (inert (LeftR-InertR k.state n r (rw e at (rw (← now) at a))))
        | fresh f c a b d u ↦ elim (dec_lt k.gen n) [
          | yes m ↦
              let next' : n ≡ suc k.gen = omega arith in
              record {
                next = next';
                taken = f;
                last = c;
                before = a;
                provider_before = b;
                knows = rw e at (rw (← next') at d);
                unsent_yet = rw next' u;
              }
          | no m ↦
              let now : n ≡ k.gen = omega arith in
              absurd (inert (LeftR-InertR k.state n r (rw e at (rw (← now) at a))))
        ]
        | armed f c a b d ↦
            let now : n ≡ k.gen = omega arith in absurd (send (rw e at (rw (← now) at b)))
        | busy f c a b ↦
            let now : n ≡ k.gen = omega arith in absurd (busy' (rw e at (rw (← now) at a)))
      ]
    ]
  ]

  pub BusyR-finished :
      (a : ResponseState) (n : ℕ) (o : Option A) → BusyR answer a n (finished o) → Reads answer n o
  BusyR-finished abandoned n o h = h
  BusyR-finished abandoned_writing n o h = h
  BusyR-finished empty n o h = absurd h
  BusyR-finished writing n o h = absurd h
  BusyR-finished ready n o h = absurd h
  BusyR-finished provider_gone n o h = absurd h
