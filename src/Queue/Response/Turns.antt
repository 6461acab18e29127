-- ===== src/Queue/Response/Turns.antt =====
-- One party moves on, or the word changes its state: what keeps the stages.
use nim_brokers.Queue.Cells.{put, put-other, put-cases}
use nim_brokers.Prelude.{ℕ, Option, suc, ◌≤◌, ◌<◌, ◌≡◌, refl, sym, arith}
use nim_brokers.Queue.Response.{
  ResponseState, pack_control, Requester, Provider, State, stand, serve,
}
use nim_brokers.Queue.Response.Stages.{
  InertR, LeftR, FreshR, SendR, BusyR, InertP, LeftP, IsUnsent, BusyP, CanSend, Stage, left, fresh,
  armed, busy, IsAbsent, Kept,
}

module _ {A : Type 0} (answer : ℕ → A) (n : ℕ) (s : State A) (k : Kept answer s) where
  -- A requester moves on.
  module _ (r : Requester A) (born : IsAbsent (s.requesters n) → ⊥)
      (inert : n < k.gen → InertR answer n (s.requesters n) → InertR answer n r)
      (in_left : n ≡ k.gen → LeftR answer k.state n (s.requesters n) → LeftR answer k.state n r)
      (in_fresh : n ≡ suc k.gen → FreshR answer k.gen (s.requesters n) → FreshR answer k.gen r)
      (in_armed : n ≡ k.gen → SendR answer n (s.requesters n) → SendR answer n r)
      (in_busy : n ≡ k.gen
        → BusyR answer k.state n (s.requesters n)
        → BusyR answer k.state n r) where
    -- A predicate of the requesters that is kept at `n`.
    at_each :
        (P : ℕ → Requester A → Type 0) (m : ℕ)
        → (n ≡ m → P n (s.requesters n) → P n r)
        → P m (s.requesters m)
        → P m (put n r s.requesters m)
    at_each P m f =
        put-cases (λ j q. (n ≡ j → P n (s.requesters n) → P n r) → P j (s.requesters j) → P j q) n m
          r s.requesters (λ g h. g refl h) (λ _ g h. h) f

    stand-Stage : Stage answer k.gen k.state (stand n r s)
    stand-Stage = elim k.stage [
      | left f c a b ↦ left f c (at_each (LeftR answer k.state) k.gen in_left a) b
      | fresh f c a b d e ↦
          fresh f c (at_each (LeftR answer k.state) k.gen in_left a) b
            (at_each (λ m. FreshR answer k.gen) (suc k.gen) in_fresh d) e
      | armed f c a b d ↦ armed f c a (at_each (SendR answer) k.gen in_armed b) d
      | busy f c a b ↦ busy f c (at_each (BusyR answer k.state) k.gen in_busy a) b
    ]

    pub stand-Kept : Kept answer (stand n r s)
    stand-Kept = record {
      gen = k.gen;
      state = k.state;
      word = k.word;
      stage = stand-Stage;
      early = λ m h. (
        at_each (InertR answer) m (λ e. inert (let g : n < k.gen = rw e h in g)) (k.early m h).0,
        (k.early m h).1,
      );
      late = λ m h.
          (at_each (λ j. IsAbsent) m (λ e a. absurd (born a)) (k.late m h).0, (k.late m h).1);
      marked = k.marked;
    }

  -- The suspension of a requester is no part of the invariant.
  pub awaits-Kept : (f : ℕ → Option ℕ) → Kept answer (record s { awaits = f })
  awaits-Kept f = record {
    gen = k.gen;
    state = k.state;
    word = k.word;
    stage = elim k.stage [
      | left f' c a b ↦ left f' c a b
      | fresh f' c a b d e ↦ fresh f' c a b d e
      | armed f' c a b d ↦ armed f' c a b d
      | busy f' c a b ↦ busy f' c a b
    ];
    early = k.early;
    late = k.late;
    marked = k.marked;
  }

  -- A provider moves on, and what it writes.
  module _ (p : Provider) (payload : A) (a : ResponseState) (begun : IsUnsent (s.providers n) → ⊥)
      (now : n ≡ k.gen) (in_left : LeftP k.state n (s.providers n) → ⊥)
      (in_busy : BusyR answer k.state n (s.requesters n)
        → BusyP answer k.state s.payload n (s.providers n)
        → BusyR answer a n (s.requesters n) × BusyP answer a payload n p) where
    abbrev written : State A
    written = serve n p (record s { control = pack_control k.gen a; payload = payload })

    claimed_now : k.gen ≤ s.claims
    claimed_now = elim k.stage [
      | left f c x y ↦ omega arith
      | fresh f c x y d e ↦ omega arith
      | armed f c x y d ↦ omega arith
      | busy f c x y ↦ omega arith
    ]

    written-Stage : Stage answer k.gen a written
    written-Stage = elim k.stage [
      | left f c x y ↦ absurd (in_left (rw now y))
      | fresh f c x y d e ↦ absurd (in_left (rw now y))
      | armed f c x y d ↦ absurd (begun (rw now d))
      | busy f c x y ↦
          let (x', y') = in_busy (rw now x) (rw now y) in
          busy f c (rw now at x') (
            put-cases (λ j q. j ≡ n → BusyP answer a payload j q) n k.gen p s.providers (λ e. y')
              (λ other e. absurd (other e)) (sym now))
    ]

    pub written-Kept : Kept answer written
    written-Kept = record {
      gen = k.gen;
      state = a;
      word = refl;
      stage = written-Stage;
      early = λ m h. (
        (k.early m h).0,
        rw (put-other n m p s.providers (λ e. absurd (omega arith))) (k.early m h).1,
      );
      late = λ m h. (
        (k.late m h).0,
        rw (put-other n m p s.providers (λ e. absurd (omega (arith, claimed_now)))) (k.late m h).1,
      );
      marked = k.marked;
    }

  -- A provider moves on without a write.
  module _ (p : Provider) (begun : IsUnsent (s.providers n) → ⊥)
      (inert : n < k.gen → InertP n (s.providers n) → InertP n p)
      (in_left : n ≡ k.gen → LeftP k.state n (s.providers n) → LeftP k.state n p)
      (in_busy : n ≡ k.gen
        → BusyP answer k.state s.payload n (s.providers n)
        → BusyP answer k.state s.payload n p) where
    each :
        (P : ℕ → Provider → Type 0) (m : ℕ)
        → (n ≡ m → P n (s.providers n) → P n p)
        → P m (s.providers m)
        → P m (put n p s.providers m)
    each P m f =
        put-cases (λ j q. (n ≡ j → P n (s.providers n) → P n p) → P j (s.providers j) → P j q) n m p
          s.providers (λ g h. g refl h) (λ _ g h. h) f

    serve-Stage : Stage answer k.gen k.state (serve n p s)
    serve-Stage = elim k.stage [
      | left f c a b ↦ left f c a (each (LeftP k.state) k.gen in_left b)
      | fresh f c a b d e ↦
          fresh f c a (each (LeftP k.state) k.gen in_left b) d
            (each (λ j. IsUnsent) (suc k.gen) (λ _ u. absurd (begun u)) e)
      | armed f c a b d ↦ armed f c a b (each (λ j. IsUnsent) k.gen (λ _ u. absurd (begun u)) d)
      | busy f c a b ↦ busy f c a (each (BusyP answer k.state s.payload) k.gen in_busy b)
    ]

    pub serve-Kept : Kept answer (serve n p s)
    serve-Kept = record {
      gen = k.gen;
      state = k.state;
      word = k.word;
      stage = serve-Stage;
      early = λ m h. (
        (k.early m h).0,
        each InertP m (λ e. inert (let g : n < k.gen = rw e h in g)) (k.early m h).1,
      );
      late =
          λ m h. ((k.late m h).0, each (λ j. IsUnsent) m (λ e u. absurd (begun u)) (k.late m h).1);
      marked = k.marked;
    }

-- The word of the same generation with another state.
abbrev pub Relabelled :
    {A : Type 0} (answer : ℕ → A) (s : State A) → Kept answer s → ResponseState → Type 0
Relabelled answer s k a =
    (k' : Kept answer (record s { control = pack_control k.gen a })) × (k'.gen ≡ k.gen)
    × (k'.state ≡ a)

-- The state of the word changes under all parties.
module _ {A : Type 0} (answer : ℕ → A) (s : State A) (k : Kept answer s) (a : ResponseState)
    (in_left : (r : Requester A) (p : Provider)
      → LeftR answer k.state k.gen r
      → LeftP k.state k.gen p
      → LeftR answer a k.gen r × LeftP a k.gen p)
    (in_armed : CanSend k.state → CanSend a)
    (in_busy : BusyR answer k.state k.gen (s.requesters k.gen)
      → BusyP answer k.state s.payload k.gen (s.providers k.gen)
      → BusyR answer a k.gen (s.requesters k.gen)
        × BusyP answer a s.payload k.gen (s.providers k.gen)) where
  relabel-Stage : Stage answer k.gen a (record s { control = pack_control k.gen a })
  relabel-Stage = elim k.stage [
    | left f c x y ↦
        let (x', y') = in_left (s.requesters k.gen) (s.providers k.gen) x y in left f c x' y'
    | fresh f c x y d e ↦
        let (x', y') = in_left (s.requesters k.gen) (s.providers k.gen) x y in fresh f c x' y' d e
    | armed f c x y d ↦ armed f c (in_armed x) y d
    | busy f c x y ↦ let (x', y') = in_busy x y in busy f c x' y'
  ]

  relabel-Kept : Kept answer (record s { control = pack_control k.gen a })
  relabel-Kept = record {
    gen = k.gen;
    state = a;
    word = refl;
    stage = relabel-Stage;
    early = k.early;
    late = k.late;
    marked = k.marked;
  }

  pub relabelled : Relabelled answer s k a
  unfolding relabel-Kept
  relabelled = (relabel-Kept, refl, refl)
