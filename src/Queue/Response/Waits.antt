-- ===== src/Queue/Response/Waits.antt =====
-- The accesses of a requester that waits.
use native.Mathlib.Decide.{ℕ_discrete}
use nim_brokers.Prelude.{
  ℕ, suc, ◌≤◌, ◌<◌, ◌≡◌, ◌≢◌, refl, sym, ap, ◌∙◌, inl, inr, false, Bool-cases, ◌==◌, ==_iff, Option,
  none, some, if◌then◌else◌, arith,
}
use nim_brokers.Queue.Response.{
  ResponseState, empty, writing, ready, abandoned, provider_gone, abandoned_writing, ordinal,
  pack_control, is_at, WaitPoint, weighing, from_empty, from_writing, Requester, waiting, reading,
  releasing, finished, State, stand, weigh, exchange,
}
use nim_brokers.Queue.Response.Word.{
  gen_mod, control_gen-pack, control_state-pack, is_at-true, pack-true,
}
use nim_brokers.Queue.Response.Stages.{LeftR, BusyR, left, fresh, armed, busy, Kept}
use nim_brokers.Queue.Response.Turns.{stand-Kept, Relabelled}

-- What a move leads to, if it is possible.
abbrev pub Good : {A : Type 0} → (ℕ → A) → State A → Option (State A) → Type 0
Good answer s none = Unit
Good answer s (some t) = Kept answer t × (t.claims ≤ suc s.claims)

-- How a wait can end in a state of the word.
pub data EndsWith {A : Type 0} : ResponseState → Requester A → Type 0 where
  read_it : EndsWith ready reading
  take_over : EndsWith ready (releasing none)
  gone : EndsWith provider_gone (releasing none)
  cancelled : EndsWith abandoned (finished none)
  cut_off : EndsWith abandoned_writing (finished none)

-- What the load of `giveUpSlot` leads to when the word is of its generation.
abbrev pub outcome : {A : Type 0} → ResponseState → ℕ → Requester A
outcome empty g = waiting from_empty g
outcome writing g = waiting from_writing g
outcome ready g = releasing none
outcome abandoned g = finished none
outcome provider_gone g = releasing none
outcome abandoned_writing g = finished none

pub weigh-outcome :
    {A : Type 0} (a : ResponseState) (g : ℕ)
    → g < gen_mod
    → weigh {A = A} g (pack_control g a) ≡ outcome a g
unfolding weigh
weigh-outcome {A} a g h =
    rw (control_gen-pack g a h, control_state-pack g a, (==_iff g g).1 refl) (at_ordinal a g)
  where
    at_ordinal :
        (b : ResponseState) (g' : ℕ)
        → (if ordinal b == ordinal empty
            then waiting from_empty g'
            else if ordinal b == ordinal writing
            then waiting from_writing g'
            else if ordinal b == ordinal ready
            then releasing none
            else if ordinal b == ordinal provider_gone
            then releasing none
            else finished none)
          ≡ outcome {A = A} b g'
    at_ordinal empty g' = refl
    at_ordinal writing g' = refl
    at_ordinal ready g' = refl
    at_ordinal abandoned g' = refl
    at_ordinal provider_gone g' = refl
    at_ordinal abandoned_writing g' = refl

pub weigh-stale :
    {A : Type 0} (a : ResponseState) (g h : ℕ)
    → h < gen_mod
    → g ≢ h
    → weigh {A = A} g (pack_control h a) ≡ finished none
unfolding weigh
weigh-stale a g h k n =
    let other : (h == g) ≡ false = ground arith in rw (control_gen-pack h a k, other) refl

module _ {A : Type 0} (answer : ℕ → A) where
  pub gen-le : (s : State A) (k : Kept answer s) → k.gen ≤ s.claims
  gen-le s k = elim k.stage [
    | left f c x y ↦ omega arith
    | fresh f c x y d e ↦ omega arith
    | armed f c x y d ↦ omega arith
    | busy f c x y ↦ omega arith
  ]

  -- The generation that a waiting requester has is its own.
  LeftR-gen : (a : ResponseState) (n g : ℕ) (w : WaitPoint) → LeftR answer a n (waiting w g) → g ≡ n
  LeftR-gen abandoned n g w h = h
  LeftR-gen abandoned_writing n g w h = h
  LeftR-gen empty n g w h = absurd h
  LeftR-gen writing n g w h = absurd h
  LeftR-gen ready n g w h = absurd h
  LeftR-gen provider_gone n g w h = absurd h

  BusyR-gen : (a : ResponseState) (n g : ℕ) (w : WaitPoint) → BusyR answer a n (waiting w g) → g ≡ n
  BusyR-gen abandoned n g w h = h
  BusyR-gen empty n g w h = h
  BusyR-gen writing n g w h = h
  BusyR-gen ready n g w h = h
  BusyR-gen provider_gone n g w h = h
  BusyR-gen abandoned_writing n g w h = h

  LeftR-wait :
      (a : ResponseState) (n g : ℕ) (w v : WaitPoint)
      → LeftR answer a n (waiting w g)
      → LeftR answer a n (waiting v g)
  LeftR-wait abandoned n g w v h = h
  LeftR-wait abandoned_writing n g w v h = h
  LeftR-wait empty n g w v h = absurd h
  LeftR-wait writing n g w v h = absurd h
  LeftR-wait ready n g w v h = absurd h
  LeftR-wait provider_gone n g w v h = absurd h

  BusyR-wait :
      (a : ResponseState) (n g : ℕ) (w v : WaitPoint)
      → BusyR answer a n (waiting w g)
      → BusyR answer a n (waiting v g)
  BusyR-wait abandoned n g w v h = h
  BusyR-wait empty n g w v h = h
  BusyR-wait writing n g w v h = h
  BusyR-wait ready n g w v h = h
  BusyR-wait provider_gone n g w v h = h
  BusyR-wait abandoned_writing n g w v h = h

  LeftR-end :
      (a : ResponseState) (n g : ℕ) (w : WaitPoint) (r : Requester A)
      → EndsWith a r
      → LeftR answer a n (waiting w g)
      → LeftR answer a n r
  LeftR-end _ n g w _ read_it k = absurd k
  LeftR-end _ n g w _ take_over k = absurd k
  LeftR-end _ n g w _ gone k = absurd k
  LeftR-end _ n g w _ cancelled k = tt
  LeftR-end _ n g w _ cut_off k = tt

  BusyR-end : (a : ResponseState) (n : ℕ) (r : Requester A) → EndsWith a r → BusyR answer a n r
  BusyR-end _ n _ read_it = tt
  BusyR-end _ n _ take_over = tt
  BusyR-end _ n _ gone = tt
  BusyR-end _ n _ cancelled = tt
  BusyR-end _ n _ cut_off = tt

  module _ (n g : ℕ) (w : WaitPoint) (s : State A) (k : Kept answer s)
      (e : s.requesters n ≡ waiting w g) where
    pub wait-Kept : (v : WaitPoint) → Kept answer (stand n (waiting v g) s)
    wait-Kept v =
        stand-Kept answer n s k (waiting v g) (rw e (λ h. h)) (λ _. rw e (λ h. h))
          (λ _. rw e (LeftR-wait k.state n g w v)) (λ _. rw e (λ h. h)) (λ _. rw e (λ h. h))
          (λ _. rw e (BusyR-wait k.state n g w v))

    -- The wait ends, as the word of this generation has it.
    pub end-Kept : (r : Requester A) → g ≡ k.gen → EndsWith k.state r → Kept answer (stand n r s)
    end-Kept r now h =
        stand-Kept answer n s k r (rw e (λ h'. h'))
          (λ less. rw e (λ (own : g ≡ n). absurd (omega arith)))
          (λ _. rw e (LeftR-end k.state n g w r h)) (λ _. rw e (λ h'. absurd h'))
          (λ _. rw e (λ h'. absurd h')) (λ _ _. BusyR-end k.state n r h)

    -- The word is of another generation: the request is over.
    pub stale-Kept : g ≢ k.gen → Kept answer (stand n (finished none) s)
    stale-Kept other =
        stand-Kept answer n s k (finished none) (rw e (λ h'. h')) (λ less. rw e (λ h'. tt))
          (λ now. rw e (λ h. absurd (other (LeftR-gen k.state n g w h ∙ now))))
          (λ _. rw e (λ h'. absurd h')) (λ _. rw e (λ h'. absurd h'))
          (λ now. rw e (λ h. absurd (other (BusyR-gen k.state n g w h ∙ now))))

    -- A poll.
    module _ (small : k.gen < gen_mod) where
      pub test-Good :
          (b : ResponseState) (r : Requester A)
          → EndsWith b r
          → Good answer s (some (stand n (if is_at g b s.control then r else waiting w g) s))
      test-Good b r h = elim (Bool-cases (is_at g b s.control)) [
        | inl y ↦
            let (now, same) =
              is_at-true g k.gen b k.state small (ap (is_at g b) (sym k.word) ∙ y) in
            rw y (end-Kept r now (rw same h), omega arith)
        | inr other ↦ rw other (wait-Kept w, omega arith)
      ]

      outcome-Kept :
          (a : ResponseState) → k.state ≡ a → g ≡ k.gen → Kept answer (stand n (outcome a g) s)
      outcome-Kept empty same now = wait-Kept from_empty
      outcome-Kept writing same now = wait-Kept from_writing
      outcome-Kept ready same now = end-Kept (releasing none) now (rw same take_over)
      outcome-Kept abandoned same now = end-Kept (finished none) now (rw same cancelled)
      outcome-Kept provider_gone same now = end-Kept (releasing none) now (rw same gone)
      outcome-Kept abandoned_writing same now = end-Kept (finished none) now (rw same cut_off)

      pub weigh-Good : Good answer s (some (stand n (weigh g s.control) s))
      weigh-Good = elim (ℕ_discrete g k.gen) [
        | yes now ↦
            let found : weigh {A = A} g s.control ≡ outcome k.state g =
              ap (weigh {A = A} g) (k.word ∙ ap (λ h. pack_control h k.state) (sym now))
              ∙ weigh-outcome k.state g (omega arith) in
            rw found (outcome-Kept k.state refl now, omega arith)
        | no other ↦
            let found : weigh {A = A} g s.control ≡ finished none =
              ap (weigh {A = A} g) k.word ∙ weigh-stale k.state g k.gen small other in
            rw found (stale-Kept other, omega arith)
      ]

  -- The exchange from a state in which the request waits to the one that says it gave up.
  pub exchange-Good :
      (n g : ℕ) (w : WaitPoint) (s : State A) (k : Kept answer s) (old new : ResponseState)
      → s.requesters n ≡ waiting w g
      → EndsWith {A = A} new (finished none)
      → (k.state ≡ old → Relabelled answer s k new)
      → Good answer s (some (exchange n g old new s))
  unfolding exchange
  exchange-Good n g w s k old new e h change = elim (Bool-cases (s.control == pack_control g old)) [
    | inl y ↦
        let (now, same) =
          pack-true g k.gen k.state old (ap (λ v. v == pack_control g old) (sym k.word) ∙ y) in
        let (k', same_gen, same_state) = change same in
        let ended =
          end-Kept n g w (record s { control = pack_control k.gen new }) k' e (finished none)
            (now ∙ sym same_gen) (rw same_state h) in
        rw (y, now) (ended, omega arith)
    | inr other ↦ rw other (wait-Kept n g w s k e weighing, omega arith)
  ]
