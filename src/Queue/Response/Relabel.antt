-- ===== src/Queue/Response/Relabel.antt =====
-- The changes of the word's state that leave all parties where they are: a request given up before
-- or during the provider's write, and the mark that the provider is gone.
use nim_brokers.Prelude.{
  ℕ, ◌<◌, ◌≡◌, sym, ap, ◌∙◌, inl, inr, Bool-cases, ◌==◌, ==_iff, Option, none, some, arith,
}
use nim_brokers.Queue.Response.{
  empty, writing, abandoned, provider_gone, abandoned_writing, ordinal, pack_control, control_gen,
  control_state, Requester, absent, popped, loaded, stored, sending, waiting, reading, releasing,
  finished, Provider, unsent, queued, at_work, reserved, filled, handing_back, through, State,
  abandon_if_gen, mark_provider_gone,
}
use nim_brokers.Queue.Response.Word.{gen_mod, control_gen-pack, pack-true, state-zero}
use nim_brokers.Queue.Response.Stages.{
  InertR, EndedR, WaitR, AbandonedR, GoneR, ReadyR, InertP, QuietP, BeforeP, AbandonedP, GoneP,
  CutOffP, WritingP, Marked, Kept, left, fresh, armed, busy,
}
use nim_brokers.Queue.Response.Turns.{Relabelled, relabelled}
use nim_brokers.Queue.Response.Waits.{Good, gen-le}

BeforeP-AbandonedP : (n : ℕ) (p : Provider) → BeforeP n p → AbandonedP n p
BeforeP-AbandonedP n (queued g) h = h
BeforeP-AbandonedP n (at_work g) h = h
BeforeP-AbandonedP n unsent h = absurd h
BeforeP-AbandonedP n (reserved g) h = absurd h
BeforeP-AbandonedP n (filled g) h = absurd h
BeforeP-AbandonedP n handing_back h = absurd h
BeforeP-AbandonedP n through h = absurd h

BeforeP-GoneP : (n : ℕ) (p : Provider) → BeforeP n p → GoneP n p
BeforeP-GoneP n (queued g) h = h
BeforeP-GoneP n (at_work g) h = h
BeforeP-GoneP n unsent h = absurd h
BeforeP-GoneP n (reserved g) h = absurd h
BeforeP-GoneP n (filled g) h = absurd h
BeforeP-GoneP n handing_back h = absurd h
BeforeP-GoneP n through h = absurd h

pub QuietP-InertP : (n : ℕ) (p : Provider) → QuietP p → InertP n p
QuietP-InertP n unsent h = tt
QuietP-InertP n through h = tt
QuietP-InertP n (queued g) h = absurd h
QuietP-InertP n (at_work g) h = absurd h
QuietP-InertP n (reserved g) h = absurd h
QuietP-InertP n (filled g) h = absurd h
QuietP-InertP n handing_back h = absurd h

module _ {A : Type 0} (answer : ℕ → A) where
  WritingP-CutOffP : (v : A) (n : ℕ) (p : Provider) → WritingP answer v n p → CutOffP n p
  WritingP-CutOffP v n (reserved g) h = h
  WritingP-CutOffP v n (filled g) h = h.0
  WritingP-CutOffP v n unsent h = absurd h
  WritingP-CutOffP v n (queued g) h = absurd h
  WritingP-CutOffP v n (at_work g) h = absurd h
  WritingP-CutOffP v n handing_back h = absurd h
  WritingP-CutOffP v n through h = absurd h

  pub EndedR-InertR : (n : ℕ) (r : Requester A) → EndedR answer n r → InertR answer n r
  EndedR-InertR n absent h = tt
  EndedR-InertR n (finished o) h = h
  EndedR-InertR n popped h = absurd h
  EndedR-InertR n (loaded v) h = absurd h
  EndedR-InertR n stored h = absurd h
  EndedR-InertR n (sending g) h = absurd h
  EndedR-InertR n (waiting w g) h = absurd h
  EndedR-InertR n reading h = absurd h
  EndedR-InertR n (releasing o) h = absurd h

  pub AbandonedR-InertR : (n : ℕ) (r : Requester A) → AbandonedR answer n r → InertR answer n r
  AbandonedR-InertR n (waiting w g) h = h
  AbandonedR-InertR n (finished o) h = h
  AbandonedR-InertR n absent h = absurd h
  AbandonedR-InertR n popped h = absurd h
  AbandonedR-InertR n (loaded v) h = absurd h
  AbandonedR-InertR n stored h = absurd h
  AbandonedR-InertR n (sending g) h = absurd h
  AbandonedR-InertR n reading h = absurd h
  AbandonedR-InertR n (releasing o) h = absurd h

  pub WaitR-cases :
      (n : ℕ) (r : Requester A)
      → WaitR answer n r
      → AbandonedR answer n r × GoneR answer n r × ReadyR answer n r
  WaitR-cases n (waiting w g) h = (h, h, h)
  WaitR-cases n absent h = absurd h
  WaitR-cases n popped h = absurd h
  WaitR-cases n (loaded v) h = absurd h
  WaitR-cases n stored h = absurd h
  WaitR-cases n (sending g) h = absurd h
  WaitR-cases n reading h = absurd h
  WaitR-cases n (releasing o) h = absurd h
  WaitR-cases n (finished o) h = absurd h

  module _ (s : State A) (k : Kept answer s) where
    pub to_abandoned : k.state ≡ empty → Relabelled answer s k abandoned
    to_abandoned e =
        relabelled answer s k abandoned (λ r p. rw e (λ a b. (EndedR-InertR k.gen r a, b)))
          (λ _. tt)
          (rw e (λ a b. (
            (WaitR-cases k.gen (s.requesters k.gen) a).0,
            BeforeP-AbandonedP k.gen (s.providers k.gen) b,
          )))

    pub to_gone : k.state ≡ empty → Relabelled answer s k provider_gone
    to_gone e =
        relabelled answer s k provider_gone (λ r p. rw e (λ a b. (a, QuietP-InertP k.gen p b)))
          (λ _. tt)
          (rw e (λ a b. (
            (WaitR-cases k.gen (s.requesters k.gen) a).1,
            BeforeP-GoneP k.gen (s.providers k.gen) b,
          )))

    pub to_abandoned_writing : k.state ≡ writing → Relabelled answer s k abandoned_writing
    to_abandoned_writing e =
        relabelled answer s k abandoned_writing (λ r p. rw e (λ a b. (EndedR-InertR k.gen r a, b)))
          (rw e (λ h. absurd h))
          (rw e (λ a b. (
            (WaitR-cases k.gen (s.requesters k.gen) a).0,
            WritingP-CutOffP s.payload k.gen (s.providers k.gen) b,
          )))

    -- A cancellation, of any generation.
    pub abandon_if_gen-Good : (g : ℕ) → Good answer s (some (abandon_if_gen g s))
    unfolding abandon_if_gen
    abandon_if_gen-Good g = elim (Bool-cases (s.control == pack_control g empty)) [
      | inl y ↦
          let (now, same) =
            pack-true g k.gen k.state empty
              (ap (λ v. v == pack_control g empty) (sym k.word) ∙ y) in
          rw (y, now) ((to_abandoned same).0, omega arith)
      | inr n ↦ rw n (k, omega arith)
    ]

  pub with_marker :
      (m : Option ℕ) (s : State A)
      → Kept answer s
      → Marked m
      → Kept answer (record s { marker = m })
  with_marker m s k h = record {
    gen = k.gen;
    state = k.state;
    word = k.word;
    stage = elim k.stage [
      | left f c a b ↦ left f c a b
      | fresh f c a b d e ↦ fresh f c a b d e
      | armed f c a b d ↦ armed f c a b d
      | busy f c a b ↦ busy f c a b
    ];
    early = k.early;
    late = k.late;
    marked = h;
  }

  pub mark-Good :
      (m : Option ℕ) (s : State A)
      → Kept answer s
      → s.marker ≡ m
      → s.claims < gen_mod
      → Good answer s (some (mark_provider_gone m s))
  unfolding mark_provider_gone
  mark-Good none s k e small = elim (Bool-cases (control_state s.control == ordinal empty)) [
    | inl y ↦
        rw y
          (with_marker (some s.control) s k ((==_iff (control_state s.control) 0).0 y), omega arith)
    | inr n ↦ rw n (k, omega arith)
  ]
  mark-Good (some v) s k e small = elim (Bool-cases (s.control == v)) [
    | inl y ↦
        let same : v ≡ pack_control k.gen k.state = sym ((==_iff s.control v).0 y) ∙ k.word in
        let zero_state : control_state v ≡ 0 = rw e at k.marked in
        let is_empty : k.state ≡ empty =
          state-zero k.gen k.state (ap control_state (sym same) ∙ zero_state) in
        let of_gen : control_gen v ≡ k.gen =
          ap control_gen same ∙ control_gen-pack k.gen k.state (omega (arith, gen-le answer s k)) in
        let marked = (to_gone s k is_empty).0 in
        rw (y, of_gen)
          (
            with_marker none (record s { control = pack_control k.gen provider_gone }) marked tt,
            omega arith,
          )
    | inr n ↦ rw n (with_marker none s k tt, omega arith)
  ]
