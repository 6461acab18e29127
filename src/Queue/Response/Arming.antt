-- ===== src/Queue/Response/Arming.antt =====
-- A requester arms the slot that it has popped, and sends the request.
use native.Mathlib.Decide.{dec_lt}
use nim_brokers.Queue.Cells.{put-same, put-other}
use nim_brokers.Prelude.{
  ℕ, suc, ◌+◌, ◌%◌, ◌<◌, ◌≡◌, ◌≢◌, refl, sym, ap, ◌∙◌, inl, inr, Bool, true, false, none, some,
  arith,
}
use nim_brokers.Queue.Response.{
  ResponseState, empty, writing, ready, abandoned, provider_gone, abandoned_writing, pack_control,
  control_gen, polling, popped, loaded, stored, sending, waiting, releasing, queued, State, stand,
  serve, end_send,
}
use nim_brokers.Queue.Response.Word.{gen_mod, control_gen-pack}
use nim_brokers.Queue.Response.Stages.{
  InertR, LeftR, BusyR, InertP, IsUnsent, BusyP, CanSend, armed, busy, Kept,
}
use nim_brokers.Queue.Response.Turns.{stand-Kept, awaits-Kept}
use nim_brokers.Queue.Response.Waits.{Good, gen-le}
use nim_brokers.Queue.Response.Requesters.{
  LeftR-InertR, LeftP-InertP, early-BusyR, HasSlot, has_slot, IsFresh, is_fresh,
}

module _ {A : Type 0} (answer : ℕ → A) (n : ℕ) (s : State A) (k : Kept answer s)
    (small : s.claims + 1 < gen_mod) where
  word_gen : control_gen s.control ≡ k.gen
  word_gen =
      ap control_gen k.word ∙ control_gen-pack k.gen k.state (omega (arith, gen-le answer s k))

  pub load-Good : s.requesters n ≡ popped → Good answer s (some (stand n (loaded s.control) s))
  load-Good e = (
    stand-Kept answer n s k (loaded s.control) (rw e (λ h. h)) (λ _. rw e (λ h. absurd h))
        (λ _. rw e (λ h. absurd (LeftR-InertR answer k.state n popped h))) (λ _ _. word_gen)
        (λ _. rw e (λ h. absurd h))
        (λ _. rw e (λ h. absurd (early-BusyR answer k.state n popped tt h))),
    omega arith,
  )

  pub slot_gen-Good :
      s.requesters n ≡ stored → Good answer s (some (stand n (sending (control_gen s.control)) s))
  slot_gen-Good e = (
    stand-Kept answer n s k (sending (control_gen s.control)) (rw e (λ h. h))
        (λ _. rw e (λ h. absurd h))
        (λ _. rw e (λ h. absurd (LeftR-InertR answer k.state n stored h)))
        (λ _. rw e (λ h. absurd h)) (λ now _. word_gen ∙ sym now)
        (λ _. rw e (λ h. absurd (early-BusyR answer k.state n stored tt h))),
    omega arith,
  )

  -- The store of the new word, which makes the last request one of the old.
  store-Good :
      (v : ℕ)
      → s.requesters n ≡ loaded v
      → s.claims ≡ suc k.gen
      → n ≡ suc k.gen
      → s.free ≡ 0
      → LeftR answer k.state k.gen (s.requesters k.gen)
      → InertP k.gen (s.providers k.gen)
      → IsUnsent (s.providers n)
      → Kept answer (stand n stored (record s { control = pack_control n empty }))
  store-Good v e c next f a b u = record {
    gen = n;
    state = empty;
    word = refl;
    stage = armed f (c ∙ sym next) tt (rw (put-same n stored s.requesters) tt) u;
    early = λ m h.
        let apart : m ≢ n = λ h'. absurd (omega arith) in
        rw (put-other n m stored s.requesters apart) (before m h);
    late = λ m h.
        let apart : m ≢ n = λ h'. absurd (omega arith) in
        rw (put-other n m stored s.requesters apart) (k.late m h);
    marked = k.marked;
  }
    where
      before : (m : ℕ) → m < n → InertR answer m (s.requesters m) × InertP m (s.providers m)
      before m h = elim (dec_lt m k.gen) [
        | yes l ↦ k.early m l
        | no l ↦
            let at_gen : m ≡ k.gen = omega arith in
            rw at_gen (LeftR-InertR answer k.state k.gen (s.requesters k.gen) a, b)
      ]

  pub claim-Good :
      (v : ℕ)
      → s.requesters n ≡ loaded v
      → Good answer s (
          some (
            stand n stored
              (record s { control = pack_control ((control_gen v + 1) % gen_mod) empty })))
  claim-Good v e =
      let w : IsFresh answer n (loaded v) s k =
        is_fresh answer n (loaded v) s k e (λ h. h) (λ h. h) (λ h. h)
          (early-BusyR answer k.state n (loaded v) tt) in
      let up : (control_gen v + 1) % gen_mod ≡ n = omega (arith, w.knows, w.next, w.last) in
      rw up (
        store-Good v e w.last w.next w.taken w.before
            (LeftP-InertP answer k.state k.gen (s.providers k.gen) w.provider_before) w.unsent_yet,
        omega arith,
      )

  -- The end of sending: the request is the provider's too, or is over.
  send-BusyR :
      (a : ResponseState) (g : ℕ) → CanSend a → g ≡ n → BusyR answer a n (waiting polling g)
  send-BusyR empty g h e = e
  send-BusyR abandoned g h e = e
  send-BusyR provider_gone g h e = e
  send-BusyR writing g h e = absurd h
  send-BusyR ready g h e = absurd h
  send-BusyR abandoned_writing g h e = absurd h

  send-BusyP :
      (a : ResponseState) (g : ℕ) → CanSend a → g ≡ n → BusyP answer a s.payload n (queued g)
  send-BusyP empty g h e = e
  send-BusyP abandoned g h e = e
  send-BusyP provider_gone g h e = e
  send-BusyP writing g h e = absurd h
  send-BusyP ready g h e = absurd h
  send-BusyP abandoned_writing g h e = absurd h

  sent-Good :
      (g : ℕ)
      → HasSlot answer n (sending g) s k
      → CanSend k.state
      → g ≡ n
      → Kept answer (stand n (waiting polling g) (serve n (queued g) s))
  sent-Good g w can own = record {
    gen = k.gen;
    state = k.state;
    word = k.word;
    stage =
        busy w.taken w.last
          (rw (← w.now, put-same n (waiting polling g) s.requesters) (send-BusyR k.state g can own))
          (rw (← w.now, put-same n (queued g) s.providers) (send-BusyP k.state g can own));
    early = λ m h.
        let apart : m ≢ n = λ h'. absurd (omega (arith, w.now)) in
        rw
          (
            put-other n m (waiting polling g) s.requesters apart,
            put-other n m (queued g) s.providers apart,
          )
          (k.early m h);
    late = λ m h.
        let apart : m ≢ n = λ h'. absurd (omega (arith, w.now, w.last)) in
        rw
          (
            put-other n m (waiting polling g) s.requesters apart,
            put-other n m (queued g) s.providers apart,
          )
          (k.late m h);
    marked = k.marked;
  }

  pub end_send-Good :
      (b : Bool) (g : ℕ) → s.requesters n ≡ sending g → Good answer s (end_send n b (sending g) s)
  unfolding end_send
  end_send-Good true g e =
      let w : HasSlot answer n (sending g) s k =
        has_slot answer n (sending g) s k e (λ h. h) (λ h. h) (λ h. h) in
      elim w.stands [
        | inl h ↦ (awaits-Kept answer n _ (sent-Good g w h.0 h.1) _, omega arith)
        | inr h ↦ absurd (early-BusyR answer k.state n (sending g) tt h.0)
      ]
  end_send-Good false g e = (
    stand-Kept answer n s k (releasing none) (rw e (λ h. h)) (λ _. rw e (λ h. absurd h))
        (λ _. rw e (λ h. absurd (LeftR-InertR answer k.state n (sending g) h)))
        (λ _. rw e (λ h. absurd h)) (λ _ _. tt)
        (λ _. rw e (λ h. absurd (early-BusyR answer k.state n (sending g) tt h))),
    omega arith,
  )
