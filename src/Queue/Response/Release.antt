-- ===== src/Queue/Response/Release.antt =====
-- The read of a response, and the releases.
use nim_brokers.Queue.Cells.{put-same, put-other}
use nim_brokers.Prelude.{ℕ, suc, ◌≡◌, ◌≢◌, ap, inl, inr, Option, none, some, arith}
use nim_brokers.Queue.Response.{
  ResponseState, empty, writing, ready, abandoned, provider_gone, abandoned_writing, reading,
  releasing, finished, Provider, unsent, queued, at_work, reserved, filled, handing_back, through,
  State, stand, release,
}
use nim_brokers.Queue.Response.Stages.{
  Reads, LeftR, SendR, BusyR, InertP, QuietP, LeftP, IsUnsent, BusyP, left, Kept,
}
use nim_brokers.Queue.Response.Turns.{stand-Kept}
use nim_brokers.Queue.Response.Waits.{Good}
use nim_brokers.Queue.Response.Requesters.{LeftR-InertR, HasSlot, has_slot}

module _ {A : Type 0} (answer : ℕ → A) where
  finished-LeftR :
      (a : ResponseState) (n : ℕ) (o : Option A) → Reads answer n o → LeftR answer a n (finished o)
  finished-LeftR empty n o h = h
  finished-LeftR writing n o h = h
  finished-LeftR ready n o h = h
  finished-LeftR abandoned n o h = h
  finished-LeftR provider_gone n o h = h
  finished-LeftR abandoned_writing n o h = h

  unsent-LeftP : (a : ResponseState) (n : ℕ) (p : Provider) → IsUnsent p → LeftP a n p
  unsent-LeftP empty n unsent h = tt
  unsent-LeftP writing n unsent h = tt
  unsent-LeftP ready n unsent h = tt
  unsent-LeftP abandoned n unsent h = tt
  unsent-LeftP provider_gone n unsent h = tt
  unsent-LeftP abandoned_writing n unsent h = tt
  unsent-LeftP a n (queued g) h = absurd h
  unsent-LeftP a n (at_work g) h = absurd h
  unsent-LeftP a n (reserved g) h = absurd h
  unsent-LeftP a n (filled g) h = absurd h
  unsent-LeftP a n handing_back h = absurd h
  unsent-LeftP a n through h = absurd h

  gone-LeftP : (n : ℕ) (p : Provider) → BusyP answer provider_gone (answer n) n p → InertP n p
  gone-LeftP n (queued g) h = h
  gone-LeftP n (at_work g) h = h
  gone-LeftP n through h = tt
  gone-LeftP n unsent h = absurd h
  gone-LeftP n (reserved g) h = absurd h
  gone-LeftP n (filled g) h = absurd h
  gone-LeftP n handing_back h = absurd h

  ready-LeftP : (v : A) (n : ℕ) (p : Provider) → BusyP answer ready v n p → QuietP p
  ready-LeftP v n through h = tt
  ready-LeftP v n unsent h = absurd h
  ready-LeftP v n (queued g) h = absurd h
  ready-LeftP v n (at_work g) h = absurd h
  ready-LeftP v n (reserved g) h = absurd h
  ready-LeftP v n (filled g) h = absurd h
  ready-LeftP v n handing_back h = absurd h

  -- A requester at its release leaves nothing to the provider.
  releasing-left :
      (a : ResponseState) (v : A) (n : ℕ) (o : Option A) (p : Provider)
      → BusyR answer a n (releasing o)
      → BusyP answer a v n p
      → Reads answer n o × LeftP a n p
  releasing-left ready v n o p h b = (h, ready-LeftP v n p b)
  releasing-left provider_gone v n o p h b = (h, gone-LeftP n p b)
  releasing-left empty v n o p h b = absurd h
  releasing-left writing v n o p h b = absurd h
  releasing-left abandoned v n o p h b = absurd h
  releasing-left abandoned_writing v n o p h b = absurd h

  armed-Reads : (n : ℕ) (o : Option A) → SendR answer n (releasing o) → Reads answer n o
  armed-Reads n none h = tt
  armed-Reads n (some v) h = absurd h

  module _ (n : ℕ) (s : State A) (k : Kept answer s) where
    released-Kept :
        (o : Option A)
        → HasSlot answer n (releasing o) s k
        → Reads answer n o
        → LeftP k.state n (s.providers n)
        → Kept answer (stand n (finished o) (release s))
    unfolding release
    released-Kept o w reads b = record {
      gen = k.gen;
      state = k.state;
      word = k.word;
      stage =
          left (ap suc w.taken) w.last
            (rw (← w.now, put-same n (finished o) s.requesters) (finished-LeftR k.state n o reads))
            (rw (← w.now) b);
      early = λ m h.
          let apart : m ≢ n = λ h'. absurd (omega (arith, w.now)) in
          rw (put-other n m (finished o) s.requesters apart) (k.early m h);
      late = λ m h.
          let apart : m ≢ n = λ h'. absurd (omega (arith, w.now, w.last)) in
          rw (put-other n m (finished o) s.requesters apart) (k.late m h);
      marked = k.marked;
    }

    pub release-Good :
        (o : Option A)
        → s.requesters n ≡ releasing o
        → Good answer s (some (stand n (finished o) (release s)))
    unfolding release
    release-Good o e =
        let w : HasSlot answer n (releasing o) s k =
          has_slot answer n (releasing o) s k e (λ h. h) (λ h. h) (λ h. h) in
        elim w.stands [
          | inl h ↦ (
            released-Kept o w (armed-Reads n o h.1) (unsent-LeftP k.state n (s.providers n) h.2),
            omega arith,
          )
          | inr h ↦
              let (reads, b) = releasing-left k.state s.payload n o (s.providers n) h.0 h.1 in
              (released-Kept o w reads b, omega arith)
        ]

    reading-left :
        (a : ResponseState) (v : A) (p : Provider)
        → BusyR answer a n reading
        → BusyP answer a v n p
        → BusyR answer a n (releasing (some v))
    reading-left ready v through h b = b
    reading-left ready v unsent h b = absurd b
    reading-left ready v (queued g) h b = absurd b
    reading-left ready v (at_work g) h b = absurd b
    reading-left ready v (reserved g) h b = absurd b
    reading-left ready v (filled g) h b = absurd b
    reading-left ready v handing_back h b = absurd b
    reading-left empty v p h b = absurd h
    reading-left writing v p h b = absurd h
    reading-left abandoned v p h b = absurd h
    reading-left provider_gone v p h b = absurd h
    reading-left abandoned_writing v p h b = absurd h

    -- What is read is the provider's answer.
    pub read-Good :
        s.requesters n ≡ reading → Good answer s (some (stand n (releasing (some s.payload)) s))
    read-Good e =
        let w : HasSlot answer n reading s k =
          has_slot answer n reading s k e (λ h. h) (λ h. h) (λ h. h) in
        elim w.stands [
          | inl h ↦ absurd h.1
          | inr h ↦ (
            stand-Kept answer n s k (releasing (some s.payload)) (rw e (λ h'. h'))
                (λ _. rw e (λ h'. absurd h'))
                (λ _. rw e (λ h'. absurd (LeftR-InertR answer k.state n reading h')))
                (λ _. rw e (λ h'. absurd h')) (λ _. rw e (λ h'. absurd h'))
                (λ _ _. reading-left k.state s.payload (s.providers n) h.0 h.1),
            omega arith,
          )
        ]
