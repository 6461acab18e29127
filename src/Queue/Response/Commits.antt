-- ===== src/Queue/Response/Commits.antt =====
-- The provider's write, its commit and its release.
use nim_brokers.Queue.Cells.{put-same, put-other}
use nim_brokers.Prelude.{
  ℕ, suc, ◌<◌, ◌≡◌, ◌≢◌, sym, ap, ◌∙◌, false, Bool-cases, inl, inr, ◌==◌, ==_iff, some, arith,
}
use nim_brokers.Queue.Response.{
  ResponseState, empty, writing, ready, abandoned, provider_gone, abandoned_writing, pack_control,
  Provider, unsent, queued, at_work, reserved, filled, handing_back, through, State, serve, release,
  commit_write, next_reply,
}
use nim_brokers.Queue.Response.Word.{gen_mod, pack-true}
use nim_brokers.Queue.Response.Stages.{BusyP, left, Kept}
use nim_brokers.Queue.Response.Turns.{serve-Kept, written-Kept}
use nim_brokers.Queue.Response.Waits.{Good}
use nim_brokers.Queue.Response.Relabel.{WaitR-cases}
use nim_brokers.Queue.Response.Requesters.{LeftP-InertP}
use nim_brokers.Queue.Response.Providers.{InHand, in_hand, BusyP-fill, BusyP-cut, handing_back-left}
use nim_brokers.Queue.Response.Replies.{dispatch-Good, begin_write-Good}

module _ {A : Type 0} (answer : ℕ → A) (n : ℕ) (s : State A) (k : Kept answer s) where
  fill-Good :
      (g : ℕ)
      → s.providers n ≡ reserved g
      → Good answer s (some (serve n (filled g) (record s { payload = answer n })))
  fill-Good g e =
      let w : InHand answer n (reserved g) s k =
        in_hand answer n (reserved g) s k e (λ h. h) (λ h. h) in
      let kept =
        written-Kept answer n s k (filled g) (answer n) k.state (rw e (λ h. h)) w.now
          (rw e (λ h. LeftP-InertP answer k.state n (reserved g) h))
          (λ a. rw e (λ b. (a, BusyP-fill answer k.state s.payload n g b))) in
      (rw (← k.word) at kept, omega arith)

  commit_write-Good : (g : ℕ) → s.providers n ≡ filled g → Good answer s (some (commit_write n g s))
  unfolding commit_write
  commit_write-Good g e =
      let w : InHand answer n (filled g) s k =
        in_hand answer n (filled g) s k e (λ h. h) (λ h. h) in
      elim (Bool-cases (s.control == pack_control g writing)) [
        | inl y ↦
            let (now, same) =
              pack-true g k.gen k.state writing
                (ap (λ v. v == pack_control g writing) (sym k.word) ∙ y) in
            rw (y, now)
              (
                written-Kept answer n s k through s.payload ready (rw e (λ h. h)) w.now
                    (rw (e, same) (λ h. h))
                    (rw (e, same) (λ a b. ((WaitR-cases answer n (s.requesters n) a).2, b.1))),
                omega arith,
              )
        | inr refused ↦ rw refused (
          serve-Kept answer n s k handing_back (rw e (λ h. h)) (λ _. rw e (λ h. absurd h))
              (λ _. rw e (λ h. absurd (LeftP-InertP answer k.state n (filled g) h)))
              (λ _. rw e (BusyP-cut answer k.state s.payload n g (not_writing g w refused))),
          omega arith,
        )
      ]
    where
      filled-own : (a : ResponseState) (v : A) (h : ℕ) → BusyP answer a v n (filled h) → h ≡ n
      filled-own writing v h b = b.0
      filled-own abandoned_writing v h b = b
      filled-own empty v h b = absurd b
      filled-own ready v h b = absurd b
      filled-own abandoned v h b = absurd b
      filled-own provider_gone v h b = absurd b

      not_writing :
          (h : ℕ)
          → InHand answer n (filled h) s k
          → (s.control == pack_control h writing) ≡ false
          → k.state ≢ writing
      not_writing h w refused same =
          let own : h ≡ k.gen = filled-own k.state s.payload h w.provider ∙ w.now in
          let word : s.control ≡ pack_control h writing =
            k.word ∙ ap (λ i. pack_control i k.state) (sym own) ∙ ap (pack_control h) same in
          let hit = (==_iff s.control (pack_control h writing)).1 word in cc

  give_back-Good : s.providers n ≡ handing_back → Good answer s (some (serve n through (release s)))
  unfolding release
  give_back-Good e =
      let w : InHand answer n handing_back s k =
        in_hand answer n handing_back s k e (λ h. h) (λ h. h) in
      let (a, b) =
        handing_back-left answer k.state s.payload n (s.requesters n) w.provider w.requester in
      (
        record {
          gen = k.gen;
          state = k.state;
          word = k.word;
          stage =
              left (ap suc w.taken) w.last (rw (← w.now) a)
                (rw (← w.now, put-same n through s.providers) b);
          early = λ m h.
              let apart : m ≢ n = λ h'. absurd (omega (arith, w.now)) in
              rw (put-other n m through s.providers apart) (k.early m h);
          late = λ m h.
              let apart : m ≢ n = λ h'. absurd (omega (arith, w.now, w.last)) in
              rw (put-other n m through s.providers apart) (k.late m h);
          marked = k.marked;
        },
        omega arith,
      )

  pub next_reply-Good :
      (p : Provider)
      → s.providers n ≡ p
      → s.claims < gen_mod
      → Good answer s (next_reply n (answer n) p s)
  unfolding next_reply
  next_reply-Good unsent e small = tt
  next_reply-Good (queued g) e small = dispatch-Good answer n g s k small e
  next_reply-Good (at_work g) e small = begin_write-Good answer n g s k small e
  next_reply-Good (reserved g) e small = fill-Good g e
  next_reply-Good (filled g) e small = commit_write-Good g e
  next_reply-Good handing_back e small = give_back-Good e
  next_reply-Good through e small = tt
