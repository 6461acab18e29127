-- ===== src/Queue/Response/Replies.antt =====
-- Each access of the provider keeps the stages.
use native.Mathlib.Decide.{dec_lt}
use nim_brokers.Prelude.{
  ℕ, suc, ◌<◌, ◌≡◌, ◌≢◌, sym, ap, ◌∙◌, inl, inr, true, false, Bool-cases, ◌==◌, ==_iff, some,
  if◌then◌else◌, arith,
}
use nim_brokers.Queue.Response.{
  empty, writing, abandoned, pack_control, is_at, queued, at_work, reserved, handing_back, through,
  State, serve, begin_write,
}
use nim_brokers.Queue.Response.Word.{gen_mod, pack-true, is_at-true, is_at-same}
use nim_brokers.Queue.Response.Stages.{left, fresh, armed, busy, Kept}
use nim_brokers.Queue.Response.Turns.{serve-Kept, written-Kept}
use nim_brokers.Queue.Response.Waits.{Good, gen-le}
use nim_brokers.Queue.Response.Providers.{
  LeftP-own, LeftP-start, BusyP-own, BusyP-start, BusyP-drop,
}

module _ {A : Type 0} (answer : ℕ → A) (n g : ℕ) (s : State A) (k : Kept answer s)
    (small : s.claims < gen_mod) where
  at_abandoned : is_at g abandoned s.control ≡ true → (g ≡ k.gen) × (k.state ≡ abandoned)
  at_abandoned y =
      is_at-true g k.gen abandoned k.state (omega (arith, gen-le answer s k))
        (ap (is_at g abandoned) (sym k.word) ∙ y)

  own : s.providers n ≡ at_work g → g ≡ n
  own e = elim (dec_lt n k.gen) [
    | yes l ↦ rw e at (k.early n l).1
    | no l ↦ elim (dec_lt s.claims n) [
      | yes h ↦ absurd (rw e at (k.late n h).1)
      | no h ↦ elim k.stage [
        | left f c a b ↦
            let now : n ≡ k.gen = omega arith in
            (LeftP-own answer k.state n g (rw e at (rw (← now) at b))).0
        | fresh f c a b d u ↦ elim (dec_lt k.gen n) [
          | yes m ↦ let next : n ≡ suc k.gen = omega arith in absurd (rw e at (rw (← next) at u))
          | no m ↦
              let now : n ≡ k.gen = omega arith in
              (LeftP-own answer k.state n g (rw e at (rw (← now) at b))).0
        ]
        | armed f c a b d ↦ let now : n ≡ k.gen = omega arith in absurd (rw e at (rw (← now) at d))
        | busy f c a b ↦
            let now : n ≡ k.gen = omega arith in
            BusyP-own answer k.state s.payload n g (rw e at (rw (← now) at b))
      ]
    ]
  ]

  -- The check before the dispatch.
  pub dispatch-Good :
      s.providers n ≡ queued g
      → Good answer s
          (some (serve n (if is_at g abandoned s.control then handing_back else at_work g) s))
  dispatch-Good e = elim (Bool-cases (is_at g abandoned s.control)) [
    | inl y ↦
        let (now, same) = at_abandoned y in
        rw y (
          serve-Kept answer n s k handing_back (rw e (λ h. h))
              (λ l. rw e (λ h. absurd (omega arith))) (λ _. rw (e, same) (λ h. absurd h))
              (λ _. rw (e, same) (λ _. tt)),
          omega arith,
        )
    | inr other ↦ rw other (
      serve-Kept answer n s k (at_work g) (rw e (λ h. h)) (λ _. rw e (λ h. h))
          (λ _. rw e (LeftP-start answer k.state n g))
          (λ _. rw e (BusyP-start answer k.state s.payload n g)),
      omega arith,
    )
  ]

  pub begin_write-Good : s.providers n ≡ at_work g → Good answer s (some (begin_write n g s))
  unfolding begin_write
  begin_write-Good e = elim (Bool-cases (s.control == pack_control g empty)) [
    | inl y ↦
        let (now, same) =
          pack-true g k.gen k.state empty (ap (λ v. v == pack_control g empty) (sym k.word) ∙ y) in
        let own_gen = own e in
        rw (y, now)
          (
            written-Kept answer n s k (reserved k.gen) s.payload writing (rw e (λ h. h))
                (sym own_gen ∙ now) (rw (e, same) (λ h. h))
                (rw (e, same) (λ a b. (a, sym now ∙ own_gen))),
            omega arith,
          )
    | inr not_empty ↦ elim (Bool-cases (is_at g abandoned s.control)) [
      | inl y ↦
          let (now, same) = at_abandoned y in
          rw (not_empty, y)
            (
              serve-Kept answer n s k handing_back (rw e (λ h. h))
                  (λ l. rw e (λ h. absurd (omega arith))) (λ _. rw (e, same) (λ h. absurd h))
                  (λ _. rw (e, same) (λ _. tt)),
              omega arith,
            )
      | inr not_abandoned ↦
          rw (not_empty, not_abandoned)
            (
              serve-Kept answer n s k through (rw e (λ h. h)) (λ _. rw e (λ _. tt))
                  (λ _. rw e (λ h. rw (LeftP-own answer k.state n g h).1 tt))
                  (λ now. rw e (
                    BusyP-drop answer k.state s.payload n g (stale_empty now e not_empty)
                      (stale_abandoned now e not_abandoned))),
              omega arith,
            )
    ]
  ]
    where
      stale_empty :
          n ≡ k.gen
          → s.providers n ≡ at_work g
          → (s.control == pack_control g empty) ≡ false
          → k.state ≢ empty
      stale_empty now e' refused same =
          let word : s.control ≡ pack_control g empty =
            k.word
            ∙ ap (λ i. pack_control i k.state) (sym (own e' ∙ now))
            ∙ ap (pack_control g) same in
          let hit = (==_iff s.control (pack_control g empty)).1 word in cc

      stale_abandoned :
          n ≡ k.gen
          → s.providers n ≡ at_work g
          → is_at g abandoned s.control ≡ false
          → k.state ≢ abandoned
      stale_abandoned now e' refused same =
          let word : s.control ≡ pack_control g abandoned =
            k.word
            ∙ ap (λ i. pack_control i k.state) (sym (own e' ∙ now))
            ∙ ap (pack_control g) same in
          let g_small : g < gen_mod = omega (arith, own e', now, gen-le answer s k) in
          let hit : is_at g abandoned s.control ≡ true =
            ap (is_at g abandoned) word ∙ is_at-same g abandoned abandoned g_small in
          cc
