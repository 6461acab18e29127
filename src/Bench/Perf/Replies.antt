-- ===== src/Bench/Perf/Replies.antt =====
-- What the library has to reply for a scenario of test/ffibench/perf_driver.cpp to pass.
use nim_brokers.Prelude.{
  ℕ, ◌+◌, ◌≤◌, ◌<◌, ◌≡◌, ◌⊎◌, ◌↔◌, refl, sym, ap, ◌∙◌, true, ==_iff, ltb, Bool-cases, inl, inr, pos,
  negsuc, List, [], ◌∷◌, Option, none, some, get_elem?, arith,
}
use nim_brokers.Bench.StressMt.{Workload}
use nim_brokers.Bench.Perf.{Reply, err, replied, is_reply, Library, Worker, round_of, run_calls}
use nim_brokers.Bench.Perf
use nim_brokers.Bench.Perf.Events
use nim_brokers.Bench.Perf.Events.{
  Happening, triggered, delivered, deliver, trigger, happen, happen_all, deliver_all, drain,
}

is_reply-true : (n : ℕ) (r : Reply) → is_reply n r ≡ true → r ≡ replied (pos n)
is_reply-true n err e = cc
is_reply-true n (replied (pos m)) e = ap (λ k. replied (pos k)) ((==_iff m n).0 e)
is_reply-true n (replied (negsuc m)) e = cc

true-is_reply : (n : ℕ) (r : Reply) → r ≡ replied (pos n) → is_reply n r ≡ true
true-is_reply n r e = ap (is_reply n) e ∙ (==_iff n n).1 refl

-- A step without a failure, with the reply that was due; or one failure for a reply that was not as
-- it should be.
abbrev Judges : (Due Right : Type 0) (before after : ℕ) → Type 0
Judges Due Right before after =
    ((Due → Right) × (after ≡ before)) ⊎ (Due × (Right → ⊥) × (after ≡ before + 1))

-- The rest of the run tells whether any failure came in, and takes none back.
abbrev Rest : (Rights : Type 0) (before after : ℕ) → Type 0
Rest Rights before after = (before ≤ after) × ((after ≡ before) ↔ Rights)

Rest-none : (m : ℕ) → Rest Unit m m
Rest-none m = (omega arith, (λ e. tt, λ u. refl))

Rest-judge :
    (Due Right Rights : Type 0) (a b c : ℕ)
    → Judges Due Right a b
    → Rest Rights b c
    → Rest ((Due → Right) × Rights) a c
Rest-judge Due Right Rights a b c (inl (good, same)) (more, iff) =
    (omega arith, (λ e. (good, iff.0 (omega arith)), λ p. omega (arith, iff.1 p.1)))
Rest-judge Due Right Rights a b c (inr (due, bad, one)) (more, iff) =
    (omega arith, (λ e. absurd (omega arith), λ p. absurd (bad (p.0 due))))

-- The thread exists and has calls left.
abbrev pub CallsLeft : Workload → Option Worker → Type 0
CallsLeft w none = ⊥
CallsLeft w (some k) = k.made < w.calls_per_thread

-- Every call that a thread made was replied to with a length of `n`.
abbrev pub AllReplied : Workload → ℕ → Library → List ℕ → List ℕ → Perf.Tally → Type 0
AllReplied w n lib before [] s = Unit
AllReplied w n lib before (t ∷ ts) s =
    (CallsLeft w (get_elem? s.workers t) → (lib before).0 ≡ replied (pos n))
    × AllReplied w n lib (t ∷ before) ts (round_of w n (lib before) t (get_elem? s.workers t) s)

module _ (w : Workload) (n : ℕ) where
  round_of-Judges :
      (a : Reply × ℕ) (t : ℕ) (o : Option Worker) (s : Perf.Tally)
      → Judges (CallsLeft w o) (a.0 ≡ replied (pos n)) s.failures (round_of w n a t o s).failures
  round_of-Judges a t none s = inl (λ d. absurd d, refl)
  round_of-Judges (r, ns) t (some k) s = elim (Bool-cases (ltb k.made w.calls_per_thread)) [
    | inl y ↦ elim (Bool-cases (is_reply n r)) [
      | inl good ↦ rw (y, good) (inl (λ d. is_reply-true n r good, refl))
      | inr bad ↦
          let never : r ≡ replied (pos n) → ⊥ = λ e. (let good = true-is_reply n r e in cc) in
          rw (y, bad) (inr (ground arith, never, refl))
    ]
    | inr f ↦ rw f (inl (λ d. absurd (ground arith), refl))
  ]

  run_calls-Rest :
      (lib : Library) (before order : List ℕ) (s : Perf.Tally)
      → Rest
          (AllReplied w n lib before order s)
          s.failures
          (run_calls w n lib before order s).failures
  unfolding run_calls
  run_calls-Rest lib before [] s = Rest-none s.failures
  run_calls-Rest lib before (t ∷ ts) s =
      Rest-judge _ _ _ _ _ _ (round_of-Judges (lib before) t (get_elem? s.workers t) s)
        (run_calls-Rest lib (t ∷ before) ts _)

  -- No failure is counted if and only if every reply was as it should be.
  pub run_calls-AllReplied :
      (lib : Library) (order : List ℕ) (s : Perf.Tally)
      → s.failures ≡ 0
      → ((run_calls w n lib [] order s).failures ≡ 0) ↔ AllReplied w n lib [] order s
  run_calls-AllReplied lib order s e =
      let (l, iff) = run_calls-Rest lib [] order s in (λ h. iff.0 (h ∙ sym e), λ p. iff.1 p ∙ e)

abbrev pub TriggersLeft : Workload → Option ℕ → Type 0
TriggersLeft w none = ⊥
TriggersLeft w (some i) = i < w.calls_per_thread

-- Every trigger that a thread made was replied to with one emitted event.
abbrev pub AllTriggered : Workload → List Happening → Events.Tally → Type 0
AllTriggered w [] s = Unit
AllTriggered w (triggered t r ∷ hs) s =
    (TriggersLeft w (get_elem? s.made t) → r ≡ replied (pos 1))
    × AllTriggered w hs (happen w (triggered t r) s)
AllTriggered w (delivered ns ∷ hs) s = AllTriggered w hs (happen w (delivered ns) s)

module _ (w : Workload) where
  trigger-Judges :
      (t : ℕ) (r : Reply) (o : Option ℕ) (s : Events.Tally)
      → Judges (TriggersLeft w o) (r ≡ replied (pos 1)) s.failures (trigger w t r o s).failures
  trigger-Judges t r none s = inl (λ d. absurd d, refl)
  trigger-Judges t r (some i) s = elim (Bool-cases (ltb i w.calls_per_thread)) [
    | inl y ↦ elim (Bool-cases (is_reply 1 r)) [
      | inl good ↦ rw (y, good) (inl (λ d. is_reply-true 1 r good, refl))
      | inr bad ↦
          let never : r ≡ replied (pos 1) → ⊥ = λ e. (let good = true-is_reply 1 r e in cc) in
          rw (y, bad) (inr (ground arith, never, refl))
    ]
    | inr f ↦ rw f (inl (λ d. absurd (ground arith), refl))
  ]

  happen_all-Rest :
      (hs : List Happening) (s : Events.Tally)
      → Rest (AllTriggered w hs s) s.failures (happen_all w hs s).failures
  unfolding happen_all
  happen_all-Rest [] s = Rest-none s.failures
  happen_all-Rest (triggered t r ∷ hs) s =
      Rest-judge _ _ _ _ _ _ (trigger-Judges t r (get_elem? s.made t) s) (happen_all-Rest hs _)
  happen_all-Rest (delivered ns ∷ hs) s = happen_all-Rest hs _

  pub happen_all-AllTriggered :
      (hs : List Happening) (s : Events.Tally)
      → s.failures ≡ 0
      → ((happen_all w hs s).failures ≡ 0) ↔ AllTriggered w hs s
  happen_all-AllTriggered hs s e =
      let (l, iff) = happen_all-Rest hs s in (λ h. iff.0 (h ∙ sym e), λ p. iff.1 p ∙ e)

-- A delivery changes no failure.
pub deliver_all-failures :
    (xs : List ℕ) (s : Events.Tally) → (deliver_all xs s).failures ≡ s.failures
unfolding deliver_all
deliver_all-failures [] s = refl
deliver_all-failures (ns ∷ rest) s = deliver_all-failures rest (deliver ns s)

pub drain-failures :
    (total : ℕ) (batches : List (List ℕ)) (s : Events.Tally)
    → (drain total batches s).failures ≡ s.failures
unfolding drain
drain-failures total [] s = refl
drain-failures total (batch ∷ rest) s = elim (Bool-cases (ltb s.got total)) [
  | inl y ↦ rw y (drain-failures total rest _ ∙ deliver_all-failures batch s)
  | inr n ↦ rw n refl
]
