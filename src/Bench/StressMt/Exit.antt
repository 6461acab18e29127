-- ===== src/Bench/StressMt/Exit.antt =====
-- What the stress test's exit status says.
use nim_brokers.Prelude.{
  ℕ, zero, suc, ◌+◌, ◌*◌, ◌<◌, ◌≤◌, ◌≡◌, refl, sym, ap, ◌∙◌, Bool, true, false, ◌&&◌, ◌==◌, ==_iff,
  ltb, Bool-cases, inl, inr, List, [], ◌∷◌, Option, none, some, get_elem?, set, length, length-set,
  length-replicate, replicate, if◌then◌else◌, arith,
}
use nim_brokers.Bench.StressMt.{
  Workload, total, Reply, err, added, Library, operand, is_sum, Counts, count, State, start,
  reply_to, make_call, round_of, worker, run_workers, all_done, exit_code, stress,
}

abbrev made : Counts → ℕ
made c = c.ok_count + (c.fail_count + c.mismatch_count)

abbrev wrong : Counts → ℕ
wrong c = c.fail_count + c.mismatch_count

abbrev sum : List ℕ → ℕ
sum [] = 0
sum (i ∷ is) = i + sum is

-- What a call does to the counters.
record Counted (right : Bool) (c d : Counts) : Type 0 where
  one_more : made d ≡ suc (made c)
  wrong_more : wrong d ≡ (if right then wrong c else suc (wrong c))

count-Counted : (n : ℕ) (r : Reply) (c : Counts) → Counted (is_sum n r) c (count n r c)
count-Counted n err c = record { one_more = omega arith; wrong_more = omega arith }
count-Counted n (added s) c = elim (Bool-cases (is_sum n (added s))) [
  | inl y ↦ rw y (record { one_more = omega arith; wrong_more = refl })
  | inr e ↦ rw e (record { one_more = omega arith; wrong_more = omega arith })
]

abbrev or_zero : Option ℕ → ℕ
or_zero none = 0
or_zero (some i) = i

sum-set : (is : List ℕ) (t i : ℕ) → get_elem? is t ≡ some i → sum (set is t (suc i)) ≡ suc (sum is)
sum-set [] t i e = absurd (cc)
sum-set (j ∷ is) zero i e = let q : j ≡ i = ap or_zero e in omega (arith, q)
sum-set (j ∷ is) (suc t) i e = omega (arith, sum-set is t i e)

-- What a part of a run does, whose answers are all right or not.
record Ran (right : Bool) (s r : State) : Type 0 where
  balance : made s.counts ≡ sum s.progress → made r.counts ≡ sum r.progress
  size : length r.progress ≡ length s.progress
  grows : wrong s.counts ≤ wrong r.counts
  calm : right ≡ true → wrong r.counts ≡ wrong s.counts
  marked : right ≡ false → wrong s.counts < wrong r.counts

idle-Ran : (s : State) → Ran true s s
idle-Ran s = record {
  balance = λ e. e;
  size = refl;
  grows = omega arith;
  calm = λ e. refl;
  marked = λ e. absurd (cc);
}

make_call-Ran :
    (lib : Library) (before : List ℕ) (t i : ℕ) (s : State)
    → get_elem? s.progress t ≡ some i
    → Ran
        (is_sum (operand t i + (operand t i + 1)) (reply_to lib before t i))
        s
        (make_call lib before t i s)
make_call-Ran lib before t i s e =
    let n = operand t i + (operand t i + 1) in
    let reply = reply_to lib before t i in
    let c = count-Counted n reply s.counts in
    let up = c.one_more in
    let more = c.wrong_more in
    elim (Bool-cases (is_sum n reply)) [
      | inl y ↦
          let same : wrong (count n reply s.counts) ≡ wrong s.counts = rw y at more in
          record {
            balance = λ b. omega (arith, up, b, sum-set s.progress t i e);
            size = length-set s.progress t (suc i);
            grows = omega (arith, same);
            calm = λ q. same;
            marked = λ q. absurd (cc);
          }
      | inr f ↦
          let one : wrong (count n reply s.counts) ≡ suc (wrong s.counts) = rw f at more in
          record {
            balance = λ b. omega (arith, up, b, sum-set s.progress t i e);
            size = length-set s.progress t (suc i);
            grows = omega (arith, one);
            calm = λ q. absurd (cc);
            marked = λ q. omega (arith, one);
          }
    ]

Ran-trans : (a b : Bool) (s r u : State) → Ran a s r → Ran b r u → Ran (a && b) s u
Ran-trans true b s r u f g = record {
  balance = λ e. g.balance (f.balance e);
  size = g.size ∙ f.size;
  grows = omega (arith, f.grows, g.grows);
  calm = λ e. g.calm e ∙ f.calm refl;
  marked = λ e. omega (arith, f.grows, g.marked e);
}
Ran-trans false b s r u f g = record {
  balance = λ e. g.balance (f.balance e);
  size = g.size ∙ f.size;
  grows = omega (arith, f.grows, g.grows);
  calm = λ e. absurd (cc);
  marked = λ e. omega (arith, g.grows, f.marked refl);
}

sum-replicate : (n : ℕ) → sum (replicate n 0) ≡ 0
sum-replicate zero = refl
sum-replicate (suc n) = omega (arith, sum-replicate n)

-- The runs under one workload.
module _ (w : Workload) where
  -- Whether each call that is made in this order is answered by the sum of its operands.
  abbrev answer_is_right : Library → List ℕ → ℕ → Option ℕ → Bool
  answer_is_right lib before tid none = true
  answer_is_right lib before tid (some i) =
      if ltb i w.calls_per_thread
      then is_sum (operand tid i + (operand tid i + 1)) (reply_to lib before tid i)
      else true

  unfoldable pub all_right : Library → List ℕ → List ℕ → State → Bool
  all_right lib before [] s = true
  all_right lib before (t ∷ ts) s =
      answer_is_right lib before t (get_elem? s.progress t)
      && all_right lib (t ∷ before) ts (worker w lib before t s)

  round_of-Ran :
      (lib : Library) (before : List ℕ) (t : ℕ) (o : Option ℕ) (s : State)
      → get_elem? s.progress t ≡ o
      → Ran (answer_is_right lib before t o) s (round_of w lib before t o s)
  round_of-Ran lib before t none s e = idle-Ran s
  round_of-Ran lib before t (some i) s e = elim (Bool-cases (ltb i w.calls_per_thread)) [
    | inl y ↦ rw y (make_call-Ran lib before t i s e)
    | inr n ↦ rw n (idle-Ran s)
  ]

  run_workers-Ran :
      (lib : Library) (before order : List ℕ) (s : State)
      → Ran (all_right lib before order s) s (run_workers w lib before order s)
  unfolding run_workers all_right worker
  run_workers-Ran lib before [] s = idle-Ran s
  run_workers-Ran lib before (t ∷ ts) s =
      Ran-trans _ _ s (worker w lib before t s) _ (round_of-Ran lib before t _ s refl)
        (run_workers-Ran lib (t ∷ before) ts (worker w lib before t s))

  sum-done : (is : List ℕ) → all_done w is ≡ true → sum is ≡ length is * w.calls_per_thread
  sum-done [] e = omega arith
  sum-done (i ∷ is) e = elim (Bool-cases (i == w.calls_per_thread)) [
    | inl y ↦
        let head = (==_iff i w.calls_per_thread).0 y in
        let rest = sum-done is (rw y at e) in grind (arith, head, rest)
    | inr n ↦ absurd (let b : false ≡ true = rw n at e in cc)
  ]

  -- The status follows from the count of what went wrong.
  exit_code-wrong :
      (c : Counts) (right : Bool)
      → made c ≡ total w
      → (right ≡ true → wrong c ≡ 0)
      → (right ≡ false → 0 < wrong c)
      → exit_code w c ≡ (if right then 0 else 1)
  exit_code-wrong c true m t f = let none_wrong = t refl in ground arith
  exit_code-wrong c false m t f = let one_wrong = f refl in ground arith

  -- The run as a whole, from the counters at zero.
  module _ (lib : Library) (order : List ℕ) where
    abbrev end : State
    end = run_workers w lib [] order (start w)

    whole : Ran (all_right lib [] order (start w)) (start w) end
    whole = run_workers-Ran lib [] order (start w)

    made-end : all_done w end.progress ≡ true → made end.counts ≡ total w
    made-end done =
        let b : made end.counts ≡ sum end.progress =
          whole.balance (sym (sum-replicate w.n_threads)) in
        let l : length end.progress ≡ w.n_threads = whole.size ∙ length-replicate w.n_threads 0 in
        b ∙ sum-done end.progress done ∙ ap (λ n. n * w.calls_per_thread) l

-- For any number of threads and of calls of each, in whatever order the calls complete, and
-- whatever the library replies: once every thread is through the test ends, with status 0 if the reply to each call was the sum of its operands
-- and 1 if any was not; a context that is not created gives status 1.
pub stress_lem :
    (w : Workload) (lib : Library) (order : List ℕ)
    → all_done w (run_workers w lib [] order (start w)).progress ≡ true
    → (stress w lib true order ≡ some (if all_right w lib [] order (start w) then 0 else 1))
      × (stress w lib false order ≡ some 1)
unfolding stress
stress_lem w lib order done =
    let r = whole w lib order in
    (
      rw done (
          ap some (
            exit_code-wrong w (end w lib order).counts _ (made-end w lib order done) r.calm
              r.marked)),
      refl,
    )
