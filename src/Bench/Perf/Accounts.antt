-- ===== src/Bench/Perf/Accounts.antt =====
-- The report of the request scenario adds up.
use nim_brokers.Prelude.{
  ℕ, zero, suc, ◌+◌, ◌-◌, ◌*◌, pos, ◌≡◌, ◌≢◌, leb, ◌↔◌, refl, ap, ◌∙◌, true, false, ◌==◌, ==_iff,
  ltb, Bool-cases, inl, inr, List, [], ◌∷◌, ◌++◌, Option, none, some, get_elem?, set, length,
  length-set, length-replicate, length-append, replicate, map, cat, sub_ℕ, arith,
}
use nim_brokers.Bench.StressMt.{Workload}
use nim_brokers.Bench.Perf.{
  vec_elements, total_ops, Reply, is_reply, Library, Worker, Tally, at_rest, call, is_done, lat_of,
  all_samples, round_of, status_of, run_calls, Row, row_of, run_request_scenario,
}
use nim_brokers.Bench.Perf.Replies.{AllReplied, run_calls-AllReplied}

abbrev made_by : List Worker → ℕ
made_by [] = 0
made_by (k ∷ ks) = k.made + made_by ks

abbrev samples_of : List Worker → ℕ
samples_of [] = 0
samples_of (k ∷ ks) = length k.lat + samples_of ks

length-all_samples : (ks : List Worker) → length (cat (map lat_of ks)) ≡ samples_of ks
length-all_samples [] = refl
length-all_samples (k ∷ ks) =
    length-append k.lat (cat (map lat_of ks)) ∙ ap (λ n. length k.lat + n) (length-all_samples ks)

abbrev or_zero : Option Worker → Worker
or_zero none = record { made = 0; lat = [] }
or_zero (some k) = k

-- What replacing one thread's entry adds.
made_by-set :
    (ks : List Worker) (t : ℕ) (k k' : Worker)
    → get_elem? ks t ≡ some k
    → k'.made ≡ suc k.made
    → made_by (set ks t k') ≡ suc (made_by ks)
made_by-set [] t k k' e h = absurd (cc)
made_by-set (j ∷ ks) zero k k' e h =
    let q : j.made ≡ k.made = ap (λ o. (or_zero o).made) e in omega (arith, q, h)
made_by-set (j ∷ ks) (suc t) k k' e h = omega (arith, made_by-set ks t k k' e h)

samples_of-set :
    (ks : List Worker) (t d : ℕ) (k k' : Worker)
    → get_elem? ks t ≡ some k
    → length k'.lat ≡ d + length k.lat
    → samples_of (set ks t k') ≡ d + samples_of ks
samples_of-set [] t d k k' e h = absurd (cc)
samples_of-set (j ∷ ks) zero d k k' e h =
    let q : length j.lat ≡ length k.lat = ap (λ o. length (or_zero o).lat) e in omega (arith, q, h)
samples_of-set (j ∷ ks) (suc t) d k k' e h = omega (arith, samples_of-set ks t d k k' e h)

-- Every call made has left a sample or counted as a failure.
record Balanced (size : ℕ) (s : Tally) : Type 0 where
  balance : samples_of s.workers + s.failures ≡ made_by s.workers
  threads : length s.workers ≡ size

call-Balanced :
    (n t size : ℕ) (k : Worker) (a : Reply × ℕ) (s : Tally)
    → get_elem? s.workers t ≡ some k
    → Balanced size s
    → Balanced size (call n t k a s)
call-Balanced n t size k (r, ns) s e b =
    let bal = b.balance in
    elim (Bool-cases (is_reply n r)) [
      | inl y ↦ rw y (record {
        balance = omega (
          arith,
          bal,
          made_by-set s.workers t k (record { made = suc k.made; lat = k.lat ++ ns ∷ [] }) e refl,
          samples_of-set s.workers t 1 k (record { made = suc k.made; lat = k.lat ++ ns ∷ [] }) e
              (omega (arith, length-append k.lat (ns ∷ []))),
        );
        threads = length-set s.workers t _ ∙ b.threads;
      })
      | inr f ↦ rw f (record {
        balance = omega (
          arith,
          bal,
          made_by-set s.workers t k (record k { made = suc k.made }) e refl,
          samples_of-set s.workers t 0 k (record k { made = suc k.made }) e (omega arith),
        );
        threads = length-set s.workers t _ ∙ b.threads;
      })
    ]

module _ (w : Workload) (n : ℕ) where
  round_of-Balanced :
      (size t : ℕ) (a : Reply × ℕ) (o : Option Worker) (s : Tally)
      → get_elem? s.workers t ≡ o
      → Balanced size s
      → Balanced size (round_of w n a t o s)
  round_of-Balanced size t a none s e b = b
  round_of-Balanced size t a (some k) s e b = elim (Bool-cases (ltb k.made w.calls_per_thread)) [
    | inl y ↦ rw y (call-Balanced n t size k a s e b)
    | inr f ↦ rw f b
  ]

  run_calls-Balanced :
      (lib : Library) (before order : List ℕ) (size : ℕ) (s : Tally)
      → Balanced size s
      → Balanced size (run_calls w n lib before order s)
  unfolding run_calls
  run_calls-Balanced lib before [] size s b = b
  run_calls-Balanced lib before (t ∷ ts) size s b =
      run_calls-Balanced lib (t ∷ before) ts size _
        (round_of-Balanced size t (lib before) _ s refl b)

made_by-done :
    (w : Workload) (ks : List Worker)
    → is_done w ks ≡ true
    → made_by ks ≡ length ks * w.calls_per_thread
made_by-done w [] e = omega arith
made_by-done w (k ∷ ks) e = elim (Bool-cases (k.made == w.calls_per_thread)) [
  | inl y ↦
      let head = (==_iff k.made w.calls_per_thread).0 y in
      let rest = made_by-done w ks (rw y at e) in grind (arith, head, rest)
  | inr n ↦ absurd (let b : false ≡ true = rw n at e in cc)
]

at_rest-Balanced : (n : ℕ) → Balanced n (at_rest (record { n_threads = n; calls_per_thread = 0 }))
at_rest-Balanced n = record { balance = both n; threads = length-replicate n _ }
  where
    both :
        (m : ℕ)
        → samples_of (replicate m (record { made = 0; lat = [] })) + 0
          ≡ made_by (replicate m (record { made = 0; lat = [] }))
    both zero = refl
    both (suc m) = omega (arith, both m)

-- A report that adds up: the calls that are counted as successful are the samples, those and the
-- failures are all calls, and the status is 0 if and only if `Passed` holds.
pub record Accounted (w : Workload) (Passed : Type 0) (s : Tally) (o : Option (ℕ × Option Row))
    : Type 0 where
  pub code : ℕ
  pub row : Row
  pub printed : o ≡ some (code, some row)
  pub ok_samples : row.ok ≡ pos (length (all_samples s))
  pub adds_up : length (all_samples s) + row.fail ≡ total_ops w
  pub passes : (code ≡ 0) ↔ Passed

sub_ℕ-rest : (a b t : ℕ) → a + b ≡ t → sub_ℕ t b ≡ pos a
sub_ℕ-rest a b t e =
    let y : leb b t ≡ true = ground arith in let d : t - b ≡ a = omega arith in rw (y, d)

code_iff : (b : ℕ) → (status_of b ≡ 0) ↔ (b ≡ 0)
code_iff b = elim (Bool-cases (b == 0)) [
  | inl y ↦ rw y (λ h. (==_iff b 0).0 y, λ h. refl)
  | inr n ↦
      let failed : b ≢ 0 = λ q. (let z = (==_iff b 0).1 q in cc) in
      rw n (λ h. absurd (omega arith), λ h. absurd (failed h))
]

-- For any number of threads and of calls of each, in whatever order the calls complete and whatever
-- the library replies: once every thread is through, the request scenario prints a row of its
-- report that adds up, and its status is 0 if every call was replied to with as many elements as the
-- request asks for, and not otherwise.
pub run_request_scenario_lem :
    (w : Workload) (lib : Library) (order : List ℕ)
    → is_done w (run_calls w vec_elements lib [] order (at_rest w)).workers ≡ true
    → Accounted w
        (AllReplied w vec_elements lib [] order (at_rest w))
        (run_calls w vec_elements lib [] order (at_rest w))
        (run_request_scenario w true lib order)
unfolding run_request_scenario
run_request_scenario_lem w lib order done =
    let s = run_calls w vec_elements lib [] order (at_rest w) in
    let b =
      run_calls-Balanced w vec_elements lib [] order w.n_threads (at_rest w)
        (at_rest-Balanced w.n_threads) in
    let sum : length (all_samples s) + s.failures ≡ total_ops w =
      ap (λ n. n + s.failures) (length-all_samples s.workers)
      ∙ b.balance
      ∙ made_by-done w s.workers done
      ∙ ap (λ n. n * w.calls_per_thread) b.threads in
    record {
      code = status_of s.failures;
      row = row_of w s;
      printed = rw done;
      ok_samples = sub_ℕ-rest _ _ _ sum;
      adds_up = sum;
      passes =
          let clean = run_calls-AllReplied w vec_elements lib order (at_rest w) refl in
          let zero_code = code_iff s.failures in
          (λ h. clean.0 (zero_code.0 h), λ h. zero_code.1 (clean.1 h));
    }
