-- ===== src/Bench/StressMt.antt =====
-- test/ffibench/stress_mt.cpp: 16 threads call one library at the same time. An order in which their
-- calls complete is a list of thread numbers; a counter's increment is atomic, and those of one call
-- are taken together with its reply. Operands and sums stay below 2^31.
pub mod Exit
use nim_brokers.Prelude.{
  ℕ, zero, suc, ◌+◌, ◌*◌, ℤ, pos, negsuc, Bool, true, false, ◌&&◌, ◌==◌, ltb, List, [], ◌∷◌, Option,
  none, some, get_elem?, set, replicate, if◌then◌else◌,
}

-- N_THREADS and CALLS_PER_THREAD, and the values the test gives them.
pub record Workload : Type 0 where
  pub n_threads : ℕ
  pub calls_per_thread : ℕ

abbrev pub workload : Workload
workload = record { n_threads = 16; calls_per_thread = 5000 }

pub data Reply : Type 0 where
  err : Reply
  added : ℤ → Reply

-- The library's reply to `addRequest`, in view of the threads whose calls were answered before.
abbrev pub Library : Type 0
Library = List ℕ → ℕ → ℕ → Reply

abbrev pub operand : ℕ → ℕ → ℕ
operand tid i = tid * 1000003 + i

abbrev pub is_sum : ℕ → Reply → Bool
is_sum n err = false
is_sum n (added (pos m)) = m == n
is_sum n (added (negsuc m)) = false

pub record Counts : Type 0 where
  pub ok_count : ℕ
  pub fail_count : ℕ
  pub mismatch_count : ℕ

abbrev pub count : ℕ → Reply → Counts → Counts
count n err c = record c { fail_count = c.fail_count + 1 }
count n (added s) c =
    if is_sum n (added s)
    then record c { ok_count = c.ok_count + 1 }
    else record c { mismatch_count = c.mismatch_count + 1 }

-- How many calls each thread has made, and the counters.
pub record State : Type 0 where
  pub progress : List ℕ
  pub counts : Counts

-- The reply to call `i` of a thread.
abbrev pub reply_to : Library → List ℕ → ℕ → ℕ → Reply
reply_to lib before tid i = lib before (operand tid i) (operand tid i + 1)

abbrev pub make_call : Library → List ℕ → ℕ → ℕ → State → State
make_call lib before tid i s = record {
  progress = set s.progress tid (suc i);
  counts = count (operand tid i + (operand tid i + 1)) (reply_to lib before tid i) s.counts;
}

module _ (w : Workload) where
  abbrev pub total : ℕ
  total = w.n_threads * w.calls_per_thread

  abbrev pub start : State
  start = record {
    progress = replicate w.n_threads 0;
    counts = record { ok_count = 0; fail_count = 0; mismatch_count = 0 };
  }

  -- One round of a thread's loop; a thread that is through, or that there is not, does nothing.
  abbrev pub round_of : Library → List ℕ → ℕ → Option ℕ → State → State
  round_of lib before tid none s = s
  round_of lib before tid (some i) s =
      if ltb i w.calls_per_thread then make_call lib before tid i s else s

  unfoldable pub worker : Library → List ℕ → ℕ → State → State
  worker lib before tid s = round_of lib before tid (get_elem? s.progress tid) s

  unfoldable pub run_workers : Library → List ℕ → List ℕ → State → State
  unfolding worker
  run_workers lib before [] s = s
  run_workers lib before (t ∷ ts) s = run_workers lib (t ∷ before) ts (worker lib before t s)

  -- Every thread is through, so that the main thread's joins return.
  abbrev pub all_done : List ℕ → Bool
  all_done [] = true
  all_done (i ∷ is) = (i == w.calls_per_thread) && all_done is

  abbrev pub exit_code : Counts → ℕ
  exit_code c = if c.ok_count == total && c.fail_count == 0 && c.mismatch_count == 0 then 0 else 1

  -- `main`, whose context was created or not; none while a thread is not through.
  unfoldable pub stress : Library → Bool → List ℕ → Option ℕ
  unfolding run_workers
  stress lib false order = some 1
  stress lib true order =
      let s = run_workers lib [] order start in
      if all_done s.progress then some (exit_code s.counts) else none
