-- ===== src/Bench/Perf.antt =====
-- The two scenarios and `main` of test/ffibench/perf_driver.cpp. An order in which the threads'
-- calls complete, and the library, are parameters; clocks are read by the library's answers, which
-- bring the latency of a call. What is printed is the row of the CSV report.
pub mod Accounts
pub mod Events
pub mod Replies
pub mod Drops
use nim_brokers.Prelude.{
  ℕ, zero, suc, ◌+◌, ◌-◌, ◌*◌, ◌/◌, ℤ, pos, negsuc, sub_ℕ, Bool, true, false, ◌&&◌, ◌==◌, ltb, List,
  [], ◌∷◌, ◌++◌, Option, none, some, get_elem?, set, replicate, map, cat, length, if◌then◌else◌,
}
use nim_brokers.Bench.StressMt.{Workload}
use nim_brokers.Bench.Stats.{LatStats, summarize}

abbrev pub perf_workload : Workload
perf_workload = record { n_threads = 5; calls_per_thread = 500 }

abbrev pub payload_bytes : ℕ
payload_bytes = 512

abbrev pub vec_elements : ℕ
vec_elements = payload_bytes / 4

abbrev pub total_ops : Workload → ℕ
total_ops w = w.n_threads * w.calls_per_thread

-- The reply to `vecRequest`, with the length it states, and to `triggerPingPayloadRequest`, with
-- the number of events emitted.
pub data Reply : Type 0 where
  err : Reply
  replied : ℤ → Reply

abbrev pub is_reply : ℕ → Reply → Bool
is_reply n err = false
is_reply n (replied (pos m)) = m == n
is_reply n (replied (negsuc m)) = false

-- The reply and the latency of a call, in view of the threads whose calls were answered before.
abbrev pub Library : Type 0
Library = List ℕ → Reply × ℕ

-- How many calls a thread has made, and its `lat`.
pub record Worker : Type 0 where
  pub made : ℕ
  pub lat : List ℕ

pub record Tally : Type 0 where
  pub workers : List Worker
  pub failures : ℕ

abbrev pub at_rest : Workload → Tally
at_rest w = record { workers = replicate w.n_threads (record { made = 0; lat = [] }); failures = 0 }

-- One call of a thread, which expects `n` in the reply.
abbrev pub call : ℕ → ℕ → Worker → Reply × ℕ → Tally → Tally
call n tid k (r, ns) s =
    if is_reply n r
    then record s {
      workers = set s.workers tid (record { made = suc k.made; lat = k.lat ++ ns ∷ [] });
    }
    else record s {
      workers = set s.workers tid (record k { made = suc k.made });
      failures = s.failures + 1;
    }

abbrev pub is_done : Workload → List Worker → Bool
is_done w [] = true
is_done w (k ∷ ks) = (k.made == w.calls_per_thread) && is_done w ks

abbrev pub lat_of : Worker → List ℕ
lat_of k = k.lat

abbrev pub all_samples : Tally → List ℕ
all_samples s = cat (map lat_of s.workers)

module _ (w : Workload) (n : ℕ) where
  abbrev pub round_of : Reply × ℕ → ℕ → Option Worker → Tally → Tally
  round_of a tid none s = s
  round_of a tid (some k) s = if ltb k.made w.calls_per_thread then call n tid k a s else s

  unfoldable pub run_calls : Library → List ℕ → List ℕ → Tally → Tally
  run_calls lib before [] s = s
  run_calls lib before (t ∷ ts) s =
      run_calls lib (t ∷ before) ts (round_of (lib before) t (get_elem? s.workers t) s)

pub record Row : Type 0 where
  pub ok : ℤ
  pub fail : ℕ
  pub stats : LatStats

abbrev pub row_of : Workload → Tally → Row
row_of w s = record {
  ok = sub_ℕ (total_ops w) s.failures;
  fail = s.failures;
  stats = summarize (all_samples s);
}

-- `fail == 0 ? 0 : 2`.
abbrev pub status_of : ℕ → ℕ
status_of fail = if fail == 0 then 0 else 2

-- The status, and the row if one is printed; none while a thread is not through.
abbrev pub Outcome : Type 0
Outcome = Option (ℕ × Option Row)

unfoldable pub run_request_scenario : Workload → Bool → Library → List ℕ → Outcome
unfolding run_calls
run_request_scenario w false lib order = some (1, none)
run_request_scenario w true lib order =
    let s = run_calls w vec_elements lib [] order (at_rest w) in
    if is_done w s.workers then some (status_of s.failures, some (row_of w s)) else none
