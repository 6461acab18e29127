-- ===== src/Bench/Perf/Events.antt =====
-- The event scenario and `main` of test/ffibench/perf_driver.cpp.
use nim_brokers.Prelude.{
  ℕ, zero, suc, ◌+◌, ℤ, pos, negsuc, sub_ℕ, Bool, true, false, ◌&&◌, ◌==◌, ltb, List, [], ◌∷◌, ◌++◌,
  Option, none, some, get_elem?, set, replicate, if◌then◌else◌,
}
use nim_brokers.Bench.StressMt.{Workload}
use nim_brokers.Bench.Stats.{LatStats, summarize}
use nim_brokers.Bench.Perf.{total_ops, Reply, is_reply, Row, Library, run_request_scenario}

-- What happens next: a thread's trigger is answered, or the callback delivers an event after this
-- latency, in nanoseconds.
pub data Happening : Type 0 where
  triggered : ℕ → Reply → Happening
  delivered : ℕ → Happening

pub record Tally : Type 0 where
  pub made : List ℕ
  pub failures : ℕ
  pub got : ℕ
  pub latencies : List ℕ

abbrev pub at_rest : Workload → Tally
at_rest w = record { made = replicate w.n_threads 0; failures = 0; got = 0; latencies = [] }

-- The callback.
abbrev pub deliver : ℕ → Tally → Tally
deliver ns s = record s { latencies = s.latencies ++ ns ∷ []; got = s.got + 1 }

-- `!r.isOk() || r->emitted != 1`.
abbrev pub trigger : Workload → ℕ → Reply → Option ℕ → Tally → Tally
trigger w tid r none s = s
trigger w tid r (some i) s =
    let next : Tally = record s { made = set s.made tid (suc i) } in
    let failed : Tally = record next { failures = s.failures + 1 } in
    if ltb i w.calls_per_thread then (if is_reply 1 r then next else failed) else s

abbrev pub happen : Workload → Happening → Tally → Tally
happen w (triggered tid r) s = trigger w tid r (get_elem? s.made tid) s
happen w (delivered ns) s = deliver ns s

unfoldable pub happen_all : Workload → List Happening → Tally → Tally
happen_all w [] s = s
happen_all w (h ∷ hs) s = happen_all w hs (happen w h s)

unfoldable pub deliver_all : List ℕ → Tally → Tally
deliver_all [] s = s
deliver_all (ns ∷ rest) s = deliver_all rest (deliver ns s)

-- The wait for the rest: as long as events are missing and the deadline, which is the end of the
-- list, has not passed, the loop sleeps while a batch of events is delivered.
unfoldable pub drain : ℕ → List (List ℕ) → Tally → Tally
unfolding deliver_all
drain total [] s = s
drain total (batch ∷ rest) s =
    let on = drain total rest (deliver_all batch s) in if ltb s.got total then on else s

abbrev pub is_done : Workload → List ℕ → Bool
is_done w [] = true
is_done w (i ∷ is) = (i == w.calls_per_thread) && is_done w is

pub record EventRow : Type 0 where
  pub emitted : ℤ
  pub got : ℕ
  pub dropped : ℤ
  pub stats : LatStats

abbrev pub is_zero : ℤ → Bool
is_zero (pos zero) = true
is_zero (pos (suc n)) = false
is_zero (negsuc n) = false

-- The events: up to the joins, in the loop that waits, and between it and the removal of the
-- callback.
pub record Events : Type 0 where
  pub before : List Happening
  pub waited : List (List ℕ)
  pub late : List ℕ

abbrev pub row_of : Workload → Tally → EventRow
row_of w s = record {
  emitted = sub_ℕ (total_ops w) s.failures;
  got = s.got;
  dropped = sub_ℕ (total_ops w) s.got;
  stats = summarize s.latencies;
}

abbrev pub joined : Workload → Events → Tally
joined w es = happen_all w es.before (at_rest w)

abbrev pub at_end : Workload → Events → Tally
at_end w es = deliver_all es.late (drain (total_ops w) es.waited (joined w es))

abbrev pub status_of : EventRow → ℕ → ℕ
status_of row fail = if fail == 0 && is_zero row.dropped then 0 else 2

-- The context was created or not, the callback registered with this handle.
unfoldable pub run_event_scenario : Workload → Bool → ℕ → Events → Option (ℕ × Option EventRow)
unfolding happen_all drain deliver_all
run_event_scenario w false cb_handle es = some (1, none)
run_event_scenario w true zero es = some (1, none)
run_event_scenario w true (suc h) es =
    let row = row_of w (at_end w es) in
    if is_done w (joined w es).made
    then some (status_of row (at_end w es).failures, some row)
    else none

-- `rc |= s` for the scenarios' statuses.
abbrev pub or_status : ℕ → ℕ → ℕ
or_status zero b = b
or_status a zero = a
or_status a b = if a == b then a else 3

abbrev pub both_statuses : Option (ℕ × Option Row) → Option (ℕ × Option EventRow) → Option ℕ
both_statuses none e = none
both_statuses (some r) none = none
both_statuses (some r) (some e) = some (or_status r.0 e.0)

unfoldable pub main : Workload → Bool → Library → List ℕ → Bool → ℕ → Events → Option ℕ
unfolding run_request_scenario run_event_scenario
main w created lib order created_again cb_handle es =
    both_statuses (run_request_scenario w created lib order)
      (run_event_scenario w created_again cb_handle es)
