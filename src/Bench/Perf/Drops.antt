-- ===== src/Bench/Perf/Drops.antt =====
-- What the event scenario's report and the driver's status say.
use nim_brokers.Prelude.{
  ℕ, zero, suc, ◌-◌, pos, sub_ℕ, ◌≡◌, ◌↔◌, refl, sym, ◌∙◌, true, ◌==◌, ltb, List, [], ◌∷◌, leb,
  Option, none, some, get_elem?, length, length-append, Bool-cases, inl, inr, arith,
}
use nim_brokers.Bench.StressMt.{Workload}
use nim_brokers.Bench.Perf.{
  total_ops, vec_elements, all_samples, run_calls, Reply, is_reply, Row, Library,
  run_request_scenario,
}
use nim_brokers.Bench.Perf.Accounts.{run_request_scenario_lem}
use nim_brokers.Bench.Perf.Replies.{
  AllReplied, AllTriggered, happen_all-AllTriggered, deliver_all-failures, drain-failures,
}
use nim_brokers.Bench.Perf
use nim_brokers.Bench.Perf.Events
use nim_brokers.Bench.Perf.Events.{
  Happening, triggered, delivered, deliver, trigger, happen_all, deliver_all, drain, is_done,
  EventRow, is_zero, Events, row_of, joined, at_end, status_of, run_event_scenario, or_status, main,
  at_rest,
}

-- Every delivery is counted and leaves one sample.
abbrev Kept : Events.Tally → Type 0
Kept s = length s.latencies ≡ s.got

deliver-Kept : (ns : ℕ) (s : Events.Tally) → Kept s → Kept (deliver ns s)
deliver-Kept ns s k = omega (arith, length-append s.latencies (ns ∷ []), k)

deliver_all-Kept : (xs : List ℕ) (s : Events.Tally) → Kept s → Kept (deliver_all xs s)
unfolding deliver_all
deliver_all-Kept [] s k = k
deliver_all-Kept (ns ∷ rest) s k = deliver_all-Kept rest (deliver ns s) (deliver-Kept ns s k)

drain-Kept :
    (total : ℕ) (batches : List (List ℕ)) (s : Events.Tally) → Kept s → Kept (drain total batches s)
unfolding drain
drain-Kept total [] s k = k
drain-Kept total (batch ∷ rest) s k = elim (Bool-cases (ltb s.got total)) [
  | inl y ↦ rw y (drain-Kept total rest _ (deliver_all-Kept batch s k))
  | inr n ↦ rw n k
]

trigger-Kept :
    (w : Workload) (t : ℕ) (r : Reply) (o : Option ℕ) (s : Events.Tally)
    → Kept s
    → Kept (trigger w t r o s)
trigger-Kept w t r none s k = k
trigger-Kept w t r (some i) s k = elim (Bool-cases (ltb i w.calls_per_thread)) [
  | inl y ↦ rw y (elim (Bool-cases (is_reply 1 r)) [ inl a ↦ rw a k | inr b ↦ rw b k ])
  | inr n ↦ rw n k
]

happen_all-Kept :
    (w : Workload) (hs : List Happening) (s : Events.Tally) → Kept s → Kept (happen_all w hs s)
unfolding happen_all
happen_all-Kept w [] s k = k
happen_all-Kept w (triggered t r ∷ hs) s k =
    happen_all-Kept w hs _ (trigger-Kept w t r (get_elem? s.made t) s k)
happen_all-Kept w (delivered ns ∷ hs) s k = happen_all-Kept w hs _ (deliver-Kept ns s k)

at_end-Kept : (w : Workload) (es : Events) → Kept (at_end w es)
at_end-Kept w es =
    deliver_all-Kept es.late _
      (drain-Kept (total_ops w) es.waited _ (happen_all-Kept w es.before (at_rest w) refl))

is_zero-pos : (n : ℕ) → is_zero (pos n) ≡ (n == 0)
is_zero-pos zero = refl
is_zero-pos (suc n) = ground arith

is_zero-sub_ℕ : (a b : ℕ) → is_zero (sub_ℕ a b) ≡ (b == a)
is_zero-sub_ℕ a b = elim (Bool-cases (leb b a)) [
  | inl y ↦ rw (y, is_zero-pos (a - b)) (ground arith)
  | inr n ↦ rw n (ground arith)
]

status_iff :
    (w : Workload) (s : Events.Tally)
    → (status_of (row_of w s) s.failures ≡ 0) ↔ ((s.failures ≡ 0) × (s.got ≡ total_ops w))
status_iff w s = rw (is_zero-sub_ℕ (total_ops w) s.got) (ground arith)

or_status_iff : (a b : ℕ) → (or_status a b ≡ 0) ↔ ((a ≡ 0) × (b ≡ 0))
or_status_iff zero zero = (λ e. (refl, refl), λ e. refl)
or_status_iff zero (suc b) = (λ e. absurd (omega arith), λ e. e.1)
or_status_iff (suc a) zero = (λ e. absurd (omega arith), λ e. e.0)
or_status_iff (suc a) (suc b) = ground arith

-- The event scenario's report: one sample for each delivery, and status 0 if and only if `Passed`
-- holds and just as many events were delivered as there are calls.
pub record DropsCounted (w : Workload) (Passed : Type 0) (s : Events.Tally)
    (o : Option (ℕ × Option EventRow)) : Type 0 where
  pub code : ℕ
  pub row : EventRow
  pub printed : o ≡ some (code, some row)
  pub counted : row.got ≡ s.got
  pub sampled : length s.latencies ≡ row.got
  pub passes : (code ≡ 0) ↔ (Passed × (s.got ≡ total_ops w))

at_end-failures : (w : Workload) (es : Events) → (at_end w es).failures ≡ (joined w es).failures
at_end-failures w es =
    deliver_all-failures es.late _ ∙ drain-failures (total_ops w) es.waited (joined w es)

-- For any number of threads and of calls of each, in whatever order their triggers complete and
-- events are delivered before, in and after the wait: once every thread is through and the callback
-- is registered, the event scenario prints a row with one sample for each delivery, and its status
-- is 0 if every trigger was replied to with one emitted event and as many events were delivered as
-- there are calls, and not otherwise.
pub run_event_scenario_lem :
    (w : Workload) (h : ℕ) (es : Events)
    → is_done w (joined w es).made ≡ true
    → DropsCounted w
        (AllTriggered w es.before (at_rest w))
        (at_end w es)
        (run_event_scenario w true (suc h) es)
unfolding run_event_scenario
run_event_scenario_lem w h es done = record {
  code = status_of (row_of w (at_end w es)) (at_end w es).failures;
  row = row_of w (at_end w es);
  printed = rw done;
  counted = refl;
  sampled = at_end-Kept w es;
  passes =
      let same = at_end-failures w es in
      let clean = happen_all-AllTriggered w es.before (at_rest w) refl in
      let status = status_iff w (at_end w es) in
      (
        λ e. let p = status.0 e in (clean.0 (sym same ∙ p.0), p.1),
        λ p. status.1 (same ∙ clean.1 p.0, p.1),
      );
}

-- With both contexts created and the callback registered, once the threads of both scenarios are
-- through, `main` returns, and it returns 0 if and only if every call of the first scenario was
-- replied to with as many elements as it asks for, every trigger of the second with one emitted
-- event, and as many events were delivered as there are calls.
pub main_lem :
    (w : Workload) (lib : Library) (order : List ℕ) (h : ℕ) (es : Events)
    → Perf.is_done w (run_calls w vec_elements lib [] order (Perf.at_rest w)).workers ≡ true
    → is_done w (joined w es).made ≡ true
    → (code : ℕ) × (main w true lib order true (suc h) es ≡ some code)
      × ((code ≡ 0) ↔ (
          AllReplied w vec_elements lib [] order (Perf.at_rest w)
          × AllTriggered w es.before (at_rest w)
          × ((at_end w es).got ≡ total_ops w)))
unfolding main
main_lem w lib order h es d e =
    let a = run_request_scenario_lem w lib order d in
    let b = run_event_scenario_lem w h es e in
    let both = or_status_iff a.code b.code in
    (
      or_status a.code b.code,
      rw (a.printed, b.printed),
      (
        λ z. let p = both.0 z in let q = b.passes.0 p.1 in (a.passes.0 p.0, q.0, q.1),
        λ p. both.1 (a.passes.1 p.0, b.passes.1 (p.1, p.2)),
      ),
    )
