-- ===== src/Bench/Tests.antt =====
-- Runs of the drivers, and the theorems about them at concrete inputs.
use nim_brokers.Prelude.{ℕ, ◌/◌, ◌≡◌, refl, List, [], ◌∷◌, length, arith}
use nim_brokers.Bench.Stats.{insert, sort, sum, of_sorted, summarize}
use nim_brokers.Bench.Stats.Order.{StatsOrder, summarize_order}
use nim_brokers.Prelude.{◌+◌, true, false, ◌==◌, if◌then◌else◌, pos, some, none}
use nim_brokers.Bench.StressMt.{
  Workload, workload, err, added, Library, run_workers, worker, start, stress,
}
use nim_brokers.Bench.StressMt.Exit.{all_right, stress_lem}
use nim_brokers.Bench.Perf
use nim_brokers.Bench.Perf.{vec_elements, run_calls, run_request_scenario, all_samples, total_ops}
use nim_brokers.Bench.Perf.Accounts.{Accounted, run_request_scenario_lem}
use nim_brokers.Bench.Perf.Replies.{AllReplied, AllTriggered}
use nim_brokers.Bench.Perf.Events.{
  at_rest, Events, triggered, delivered, at_end, run_event_scenario, happen_all, drain, deliver_all,
  main,
}
use nim_brokers.Bench.Perf.Drops.{main_lem}
use nim_brokers.Prelude.{◌↔◌}
use nim_brokers.Prelude.{ltb}
use nim_brokers.Bench.NoNim.{emit_count, no_nim}
use nim_brokers.Bench.NoNim.Delivery.{no_nim-on_time}
use nim_brokers.Prelude.{replicate}

abbrev four : List ℕ
four = 9 ∷ 4 ∷ 30 ∷ 7 ∷ []

summarize-run :
    summarize four ≡ record { avg_ns = 12; min_ns = 4; max_ns = 30; p50_ns = 9; p99_ns = 30 }
unfolding summarize of_sorted insert sort sum
summarize-run = refl

summarize_order_example :
    StatsOrder (summarize four) × ((summarize four).avg_ns ≡ sum four / length four)
summarize_order_example = summarize_order four (omega arith)

-- A library that adds, but for the reply after four others.
abbrev fails_fifth : Library
fails_fifth before a b = if length before == 4 then err else added (pos (a + b))

abbrev adds : Library
adds before a b = added (pos (a + b))

abbrev small : Workload
small = record { n_threads = 2; calls_per_thread = 3 }

abbrev mixed : List ℕ
mixed = 0 ∷ 1 ∷ 1 ∷ 0 ∷ 1 ∷ 1 ∷ 0 ∷ []

stress-pass : stress small adds true mixed ≡ some 0
unfolding stress run_workers worker
stress-pass = refl

stress-unfinished : stress workload adds true mixed ≡ none
unfolding stress run_workers worker
stress-unfinished = refl

stress_lem_example :
    (stress small fails_fifth true mixed
      ≡ some (if all_right small fails_fifth [] mixed (start small) then 0 else 1))
    × (stress small fails_fifth false mixed ≡ some 1)
unfolding run_workers worker
stress_lem_example = stress_lem small fails_fifth mixed refl

-- A library that returns too few elements to the third call.
abbrev short_third : Perf.Library
short_third before =
    (Perf.replied (if length before == 2 then pos 3 else pos vec_elements), 100 + length before)

run_request_scenario_lem_example :
    Accounted small
      (AllReplied small vec_elements short_third [] mixed (Perf.at_rest small))
      (run_calls small vec_elements short_third [] mixed (Perf.at_rest small))
      (run_request_scenario small true short_third mixed)
unfolding run_calls
run_request_scenario_lem_example = run_request_scenario_lem small short_third mixed refl

-- Two threads of one call each; one event is delivered before the joins and one in the wait.
abbrev one_each : Workload
one_each = record { n_threads = 2; calls_per_thread = 1 }

abbrev two_events : Events
two_events = record {
  before =
      triggered 1 (Perf.replied (pos 1)) ∷ delivered 70 ∷ triggered 0 (Perf.replied (pos 1)) ∷ [];
  waited = [] ∷ (90 ∷ []) ∷ [];
  late = [];
}

main-drop :
    main one_each true
      (λ before. (Perf.replied (pos 128), 9))
      (0 ∷ 1 ∷ [])
      true
      5
      (record two_events { waited = [] })
    ≡ some 2
unfolding main run_request_scenario run_event_scenario run_calls happen_all drain deliver_all
main-drop = refl

main_lem_example :
    (code : ℕ) × (main one_each true short_third (1 ∷ 0 ∷ []) true 5 two_events ≡ some code)
    × ((code ≡ 0) ↔ (
        AllReplied one_each vec_elements short_third [] (1 ∷ 0 ∷ []) (Perf.at_rest one_each)
        × AllTriggered one_each two_events.before (at_rest one_each)
        × ((at_end one_each two_events).got ≡ total_ops one_each)))
unfolding run_calls happen_all
main_lem_example = main_lem one_each short_third (1 ∷ 0 ∷ []) 4 two_events refl refl

-- A library that is shut down while two calls are in flight.
abbrev shut_after_two : Library
shut_after_two before a b = if ltb (length before) 2 then added (pos (a + b)) else err

-- Each event is delivered to the six callbacks in turn; all but the first come in the wait.
abbrev in_turn : List ℕ
in_turn = 0 ∷ 1 ∷ 2 ∷ 3 ∷ 4 ∷ 5 ∷ []

no_nim-on_time_example :
    no_nim (record {
      created = true;
      emitted = some (pos emit_count);
      early = in_turn;
      waited = replicate 299 in_turn;
      late = [];
      stats = some (0, 0);
    })
    ≡ 0
no_nim-on_time_example = no_nim-on_time in_turn (replicate 299 in_turn) refl
