-- ===== src/Persist/Tests.antt =====
-- Runs of the persistence client, and the theorems about it at concrete inputs.
use nim_brokers.Prelude.{◌≡◌, some, arith}
use nim_brokers.Persist.Client.{Timing}
use nim_brokers.Persist.Client.Program.{run, start}
use nim_brokers.Persist.Client.Scenarios.{code_of, run-in_time}

-- Three pauses for each event, and 400 before a deadline.
abbrev timing : Timing
timing = record { delay = λ n. 3; polls = 400 }

run-in_time_example : code_of (run timing start) ≡ some 0
run-in_time_example = run-in_time timing (λ n. omega arith)
