-- ===== src/Bench/StressShutdown.antt =====
-- test/ffibench/stress_shutdown.cpp: threads call a library until it has been shut down and they are
-- told to stop. A cycle is an order in which their calls complete; no thread lives long enough for
-- its operands to leave 32 bits.
pub mod Exit
use nim_brokers.Prelude.{
  ℕ, zero, suc, ◌+◌, ℤ, Bool, true, false, ◌==◌, List, [], ◌∷◌, Option, none, some, get_elem?, set,
  replicate, if◌then◌else◌,
}
use nim_brokers.Bench.StressMt.{Reply, err, added, is_sum, Library, operand, reply_to}

abbrev pub n_workers : ℕ
n_workers = 8

pub record Sums : Type 0 where
  pub ok : ℕ
  pub clean_err : ℕ
  pub mismatch : ℕ

abbrev pub no_sums : Sums
no_sums = record { ok = 0; clean_err = 0; mismatch = 0 }

abbrev pub add_sums : Sums → Sums → Sums
add_sums c d = record {
  ok = c.ok + d.ok;
  clean_err = c.clean_err + d.clean_err;
  mismatch = c.mismatch + d.mismatch;
}

-- A call, counted by what it is answered.
abbrev pub tally : ℕ → Reply → Sums → Sums
tally n err c = record c { clean_err = c.clean_err + 1 }
tally n (added s) c =
    if is_sum n (added s)
    then record c { ok = c.ok + 1 }
    else record c { mismatch = c.mismatch + 1 }

abbrev pub call_of : Library → List ℕ → ℕ → Option ℕ → Sums → Sums
call_of lib before tid none c = c
call_of lib before tid (some i) c =
    tally (operand tid i + (operand tid i + 1)) (reply_to lib before tid i) c

abbrev pub advance : List ℕ → ℕ → Option ℕ → List ℕ
advance made tid none = made
advance made tid (some i) = set made tid (suc i)

unfoldable pub run_cycle : Library → List ℕ → List ℕ → List ℕ → Sums → Sums
run_cycle lib before [] made c = c
run_cycle lib before (t ∷ ts) made c =
    let i = get_elem? made t in
    run_cycle lib (t ∷ before) ts (advance made t i) (call_of lib before t i c)

-- Whether the cycle's context is created, and its library and its order.
pub record Cycle : Type 0 where
  pub created : Bool
  pub library : Library
  pub order : List ℕ

abbrev pub one_cycle : Cycle → Sums → Sums
one_cycle y c = add_sums c (run_cycle y.library [] y.order (replicate n_workers 0) no_sums)

unfoldable pub run_cycles : List Cycle → Sums → ℕ
unfolding run_cycle
run_cycles [] c = if c.mismatch == 0 then 0 else 1
run_cycles (y ∷ ys) c = let rest = run_cycles ys (one_cycle y c) in if y.created then rest else 1

-- `main`, for any number of cycles in place of five.
unfoldable pub stress_shutdown : List Cycle → ℕ
unfolding run_cycles
stress_shutdown ys = run_cycles ys no_sums
