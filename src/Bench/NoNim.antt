-- ===== src/Bench/NoNim.antt =====
-- test/ffibench/stress_event_no_nim.cpp: events that are delivered to foreign callbacks alone. A
-- delivery is the number of its callback. Printing is left out.
pub mod Delivery
use nim_brokers.Prelude.{
  ℕ, zero, suc, ◌+◌, ℤ, pos, negsuc, Bool, true, false, ◌&&◌, ◌==◌, leb, not, List, [], ◌∷◌, ◌++◌,
  Option, none, some, replicate, if◌then◌else◌,
}

abbrev pub n_foreign : ℕ
n_foreign = 6

abbrev pub emit_count : ℕ
emit_count = 300

-- The callback's increment.
abbrev pub land : ℕ → List ℕ → List ℕ
land i [] = []
land zero (c ∷ cs) = suc c ∷ cs
land (suc i) (c ∷ cs) = c ∷ land i cs

abbrev pub land_all : List ℕ → List ℕ → List ℕ
land_all [] cs = cs
land_all (i ∷ is) cs = land_all is (land i cs)

abbrev pub all_ready : ℕ → List ℕ → Bool
all_ready expected [] = true
all_ready expected (c ∷ cs) = leb expected c && all_ready expected cs

-- The loop that waits, until every counter is ready or the deadline, which is the end of the list,
-- has passed; a batch is delivered in each pause.
unfoldable pub wait : ℕ → List (List ℕ) → List ℕ → List ℕ
wait expected [] cs = cs
wait expected (batch ∷ rest) cs =
    let on = wait expected rest (land_all batch cs) in if all_ready expected cs then cs else on

abbrev pub all_equal : ℕ → List ℕ → Bool
all_equal expected [] = true
all_equal expected (c ∷ cs) = (c == expected) && all_equal expected cs

-- What the run meets: the creation of the context, the answer to `triggerEmitRequest`, the
-- deliveries up to the loop, in it and after it, and the counters of the Nim audience, if they can
-- be had.
pub record Run : Type 0 where
  pub created : Bool
  pub emitted : Option ℤ
  pub early : List ℕ
  pub waited : List (List ℕ)
  pub late : List ℕ
  pub stats : Option (ℕ × ℕ)

abbrev pub is_emitted : Option ℤ → Bool
is_emitted none = false
is_emitted (some (pos n)) = n == emit_count
is_emitted (some (negsuc n)) = false

-- `same` and `cross`, which stay 0 if the request fails.
abbrev pub lanes : Option (ℕ × ℕ) → ℕ × ℕ
lanes none = (0, 0)
lanes (some p) = p

abbrev pub counts_of : Run → List ℕ
counts_of r = land_all r.late (wait emit_count r.waited (land_all r.early (replicate n_foreign 0)))

abbrev pub pass : ℕ × ℕ → List ℕ → Bool
pass (same, cross) cs = (same == 0) && (cross == 0) && all_equal emit_count cs

unfoldable pub no_nim : Run → ℕ
unfolding wait
no_nim r =
    if r.created && is_emitted r.emitted
    then (if pass (lanes r.stats) (counts_of r) then 0 else 1)
    else 1
