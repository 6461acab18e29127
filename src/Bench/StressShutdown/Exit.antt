-- ===== src/Bench/StressShutdown/Exit.antt =====
-- What the exit status of the shutdown test says.
use nim_brokers.Prelude.{
  ℕ, ◌+◌, ◌<◌, ◌≤◌, ◌≡◌, refl, ◌∙◌, Bool, true, false, ◌&&◌, Bool-cases, inl, inr, List, [], ◌∷◌,
  Option, none, some, get_elem?, replicate, if◌then◌else◌, arith,
}
use nim_brokers.Bench.StressMt.{Reply, err, added, is_sum, Library, operand, reply_to}
use nim_brokers.Bench.StressShutdown.{
  n_workers, Sums, no_sums, tally, call_of, advance, run_cycle, Cycle, one_cycle, run_cycles,
  stress_shutdown,
}

-- An error is a clean answer, a value is if it is the sum.
abbrev is_clean : ℕ → Reply → Bool
is_clean n err = true
is_clean n (added s) = is_sum n (added s)

abbrev answer_is_clean : Library → List ℕ → ℕ → Option ℕ → Bool
answer_is_clean lib before t none = true
answer_is_clean lib before t (some i) =
    is_clean (operand t i + (operand t i + 1)) (reply_to lib before t i)

unfoldable pub cycle_is_clean : Library → List ℕ → List ℕ → List ℕ → Bool
cycle_is_clean lib before [] made = true
cycle_is_clean lib before (t ∷ ts) made =
    answer_is_clean lib before t (get_elem? made t)
    && cycle_is_clean lib (t ∷ before) ts (advance made t (get_elem? made t))

-- Every context is created, and every call of every cycle gets a clean answer.
unfoldable pub all_clean : List Cycle → Bool
all_clean [] = true
all_clean (y ∷ ys) =
    (y.created && cycle_is_clean y.library [] y.order (replicate n_workers 0)) && all_clean ys

record Moved (clean : Bool) (c d : Sums) : Type 0 where
  grows : c.mismatch ≤ d.mismatch
  calm : clean ≡ true → d.mismatch ≡ c.mismatch
  marked : clean ≡ false → c.mismatch < d.mismatch

idle-Moved : (c : Sums) → Moved true c c
idle-Moved c = record { grows = omega arith; calm = λ e. refl; marked = λ e. absurd (cc) }

Moved-trans : (a b : Bool) (c d e : Sums) → Moved a c d → Moved b d e → Moved (a && b) c e
Moved-trans true b c d e f g = record {
  grows = omega (arith, f.grows, g.grows);
  calm = λ h. g.calm h ∙ f.calm refl;
  marked = λ h. omega (arith, f.grows, g.marked h);
}
Moved-trans false b c d e f g = record {
  grows = omega (arith, f.grows, g.grows);
  calm = λ h. absurd (cc);
  marked = λ h. omega (arith, g.grows, f.marked refl);
}

tally-Moved : (n : ℕ) (r : Reply) (c : Sums) → Moved (is_clean n r) c (tally n r c)
tally-Moved n err c = record { grows = omega arith; calm = λ e. refl; marked = λ e. absurd (cc) }
tally-Moved n (added s) c = elim (Bool-cases (is_sum n (added s))) [
  | inl y ↦ rw y (record { grows = omega arith; calm = λ e. refl; marked = λ e. absurd (cc) })
  | inr f ↦
      rw f (record { grows = omega arith; calm = λ e. absurd (cc); marked = λ e. omega arith })
]

call_of-Moved :
    (lib : Library) (before : List ℕ) (t : ℕ) (o : Option ℕ) (c : Sums)
    → Moved (answer_is_clean lib before t o) c (call_of lib before t o c)
call_of-Moved lib before t none c = idle-Moved c
call_of-Moved lib before t (some i) c = tally-Moved _ (reply_to lib before t i) c

run_cycle-Moved :
    (lib : Library) (before order made : List ℕ) (c : Sums)
    → Moved (cycle_is_clean lib before order made) c (run_cycle lib before order made c)
unfolding run_cycle cycle_is_clean
run_cycle-Moved lib before [] made c = idle-Moved c
run_cycle-Moved lib before (t ∷ ts) made c =
    Moved-trans _ _ c _ _ (call_of-Moved lib before t (get_elem? made t) c)
      (run_cycle-Moved lib (t ∷ before) ts _ _)

-- A mismatch once counted is never forgotten.
run_cycles-bad : (ys : List Cycle) (c : Sums) → 0 < c.mismatch → run_cycles ys c ≡ 1
unfolding run_cycles
run_cycles-bad [] c h = ground arith
run_cycles-bad (y ∷ ys) c h = elim (Bool-cases y.created) [
  | inl e ↦ rw e (run_cycles-bad ys (one_cycle y c) (omega (arith, h)))
  | inr e ↦ rw e
]

run_cycles_lem :
    (ys : List Cycle) (c : Sums)
    → c.mismatch ≡ 0
    → run_cycles ys c ≡ (if all_clean ys then 0 else 1)
unfolding run_cycles all_clean
run_cycles_lem [] c h = rw h
run_cycles_lem (y ∷ ys) c h =
    let m = run_cycle-Moved y.library [] y.order (replicate n_workers 0) no_sums in
    elim (Bool-cases y.created) [
      | inl e ↦ elim (Bool-cases (cycle_is_clean y.library [] y.order (replicate n_workers 0))) [
        | inl k ↦ rw (e, k) (run_cycles_lem ys (one_cycle y c) (omega (arith, m.calm k, h)))
        | inr k ↦ rw (e, k) (run_cycles-bad ys (one_cycle y c) (omega (arith, m.marked k)))
      ]
      | inr e ↦ rw e
    ]

-- In whatever order the calls of each cycle complete, before, during or after its shutdown, the
-- test's status is 0 if every context is created and every call is answered by an error or by the
-- sum of its operands, and 1 if not.
pub stress_shutdown_lem : (ys : List Cycle) → stress_shutdown ys ≡ (if all_clean ys then 0 else 1)
unfolding stress_shutdown
stress_shutdown_lem ys = run_cycles_lem ys _ refl
