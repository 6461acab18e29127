-- ===== src/Bench/Stats/Order.antt =====
-- The order of the statistics of a series of samples.
use nim_brokers.Prelude.{
  ℕ, zero, suc, ◌+◌, ◌-◌, ◌*◌, ◌/◌, ◌≤◌, ◌<◌, ◌≡◌, refl, ap, ◌∙◌, inl, inr, List, [], ◌∷◌, leb,
  length, Bool-cases, arith,
}
use Prim.Native.Nat.{min}
use native.Mathlib.Nat.{le-div_iff_mul-le, div-lt_iff_lt-mul}
use nim_brokers.Bench.Stats.{LatStats, insert, sort, sum, at, back, of_sorted, summarize}

-- Each sample is at least `lo`, and no sample is less than the one before it.
abbrev Ascends : ℕ → List ℕ → Type 0
Ascends lo [] = Unit
Ascends lo (x ∷ xs) = (lo ≤ x) × Ascends x xs

Ascends-insert : (lo x : ℕ) (xs : List ℕ) → lo ≤ x → Ascends lo xs → Ascends lo (insert x xs)
unfolding insert
Ascends-insert lo x [] h a = (h, tt)
Ascends-insert lo x (y ∷ ys) h (hy, a) = elim (Bool-cases (leb x y)) [
  | inl le ↦ rw le (h, (ground arith, a))
  | inr gt ↦ rw gt (hy, Ascends-insert y x ys (ground arith) a)
]

Ascends-sort : (xs : List ℕ) → Ascends 0 (sort xs)
unfolding sort
Ascends-sort [] = tt
Ascends-sort (x ∷ xs) = Ascends-insert 0 x (sort xs) (omega arith) (Ascends-sort xs)

length-insert : (x : ℕ) (xs : List ℕ) → length (insert x xs) ≡ suc (length xs)
unfolding insert
length-insert x [] = refl
length-insert x (y ∷ ys) = ground (arith, length-insert x ys)

length-sort : (xs : List ℕ) → length (sort xs) ≡ length xs
unfolding sort
length-sort [] = refl
length-sort (x ∷ xs) = length-insert x (sort xs) ∙ ap suc (length-sort xs)

sum-insert : (x : ℕ) (xs : List ℕ) → sum (insert x xs) ≡ x + sum xs
unfolding insert sum
sum-insert x [] = refl
sum-insert x (y ∷ ys) = elim (Bool-cases (leb x y)) [
  | inl le ↦ rw le
  | inr gt ↦ rw gt (omega (arith, sum-insert x ys))
]

sum-sort : (xs : List ℕ) → sum (sort xs) ≡ sum xs
unfolding sort sum
sum-sort [] = refl
sum-sort (x ∷ xs) = sum-insert x (sort xs) ∙ omega (arith, sum-sort xs)

-- In an ascending series a later sample is no less, and none exceeds the last.
at_mono :
    (lo i j : ℕ) (xs : List ℕ)
    → Ascends lo xs
    → i ≤ j
    → (lo ≤ at lo xs i) × (at lo xs i ≤ at lo xs j)
at_mono lo i j [] a h = omega arith
at_mono lo zero zero (x ∷ xs) a h = omega arith
at_mono lo zero (suc j) (x ∷ xs) (b, a) h = omega (arith, at_mono x 0 j xs a (omega arith))
at_mono lo (suc i) zero (x ∷ xs) a h = absurd (omega arith)
at_mono lo (suc i) (suc j) (x ∷ xs) (b, a) h = omega (arith, at_mono x i j xs a (omega arith))

at-le-back :
    (lo i : ℕ) (xs : List ℕ) → Ascends lo xs → (lo ≤ back lo xs) × (at lo xs i ≤ back lo xs)
at-le-back lo i [] a = omega arith
at-le-back lo zero (x ∷ xs) (b, a) = omega (arith, at-le-back x 0 xs a)
at-le-back lo (suc i) (x ∷ xs) (b, a) = omega (arith, at-le-back x i xs a)

-- The sum lies between the least and the greatest sample, times the number of samples.
sum_bounds :
    (lo : ℕ) (xs : List ℕ)
    → Ascends lo xs
    → (lo * length xs ≤ sum xs) × (sum xs ≤ back lo xs * length xs)
unfolding sum
sum_bounds lo [] a = omega arith
sum_bounds lo (x ∷ xs) (b, a) =
    let ih = sum_bounds x xs a in
    let top = (at-le-back x 0 xs a).0 in (grind (arith, ih, b), grind (arith, ih, top))

-- An average lies between the bounds of what it averages.
le-avg : (a n t : ℕ) → 0 < n → a * n ≤ t → a ≤ t / n
le-avg a n t h le = (le-div_iff_mul-le h).1 le

avg-le : (b n t : ℕ) → 0 < n → t ≤ b * n → t / n ≤ b
avg-le b n t h le =
    let below : t / n < suc b = (div-lt_iff_lt-mul h).1 (grind (arith, le, h)) in
    omega (arith, below)

-- What the report says of the samples, least first.
pub record StatsOrder (s : LatStats) : Type 0 where
  pub min_le_p50 : s.min_ns ≤ s.p50_ns
  pub p50_le_p99 : s.p50_ns ≤ s.p99_ns
  pub p99_le_max : s.p99_ns ≤ s.max_ns
  pub min_le_avg : s.min_ns ≤ s.avg_ns
  pub avg_le_max : s.avg_ns ≤ s.max_ns

p50-le-p99_index : (n : ℕ) → suc n / 2 ≤ min (suc n * 99 / 100) (suc n - 1)
p50-le-p99_index n = omega arith

of_sorted_order : (xs : List ℕ) → Ascends 0 xs → 0 < length xs → StatsOrder (of_sorted xs)
unfolding of_sorted
of_sorted_order [] a h = absurd (omega arith)
of_sorted_order (x ∷ xs) (b, a) h =
    let n = length xs in
    let i = suc n / 2 in
    let j = min (suc n * 99 / 100) (suc n - 1) in
    let bounds = sum_bounds x (x ∷ xs) (omega arith, a) in
    record {
      min_le_p50 = (at_mono 0 0 i (x ∷ xs) (b, a) (omega arith)).1;
      p50_le_p99 = (at_mono 0 i j (x ∷ xs) (b, a) (p50-le-p99_index n)).1;
      p99_le_max = (at-le-back 0 j (x ∷ xs) (b, a)).1;
      min_le_avg = le-avg x (suc n) (sum (x ∷ xs)) h bounds.0;
      avg_le_max = avg-le (back x xs) (suc n) (sum (x ∷ xs)) h bounds.1;
    }

-- Of at least one sample, the report's minimum, median, 99th percentile and maximum ascend, the
-- average lies between the extremes, and it is the sum of the samples as given over their number.
pub summarize_order :
    (samples : List ℕ)
    → 0 < length samples
    → StatsOrder (summarize samples) × ((summarize samples).avg_ns ≡ sum samples / length samples)
unfolding summarize of_sorted
summarize_order [] h = absurd (omega arith)
summarize_order (x ∷ xs) h =
    let len = length-sort (x ∷ xs) in
    (
      of_sorted_order (sort (x ∷ xs)) (Ascends-sort (x ∷ xs)) (omega (arith, len)),
      ap (λ t. t / length (sort (x ∷ xs))) (sum-sort (x ∷ xs)) ∙ ap (λ n. sum (x ∷ xs) / n) len,
    )
