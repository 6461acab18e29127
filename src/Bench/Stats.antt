-- ===== src/Bench/Stats.antt =====
-- `LatStats` and `summarize` of test/ffibench/perf_driver.cpp. The samples are latencies in
-- nanoseconds, which are not negative; their sum is taken to fit in an `int64_t`.
pub mod Order
use nim_brokers.Prelude.{
  ℕ, zero, suc, ◌+◌, ◌-◌, ◌*◌, ◌/◌, List, [], ◌∷◌, Bool, leb, length, if◌then◌else◌,
}
use Prim.Native.Nat.{min}

pub record LatStats : Type 0 where
  pub avg_ns : ℕ
  pub min_ns : ℕ
  pub max_ns : ℕ
  pub p50_ns : ℕ
  pub p99_ns : ℕ

abbrev pub no_stats : LatStats
no_stats = record { avg_ns = 0; min_ns = 0; max_ns = 0; p50_ns = 0; p99_ns = 0 }

-- std::sort on numbers, which leaves one result only.
unfoldable pub insert : ℕ → List ℕ → List ℕ
insert x [] = x ∷ []
insert x (y ∷ ys) = if leb x y then x ∷ y ∷ ys else y ∷ insert x ys

unfoldable pub sort : List ℕ → List ℕ
unfolding insert
sort [] = []
sort (x ∷ xs) = insert x (sort xs)

unfoldable pub sum : List ℕ → ℕ
sum [] = 0
sum (x ∷ xs) = x + sum xs

-- `samples[i]` for an index in range, and the last sample behind it.
abbrev pub at : ℕ → List ℕ → ℕ → ℕ
at d [] i = d
at d (x ∷ xs) zero = x
at d (x ∷ xs) (suc i) = at x xs i

abbrev pub front : List ℕ → ℕ
front [] = 0
front (x ∷ xs) = x

abbrev pub back : ℕ → List ℕ → ℕ
back d [] = d
back d (x ∷ xs) = back x xs

-- The statistics of samples that are sorted and at least one.
unfoldable pub of_sorted : List ℕ → LatStats
of_sorted s =
    let size = length s in
    record {
      min_ns = front s;
      max_ns = back 0 s;
      avg_ns = sum s / size;
      p50_ns = at 0 s (size / 2);
      p99_ns = at 0 s (min (size * 99 / 100) (size - 1));
    }

unfoldable pub summarize : List ℕ → LatStats
unfolding sort of_sorted
summarize [] = no_stats
summarize (x ∷ xs) = of_sorted (sort (x ∷ xs))
