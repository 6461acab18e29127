-- ===== src/Queue/Ring/Index.antt =====
-- The index of a position in the ring: `pos and mask`.
use Prim.Native.Nat.{min, bit_and, digits, bit_and-bitwise}
use native.Mathlib.Decide.{dec_lt, ℕ_discrete}
use nim_brokers.Prelude.{
  ℕ, zero, suc, ◌+◌, ◌-◌, ◌*◌, ◌/◌, ◌%◌, ◌≤◌, ◌<◌, ◌≡◌, ◌≢◌, refl, ap, sym, ◌∙◌, ◌⊎◌, inl, inr,
  arith,
}

-- The conjunction of at most so many of the lowest binary digits.
abbrev conj : ℕ → ℕ → ℕ → ℕ
conj rounds x y = digits (λ rest. zero) min rounds x y

-- A round more adds no digit to a number that has run out of them.
one_more_round : (x y rounds : ℕ) → x ≤ rounds → conj (suc rounds) x y ≡ conj rounds x y
one_more_round zero y zero short = refl
one_more_round zero y (suc rounds) short = refl
one_more_round (suc x) y zero short = absurd (omega arith)
one_more_round (suc x) y (suc rounds) short =
    ap (λ r. r * 2 + min (suc x % 2) (y % 2))
      (one_more_round (suc x / 2) (y / 2) rounds (omega arith))

more_rounds : (top rounds x y : ℕ) → x ≤ rounds → rounds ≤ top → conj top x y ≡ conj rounds x y
more_rounds zero rounds x y short below =
    let none_at_all : zero ≡ rounds = omega arith in ap (λ r. conj r x y) none_at_all
more_rounds (suc top) rounds x y short below = elim (ℕ_discrete (suc top) rounds) [
  | yes same ↦ ap (λ r. conj r x y) same
  | no other ↦ one_more_round x y top (omega arith) ∙ more_rounds top rounds x y short (omega arith)
]

-- The lowest digit of a conjunction, and the rest.
lowest_digit : (x y : ℕ) → bit_and x y ≡ bit_and (x / 2) (y / 2) * 2 + min (x % 2) (y % 2)
lowest_digit zero y = bit_and-bitwise 0 y ∙ omega (arith, bit_and-bitwise 0 (y / 2))
lowest_digit (suc x) y =
    bit_and-bitwise (suc x) y
    ∙ ap (λ r. r * 2 + min (suc x % 2) (y % 2))
        (more_rounds x (suc x / 2) (suc x / 2) (y / 2) (omega arith) (omega arith)
          ∙ sym (bit_and-bitwise (suc x / 2) (y / 2)))

-- The powers of two.
pub data PowerOfTwo : ℕ → Type 0 where
  one : PowerOfTwo 1
  twice : {m n : ℕ} → PowerOfTwo m → n ≡ 2 * m → PowerOfTwo n

-- Positions that are less than a round apart have different indices, and a round leads back.
pub record IsIndex (mask capacity : ℕ) : Type 0 where
  pub apart : (t u : ℕ) → t < u → u < t + capacity → bit_and t mask ≢ bit_and u mask
  pub round : (t : ℕ) → bit_and (t + capacity) mask ≡ bit_and t mask
  pub small : (t : ℕ) → t < capacity → bit_and t mask ≡ t

PowerOfTwo-pos : {c : ℕ} → PowerOfTwo c → 0 < c
PowerOfTwo-pos one = omega arith
PowerOfTwo-pos (twice p e) = omega (arith, PowerOfTwo-pos p)

-- No digit is in both a number and zero, whatever bounds the number.
none_in_zero : (bound x : ℕ) → x ≤ bound → bit_and x 0 ≡ 0
none_in_zero zero x small = let is_zero : x ≡ 0 = omega arith in rw is_zero (bit_and-bitwise 0 0)
none_in_zero (suc bound) x small = elim (dec_lt 0 x) [
  | yes some_left ↦ omega (arith, lowest_digit x 0, none_in_zero bound (x / 2) (omega arith))
  | no none_left ↦ let is_zero : x ≡ 0 = omega arith in rw is_zero (bit_and-bitwise 0 0)
]

bit_and-zero : (x : ℕ) → bit_and x 0 ≡ 0
bit_and-zero x = none_in_zero x x (omega arith)

round_by : {c : ℕ} → PowerOfTwo c → (t : ℕ) → bit_and (t + c) (c - 1) ≡ bit_and t (c - 1)
round_by one t = omega (arith, bit_and-zero (t + 1), bit_and-zero t)
round_by (twice {m} {n} p e) t =
    let positive : 0 < m = PowerOfTwo-pos p in
    let half : (n - 1) / 2 ≡ m - 1 = omega arith in
    let up : (t + n) / 2 ≡ t / 2 + m = omega arith in
    lowest_digit (t + n) (n - 1)
    ∙ rw (half, up, round_by p (t / 2)) (rw (lowest_digit t (n - 1), half) (omega arith))

apart_by :
    {c : ℕ} → PowerOfTwo c → (t u : ℕ) → t < u → u < t + c → bit_and t (c - 1) ≢ bit_and u (c - 1)
apart_by one t u h k e = omega arith
apart_by (twice {m} {n} p e) t u h k same =
    let positive : 0 < m = PowerOfTwo-pos p in
    let half : (n - 1) / 2 ≡ m - 1 = omega arith in
    let left : bit_and t (n - 1) ≡ bit_and (t / 2) (m - 1) * 2 + min (t % 2) ((n - 1) % 2) =
      rw (← half) (lowest_digit t (n - 1)) in
    let right : bit_and u (n - 1) ≡ bit_and (u / 2) (m - 1) * 2 + min (u % 2) ((n - 1) % 2) =
      rw (← half) (lowest_digit u (n - 1)) in
    apart_by p (t / 2) (u / 2) (omega arith) (omega arith) (omega arith)

small_by : {c : ℕ} → PowerOfTwo c → (t : ℕ) → t < c → bit_and t (c - 1) ≡ t
small_by one t h = omega (arith, bit_and-zero t)
small_by (twice {m} {n} p e) t h =
    let positive : 0 < m = PowerOfTwo-pos p in
    let half : (n - 1) / 2 ≡ m - 1 = omega arith in
    lowest_digit t (n - 1) ∙ rw (half, small_by p (t / 2) (omega arith)) (omega arith)

pub PowerOfTwo-IsIndex : {c : ℕ} → PowerOfTwo c → IsIndex (c - 1) c
PowerOfTwo-IsIndex p = record { apart = apart_by p; round = round_by p; small = small_by p }

bit_and_self : (n a : ℕ) → a ≤ n → bit_and a a ≡ a
bit_and_self n zero h = refl
bit_and_self zero (suc a) h = absurd (omega arith)
bit_and_self (suc n) (suc a) h =
    omega (arith, lowest_digit (suc a) (suc a), bit_and_self n (suc a / 2) (omega arith))

-- The assertion's test accepts powers of two only.
by_test : (n c : ℕ) → c ≤ n → 0 < c → bit_and c (c - 1) ≡ 0 → PowerOfTwo c
by_test zero c h k e = absurd (omega arith)
by_test (suc n) c h k e = elim (parity c) [
  | inl even ↦
      let less : (c - 1) / 2 ≡ c / 2 - 1 = omega arith in
      let zero_half : bit_and (c / 2) (c / 2 - 1) ≡ 0 =
        rw (← less) (omega (arith, lowest_digit c (c - 1))) in
      twice (by_test n (c / 2) (omega arith) (omega arith) zero_half) (omega arith)
  | inr odd ↦
      let same : (c - 1) / 2 ≡ c / 2 = omega arith in
      let zero_half : bit_and (c / 2) (c / 2) ≡ 0 =
        rw (ap (bit_and (c / 2)) (sym same)) (omega (arith, lowest_digit c (c - 1))) in
      let c_one : c ≡ 1 = omega (arith, bit_and_self (c / 2) (c / 2) (omega arith)) in rw c_one one
]
  where
    parity : (a : ℕ) → (a % 2 ≡ 0) ⊎ (a % 2 ≡ 1)
    parity a = elim (dec_lt (a % 2) 1) [ yes p ↦ inl (omega arith) | no p ↦ inr (omega arith) ]

pub test-PowerOfTwo : (c : ℕ) → 0 < c → bit_and c (c - 1) ≡ 0 → PowerOfTwo c
test-PowerOfTwo c k e = by_test c c (omega arith) k e
