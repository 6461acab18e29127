-- ===== src/Queue/Cells.antt =====
-- Functions changed at one number: the slots of a ring, and where each party of a run stands.
use native.Mathlib.Decide.{ℕ_discrete}
use nim_brokers.Prelude.{ℕ, ◌≡◌, ◌≢◌, inl, inr, Bool-cases, ◌==◌, ==_iff, if◌then◌else◌, arith}

-- A function with another value at one number.
abbrev pub put : {B : Type 0} → ℕ → B → (ℕ → B) → ℕ → B
put i v f j = if j == i then v else f j

pub put-same : {B : Type 0} (i : ℕ) (v : B) (f : ℕ → B) → put i v f i ≡ v
put-same i v f = ground (arith, ==_iff i i)

pub put-other : {B : Type 0} (i j : ℕ) (v : B) (f : ℕ → B) → j ≢ i → put i v f j ≡ f j
put-other i j v f h = elim (Bool-cases (j == i)) [
  | inl y ↦ absurd (h ((==_iff j i).0 y))
  | inr n ↦ rw n
]

-- A function with another value at one number, taken at any.
pub put-cases {κ} :
    {B : Type 0} (P : ℕ → B → Type κ) (i j : ℕ) (v : B) (f : ℕ → B)
    → P i v
    → (j ≢ i → P j (f j))
    → P j (put i v f j)
put-cases P i j v f h k = elim (ℕ_discrete j i) [
  | yes y ↦ rw (y, put-same i v f) h
  | no n ↦ rw (put-other i j v f n) (k n)
]
