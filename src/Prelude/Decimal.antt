-- ===== src/Prelude/Decimal.antt =====
-- Printing an `int` in decimal and reading it back.
use Prim.Native.Nat.{ℕ, zero, suc, ◌/◌, ◌%◌, ◌+◌, ◌<◌, ◌≤◌}
use mathlib.Core.Path.{◌≡◌, refl, ap}
use mathlib.Core.Bool.{true}
use mathlib.Core.Logic.{inl, inr}
use mathlib.Core.Option.{some}
use mathlib.Core.List.{[], ◌∷◌}
use native.Mathlib.Omega.{arith}
use nim_brokers.Prelude.Tests.{ltb, Bool-cases, lt→ltb}
use nim_brokers.Prelude.Int.{ℤ, pos, negsuc, IsInt32, is_int32}
use nim_brokers.Prelude.Text.{
  Bytes, dec_onto, dec, dec_int, read_digits, skip_space, read_signed, atoi, read_digits-dec,
}

-- The text begins with a digit.
abbrev StartsWithDigit : Bytes → Type 0
StartsWithDigit s = (c : ℕ) × (cs : Bytes) × (s ≡ c ∷ cs) × (48 ≤ c) × (c < 58)

dec_onto-StartsWithDigit :
    (fuel n : ℕ) (rest : Bytes) → n < fuel → StartsWithDigit (dec_onto fuel n rest)
unfolding dec_onto
dec_onto-StartsWithDigit zero n rest h = elim h [ ]
dec_onto-StartsWithDigit (suc fuel) n rest h = elim (Bool-cases (ltb n 10)) [
  | inl small ↦ rw small (48 + n, rest, refl, omega arith, ground arith)
  | inr large ↦
      let le : 10 ≤ n = ground arith in
      rw large (dec_onto-StartsWithDigit fuel (n / 10) ((48 + n % 10) ∷ rest) (omega arith))
]

pub dec-StartsWithDigit : (n : ℕ) → StartsWithDigit (dec n)
unfolding dec
dec-StartsWithDigit n = dec_onto-StartsWithDigit (suc n) n [] (omega arith)

skip_space-digit : (c : ℕ) (cs : Bytes) → 48 ≤ c → skip_space (c ∷ cs) ≡ c ∷ cs
unfolding skip_space
skip_space-digit c cs h = ground arith

read_signed-digit :
    (c : ℕ) (cs : Bytes) → 48 ≤ c → read_signed (c ∷ cs) ≡ pos (read_digits 0 (c ∷ cs))
unfolding read_signed
read_signed-digit c cs h = ground arith

read_signed-dec_int : (z : ℤ) → read_signed (skip_space (dec_int z)) ≡ z
unfolding dec_int
read_signed-dec_int (pos n) =
    let (c, cs, e, h, _) = dec-StartsWithDigit n in
    rw e (rw (skip_space-digit c cs h, read_signed-digit c cs h, ← e) (ap pos (read_digits-dec n)))
read_signed-dec_int (negsuc n) = unfold skip_space read_signed in rw (read_digits-dec (suc n))

is_int32-IsInt32 : (z : ℤ) → IsInt32 z → is_int32 z ≡ true
is_int32-IsInt32 (pos n) h = lt→ltb _ _ h
is_int32-IsInt32 (negsuc n) h = lt→ltb _ _ h

-- `atoi` reads back the numeral of every `int`.
pub atoi-dec_int : (z : ℤ) → IsInt32 z → atoi (dec_int z) ≡ some z
unfolding atoi
atoi-dec_int z h = rw (read_signed-dec_int z, is_int32-IsInt32 z h)
