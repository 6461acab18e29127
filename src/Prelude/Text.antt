-- ===== src/Prelude/Text.antt =====
-- Text as the list of its bytes, and what the C and C++ libraries' formatting does with it.
use Prim.Native.Char.{code}
use Prim.Native.String.{String}
use Prim.Native.Nat.{ℕ, zero, suc, ◌+◌, ◌-◌, ◌*◌, ◌/◌, ◌%◌, ◌≤◌, ◌<◌}
use mathlib.Core.Path.{◌≡◌, ◌∙◌}
use mathlib.Core.Bool.{Bool, true, false, ◌&&◌, ◌||◌}
use mathlib.Core.Logic.{◌↔◌, inl, inr}
use mathlib.Core.Option.{Option, none, some}
use mathlib.Core.List.{List, [], ◌∷◌, ◌++◌}
use native.Mathlib.Omega.{arith}
use nim_brokers.Prelude.Tests.{ltb, leb, ◌==◌, if◌then◌else◌, Bool-cases}
use nim_brokers.Prelude.Lists.{length, take, replicate}
use nim_brokers.Prelude.Int.{ℤ, pos, negsuc, is_int32}

abbrev pub Bytes : Type 0
Bytes = List ℕ

-- The bytes of an ASCII text.
abbrev pub codes : String → Bytes
codes String.[] = []
codes (String.◌∷◌ c s) = code c ∷ codes s

-- std::string's and std::string_view's operator==.
unfoldable pub str_eq : Bytes → Bytes → Bool
str_eq [] [] = true
str_eq (x ∷ a) (y ∷ b) = x == y && str_eq a b
str_eq _ _ = false

pub str_eq_iff : (a b : Bytes) → (str_eq a b ≡ true) ↔ (a ≡ b)
unfolding str_eq
str_eq_iff (x ∷ a) (y ∷ b) = ground (arith, str_eq_iff a b)
str_eq_iff _ _ = ground arith

abbrev pub is_empty : Bytes → Bool
is_empty [] = true
is_empty (_ ∷ _) = false

-- The decimal digits of a number, in front of `rest`. More fuel than the number is enough.
unfoldable pub dec_onto : ℕ → ℕ → Bytes → Bytes
dec_onto zero n rest = rest
dec_onto (suc fuel) n rest =
    let more = dec_onto fuel (n / 10) ((48 + n % 10) ∷ rest) in
    if ltb n 10 then (48 + n) ∷ rest else more

-- std::to_string and printf's %d, %u.
unfoldable pub dec : ℕ → Bytes
unfolding dec_onto
dec n = dec_onto (suc n) n []

unfoldable pub dec_int : ℤ → Bytes
unfolding dec
dec_int (pos n) = dec n
dec_int (negsuc n) = b'-' ∷ dec (suc n)

abbrev pub is_digit : ℕ → Bool
is_digit c = leb 48 c && leb c 57

unfoldable pub read_digits : ℕ → Bytes → ℕ
read_digits acc [] = acc
read_digits acc (c ∷ cs) =
    let more = read_digits (acc * 10 + (c - 48)) cs in if is_digit c then more else acc

-- isspace in the C locale.
abbrev pub is_space : ℕ → Bool
is_space c = c == 32 || (leb 9 c && leb c 13)

unfoldable pub skip_space : Bytes → Bytes
skip_space [] = []
skip_space (c ∷ cs) = let more = skip_space cs in if is_space c then more else c ∷ cs

abbrev pub negate : ℕ → ℤ
negate zero = pos 0
negate (suc n) = negsuc n

unfoldable pub read_signed : Bytes → ℤ
unfolding read_digits
read_signed [] = pos 0
read_signed (c ∷ cs) =
    if c == b'-'
    then negate (read_digits 0 cs)
    else if c == b'+'
    then pos (read_digits 0 cs)
    else pos (read_digits 0 (c ∷ cs))

-- std::atoi: `none` where the value has no `int`, which is undefined behaviour.
unfoldable pub atoi : Bytes → Option ℤ
unfolding read_signed skip_space
atoi s = let z = read_signed (skip_space s) in if is_int32 z then some z else none

read_digits-digit :
    (acc d : ℕ) (rest : Bytes)
    → d < 10
    → read_digits acc ((48 + d) ∷ rest) ≡ read_digits (acc * 10 + d) rest
unfolding read_digits
read_digits-digit acc d rest h =
    let e : 48 + d - 48 ≡ d = omega arith in
    let t : is_digit (48 + d) ≡ true = ground arith in rw (t, e)

read_digits-dec_onto :
    (fuel n : ℕ) (rest : Bytes)
    → n < fuel
    → read_digits 0 (dec_onto fuel n rest) ≡ read_digits n rest
unfolding dec_onto
read_digits-dec_onto zero n rest h = elim h [ ]
read_digits-dec_onto (suc fuel) n rest h = elim (Bool-cases (ltb n 10)) [
  | inl small ↦
      let below : n < 10 = ground arith in
      rw (small, read_digits-digit 0 n rest below) (let e : 0 * 10 + n ≡ n = omega arith in rw e)
  | inr large ↦
      let le : 10 ≤ n = ground arith in
      rw large (
        read_digits-dec_onto fuel (n / 10) ((48 + n % 10) ∷ rest) (omega arith)
        ∙ read_digits-digit (n / 10) (n % 10) rest (omega arith)
        ∙ (let e : n / 10 * 10 + n % 10 ≡ n = omega arith in rw e))
]

-- The decimal numeral of a number is read back as that number.
pub read_digits-dec : (n : ℕ) → read_digits 0 (dec n) ≡ n
unfolding dec read_digits
read_digits-dec n = read_digits-dec_onto (suc n) n [] (omega arith)

-- printf's %-Ns, which pads and never cuts.
unfoldable pub pad_right : ℕ → Bytes → Bytes
pad_right w s = s ++ replicate (w - length s) 32

-- snprintf into a buffer of `n` bytes keeps the first n - 1.
unfoldable pub snprintf : ℕ → Bytes → Bytes
snprintf n s = take (n - 1) s
