-- ===== src/Torpedo/Cells/Visible.antt =====
-- What a terminal shows of the bytes written to it: the colour sequences take no place.
use nim_brokers.Prelude.{
  ℕ, ℤ, pos, negsuc, ◌≡◌, refl, false, Bool, ◌&&◌, ◌||◌, Bytes, [], ◌∷◌, ◌++◌, leb, ◌==◌,
  if◌then◌else◌, arith,
}
use nim_brokers.Torpedo.Cells.{own_symbol, enemy_symbol, print_own_cell, print_enemy_cell}

-- A reader of the output is in the text, behind an escape byte, or inside a sequence, which a
-- letter ends.
pub data Mode : Type 0 where
  text escape sequence : Mode

abbrev is_letter : ℕ → Bool
is_letter c = (leb 65 c && leb c 90) || (leb 97 c && leb c 122)

abbrev next : Mode → ℕ → Mode
next text c = if c == 27 then escape else text
next escape c = sequence
next sequence c = if is_letter c then text else sequence

abbrev print_one : Mode → ℕ → Bytes → Bytes
print_one text c rest = if c == 27 then rest else c ∷ rest
print_one escape c rest = rest
print_one sequence c rest = rest

unfoldable pub shown : Mode → Bytes → Bytes
shown m [] = []
shown m (c ∷ cs) = print_one m c (shown (next m c) cs)

-- The codes that the two switches of the symbols name.
abbrev pub is_known : ℤ → Bool
is_known (pos n) = leb n 5
is_known (negsuc n) = false

-- A cell of the own board takes one place. It shows the symbol of its code, and a full stop where
-- the code is not one of the six.
pub shown-print_own_cell :
    (code : ℤ) (rest : Bytes)
    → shown text (print_own_cell code ++ rest)
      ≡ (if is_known code then own_symbol code else b'.') ∷ shown text rest
unfolding print_own_cell own_symbol shown
shown-print_own_cell (pos n) rest = ground arith
shown-print_own_cell (negsuc n) rest = refl

-- The same of a cell of the enemy chart.
pub shown-print_enemy_cell :
    (code : ℤ) (rest : Bytes)
    → shown text (print_enemy_cell code ++ rest)
      ≡ (if is_known code then enemy_symbol code else b'.') ∷ shown text rest
unfolding print_enemy_cell enemy_symbol shown
shown-print_enemy_cell (pos n) rest = ground arith
shown-print_enemy_cell (negsuc n) rest = refl
