-- ===== src/Torpedo/Board/Width.antt =====
-- How wide the rows of a grid are on the terminal.
use nim_brokers.Prelude.{
  ℕ, zero, suc, ◌+◌, ◌*◌, ◌/◌, ◌%◌, ◌<◌, ◌≤◌, ℤ, ◌≡◌, refl, ap, ◌∙◌, inl, inr, Bool, true, false,
  List, [], ◌∷◌, ◌++◌, Bytes, length, dec, dec_onto, ltb, ◌==◌, Bool-cases, lt→ltb, le→ltb, arith,
}
use nim_brokers.Torpedo.Cells.Visible.{text, shown, shown-print_own_cell, shown-print_enemy_cell}
use nim_brokers.Torpedo.Board.{
  header_from, print_grid_header, print_cell, print_cells, print_grid_row,
}

-- The places that a text takes on the terminal.
abbrev pub width : Bytes → ℕ
width s = length (shown text s)

shown-plain : (c : ℕ) (cs : Bytes) → (c == 27) ≡ false → shown text (c ∷ cs) ≡ c ∷ shown text cs
unfolding shown
shown-plain c cs h = rw h

width-print_cell :
    (own : Bool) (code : ℤ) (rest : Bytes) → width (print_cell own code ++ rest) ≡ suc (width rest)
width-print_cell true code rest = ap length (shown-print_own_cell code rest)
width-print_cell false code rest = ap length (shown-print_enemy_cell code rest)

width-print_cells : (own : Bool) (row : List ℤ) → width (print_cells own row) ≡ 2 * length row
unfolding print_cells
width-print_cells own [] = unfold shown in refl
width-print_cells own (x ∷ xs) =
    ap length (shown-plain b' ' (print_cell own x ++ print_cells own xs) refl)
    ∙ omega (arith, width-print_cell own x (print_cells own xs), width-print_cells own xs)

abbrev AllDigits : Bytes → Type 0
AllDigits [] = Unit
AllDigits (c ∷ cs) = (48 ≤ c) × (c < 58) × AllDigits cs

dec_onto-AllDigits : (fuel n : ℕ) (rest : Bytes) → AllDigits rest → AllDigits (dec_onto fuel n rest)
unfolding dec_onto
dec_onto-AllDigits zero n rest h = h
dec_onto-AllDigits (suc fuel) n rest h = elim (Bool-cases (ltb n 10)) [
  | inl small ↦ rw small (omega arith, ground arith, h)
  | inr large ↦
      rw large
        (dec_onto-AllDigits fuel (n / 10) ((48 + n % 10) ∷ rest) (omega arith, omega arith, h))
]

width-AllDigits : (s rest : Bytes) → AllDigits s → width (s ++ rest) ≡ length s + width rest
width-AllDigits [] rest h = omega arith
width-AllDigits (c ∷ s) rest h =
    let e : (c == 27) ≡ false = ground (arith, h.0) in
    ap length (shown-plain c (s ++ rest) e) ∙ omega (arith, width-AllDigits s rest h.2)

-- A row takes the digits of its number, a space, and two places for each cell, whatever the codes.
pub width-print_grid_row :
    (row : List ℤ) (i : ℕ) (own : Bool)
    → width (print_grid_row row i own) ≡ length (dec (i + 1)) + 1 + 2 * length row
unfolding print_grid_row
width-print_grid_row row i own =
    let digits : AllDigits (dec (i + 1)) =
      unfold dec in dec_onto-AllDigits (suc (i + 1)) (i + 1) [] tt in
    width-AllDigits (dec (i + 1)) (b' ' ∷ print_cells own row) digits
    ∙ (let e : width (b' ' ∷ print_cells own row) ≡ suc (width (print_cells own row)) =
          ap length (shown-plain b' ' (print_cells own row) refl) in
        omega (arith, e, width-print_cells own row))

length-dec_onto :
    (fuel n : ℕ) (rest : Bytes) → n < fuel → suc (length rest) ≤ length (dec_onto fuel n rest)
unfolding dec_onto
length-dec_onto zero n rest h = elim h [ ]
length-dec_onto (suc fuel) n rest h = elim (Bool-cases (ltb n 10)) [
  | inl small ↦ rw small (omega arith)
  | inr large ↦
      let le : 10 ≤ n = ground arith in
      rw large (omega (arith, length-dec_onto fuel (n / 10) ((48 + n % 10) ∷ rest) (omega arith)))
]

length-dec_one : (n : ℕ) → n < 10 → length (dec n) ≡ 1
unfolding dec dec_onto
length-dec_one n h = rw (lt→ltb n 10 h)

length-dec_more : (n : ℕ) → 10 ≤ n → 2 ≤ length (dec n)
unfolding dec dec_onto
length-dec_more n h =
    rw (le→ltb n 10 h) (length-dec_onto n (n / 10) ((48 + n % 10) ∷ []) (omega arith))

width-header_from : (i n : ℕ) → i + n < 191 → width (header_from i n) ≡ 2 * n
unfolding header_from
width-header_from i zero h = unfold shown in refl
width-header_from i (suc n) h =
    let plain : ((65 + i) % 256 == 27) ≡ false = ground arith in
    ap length (shown-plain b' ' ((65 + i) % 256 ∷ header_from (i + 1) n) refl)
    ∙ ap (λ k. suc k) (ap length (shown-plain ((65 + i) % 256) (header_from (i + 1) n) plain))
    ∙ omega (arith, width-header_from (i + 1) n (omega arith))

header_from_zero : (n : ℕ) → n < 191 → width (header_from 0 n) ≡ 2 * n
header_from_zero n h = width-header_from 0 n (omega arith)

-- The header takes two places, and two more for each column.
pub width-print_grid_header : (n : ℕ) → n < 191 → width (print_grid_header n) ≡ 2 + 2 * n
unfolding print_grid_header
width-print_grid_header n h =
    ap length (shown-plain b' ' (b' ' ∷ header_from 0 n) refl)
    ∙ ap (λ k. suc k) (ap length (shown-plain b' ' (header_from 0 n) refl))
    ∙ omega (arith, header_from_zero n h)

-- On a board of fewer than 191 columns, each of the first nine rows is as wide on the terminal as
-- the header above it, whatever its cells hold.
pub row_under_header :
    (row : List ℤ) (i : ℕ) (own : Bool)
    → length row < 191
    → i < 9
    → width (print_grid_row row i own) ≡ width (print_grid_header (length row))
row_under_header row i own h k = omega (
  arith,
  width-print_grid_row row i own,
  width-print_grid_header (length row) h,
  length-dec_one (i + 1) (omega arith),
)

-- On a board of fewer than 191 columns, every row from the tenth on is wider on the terminal than
-- the header.
pub row_past_header :
    (row : List ℤ) (i : ℕ) (own : Bool)
    → length row < 191
    → 9 ≤ i
    → width (print_grid_header (length row)) < width (print_grid_row row i own)
row_past_header row i own h k = omega (
  arith,
  width-print_grid_row row i own,
  width-print_grid_header (length row) h,
  length-dec_more (i + 1) (omega arith),
)
