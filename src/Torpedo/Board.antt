-- ===== src/Torpedo/Board.antt =====
-- The grids of examples/torpedo/cpp_example/main.cpp: `printBoard`, and the lambdas `makeGrid`,
-- `printGridHeader` and `printGridRow` of `drawScreen`. `none` stands for undefined behaviour or an
-- exception: a negative index passes the guard of the source, and a negative size is no length.
pub mod Grid
pub mod Width
use nim_brokers.Prelude.{
  ℕ, zero, suc, ◌+◌, ◌%◌, ℤ, pos, negsuc, ltb_ℤ, Bool, true, false, ◌&&◌, Option, none, some, List,
  [], ◌∷◌, ◌++◌, Bytes, codes, dec, length, get_elem?, set, replicate, if◌then◌else◌, and_then,
}
use nim_brokers.Torpedo.Cells.{print_own_cell, print_enemy_cell}

pub record PublicCell : Type 0 where
  pub row : ℤ
  pub col : ℤ
  pub state_code : ℤ

abbrev pub Grid : Type 0
Grid = List (List ℤ)

-- `grid[row][col] = v` for a row and a column in range.
abbrev pub set_at : Grid → ℕ → ℕ → ℤ → Grid
set_at [] r c v = []
set_at (xs ∷ g) zero c v = set xs c v ∷ g
set_at (xs ∷ g) (suc r) c v = xs ∷ set_at g r c v

abbrev pub store : Grid → ℤ → ℤ → ℤ → Option Grid
store g (pos r) (pos c) v = some (set_at g r c v)
store g (negsuc r) c v = none
store g (pos r) (negsuc c) v = none

unfoldable pub fill : ℕ → List PublicCell → Grid → Option Grid
fill size [] g = some g
fill size (c ∷ cs) g =
    let skip = fill size cs g in
    let write = and_then (store g c.row c.col c.state_code) (λ g'. fill size cs g') in
    if ltb_ℤ c.row (pos size) && ltb_ℤ c.col (pos size) then write else skip

unfoldable pub make_grid : List PublicCell → ℤ → Option Grid
unfolding fill
make_grid cells (pos size) = fill size cells (replicate size (replicate size (pos 0)))
make_grid cells (negsuc n) = none

-- `for (int c = i; c < i + n; ++c) printf(" %c", 'A' + c)`
unfoldable pub header_from : ℕ → ℕ → Bytes
header_from i zero = []
header_from i (suc n) = b' ' ∷ (65 + i) % 256 ∷ header_from (i + 1) n

unfoldable pub print_grid_header : ℕ → Bytes
unfolding header_from
print_grid_header size = b' ' ∷ b' ' ∷ header_from 0 size

abbrev pub print_cell : Bool → ℤ → Bytes
print_cell own code = if own then print_own_cell code else print_enemy_cell code

unfoldable pub print_cells : Bool → List ℤ → Bytes
print_cells own [] = []
print_cells own (x ∷ xs) = b' ' ∷ (print_cell own x ++ print_cells own xs)

unfoldable pub print_grid_row : List ℤ → ℕ → Bool → Bytes
unfolding print_cells
print_grid_row row row_idx own = dec (row_idx + 1) ++ b' ' ∷ print_cells own row

unfoldable pub print_rows : Bool → ℕ → Grid → Bytes
unfolding print_grid_row
print_rows own i [] = []
print_rows own i (row ∷ g) = print_grid_row row i own ++ b'\n' ∷ print_rows own (i + 1) g

unfoldable pub print_board : List PublicCell → ℤ → Bool → Option Bytes
unfolding make_grid print_grid_header print_rows
print_board cells size own =
    and_then (make_grid cells size)
      (λ g. some (print_grid_header (length g) ++ b'\n' ∷ print_rows own 0 g))
