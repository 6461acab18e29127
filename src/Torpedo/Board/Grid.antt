-- ===== src/Torpedo/Board/Grid.antt =====
-- What the grid holds, against the list of cells that it was made from.
use nim_brokers.Prelude.{
  ℕ, zero, suc, ◌<◌, ℤ, pos, negsuc, ltb_ℤ, ◌==◌, ◌≡◌, refl, ◌⊎◌, inl, inr, Bool, true, false, ◌&&◌,
  ◌++◌, and_then, Option, none, some, List, [], ◌∷◌, get_elem?, set, replicate, get_elem?-replicate,
  if◌then◌else◌, Bool-cases, arith,
}
use nim_brokers.Torpedo.Board.{PublicCell, Grid, set_at, store, fill, make_grid}

-- A cell as the library sends it: neither coordinate is below zero.
abbrev pub IsNonNegative : ℤ → Type 0
IsNonNegative (pos n) = Unit
IsNonNegative (negsuc n) = ⊥

abbrev pub AllNonNegative : List PublicCell → Type 0
AllNonNegative [] = Unit
AllNonNegative (c ∷ cs) = IsNonNegative c.row × IsNonNegative c.col × AllNonNegative cs

abbrev pub cell_at : Grid → ℕ → ℕ → Option ℤ
cell_at [] r c = none
cell_at (xs ∷ g) zero c = get_elem? xs c
cell_at (xs ∷ g) (suc r) c = cell_at g r c

abbrev at_place : ℤ → ℕ → Bool
at_place (pos m) n = m == n
at_place (negsuc m) n = false

-- The state code of the last cell of the list at this place, or `d`.
abbrev pub newest : List PublicCell → ℕ → ℕ → ℤ → ℤ
newest [] r c d = d
newest (x ∷ xs) r c d =
    newest xs r c (if at_place x.row r && at_place x.col c then x.state_code else d)

get_elem?-set :
    (xs : List ℤ) (i j : ℕ) (v d : ℤ)
    → get_elem? xs j ≡ some d
    → get_elem? (set xs i v) j ≡ some (if i == j then v else d)
get_elem?-set [] i j v d h = cc
get_elem?-set (x ∷ xs) zero zero v d h = refl
get_elem?-set (x ∷ xs) zero (suc j) v d h = ground arith
get_elem?-set (x ∷ xs) (suc i) zero v d h = ground arith
get_elem?-set (x ∷ xs) (suc i) (suc j) v d h = ground (arith, get_elem?-set xs i j v d h)

cell_at-set_at :
    (g : Grid) (a b r c : ℕ) (v d : ℤ)
    → cell_at g r c ≡ some d
    → cell_at (set_at g a b v) r c ≡ some (if a == r && b == c then v else d)
cell_at-set_at [] a b r c v d h = cc
cell_at-set_at (xs ∷ g) zero b zero c v d h = get_elem?-set xs b c v d h
cell_at-set_at (xs ∷ g) zero b (suc r) c v d h = ground arith
cell_at-set_at (xs ∷ g) (suc a) b zero c v d h = ground arith
cell_at-set_at (xs ∷ g) (suc a) b (suc r) c v d h = ground (arith, cell_at-set_at g a b r c v d h)

-- Filling ends well and leaves this value at this place.
abbrev Fills : ℕ → List PublicCell → Grid → ℕ → ℕ → ℤ → Type 0
Fills size cells g r c v = (g' : Grid) × (fill size cells g ≡ some g') × (cell_at g' r c ≡ some v)

fill-cell :
    (size r c : ℕ) (cs : List PublicCell) (g : Grid) (d row col code : ℤ)
    → r < size
    → c < size
    → IsNonNegative row
    → IsNonNegative col
    → cell_at g r c ≡ some d
    → ((g : Grid) (d : ℤ) → cell_at g r c ≡ some d → Fills size cs g r c (newest cs r c d))
    → Fills size
        (record { row = row; col = col; state_code = code } ∷ cs)
        g
        r
        c
        (newest (record { row = row; col = col; state_code = code } ∷ cs) r c d)
unfolding fill
fill-cell size r c cs g d (negsuc a) col code hr hc ha hb h ih = absurd ha
fill-cell size r c cs g d (pos a) (negsuc b) code hr hc ha hb h ih = absurd hb
fill-cell size r c cs g d (pos a) (pos b) code hr hc ha hb h ih =
    elim (Bool-cases (ltb_ℤ (pos a) (pos size) && ltb_ℤ (pos b) (pos size))) [
      | inl inside ↦ rw inside (ih (set_at g a b code) _ (cell_at-set_at g a b r c code d h))
      | inr outside ↦
          let elsewhere : (a == r && b == c) ≡ false = ground arith in
          rw (outside, elsewhere) (ih g d h)
    ]

fill-newest :
    (size r c : ℕ) (cells : List PublicCell) (g : Grid) (d : ℤ)
    → r < size
    → c < size
    → AllNonNegative cells
    → cell_at g r c ≡ some d
    → Fills size cells g r c (newest cells r c d)
fill-newest size r c [] g d hr hc hn h = unfold fill in (g, refl, h)
fill-newest size r c (x ∷ xs) g d hr hc hn h =
    fill-cell size r c xs g d x.row x.col x.state_code hr hc hn.0 hn.1 h
      (λ g d h. fill-newest size r c xs g d hr hc hn.2 h)

cell_at-replicate :
    (n m r c : ℕ) (v : ℤ) → r < n → c < m → cell_at (replicate n (replicate m v)) r c ≡ some v
cell_at-replicate zero m r c v hr hc = elim hr [ ]
cell_at-replicate (suc n) m zero c v hr hc = get_elem?-replicate m v c hc
cell_at-replicate (suc n) m (suc r) c v hr hc = cell_at-replicate n m r c v (omega arith) hc

-- If no coordinate is below zero, a grid of any size is made, and each of its places holds the
-- state code of the last cell of the list with that row and column, or 0 if there is none.
pub make_grid-newest :
    (cells : List PublicCell) (size r c : ℕ)
    → AllNonNegative cells
    → r < size
    → c < size
    → (g : Grid) × (make_grid cells (pos size) ≡ some g)
      × (cell_at g r c ≡ some (newest cells r c (pos 0)))
unfolding make_grid
make_grid-newest cells size r c hn hr hc =
    fill-newest size r c cells _ (pos 0) hr hc hn (cell_at-replicate size size r c (pos 0) hr hc)

-- A cell that the guard of the source lets through although its row or its column is below zero.
abbrev pub IsWild : ℕ → ℤ → ℤ → Type 0
IsWild size row col =
    (ltb_ℤ row (pos size) ≡ true)
    × (ltb_ℤ col (pos size) ≡ true)
    × ((¬ IsNonNegative row) ⊎ (¬ IsNonNegative col))

store-wild :
    (size : ℕ) (row col code : ℤ) (g : Grid) → IsWild size row col → store g row col code ≡ none
store-wild size (negsuc a) col code g w = refl
store-wild size (pos a) (negsuc b) code g w = refl
store-wild size (pos a) (pos b) code g (_, _, inl n) = absurd (n tt)
store-wild size (pos a) (pos b) code g (_, _, inr n) = absurd (n tt)

fill-wild :
    (size : ℕ) (before after : List PublicCell) (x : PublicCell) (g : Grid)
    → IsWild size x.row x.col
    → fill size (before ++ x ∷ after) g ≡ none
unfolding fill
fill-wild size [] after x g w = rw (w.0, w.1, store-wild size x.row x.col x.state_code g w)
fill-wild size (y ∷ ys) after x g w =
    elim (Bool-cases (ltb_ℤ y.row (pos size) && ltb_ℤ y.col (pos size))) [
      | inr outside ↦ rw outside (fill-wild size ys after x g w)
      | inl inside ↦
          rw inside (go (store g y.row y.col y.state_code) (λ g. fill-wild size ys after x g w))
    ]
  where
    go :
        (o : Option Grid)
        → ((g : Grid) → fill size (ys ++ x ∷ after) g ≡ none)
        → and_then o (λ g'. fill size (ys ++ x ∷ after) g') ≡ none
    go none h = refl
    go (some g) h = h g

-- The guard tests the upper bounds alone. Whatever else the list holds, one cell with a negative
-- row or column that both tests let through makes the fill write outside the grid.
pub make_grid-wild :
    (before after : List PublicCell) (x : PublicCell) (size : ℕ)
    → IsWild size x.row x.col
    → make_grid (before ++ x ∷ after) (pos size) ≡ none
unfolding make_grid
make_grid-wild before after x size w = fill-wild size before after x _ w
