-- ===== src/Torpedo/Cells.antt =====
-- The symbols and the colours of examples/torpedo/cpp_example/main.cpp. What the client writes to
-- `stdout` is the list of the bytes written.
pub mod Visible
use nim_brokers.Torpedo.Ansi
use nim_brokers.Prelude.{
  ℕ, ◌+◌, ◌-◌, ◌%◌, ℤ, pos, negsuc, pos_part, ◌+ℤ◌, Bytes, [], ◌∷◌, ◌++◌, codes, dec, dec_int,
  snprintf, ◌==◌, cat, if◌then◌else◌,
}

-- `switch (code)` over the six codes of the board, with what stands for any other value.
abbrev switch {ℓ} : {A : Type ℓ} → ℤ → A → A → A → A → A → A → A → A
switch (negsuc _) d a0 a1 a2 a3 a4 a5 = d
switch (pos n) d a0 a1 a2 a3 a4 a5 =
    if n == 0
    then a0
    else if n == 1
    then a1
    else if n == 2
    then a2
    else if n == 3
    then a3
    else if n == 4
    then a4
    else if n == 5
    then a5
    else d

unfoldable pub own_symbol : ℤ → ℕ
own_symbol code = switch code b'?' b'.' b'.' b'S' b'o' b'x' b'*'

unfoldable pub enemy_symbol : ℤ → ℕ
enemy_symbol code = switch code b'?' b'.' b'.' b'!' b'o' b'x' b'*'

-- %c of an `int` writes its low byte.
abbrev pub low_byte : ℤ → ℕ
low_byte (pos n) = n % 256
low_byte (negsuc n) = 255 - n % 256

-- `snprintf(buf, 8, "%c%d", 'A' + col, row + 1)`, and the string up to the first zero byte. The
-- sums are those of integers: the source's overflow at the two ends of `int32_t` is left out.
unfoldable pub coord_label : ℤ → ℤ → Bytes
unfolding dec_int snprintf
coord_label row col =
    let first = low_byte (pos 65 +ℤ col) in
    if first == 0 then [] else snprintf 8 (first ∷ dec_int (row +ℤ pos 1))

unfoldable pub print_own_cell : ℤ → Bytes
print_own_cell code =
    switch code (codes ".") (codes ".") (codes ".") (Ansi.bold ++ (Ansi.green ++ b'S' ∷ Ansi.reset))
      (Ansi.dim ++ b'o' ∷ Ansi.reset) (Ansi.bold ++ (Ansi.yellow ++ b'x' ∷ Ansi.reset))
      (Ansi.bold ++ (Ansi.red ++ b'*' ∷ Ansi.reset))

unfoldable pub print_enemy_cell : ℤ → Bytes
print_enemy_cell code =
    switch code (codes ".") (codes ".") (codes ".") (Ansi.bold ++ (Ansi.red ++ b'!' ∷ Ansi.reset))
      (Ansi.dim ++ b'o' ∷ Ansi.reset) (Ansi.bold ++ (Ansi.yellow ++ b'x' ∷ Ansi.reset))
      (Ansi.bold ++ (Ansi.red ++ b'*' ∷ Ansi.reset))
