-- ===== src/Torpedo/Screen.antt =====
-- `drawScreen` of examples/torpedo/cpp_example/main.cpp: the bytes of one frame.
use nim_brokers.Prelude.{
  ℕ, ◌+◌, ◌-◌, ◌*◌, ◌/◌, ◌%◌, Bool, true, false, Option, some, [], ◌∷◌, ◌++◌, Bytes, codes, cat,
  dec, length as List_length, and_then,
}
use nim_brokers.Torpedo.Ansi
use nim_brokers.Torpedo.Board.{Grid, make_grid, print_grid_header, print_grid_row}
use nim_brokers.Torpedo.Config.{Config, refresh_delay}
use nim_brokers.Torpedo.EventLog.{EventLog}
use nim_brokers.Torpedo.Status.{
  PublicBoard, spaces, newline, print_fleets, print_meta, print_scoreboard, print_entries,
  print_status,
}

-- %.2f of a number of hundredths.
unfoldable pub hundredths : ℕ → Bytes
hundredths n = dec (n / 100) ++ b'.' ∷ (48 + n / 10 % 10) ∷ (48 + n % 10) ∷ []

unfoldable pub print_title : Bytes → Config → Bytes
unfolding hundredths
print_title banner cfg = cat (
    Ansi.clear_screen
    ∷ Ansi.bold
    ∷ Ansi.white
    ∷ codes " Torpedo Duel "
    ∷ Ansi.reset
    ∷ codes "  "
    ∷ Ansi.dim
    ∷ codes "refresh="
    ∷ hundredths (refresh_delay cfg)
    ∷ codes "s | backend duel is self-driven"
    ∷ Ansi.reset
    ∷ newline
    ∷ Ansi.cyan
    ∷ banner
    ∷ Ansi.reset
    ∷ newline
    ∷ newline
    ∷ [])

-- Rows of two grids beside each other, up to the size that both were made with.
unfoldable pub print_pairs : Bool → ℕ → Grid → Grid → Bytes
print_pairs own i (l ∷ ls) (r ∷ rs) =
    print_grid_row l i own
    ++ (spaces 6 ++ (print_grid_row r i own ++ b'\n' ∷ print_pairs own (i + 1) ls rs))
print_pairs own i _ _ = []

unfoldable pub print_headers : ℕ → Bytes
print_headers size = print_grid_header size ++ (spaces 6 ++ (print_grid_header size ++ newline))

-- The two boards of one kind, under their headers.
unfoldable pub print_panels : Bool → ℕ → Grid → Grid → Bytes
unfolding print_headers print_pairs
print_panels own size left right = print_headers size ++ (print_pairs own 0 left right ++ newline)

abbrev own_title : ℕ → Bytes
own_title board_width = cat (
    Ansi.bold
    ∷ Ansi.red
    ∷ codes " RED FLEET"
    ∷ Ansi.reset
    ∷ spaces (board_width - 3)
    ∷ Ansi.bold
    ∷ Ansi.blue
    ∷ codes " BLUE FLEET"
    ∷ Ansi.reset
    ∷ newline
    ∷ codes " Own Waters"
    ∷ spaces (board_width - 5)
    ∷ codes " Own Waters\n"
    ∷ [])

abbrev enemy_title : ℕ → Bytes
enemy_title board_width =
    cat (codes " Enemy Chart" ∷ spaces (board_width - 6) ∷ codes " Enemy Chart\n" ∷ [])

-- All four grids have the size of the red board.
unfoldable pub draw_screen : PublicBoard → PublicBoard → EventLog → Bytes → Config → Option Bytes
unfolding print_title print_panels print_fleets print_meta print_scoreboard print_entries
draw_screen red blue log banner cfg = and_then (make_grid red.own_cells red.board_size) λ red_own.
    and_then (make_grid red.enemy_cells red.board_size) λ red_enemy.
      and_then (make_grid blue.own_cells red.board_size) λ blue_own.
        and_then (make_grid blue.enemy_cells red.board_size) λ blue_enemy.
          let size = List_length red_own in
          let board_width = 2 + 2 * size + 1 in
          some (
            cat (
              print_title banner cfg
              ∷ own_title board_width
              ∷ print_panels true size red_own blue_own
              ∷ enemy_title board_width
              ∷ print_panels false size red_enemy blue_enemy
              ∷ print_status (board_width + 2) red blue log
              ∷ []))
