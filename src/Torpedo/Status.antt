-- ===== src/Torpedo/Status.antt =====
-- What `drawScreen` of examples/torpedo/cpp_example/main.cpp writes below the boards, and
-- `printFleet`. `PublicBoard` has the fields of the generated `GetPublicBoardRequest` that the client
-- reads.
use nim_brokers.Prelude.{
  ℕ, ◌+◌, ◌-◌, ℤ, Bool, true, false, List, [], ◌∷◌, ◌++◌, Bytes, codes, cat, dec, dec_int,
  pad_right, replicate, if◌then◌else◌,
}
use nim_brokers.Torpedo.Ansi
use nim_brokers.Torpedo.Board.{PublicCell}
use nim_brokers.Torpedo.EventLog.{EventLog, snapshot}

pub record ShipStatus : Type 0 where
  pub name : Bytes
  pub sunk : Bool
  pub hits : ℤ
  pub length : ℤ

pub record PublicBoard : Type 0 where
  pub board_size : ℤ
  pub own_cells : List PublicCell
  pub enemy_cells : List PublicCell
  pub fleet : List ShipStatus
  pub ai_mode : Bytes
  pub turn_delay_ms : ℤ
  pub fleet_placed : Bool
  pub linked : Bool
  pub started : Bool
  pub opponent_ctx : ℕ
  pub game_over : Bool
  pub has_won : Bool
  pub total_shots_fired : ℤ
  pub total_shots_received : ℤ

abbrev pub spaces : ℕ → Bytes
spaces n = replicate n b' '

abbrev pub newline : Bytes
newline = b'\n' ∷ []

-- Hits over length, or `sunk`, behind the padded name.
unfoldable pub print_ship : ShipStatus → Bytes
print_ship s = cat (
    codes "  "
    ∷ pad_right 12 s.name
    ∷ codes " "
    ∷ (if s.sunk
        then Ansi.red ++ (codes "sunk" ++ Ansi.reset)
        else dec_int s.hits ++ b'/' ∷ dec_int s.length)
    ∷ [])

-- `printFleet`.
unfoldable pub print_fleet : List ShipStatus → Bytes
unfolding print_ship
print_fleet [] = []
print_fleet (s ∷ fleet) = print_ship s ++ b'\n' ∷ print_fleet fleet

-- The loop over the longer of the two fleets.
unfoldable pub print_fleets : ℕ → List ShipStatus → List ShipStatus → Bytes
unfolding print_ship
print_fleets fleet_width [] [] = []
print_fleets fleet_width (r ∷ rs) [] =
    print_ship r ++ (spaces (fleet_width - 18) ++ b'\n' ∷ print_fleets fleet_width rs [])
print_fleets fleet_width [] (b ∷ bs) =
    spaces (fleet_width + 2) ++ (print_ship b ++ b'\n' ∷ print_fleets fleet_width [] bs)
print_fleets fleet_width (r ∷ rs) (b ∷ bs) =
    print_ship r
    ++ (spaces (fleet_width - 18) ++ (print_ship b ++ b'\n' ∷ print_fleets fleet_width rs bs))

unfoldable pub outcome_str : Bool → Bool → Bytes
outcome_str false has_won = codes "active"
outcome_str true true = codes "won"
outcome_str true false = codes "lost"

unfoldable pub print_meta_row : ℕ → Bytes → Bytes → Bytes → Bytes
print_meta_row fleet_width label red_val blue_val = cat (
    codes "  "
    ∷ pad_right 10 label
    ∷ codes " "
    ∷ pad_right 8 red_val
    ∷ spaces (fleet_width - 20)
    ∷ codes "  "
    ∷ pad_right 10 label
    ∷ codes " "
    ∷ blue_val
    ∷ newline
    ∷ [])

abbrev yes_no : Bool → Bytes
yes_no b = if b then codes "yes" else codes "no"

unfoldable pub print_meta : ℕ → PublicBoard → PublicBoard → Bytes
unfolding print_meta_row outcome_str
print_meta w red blue = cat (
    Ansi.bold
    ∷ codes " RED META"
    ∷ Ansi.reset
    ∷ spaces (w - 2)
    ∷ Ansi.bold
    ∷ codes " BLUE META"
    ∷ Ansi.reset
    ∷ newline
    ∷ print_meta_row w (codes "AI") red.ai_mode blue.ai_mode
    ∷ print_meta_row w (codes "Delay") (dec_int red.turn_delay_ms ++ codes " ms")
        (dec_int blue.turn_delay_ms ++ codes " ms")
    ∷ print_meta_row w (codes "Placed") (yes_no red.fleet_placed) (yes_no blue.fleet_placed)
    ∷ print_meta_row w (codes "Linked") (yes_no red.linked) (yes_no blue.linked)
    ∷ print_meta_row w (codes "Started") (yes_no red.started) (yes_no blue.started)
    ∷ print_meta_row w (codes "Opponent") (dec red.opponent_ctx) (dec blue.opponent_ctx)
    ∷ print_meta_row w (codes "Outcome") (outcome_str red.game_over red.has_won)
        (outcome_str blue.game_over blue.has_won)
    ∷ newline
    ∷ [])

unfoldable pub print_scoreboard : PublicBoard → PublicBoard → Bytes
print_scoreboard red blue = cat (
    Ansi.bold
    ∷ codes "Scoreboard"
    ∷ Ansi.reset
    ∷ newline
    ∷ codes "  Red  fired="
    ∷ pad_right 2 (dec_int red.total_shots_fired)
    ∷ codes " received="
    ∷ pad_right 2 (dec_int red.total_shots_received)
    ∷ codes "  |  Blue fired="
    ∷ pad_right 2 (dec_int blue.total_shots_fired)
    ∷ codes " received="
    ∷ pad_right 2 (dec_int blue.total_shots_received)
    ∷ newline
    ∷ newline
    ∷ [])

unfoldable pub print_entries : List Bytes → Bytes
print_entries [] = []
print_entries (line ∷ lines) =
    codes "  "
    ++ (Ansi.dim ++ (codes "- " ++ (line ++ (Ansi.reset ++ b'\n' ∷ print_entries lines))))

abbrev print_log : EventLog → Bytes
print_log log = cat (
    Ansi.bold
    ∷ codes "Event Log"
    ∷ Ansi.reset
    ∷ newline
    ∷ print_entries (snapshot log)
    ∷ newline
    ∷ Ansi.dim
    ∷ codes "Press q to quit"
    ∷ Ansi.reset
    ∷ newline
    ∷ [])

-- What follows the boards. The widths are those of `boardWidth` and `fleetWidth`.
abbrev pub print_status : ℕ → PublicBoard → PublicBoard → EventLog → Bytes
print_status w red blue log = cat (
    Ansi.bold
    ∷ codes " RED STATUS"
    ∷ Ansi.reset
    ∷ spaces (w - 4)
    ∷ Ansi.bold
    ∷ codes " BLUE STATUS"
    ∷ Ansi.reset
    ∷ newline
    ∷ print_fleets w red.fleet blue.fleet
    ∷ newline
    ∷ print_meta w red blue
    ∷ print_scoreboard red blue
    ∷ print_log log
    ∷ [])
