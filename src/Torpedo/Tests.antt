-- ===== src/Torpedo/Tests.antt =====
-- Runs of the terminal client's functions, and the theorems about them at concrete inputs.
use nim_brokers.Prelude.{
  ◌+◌, ◌<◌, ℤ, pos, negsuc, true, false, ◌≡◌, ◌≢◌, refl, inl, none, some, List, [], ◌∷◌, ◌++◌,
  Bytes, codes, str_eq, dec_onto, atoi, length, replicate, arith,
}
use nim_brokers.Torpedo.Config.{Config, default_config, parsed, undefined, parse_args}
use nim_brokers.Torpedo.Config.Args.{spell, parse_args-spell}
use nim_brokers.Torpedo.EventLog.{new, push_all, snapshot}
use nim_brokers.Torpedo.EventLog.History.{snapshot-push_all}
use nim_brokers.Torpedo.Cells.{coord_label}
use nim_brokers.Torpedo.Board.{PublicCell, Grid, make_grid, print_grid_header, print_grid_row}
use nim_brokers.Torpedo.Board.Grid.{cell_at, make_grid-newest, make_grid-wild}
use nim_brokers.Torpedo.Board.Width.{width, row_past_header}
use nim_brokers.Torpedo.Messages.{shot_message, volley_message}
use nim_brokers.Torpedo.Session.{
  Trace, Kind, red, blue, shut_down, Trace, Library, Exit, exited, unfinished, ok, error,
}
use nim_brokers.Torpedo.Session.Main.{run}
use nim_brokers.Torpedo.Session.Listeners.{open_at, SafeShutdown}
use nim_brokers.Torpedo.Session.Cleanup.{run-SafeShutdown, early_exit_leaks}
use nim_brokers.Torpedo.Session.Ending.{run_ends}
use nim_brokers.Prelude.{if◌then◌else◌}
use nim_brokers.Torpedo.RawTerminal.{Tty, raw, construct, press, put_back, use_all, destroy}
use nim_brokers.Torpedo.RawTerminal.Restored.{presses, destroy-settings}

abbrev prog : Bytes
prog = codes "torpedo"

abbrev fast_blue : Config
fast_blue = record {
  seed_red = pos 7;
  seed_blue = negsuc 2;
  board_size = pos 10;
  starter_is_red = false;
  fast = true;
}

parse_args-some :
    parse_args
      (prog ∷ codes "--fast" ∷ codes "--board-size" ∷ codes " 12x" ∷ codes "--starter" ∷ [])
    ≡ parsed (record default_config { fast = true; board_size = pos 12 })
unfolding parse_args str_eq atoi
parse_args-some = refl

parse_args-huge : parse_args (prog ∷ codes "--seed-red" ∷ codes "3000000000" ∷ []) ≡ undefined
unfolding parse_args str_eq atoi
parse_args-huge = refl

parse_args-spell_example : parse_args (prog ∷ spell fast_blue) ≡ parsed fast_blue
parse_args-spell_example =
    parse_args-spell prog fast_blue
      (record { red = omega arith; blue = omega arith; size = omega arith })

abbrev three : List Bytes
three = codes "a" ∷ codes "b" ∷ codes "c" ∷ []

snapshot-push_all_example : snapshot (push_all (new 2) three) ≡ codes "b" ∷ codes "c" ∷ []
snapshot-push_all_example = snapshot-push_all 2 three

coord_label-run : coord_label (pos 9) (pos 2) ≡ codes "C10"
unfolding coord_label dec_onto
coord_label-run = refl

coord_label-cut : coord_label (pos 1234566) (pos 0) ≡ codes "A123456"
unfolding coord_label dec_onto
coord_label-cut = refl

abbrev ship_then_hit : List PublicCell
ship_then_hit =
    record { row = pos 1; col = pos 0; state_code = pos 2 }
    ∷ record { row = pos 5; col = pos 0; state_code = pos 3 }
    ∷ record { row = pos 1; col = pos 0; state_code = pos 4 }
    ∷ []

make_grid-newest_example :
    (g : Grid) × (make_grid ship_then_hit (pos 3) ≡ some g) × (cell_at g 1 0 ≡ some (pos 4))
make_grid-newest_example =
    make_grid-newest ship_then_hit 3 1 0 (tt, tt, (tt, tt, (tt, tt, tt))) (omega arith)
      (omega arith)

make_grid-wild_example :
    make_grid
      (ship_then_hit ++ record { row = negsuc 0; col = pos 0; state_code = pos 3 } ∷ [])
      (pos 3)
    ≡ none
make_grid-wild_example =
    make_grid-wild ship_then_hit [] (record { row = negsuc 0; col = pos 0; state_code = pos 3 }) 3
      (refl, refl, inl (λ h. h))

abbrev ten_cells : List ℤ
ten_cells = replicate 10 (pos 4)

row_past_header_example : width (print_grid_header 10) < width (print_grid_row ten_cells 9 true)
row_past_header_example = row_past_header ten_cells 9 true (omega arith) (omega arith)

shot_message-run :
    shot_message (codes "Red") (pos 3) (pos 0) (pos 1) false true true (codes "Carrier") true
    ≡ codes "Red attacks B1 on turn 3: sunk Carrier and ended the duel"
unfolding shot_message coord_label dec_onto
shot_message-run = refl

volley_message-run :
    volley_message
      (codes "Red")
      (pos 7)
      (codes "reply")
      (pos 0)
      (pos 1)
      (codes "why")
      true
      false
      []
      true
      (codes "ok")
    ≡ codes "Red reply #7 B1 => hit => duel over: ok"
unfolding volley_message coord_label dec_onto str_eq
volley_message-run = refl

-- A library that grants every request; the player presses q at once.
abbrev willing : Library
willing = record {
  create_context = λ t side. none;
  listen = λ t side kind. 1 + length t;
  initialize_captain = λ t side. none;
  auto_place_fleet = λ t side. ok (pos 5);
  ctx = λ side. 2;
  link_opponent = λ t side. none;
  start_game = λ t side. none;
  get_public_board = λ t side. error [];
  key_pressed = λ t. b'q';
  arrived = λ t. [];
}

-- One whose captains cannot be initialised.
abbrev refusing : Library
refusing = record willing { initialize_captain = λ t side. some (codes "no") }

abbrev trace_of : Exit → Trace
trace_of (exited code t) = t
trace_of _ = []

run-SafeShutdown_example :
    (u : Trace) × (trace_of (run willing 1 default_config) ≡ shut_down red ∷ shut_down blue ∷ u)
    × ((kind : Kind) → (open_at red kind u ≡ 0) × (open_at blue kind u ≡ 0))
    × SafeShutdown (trace_of (run willing 1 default_config))
unfolding run
run-SafeShutdown_example =
    run-SafeShutdown willing 1 default_config 0 (trace_of (run willing 1 default_config)) refl refl

early_exit_leaks_example : ¬ SafeShutdown (trace_of (run refusing 1 default_config))
unfolding run
early_exit_leaks_example =
    early_exit_leaks refusing 1 default_config 1 (trace_of (run refusing 1 default_config)) refl
      refl refl refl (λ e. cc e)

run_ends_example : run willing 4 default_config ≢ unfinished
run_ends_example = run_ends willing default_config 3 (λ t h. refl)

abbrev cooked : Tty
cooked = record {
  settings = record { canonical = true; echo = true; vmin = 1; vtime = 0; others = 7 };
  input = codes "xq";
}

destroy-settings_example :
    ((use_all (presses 3) (construct true cooked)).1.settings
      ≡ (if true then raw cooked.settings else cooked.settings))
    × ((destroy
          (use_all (press ∷ put_back ∷ press ∷ put_back ∷ []) (construct true cooked))).settings
        ≡ cooked.settings)
destroy-settings_example = destroy-settings true cooked 3 (press ∷ put_back ∷ press ∷ put_back ∷ [])
