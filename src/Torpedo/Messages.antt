-- ===== src/Torpedo/Messages.antt =====
-- The lines that the listeners of examples/torpedo/cpp_example/main.cpp put into the event log.
use nim_brokers.Prelude.{
  ℤ, Bool, not, ◌&&◌, Bytes, [], ◌∷◌, ◌++◌, codes, cat, dec_int, snprintf, str_eq, is_empty,
  if◌then◌else◌,
}
use nim_brokers.Torpedo.Cells.{coord_label}

unfoldable pub remark_message : Bytes → Bytes → Bytes → ℤ → Bytes
unfolding snprintf
remark_message captain phase message turn =
    snprintf 512
      (cat (captain ∷ codes " [" ∷ phase ∷ codes "] t" ∷ dec_int turn ∷ codes ": " ∷ message ∷ []))

-- `hit`, `sunk` and `gameOver` are read in this order, and a later one overwrites or extends.
unfoldable pub shot_outcome : Bool → Bool → Bytes → Bool → Bytes
shot_outcome hit sunk ship_name game_over =
    (if sunk then codes "sunk " ++ ship_name else if hit then codes "hit" else codes "miss")
    ++ (if game_over then codes " and ended the duel" else [])

unfoldable pub shot_message : Bytes → ℤ → ℤ → ℤ → Bool → Bool → Bool → Bytes → Bool → Bytes
unfolding shot_outcome snprintf
shot_message captain turn row col incoming hit sunk ship_name game_over = snprintf 512 (
    cat (
      captain
      ∷ codes " "
      ∷ (if incoming then codes "defends" else codes "attacks")
      ∷ codes " "
      ∷ coord_label row col
      ∷ codes " on turn "
      ∷ dec_int turn
      ∷ codes ": "
      ∷ shot_outcome hit sunk ship_name game_over
      ∷ []))

unfoldable pub match_message : Bytes → Bytes → Bytes → ℤ → Bytes
unfolding snprintf
match_message captain outcome message turn = snprintf 512 (
    cat (
      captain ∷ codes " " ∷ outcome ∷ codes " on turn " ∷ dec_int turn ∷ codes ": " ∷ message ∷ []))

-- What the two stages `fire` and `reply` add.
unfoldable pub volley_detail : Bytes → Bytes → Bool → Bool → Bytes → Bool → Bytes
unfolding str_eq
volley_detail stage reasoning hit sunk ship_name game_over =
    (if str_eq stage (codes "fire") && not (is_empty reasoning)
      then codes " [" ++ (reasoning ++ codes "]")
      else [])
    ++ (if str_eq stage (codes "reply")
        then (if sunk
            then codes " => sunk " ++ ship_name
            else if hit
            then codes " => hit"
            else codes " => miss")
          ++ (if game_over then codes " => duel over" else [])
        else [])

unfoldable pub volley_message :
    Bytes → ℤ → Bytes → ℤ → ℤ → Bytes → Bool → Bool → Bytes → Bool → Bytes → Bytes
unfolding volley_detail
volley_message captain exchange_id stage row col reasoning hit sunk ship_name game_over message =
    cat (
      captain
      ∷ codes " "
      ∷ stage
      ∷ codes " #"
      ∷ dec_int exchange_id
      ∷ codes " "
      ∷ coord_label row col
      ∷ volley_detail stage reasoning hit sunk ship_name game_over
      ∷ (if is_empty message then [] else codes ": " ++ message)
      ∷ [])
