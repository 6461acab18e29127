-- ===== src/Torpedo/Config.antt =====
-- `Config`, `printUsage` and `parseArgs` of examples/torpedo/cpp_example/main.cpp. Texts are lists
-- of bytes. The delays, which the source gives in seconds as `double`, are hundredths of a second.
pub mod Args
use nim_brokers.Prelude.{
  ℕ, ℤ, pos, Bool, true, false, not, ◌||◌, Option, none, some, List, [], ◌∷◌, Bytes, codes, str_eq,
  atoi, if◌then◌else◌, cat,
}

pub record Config : Type 0 where
  pub seed_red : ℤ
  pub seed_blue : ℤ
  pub board_size : ℤ
  pub starter_is_red : Bool
  pub fast : Bool

abbrev pub default_config : Config
default_config = record {
  seed_red = pos 101;
  seed_blue = pos 202;
  board_size = pos 8;
  starter_is_red = true;
  fast = false;
}

-- Hundredths of a second.
unfoldable pub refresh_delay : Config → ℕ
refresh_delay cfg = if cfg.fast then 5 else 18

-- Milliseconds.
unfoldable pub turn_delay_ms : Config → ℕ
turn_delay_ms cfg = if cfg.fast then 120 else 650

-- Hundredths of a second.
unfoldable pub end_delay : Config → ℕ
end_delay cfg = if cfg.fast then 20 else 100

unfoldable pub print_usage : Bytes → Bytes
print_usage prog = cat (
    codes "Usage: "
    ∷ prog
    ∷ codes " [OPTIONS]\n"
    ∷ codes "\n"
    ∷ codes "Run the Torpedo Duel text UI\n"
    ∷ codes "\n"
    ∷ codes "Options:\n"
    ∷ codes "  --fast              reduce delays for quicker runs\n"
    ∷ codes "  --seed-red N        seed for Red Fleet (default: 101)\n"
    ∷ codes "  --seed-blue N       seed for Blue Fleet (default: 202)\n"
    ∷ codes "  --board-size N      board size (default: 8)\n"
    ∷ codes "  --starter red|blue  which fleet opens the duel (default: red)\n"
    ∷ codes "  --help              show this message and exit\n"
    ∷ codes "\n"
    ∷ codes "Controls:\n"
    ∷ codes "  q / Q               quit immediately\n"
    ∷ [])

-- How `parseArgs` ends: with a configuration, by `exit(0)` after the usage text, or with a number
-- that `atoi` is undefined on.
pub data Parsed : Type 0 where
  parsed : Config → Parsed
  help : Bytes → Parsed
  undefined : Parsed

abbrev with_number : Option ℤ → (ℤ → Parsed) → Parsed
with_number none k = undefined
with_number (some z) k = k z

-- The loop over argv[1..]. An option that takes a value is skipped when it stands last.
unfoldable pub parse_rest : Bytes → Config → List Bytes → Parsed
parse_rest prog cfg [] = parsed cfg
parse_rest prog cfg (arg ∷ []) =
    if str_eq arg (codes "--help") || str_eq arg (codes "-h")
    then help (print_usage prog)
    else if str_eq arg (codes "--fast")
    then parsed (record cfg { fast = true })
    else parsed cfg
parse_rest prog cfg (arg ∷ value ∷ rest) =
    let skip = parse_rest prog cfg (value ∷ rest) in
    let quick = parse_rest prog (record cfg { fast = true }) (value ∷ rest) in
    let starter =
      parse_rest prog (record cfg { starter_is_red = not (str_eq value (codes "blue")) }) rest in
    let red = with_number (atoi value) (λ z. parse_rest prog (record cfg { seed_red = z }) rest) in
    let blue =
      with_number (atoi value) (λ z. parse_rest prog (record cfg { seed_blue = z }) rest) in
    let size =
      with_number (atoi value) (λ z. parse_rest prog (record cfg { board_size = z }) rest) in
    if str_eq arg (codes "--help") || str_eq arg (codes "-h")
    then help (print_usage prog)
    else if str_eq arg (codes "--fast")
    then quick
    else if str_eq arg (codes "--starter")
    then starter
    else if str_eq arg (codes "--seed-red")
    then red
    else if str_eq arg (codes "--seed-blue")
    then blue
    else if str_eq arg (codes "--board-size")
    then size
    else skip

unfoldable pub parse_args : List Bytes → Parsed
unfolding parse_rest
parse_args [] = parsed default_config
parse_args (prog ∷ args) = parse_rest prog default_config args
