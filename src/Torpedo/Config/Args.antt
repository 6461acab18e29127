-- ===== src/Torpedo/Config/Args.antt =====
-- `parseArgs` against the command line that spells out a configuration.
use nim_brokers.Prelude.{
  ℤ, Bool, true, false, ◌≡◌, List, [], ◌∷◌, Bytes, codes, str_eq, dec_int, atoi-dec_int, IsInt32,
  if◌then◌else◌,
}
use nim_brokers.Torpedo.Config.{Config, parsed, parse_args}

-- The options that a user types to ask for `cfg`.
abbrev pub spell : Config → List Bytes
spell cfg =
    codes "--starter"
    ∷ (if cfg.starter_is_red then codes "red" else codes "blue")
    ∷ codes "--seed-red"
    ∷ dec_int cfg.seed_red
    ∷ codes "--seed-blue"
    ∷ dec_int cfg.seed_blue
    ∷ codes "--board-size"
    ∷ dec_int cfg.board_size
    ∷ (if cfg.fast then codes "--fast" ∷ [] else [])

pub record InRange (cfg : Config) : Type 0 where
  pub red : IsInt32 cfg.seed_red
  pub blue : IsInt32 cfg.seed_blue
  pub size : IsInt32 cfg.board_size

module _ (red blue size : ℤ) (hr : IsInt32 red) (hb : IsInt32 blue) (hs : IsInt32 size) where
  abbrev config : Bool → Bool → Config
  config starter fast = record {
    seed_red = red;
    seed_blue = blue;
    board_size = size;
    starter_is_red = starter;
    fast = fast;
  }

  parse_args-config :
      (prog : Bytes) (starter fast : Bool)
      → parse_args (prog ∷ spell (config starter fast)) ≡ parsed (config starter fast)
  unfolding parse_args str_eq
  parse_args-config prog true true =
      rw (atoi-dec_int red hr, atoi-dec_int blue hb, atoi-dec_int size hs)
  parse_args-config prog true false =
      rw (atoi-dec_int red hr, atoi-dec_int blue hb, atoi-dec_int size hs)
  parse_args-config prog false true =
      rw (atoi-dec_int red hr, atoi-dec_int blue hb, atoi-dec_int size hs)
  parse_args-config prog false false =
      rw (atoi-dec_int red hr, atoi-dec_int blue hb, atoi-dec_int size hs)

-- For every configuration whose numbers are of type `int`, parsing the command line that spells
-- it out gives that configuration.
pub parse_args-spell :
    (prog : Bytes) (cfg : Config) → InRange cfg → parse_args (prog ∷ spell cfg) ≡ parsed cfg
parse_args-spell prog cfg h =
    parse_args-config cfg.seed_red cfg.seed_blue cfg.board_size h.red h.blue h.size prog
      cfg.starter_is_red cfg.fast
