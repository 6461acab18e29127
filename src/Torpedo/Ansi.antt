-- ===== src/Torpedo/Ansi.antt =====
-- namespace ansi of examples/torpedo/cpp_example/main.cpp. 27 is the escape byte.
use nim_brokers.Prelude.{Bytes, ◌∷◌, ◌++◌, codes}

abbrev pub reset : Bytes
reset = 27 ∷ codes "[0m"

abbrev pub bold : Bytes
bold = 27 ∷ codes "[1m"

abbrev pub dim : Bytes
dim = 27 ∷ codes "[2m"

abbrev pub red : Bytes
red = 27 ∷ codes "[31m"

abbrev pub green : Bytes
green = 27 ∷ codes "[32m"

abbrev pub yellow : Bytes
yellow = 27 ∷ codes "[33m"

abbrev pub blue : Bytes
blue = 27 ∷ codes "[34m"

abbrev pub cyan : Bytes
cyan = 27 ∷ codes "[36m"

abbrev pub white : Bytes
white = 27 ∷ codes "[37m"

abbrev pub clear_screen : Bytes
clear_screen = 27 ∷ codes "[2J" ++ 27 ∷ codes "[H"
