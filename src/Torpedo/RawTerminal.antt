-- ===== src/Torpedo/RawTerminal.antt =====
-- RawTerminal of examples/torpedo/cpp_example/main.cpp, on a POSIX system, with the terminal that it
-- works on. The calls of termios are taken to succeed.
pub mod Restored
use nim_brokers.Prelude.{ℕ, zero, Bool, true, false, List, [], ◌∷◌, if◌then◌else◌}

-- The settings that the program changes, and a number for all the others.
pub record Settings : Type 0 where
  pub canonical : Bool
  pub echo : Bool
  pub vmin : ℕ
  pub vtime : ℕ
  pub others : ℕ

abbrev no_settings : Settings
no_settings = record { canonical = false; echo = false; vmin = 0; vtime = 0; others = 0 }

-- The terminal, with the bytes that wait to be read.
pub record Tty : Type 0 where
  pub settings : Settings
  pub input : List ℕ

-- The object.
pub record RawTerminal : Type 0 where
  pub old_settings : Settings
  pub active : Bool

abbrev pub raw : Settings → Settings
raw s = record s { canonical = false; echo = false; vmin = 0; vtime = 0 }

-- The constructor; `isatty` is whether the standard input is a terminal.
unfoldable pub construct : Bool → Tty → RawTerminal × Tty
construct isatty t =
    if isatty
    then (
      record { old_settings = t.settings; active = true },
      record t { settings = raw t.settings },
    )
    else (record { old_settings = no_settings; active = false }, t)

unfoldable pub restore : RawTerminal × Tty → RawTerminal × Tty
restore (r, t) =
    if r.active
    then (record r { active = false }, record t { settings = r.old_settings })
    else (r, t)

-- The first byte that waits, or 0.
abbrev pub read_byte : List ℕ → ℕ × List ℕ
read_byte [] = (0, [])
read_byte (b ∷ bs) = (b, bs)

abbrev pub consumed : Tty → ℕ × List ℕ → ℕ × Tty
consumed t (b, rest) = (b, record t { input = rest })

unfoldable pub key_pressed : RawTerminal → Tty → ℕ × Tty
key_pressed r t = if r.active then consumed t (read_byte t.input) else (0, t)

-- What the program does with the object, and the bytes that it got.
pub data Use : Type 0 where
  press : Use
  put_back : Use

abbrev pub use_once : Use → RawTerminal × Tty → RawTerminal × Tty
use_once press (r, t) = (r, (key_pressed r t).1)
use_once put_back s = restore s

unfoldable pub use_all : List Use → RawTerminal × Tty → RawTerminal × Tty
use_all [] s = s
use_all (u ∷ us) s = use_all us (use_once u s)

-- The destructor.
abbrev pub destroy : RawTerminal × Tty → Tty
destroy s = (restore s).1
