-- ===== src/Monitor/Format.antt =====
-- What the clients of the device monitor print with, beyond the decimal numbers.
use nim_brokers.Prelude.{
  ℕ, suc, ◌+◌, ◌/◌, ◌%◌, ℤ, pos, negsuc, Bool, true, false, ltb, List, [], ◌∷◌, ◌++◌, Bytes, codes,
  dec, if◌then◌else◌,
}

abbrev pub newline : Bytes
newline = 10 ∷ []

-- The em dash in UTF-8.
abbrev pub em_dash : Bytes
em_dash = 226 ∷ 128 ∷ 148 ∷ []

abbrev pub hex_digit : ℕ → ℕ
hex_digit n = if ltb n 10 then 48 + n else 55 + n

-- %02X of a byte.
abbrev pub hex2 : ℕ → Bytes
hex2 b = hex_digit (b / 16) ∷ hex_digit (b % 16) ∷ []

-- %08X of a number of 32 bits.
abbrev pub hex8 : ℕ → Bytes
hex8 n = hex2 (n / 16777216) ++ hex2 (n / 65536 % 256) ++ hex2 (n / 256 % 256) ++ hex2 (n % 256)

abbrev pub two_digits : ℕ → Bytes
two_digits n = (48 + n / 10) ∷ (48 + n % 10) ∷ []

-- %.2f of a number of hundredths.
unfoldable pub fixed2 : ℤ → Bytes
fixed2 (pos n) = dec (n / 100) ++ codes "." ++ two_digits (n % 100)
fixed2 (negsuc n) = codes "-" ++ dec (suc n / 100) ++ codes "." ++ two_digits (suc n % 100)

abbrev pub yes_no : Bool → Bytes
yes_no true = codes "yes"
yes_no false = codes "no"

abbrev pub on_off_line : Bool → Bytes
on_off_line true = codes "online"
on_off_line false = codes "offline"

abbrev more : {A : Type 0} → (A → Bytes) → List A → Bytes
more f [] = []
more f (x ∷ xs) = codes ", " ++ f x ++ more f xs

-- The elements with commas between them.
abbrev pub commas : {A : Type 0} → (A → Bytes) → List A → Bytes
commas f [] = []
commas f (x ∷ xs) = f x ++ more f xs

abbrev pub quoted : Bytes → Bytes
quoted s = codes "\"" ++ s ++ codes "\""
