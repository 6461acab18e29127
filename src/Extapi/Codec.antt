-- ===== src/Extapi/Codec.antt =====
-- examples/extapi/cpp_cimport/codec.cpp. A buffer is the list of its bytes; `none` stands for a
-- read behind its end.
pub mod Laws
use nim_brokers.Prelude.{ℕ, zero, suc, ◌+◌, ◌*◌, ◌%◌, Option, none, some, [], ◌∷◌, Bytes, and_then}

-- One round of `h = h * 31u + buf[i]`.
abbrev pub crc_step : ℕ → ℕ → ℕ
crc_step h b = (h * 31 + b) % 4294967296

unfoldable pub codec_crc : ℕ → Bytes → ℕ → Option ℕ
codec_crc seed buf zero = some seed
codec_crc seed [] (suc len) = none
codec_crc seed (b ∷ buf) (suc len) = codec_crc (crc_step seed b) buf len

unfoldable pub sum_loop : ℕ → Bytes → ℕ → Option ℕ
sum_loop t src zero = some t
sum_loop t [] (suc len) = none
sum_loop t (b ∷ src) (suc len) = sum_loop ((t + b) % 18446744073709551616) src len

-- The status and what is stored through `out`; the pause is left out.
unfoldable pub codec_slow_sum : Bytes → ℕ → Option (ℕ × ℕ)
codec_slow_sum src len = and_then (sum_loop 0 src len) (λ t. some (0, t))
