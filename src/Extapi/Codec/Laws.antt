-- ===== src/Extapi/Codec/Laws.antt =====
-- What `codec_crc` and `codec_slow_sum` compute.
use nim_brokers.Prelude.{
  ℕ, suc, ◌+◌, ◌*◌, ◌%◌, ◌<◌, ◌≡◌, ◌≢◌, refl, ap, ◌∙◌, some, [], ◌∷◌, ◌++◌, Bytes, length, and_then,
  arith,
}
use nim_brokers.Extapi.Codec.{crc_step, codec_crc, sum_loop, codec_slow_sum}

abbrev pub IsBytes : Bytes → Type 0
IsBytes [] = Unit
IsBytes (b ∷ bs) = (b < 256) × IsBytes bs

-- Hashing a buffer in two pieces, the second with the first one's result for a seed, gives the
-- hash of the whole.
pub codec_crc-append :
    (seed len : ℕ) (xs ys : Bytes)
    → codec_crc seed (xs ++ ys) (length xs + len)
      ≡ and_then (codec_crc seed xs (length xs)) (λ h. codec_crc h ys len)
unfolding codec_crc
codec_crc-append seed len [] ys = let e : 0 + len ≡ len = omega arith in rw e
codec_crc-append seed len (x ∷ xs) ys =
    let e : suc (length xs) + len ≡ suc (length xs + len) = omega arith in
    rw e (codec_crc-append (crc_step seed x) len xs ys)

-- The polynomial in 31 without any wrap-around.
abbrev pub horner : ℕ → Bytes → ℕ
horner h [] = h
horner h (b ∷ bs) = horner (h * 31 + b) bs

crc_step-mod : (h b : ℕ) → crc_step (h % 4294967296) b ≡ (h * 31 + b) % 4294967296
crc_step-mod h b = omega arith

codec_crc-mod :
    (bs : Bytes) (h : ℕ)
    → codec_crc (h % 4294967296) bs (length bs) ≡ some (horner h bs % 4294967296)
unfolding codec_crc
codec_crc-mod [] h = refl
codec_crc-mod (b ∷ bs) h =
    ap (λ k. codec_crc k bs (length bs)) (crc_step-mod h b) ∙ codec_crc-mod bs (h * 31 + b)

-- The wrapping loop computes the exact polynomial modulo 2^32.
pub codec_crc-horner :
    (bs : Bytes) (seed : ℕ)
    → seed < 4294967296
    → codec_crc seed bs (length bs) ≡ some (horner seed bs % 4294967296)
codec_crc-horner bs seed h =
    let e : seed % 4294967296 ≡ seed = omega arith in rw e at (codec_crc-mod bs seed)

-- Modulo 2^32 the factor 31 can be divided out.
crc_step-injective :
    (h k b : ℕ) → h < 4294967296 → k < 4294967296 → crc_step h b ≡ crc_step k b → h ≡ k
crc_step-injective h k b hh hk e = omega arith

crc_step-lt : (h b : ℕ) → crc_step h b < 4294967296
crc_step-lt h b = omega arith

codec_crc-injective :
    (bs : Bytes) (h k : ℕ)
    → h < 4294967296
    → k < 4294967296
    → codec_crc h bs (length bs) ≡ codec_crc k bs (length bs)
    → h ≡ k
unfolding codec_crc
codec_crc-injective [] h k hh hk e = cc
codec_crc-injective (b ∷ bs) h k hh hk e =
    crc_step-injective h k b hh hk
      (codec_crc-injective bs (crc_step h b) (crc_step k b) (crc_step-lt h b) (crc_step-lt k b) e)

crc_step_byte : (h b c : ℕ) → b < 256 → c < 256 → crc_step h b ≡ crc_step h c → b ≡ c
crc_step_byte h b c hb hc e = omega arith

-- Two buffers that differ in one byte alone never have the same hash.
pub codec_crc_detects :
    (seed b c : ℕ) (before after : Bytes)
    → seed < 4294967296
    → b < 256
    → c < 256
    → b ≢ c
    → codec_crc seed (before ++ b ∷ after) (length (before ++ b ∷ after))
      ≢ codec_crc seed (before ++ c ∷ after) (length (before ++ c ∷ after))
unfolding codec_crc
codec_crc_detects seed b c [] after hs hb hc ne e = ne (
    crc_step_byte seed b c hb hc
      (codec_crc-injective after _ _ (crc_step-lt seed b) (crc_step-lt seed c) e))
codec_crc_detects seed b c (x ∷ before) after hs hb hc ne e =
    codec_crc_detects (crc_step seed x) b c before after (crc_step-lt seed x) hb hc ne e

abbrev pub sum : Bytes → ℕ
sum [] = 0
sum (b ∷ bs) = b + sum bs

sum_loop-sum :
    (bs : Bytes) (t : ℕ)
    → IsBytes bs
    → t + 256 * length bs < 18446744073709551616
    → sum_loop t bs (length bs) ≡ some (t + sum bs)
unfolding sum_loop
sum_loop-sum [] t h small = ap some (omega arith)
sum_loop-sum (b ∷ bs) t h small =
    let e : (t + b) % 18446744073709551616 ≡ t + b = omega arith in
    ap (λ k. sum_loop k bs (length bs)) e
    ∙ sum_loop-sum bs (t + b) h.1 (omega arith)
    ∙ ap some (omega arith)

-- For every length that a `uint32_t` can hold the sum is exact: its 64 bits never wrap.
pub codec_slow_sum-sum :
    (bs : Bytes)
    → IsBytes bs
    → length bs < 4294967296
    → codec_slow_sum bs (length bs) ≡ some (0, sum bs)
unfolding codec_slow_sum
codec_slow_sum-sum bs h len =
    ap (λ o. and_then o (λ t. some (0, t))) (sum_loop-sum bs 0 h (omega arith))
    ∙ ap (λ t. some (0, t)) (omega arith)
