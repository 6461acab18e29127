-- ===== src/Queue/Response/Word.antt =====
-- The control word.
use native.Mathlib.Decide.{ℕ_discrete}
use nim_brokers.Prelude.{
  ℕ, zero, suc, ◌<◌, ◌≡◌, ◌≢◌, refl, sym, ap, ◌∙◌, true, false, ◌==◌, ==_iff, arith,
}
use nim_brokers.Queue.Response.{
  ResponseState, empty, writing, ready, abandoned, provider_gone, abandoned_writing, ordinal,
  pack_control, control_gen, control_state, is_at,
}

-- How many generations there are.
abbrev pub gen_mod : ℕ
gen_mod = 4294967296

ordinal-lt : (a : ResponseState) → ordinal a < 256
ordinal-lt empty = omega arith
ordinal-lt writing = omega arith
ordinal-lt ready = omega arith
ordinal-lt abandoned = omega arith
ordinal-lt provider_gone = omega arith
ordinal-lt abandoned_writing = omega arith

pub control_gen-pack :
    (g : ℕ) (a : ResponseState) → g < gen_mod → control_gen (pack_control g a) ≡ g
unfolding control_gen pack_control
control_gen-pack g a h = omega (arith, ordinal-lt a)

pub control_state-pack : (g : ℕ) (a : ResponseState) → control_state (pack_control g a) ≡ ordinal a
unfolding control_state pack_control
control_state-pack g a = omega (arith, ordinal-lt a)

pub pack-same :
    (g : ℕ) (a b : ResponseState)
    → (pack_control g a == pack_control g b) ≡ (ordinal a == ordinal b)
unfolding pack_control
pack-same g a b = ground arith

pub pack-other :
    (g h : ℕ) (a b : ResponseState) → g ≢ h → (pack_control g a == pack_control h b) ≡ false
unfolding pack_control
pack-other g h a b n = ground (arith, ordinal-lt a, ordinal-lt b)

pub is_at-same :
    (g : ℕ) (a b : ResponseState)
    → g < gen_mod
    → is_at g a (pack_control g b) ≡ (ordinal b == ordinal a)
unfolding is_at
is_at-same g a b h = rw (control_gen-pack g b h, control_state-pack g b) (ground arith)

pub is_at-other :
    (g h : ℕ) (a b : ResponseState) → h < gen_mod → g ≢ h → is_at g a (pack_control h b) ≡ false
unfolding is_at
is_at-other g h a b k n = rw (control_gen-pack h b k) (ground arith)

-- A state from its ordinal.
decode : ℕ → ResponseState
decode zero = empty
decode (suc zero) = writing
decode (suc (suc zero)) = ready
decode (suc (suc (suc zero))) = abandoned
decode (suc (suc (suc (suc zero)))) = abandoned_writing
decode (suc (suc (suc (suc (suc n))))) = provider_gone

decode-ordinal : (a : ResponseState) → decode (ordinal a) ≡ a
unfolding decode
decode-ordinal empty = refl
decode-ordinal writing = refl
decode-ordinal ready = refl
decode-ordinal abandoned = refl
decode-ordinal provider_gone = refl
decode-ordinal abandoned_writing = refl

ordinal-inj : (a b : ResponseState) → ordinal a ≡ ordinal b → a ≡ b
ordinal-inj a b e = sym (decode-ordinal a) ∙ ap decode e ∙ decode-ordinal b

-- A test that succeeds shows both halves of the word.
pub is_at-true :
    (g h : ℕ) (b a : ResponseState)
    → h < gen_mod
    → is_at g b (pack_control h a) ≡ true
    → (g ≡ h) × (a ≡ b)
is_at-true g h b a k e = elim (ℕ_discrete g h) [
  | yes same ↦
      let test : (ordinal a == ordinal b) ≡ true =
        sym (is_at-same h b a k) ∙ ap (λ i. is_at i b (pack_control h a)) (sym same) ∙ e in
      (same, ordinal-inj a b ((==_iff (ordinal a) (ordinal b)).0 test))
  | no n ↦ let refused = is_at-other g h b a k n in cc
]

pub pack-true :
    (g h : ℕ) (a b : ResponseState)
    → (pack_control h a == pack_control g b) ≡ true
    → (g ≡ h) × (a ≡ b)
pack-true g h a b e = elim (ℕ_discrete h g) [
  | yes same ↦
      let test : (ordinal a == ordinal b) ≡ true =
        sym (pack-same h a b) ∙ ap (λ i. pack_control h a == pack_control i b) same ∙ e in
      (sym same, ordinal-inj a b ((==_iff (ordinal a) (ordinal b)).0 test))
  | no n ↦ let refused = pack-other h g a b n in cc
]

pub state-zero : (g : ℕ) (a : ResponseState) → control_state (pack_control g a) ≡ 0 → a ≡ empty
state-zero g a e = ordinal-inj a empty (sym (control_state-pack g a) ∙ e)
