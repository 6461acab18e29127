-- ===== src/Client.antt =====
-- What the programs in C and C++ that use a generated library have in common: `main` as a function on
-- a world, which is what it and its library keep, with the ways it can end.
use nim_brokers.Prelude.{ℕ, Bytes, Bool, true, false, List, [], ◌∷◌}

-- `Result<T>`.
pub data Answer {ℓ} (A : Type ℓ) : Type ℓ where
  ok : A → Answer A
  error : Bytes → Answer A

-- `stop n` is `return n` from `main`. `crash` is undefined behaviour or a failed assertion, `running`
-- a loop that goes on behind what has been given to it.
pub data Step {ℓ κ} (W : Type ℓ) (A : Type κ) : Type (ℓ ⊔ κ) where
  next : A → W → Step W A
  stop : ℕ → W → Step W A
  crash : Step W A
  running : Step W A

abbrev pub M : Type 0 → Type 0 → Type 0
M W A = W → Step W A

abbrev pub bind_step : {W A B : Type 0} → Step W A → (A → M W B) → Step W B
bind_step (next a w) f = f a w
bind_step (stop n w) f = stop n w
bind_step crash f = crash
bind_step running f = running

infixl 5 ◌>>=◌ ◌>>◌
unfoldable pub ◌>>=◌ : {W A B : Type 0} → M W A → (A → M W B) → M W B
◌>>=◌ m f w = bind_step (m w) f

abbrev pub ◌>>◌ : {W A B : Type 0} → M W A → M W B → M W B
m >> n = m >>= λ _. n

abbrev pub pure : {W A : Type 0} → A → M W A
pure a w = next a w

abbrev pub return : {W A : Type 0} → ℕ → M W A
return n w = stop n w

abbrev pub fail : {W A : Type 0} → M W A
fail w = crash

abbrev pub still_running : {W A : Type 0} → M W A
still_running w = running

-- assert(b), in a build that has assertions.
abbrev pub assert : {W : Type 0} → Bool → M W (Unit {0})
assert true = pure tt
assert false = fail

-- A loop over a range.
abbrev pub for_each : {W A : Type 0} → List A → (A → M W (Unit {0})) → M W (Unit {0})
for_each [] f = pure tt
for_each (x ∷ xs) f = f x >>= λ _. for_each xs f

-- How a step ends: `Q` after one that goes on, `R` after a return; `C` says whether it may crash, `U`
-- whether it may go on for ever.
abbrev pub After :
    {W A : Type 0} → Type 0 → Type 0 → (A → W → Type 0) → (ℕ → W → Type 0) → Step W A → Type 0
After C U Q R (next a w) = Q a w
After C U Q R (stop n w) = R n w
After C U Q R crash = C
After C U Q R running = U

-- From `P`, `m` leads to `Q`, or returns with `R`.
pub record Runs {W A : Type 0} (C U : Type 0) (P : W → Type 0) (Q : A → W → Type 0)
    (R : ℕ → W → Type 0) (m : M W A) : Type 0 where
  pub at : (w : W) → P w → After C U Q R (m w)

module _ {W A B : Type 0} {C U : Type 0} {Q : A → W → Type 0} {S : B → W → Type 0}
    {R : ℕ → W → Type 0} where
  After-bind :
      (r : Step W A) (f : A → M W B)
      → After C U Q R r
      → ((a : A) → Runs C U (Q a) S R (f a))
      → After C U S R (bind_step r f)
  After-bind (next a w) f h k = (k a).at w h
  After-bind (stop n w) f h k = h
  After-bind crash f h k = h
  After-bind running f h k = h

  pub Runs-bind :
      {P : W → Type 0} {m : M W A} {f : A → M W B}
      → Runs C U P Q R m
      → ((a : A) → Runs C U (Q a) S R (f a))
      → Runs C U P S R (m >>= f)
  unfolding ◌>>=◌
  Runs-bind {m} {f} h k = record { at = λ w p. After-bind (m w) f (h.at w p) k }

pub Runs-for_each :
    {W A C U : Type 0} {P : W → Type 0} {R : ℕ → W → Type 0} (xs : List A) (f : A → M W (Unit {0}))
    → ((x : A) → Runs C U P (λ _. P) R (f x))
    → Runs C U P (λ _. P) R (for_each xs f)
Runs-for_each [] f h = record { at = λ w p. p }
Runs-for_each (x ∷ xs) f h = Runs-bind (h x) (λ _. Runs-for_each xs f h)
