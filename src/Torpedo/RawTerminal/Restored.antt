-- ===== src/Torpedo/RawTerminal/Restored.antt =====
-- The terminal's settings.
use nim_brokers.Prelude.{
  ℕ, zero, suc, replicate, ◌≡◌, refl, ◌∙◌, ◌⊎◌, inl, inr, Bool, true, false, Bool-cases, List, [],
  ◌∷◌, if◌then◌else◌,
}
use nim_brokers.Torpedo.RawTerminal.{
  Settings, Tty, RawTerminal, raw, construct, restore, key_pressed, Use, press, put_back, use_once,
  use_all, destroy,
}

-- The settings from before are kept or back again.
abbrev Keeps : Settings → RawTerminal × Tty → Type 0
Keeps old (r, t) =
    ((r.active ≡ true) × (r.old_settings ≡ old)) ⊎ ((r.active ≡ false) × (t.settings ≡ old))

construct-Keeps : (isatty : Bool) (t : Tty) → Keeps t.settings (construct isatty t)
unfolding construct
construct-Keeps true t = inl (refl, refl)
construct-Keeps false t = inr (refl, refl)

restore-settings :
    (old : Settings) (s : RawTerminal × Tty) → Keeps old s → (destroy s).settings ≡ old
unfolding restore
restore-settings old (r, t) (inl (a, o)) = rw a o
restore-settings old (r, t) (inr (a, o)) = rw a o

restore-Keeps : (old : Settings) (s : RawTerminal × Tty) → Keeps old s → Keeps old (restore s)
unfolding restore
restore-Keeps old (r, t) (inl (a, o)) = rw a (inr (refl, o))
restore-Keeps old (r, t) (inr (a, o)) = rw a (inr (refl, o))

-- To read a key changes no setting.
key_pressed-settings : (r : RawTerminal) (t : Tty) → (key_pressed r t).1.settings ≡ t.settings
unfolding key_pressed
key_pressed-settings r t = elim (Bool-cases r.active) [ inl y ↦ rw y | inr n ↦ rw n ]

use_once-Keeps :
    (old : Settings) (u : Use) (s : RawTerminal × Tty) → Keeps old s → Keeps old (use_once u s)
use_once-Keeps old press (r, t) (inl k) = inl k
use_once-Keeps old press (r, t) (inr (a, o)) = inr (a, key_pressed-settings r t ∙ o)
use_once-Keeps old put_back s k = restore-Keeps old s k

use_all-Keeps :
    (old : Settings) (us : List Use) (s : RawTerminal × Tty)
    → Keeps old s
    → Keeps old (use_all us s)
unfolding use_all
use_all-Keeps old [] s k = k
use_all-Keeps old (u ∷ us) s k = use_all-Keeps old us (use_once u s) (use_once-Keeps old u s k)

abbrev pub presses : ℕ → List Use
presses n = replicate n press

use_all-presses :
    (n : ℕ) (r : RawTerminal) (t : Tty) → (use_all (presses n) (r, t)).1.settings ≡ t.settings
unfolding use_all
use_all-presses zero r t = refl
use_all-presses (suc n) r t = use_all-presses n r (key_pressed r t).1 ∙ key_pressed-settings r t

construct-settings :
    (isatty : Bool) (t : Tty)
    → (construct isatty t).1.settings ≡ (if isatty then raw t.settings else t.settings)
unfolding construct
construct-settings true t = refl
construct-settings false t = refl

-- A terminal is in raw mode while keys are read; and however the keys are read, and however often the
-- settings are put back before the end, the destructor leaves the settings of before.
pub destroy-settings :
    (isatty : Bool) (t : Tty) (n : ℕ) (us : List Use)
    → ((use_all (presses n) (construct isatty t)).1.settings
        ≡ (if isatty then raw t.settings else t.settings))
      × ((destroy (use_all us (construct isatty t))).settings ≡ t.settings)
destroy-settings isatty t n us = (
  use_all-presses n (construct isatty t).0 (construct isatty t).1 ∙ construct-settings isatty t,
  restore-settings t.settings _
      (use_all-Keeps t.settings us (construct isatty t) (construct-Keeps isatty t)),
)
