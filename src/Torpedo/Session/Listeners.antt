-- ===== src/Torpedo/Session/Listeners.antt =====
-- Which listeners are attached after a trace of events, and how an action moves from one property
-- of the trace to another.
use nim_brokers.Prelude.{ℕ, Bool, true, false, ◌&&◌, ◌==◌, ◌≡◌, [], ◌∷◌, if◌then◌else◌}
use nim_brokers.Torpedo.Session.{
  Side, red, blue, Kind, remark, shot, match, volley, Event, listened, raw_terminal, unlistened,
  shut_down, Trace, State, Step, next, stop, crash, running, M, bind_step, ◌>>=◌, Handles,
}

abbrev pub same_side : Side → Side → Bool
same_side red red = true
same_side blue blue = true
same_side _ _ = false

abbrev pub same_kind : Kind → Kind → Bool
same_kind remark remark = true
same_kind shot shot = true
same_kind match match = true
same_kind volley volley = true
same_kind _ _ = false

-- The handle under which a listener of this kind is attached, or 0.
abbrev pub open_at : Side → Kind → Trace → ℕ
open_at side kind [] = 0
open_at side kind (listened s k h ∷ t) =
    if same_side s side && same_kind k kind then h else open_at side kind t
open_at side kind (unlistened s k h ∷ t) =
    let rest = open_at side kind t in
    if same_side s side && same_kind k kind && h == rest then 0 else rest
open_at side kind (_ ∷ t) = open_at side kind t

-- Each context was shut down with none of its listeners attached.
abbrev pub SafeShutdown : Trace → Type 0
SafeShutdown [] = Unit
SafeShutdown (shut_down side ∷ t) = ((kind : Kind) → open_at side kind t ≡ 0) × SafeShutdown t
SafeShutdown (_ ∷ t) = SafeShutdown t

abbrev pub handle_of : Handles → Kind → ℕ
handle_of h remark = h.remark
handle_of h shot = h.shot
handle_of h match = h.match
handle_of h volley = h.volley

abbrev pub opened : Trace → Bool
opened [] = false
opened (raw_terminal ∷ t) = true
opened (_ ∷ t) = opened t

-- The handles of the two sides' listeners are these, nothing was shut down unsafely, and the
-- terminal has been opened or not.
pub record Holds (is_open : Bool) (r b : Kind → ℕ) (t : Trace) : Type 0 where
  pub stage : opened t ≡ is_open
  pub on_red : (kind : Kind) → open_at red kind t ≡ r kind
  pub on_blue : (kind : Kind) → open_at blue kind t ≡ b kind
  pub safe : SafeShutdown t

-- Neither a listener's coming or going nor a shutdown nor the opening of the terminal.
abbrev pub IsPlain : Event → Type 0
IsPlain (listened _ _ _) = ⊥
IsPlain (unlistened _ _ _) = ⊥
IsPlain (shut_down _) = ⊥
IsPlain raw_terminal = ⊥
IsPlain _ = Unit

pub Holds-cons :
    {o : Bool} {r b : Kind → ℕ} {t : Trace} (e : Event)
    → IsPlain e
    → Holds o r b t
    → Holds o r b (e ∷ t)
Holds-cons (listened _ _ _) n p = absurd n
Holds-cons (unlistened _ _ _) n p = absurd n
Holds-cons (shut_down _) n p = absurd n
Holds-cons raw_terminal n p = absurd n
Holds-cons _ n p = record { stage = p.stage; on_red = p.on_red; on_blue = p.on_blue; safe = p.safe }

-- `P` holds of the trace after a step that goes on, `Q` after one that returns from `main`. Whether
-- a loop may use up its fuel is said by `U`.
abbrev pub After : {A : Type 0} → Type 0 → (Trace → Type 0) → (Trace → Type 0) → Step A → Type 0
After U P Q (next a s) = P s.trace
After U P Q (stop n s) = Q s.trace
After U P Q crash = Unit
After U P Q running = U

-- `m` leads from `P` to `Q`, or returns from `main` with `R`.
pub record Runs {A : Type 0} (U : Type 0) (P Q R : Trace → Type 0) (m : M A) : Type 0 where
  pub at : (s : State) → P s.trace → After U Q R (m s)

module _ {A B : Type 0} {U : Type 0} {Q S R : Trace → Type 0} where
  After-bind :
      (r : Step A) (f : A → M B)
      → After U Q R r
      → ((a : A) → Runs U Q S R (f a))
      → After U S R (bind_step r f)
  After-bind (next a s) f h k = (k a).at s h
  After-bind (stop n s) f h k = h
  After-bind crash f h k = tt
  After-bind running f h k = h

  pub Runs-bind :
      {P : Trace → Type 0} {m : M A} {f : A → M B}
      → Runs U P Q R m
      → ((a : A) → Runs U Q S R (f a))
      → Runs U P S R (m >>= f)
  unfolding ◌>>=◌
  Runs-bind {m} {f} h k = record { at = λ s p. After-bind (m s) f (h.at s p) k }

abbrev pub Never : Trace → Type 0
Never t = ⊥

pub After-map :
    {A : Type 0} (U : Type 0) (P Q P' Q' : Trace → Type 0) (x : Step A)
    → After U P Q x
    → ((t : Trace) → P t → P' t)
    → ((t : Trace) → Q t → Q' t)
    → After U P' Q' x
After-map U P Q P' Q' (next a s) h f g = f s.trace h
After-map U P Q P' Q' (stop n s) h f g = g s.trace h
After-map U P Q P' Q' crash h f g = tt
After-map U P Q P' Q' running h f g = h

pub Runs-map :
    {A : Type 0} {U : Type 0} {P Q R Q' R' : Trace → Type 0} {m : M A}
    → Runs U P Q R m
    → ((t : Trace) → Q t → Q' t)
    → ((t : Trace) → R t → R' t)
    → Runs U P Q' R' m
Runs-map {U} {Q} {R} {Q'} {R'} {m} h f g = record {
  at = λ s p. After-map U Q R Q' R' (m s) (h.at s p) f g;
}
