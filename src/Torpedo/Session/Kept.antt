-- ===== src/Torpedo/Session/Kept.antt =====
-- The calls before the first frame and the rounds of the loop leave the listeners attached.
use nim_brokers.Prelude.{ℤ, Bool, true, false, Option, none, some, ◌∷◌, Bytes}
use nim_brokers.Torpedo.Config.{Config}
use nim_brokers.Torpedo.Status.{PublicBoard}
use nim_brokers.Torpedo.Session.{
  Side, red, blue, Event, created, initialized, placed, linked, started, viewed, drawn, last_read,
  slept, Trace, Answer, ok, error, Library, State, M, ◌>>=◌, pure, emit, checked, again, done,
}
use nim_brokers.Torpedo.Session.Setup.{
  push_log, create, place_answer, initialize, place, link, start,
}
use nim_brokers.Torpedo.Session.Rounds.{
  view, receive, read_last, draw_result, draw, announce, finale, observe, watch, round_end, on_key,
}
use nim_brokers.Torpedo.Session.Listeners.{IsPlain, After, Runs, Runs-bind, Never}

-- `P` is any property that plain events keep.
module _ (lib : Library) (cfg : Config) (U : Type 0) (P : Trace → Type 0)
    (keep : (t : Trace) (e : Event) → IsPlain e → P t → P (e ∷ t)) where
  abbrev pub Prepares : M (Unit {0}) → Type 0
  Prepares = Runs U P P P

  checked-Prepares :
      (e : Event) (r : Option Bytes) (s : State)
      → IsPlain e
      → P s.trace
      → After U P P (checked e r s)
  checked-Prepares e none s n p = keep s.trace e n p
  checked-Prepares e (some err) s n p = keep s.trace e n p

  pub create-Prepares : (side : Side) → Prepares (create lib side)
  create-Prepares side = record { at = λ s p. checked-Prepares (created _ _) _ s tt p }

  place_answer-Prepares :
      (side : Side) (r : Answer ℤ) (s : State) → P s.trace → After U P P (place_answer lib side r s)
  unfolding ◌>>=◌
  place_answer-Prepares side (ok ships) s p = keep s.trace (placed side none) tt p
  place_answer-Prepares side (error e) s p = keep s.trace (placed side (some e)) tt p

  pub initialize-Prepares : (side : Side) → Prepares (initialize lib cfg side)
  initialize-Prepares side = record {
    at = λ s p. checked-Prepares (initialized _ _ _ _ _ _ _) _ s tt p;
  }

  pub place-Prepares : (side : Side) → Prepares (place lib side)
  place-Prepares side = record { at = λ s p. place_answer-Prepares side _ s p }

  pub link-Prepares : (side other : Side) → Prepares (link lib side other)
  link-Prepares side other = record { at = λ s p. checked-Prepares (linked _ _ _) _ s tt p }

  pub start-Prepares : (side : Side) → Prepares (start lib side)
  start-Prepares side = record {
    at = λ s p. checked-Prepares (started _ _) _ (record s { banner = _ }) tt p;
  }

  pub push_log-Prepares : (msg : Bytes) → Prepares (push_log msg)
  push_log-Prepares msg = record { at = λ s p. p }

  -- What the loop does keeps the listeners as they are, and never returns from `main`.
  abbrev pub Keeps : {A : Type 0} → M A → Type 0
  Keeps = Runs U P P Never

  pure-Keeps : {A : Type 0} (a : A) → Keeps (pure a)
  pure-Keeps a = record { at = λ s p. p }

  emit-Keeps : (e : Event) → IsPlain e → Keeps (emit e)
  emit-Keeps e n = record { at = λ s p. keep s.trace e n p }

  draw_result-Keeps : (o : Option Bytes) → Keeps (draw_result lib o)
  draw_result-Keeps none = record { at = λ s p. tt }
  draw_result-Keeps (some f) = record { at = λ s p. keep s.trace (drawn f) tt p }

  draw-Keeps : (r b : PublicBoard) → Keeps (draw lib cfg r b)
  draw-Keeps r b = record { at = λ s p. (draw_result-Keeps _).at s p }

  receive-Keeps : Keeps (receive lib)
  receive-Keeps = record { at = λ s p. p }

  read_last-Keeps : Keeps (read_last lib)
  read_last-Keeps = record { at = λ s p. keep s.trace (last_read _) tt p }

  view-Keeps : (side : Side) → Keeps (view lib side)
  view-Keeps side = record { at = λ s p. keep s.trace (viewed side) tt p }

  announce-Keeps : (r b : Answer PublicBoard) → Keeps (announce lib cfg r b)
  announce-Keeps (ok r) (ok b) = record {
    at = λ s p. (Runs-bind receive-Keeps λ _. draw-Keeps r b).at _ p;
  }
  announce-Keeps (ok r) (error e) = record { at = λ s p. p }
  announce-Keeps (error e) b = record { at = λ s p. p }

  finale-Keeps : Keeps (finale lib cfg)
  unfolding finale
  finale-Keeps = Runs-bind (view-Keeps red) λ r.
      Runs-bind (view-Keeps blue) λ b. Runs-bind (announce-Keeps r b) λ _. emit-Keeps (slept _) tt

  round_end-Keeps : (over : Bool) → Keeps (round_end lib cfg over)
  round_end-Keeps true = Runs-bind finale-Keeps λ _. pure-Keeps (done 0)
  round_end-Keeps false = Runs-bind (emit-Keeps (slept _) tt) λ _. pure-Keeps again

  observe-Keeps : (r b : Answer PublicBoard) → Keeps (observe lib cfg r b)
  unfolding observe
  observe-Keeps (ok r) (ok b) = Runs-bind receive-Keeps λ _.
      Runs-bind read_last-Keeps
        λ _. Runs-bind receive-Keeps λ _. Runs-bind (draw-Keeps r b) λ _. round_end-Keeps _
  observe-Keeps (ok r) (error e) = pure-Keeps (done 1)
  observe-Keeps (error e) b = pure-Keeps (done 1)

  watch-Keeps : Keeps (watch lib cfg)
  unfolding watch
  watch-Keeps = Runs-bind (view-Keeps red) λ r. Runs-bind (view-Keeps blue) λ b. observe-Keeps r b

  pub on_key-Keeps : (quit : Bool) → Keeps (on_key lib cfg quit)
  on_key-Keeps true = pure-Keeps (done 0)
  on_key-Keeps false = watch-Keeps
