-- ===== src/Torpedo/Session/Rounds.antt =====
-- The observer loop of `main` of examples/torpedo/cpp_example/main.cpp, on fuel.
use nim_brokers.Prelude.{
  ℕ, zero, suc, Bool, ◌||◌, Option, none, some, ◌∷◌, ◌++◌, Bytes, codes, is_empty, ◌==◌,
  if◌then◌else◌,
}
use nim_brokers.Torpedo.Config.{Config, refresh_delay, end_delay}
use nim_brokers.Torpedo.EventLog.{push_all, last}
use nim_brokers.Torpedo.Status.{PublicBoard}
use nim_brokers.Torpedo.Screen.{draw_screen}
use nim_brokers.Torpedo.Session.{
  Side, red, blue, key_read, viewed, drawn, last_read, slept, Answer, ok, error, Library, next,
  crash, running, M, ◌>>=◌, ◌>>◌, pure, emit, Verdict, again, done,
}

-- `break` leaves the loop with the exit code.
abbrev pub next_round : Verdict → M ℕ → M ℕ
next_round again rest = rest
next_round (done code) rest = pure code

module _ (lib : Library) where
  open lib use {get_public_board, key_pressed, arrived}

  abbrev pub view : Side → M (Answer PublicBoard)
  view side s =
      let r = get_public_board s.trace side in next r (record s { trace = viewed side ∷ s.trace })

  -- The messages that have come in are in the log before it is read.
  abbrev pub receive : M (Unit {0})
  receive s = next tt (record s { log = push_all s.log (arrived s.trace) })

  abbrev pub read_last : M (Unit {0})
  read_last s =
      let entry = last s.log in
      next tt (record s {
        trace = last_read entry ∷ s.trace;
        banner = if is_empty entry then s.banner else entry;
      })

  abbrev pub draw_result : Option Bytes → M (Unit {0})
  draw_result none s = crash
  draw_result (some frame) s = emit (drawn frame) s

  abbrev pub draw : Config → PublicBoard → PublicBoard → M (Unit {0})
  draw cfg r b s = draw_result (draw_screen r b s.log s.banner cfg) s

  abbrev pub winner : PublicBoard → PublicBoard → Bytes
  winner r b =
      if b.has_won
      then codes "Blue Fleet"
      else if r.has_won
      then codes "Red Fleet"
      else codes "Unknown"

  -- The last frame, where both boards can still be read.
  abbrev pub announce : Config → Answer PublicBoard → Answer PublicBoard → M (Unit {0})
  announce cfg (ok r) (ok b) s =
      (receive >> draw cfg r b) (record s { banner = winner r b ++ codes " wins the duel" })
  announce cfg (ok r) (error _) s = next tt s
  announce cfg (error _) b s = next tt s

  unfoldable pub finale : Config → M (Unit {0})
  finale cfg = do r ← view red; b ← view blue; announce cfg r b; emit (slept (end_delay cfg))

  abbrev pub round_end : Config → Bool → M Verdict
  round_end cfg over =
      if over
      then (finale cfg >> pure (done 0))
      else (emit (slept (refresh_delay cfg)) >> pure again)

  unfoldable pub observe : Config → Answer PublicBoard → Answer PublicBoard → M Verdict
  unfolding finale
  observe cfg (ok r) (ok b) = do
    receive
    read_last
    receive
    draw cfg r b
    round_end cfg (r.game_over || b.game_over)
  observe cfg (ok r) (error _) = pure (done 1)
  observe cfg (error _) b = pure (done 1)

  unfoldable pub watch : Config → M Verdict
  unfolding observe
  watch cfg = do r ← view red; b ← view blue; observe cfg r b

  abbrev pub on_key : Config → Bool → M Verdict
  on_key cfg quit = if quit then pure (done 0) else watch cfg

  -- One round of `for (;;)`.
  unfoldable pub frame : Config → M Verdict
  unfolding watch
  frame cfg s =
      let key = key_pressed s.trace in
      on_key cfg (key == b'q' || key == b'Q') (record s { trace = key_read key ∷ s.trace })

  unfoldable pub loop : ℕ → Config → M ℕ
  unfolding frame
  loop zero cfg = λ s. running
  loop (suc fuel) cfg = frame cfg >>= λ v. let rest = loop fuel cfg in next_round v rest
