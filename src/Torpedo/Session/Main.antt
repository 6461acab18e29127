-- ===== src/Torpedo/Session/Main.antt =====
-- `main` of examples/torpedo/cpp_example/main.cpp, put together.
use nim_brokers.Prelude.{ℕ, []}
use nim_brokers.Torpedo.Config.{Config}
use nim_brokers.Torpedo.EventLog.{new}
use nim_brokers.Torpedo.Session.{
  red, blue, restored, Library, M, ◌>>=◌, ◌>>◌, pure, emit, Handles, Exit, leave,
}
use nim_brokers.Torpedo.Session.Setup.{
  create, register_callbacks, unregister_callbacks, attach, prepare,
}
use nim_brokers.Torpedo.Session.Rounds.{loop}

module _ (lib : Library) where
  abbrev pub cleanup : Handles × Handles → M (Unit {0})
  cleanup h = do emit restored; unregister_callbacks lib red h.0; unregister_callbacks lib blue h.1

  -- All of `main` after the listeners are attached.
  unfoldable pub duel : ℕ → Config → Handles × Handles → M ℕ
  unfolding prepare loop
  duel fuel cfg h = do prepare lib cfg; code ← loop lib fuel cfg; cleanup h; pure code

  unfoldable pub session : ℕ → Config → M ℕ
  unfolding register_callbacks duel unregister_callbacks
  session fuel cfg = do h ← attach lib; duel fuel cfg h

  unfoldable pub body : ℕ → Config → M ℕ
  unfolding session
  body fuel cfg = do create lib red; create lib blue; session fuel cfg

  -- The destructors of `blue` and `red` shut the two contexts down, whichever way `main` returns.
  unfoldable pub run : ℕ → Config → Exit
  unfolding body ◌>>=◌
  run fuel cfg = leave (body fuel cfg (record { trace = []; log = new 24; banner = [] }))
