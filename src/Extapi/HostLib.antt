-- ===== src/Extapi/HostLib.antt =====
-- examples/extapi/cpp_host_lib/main.cpp: an application that implements the plugin `notes` for the
-- library storagelib, in its own process.
pub mod Passes
use nim_brokers.Prelude.{
  ℕ, zero, suc, ◌+◌, ◌==◌, ltb, ℤ, pos, Bool, true, false, not, str_eq, List, [], ◌∷◌, ◌++◌, Bytes,
  codes, cat, dec, dec_int, length, if◌then◌else◌,
}
use nim_brokers.Client.{
  Answer, ok, error, Step, next, stop, crash, M, ◌>>=◌, ◌>>◌, pure, return, fail,
}
use nim_brokers.Extapi.Abi.{is_ok}

-- The struct SaveNote.
pub record Note : Type 0 where
  pub id : Bytes
  pub via : Bytes

-- The library and its host's table, whose state is an `S`. `ext_host` says whether the table's pointer
-- is not NULL; `open_at` and `provide` give the statuses of the table's calls for the one port.
-- `save_note` takes the application's closure, and gives the notes that it was invoked with.
pub record Library (S : Type 0) : Type 0 where
  pub create_context : S → Answer (Unit {0}) × S
  pub ext_host : S → Bool × S
  pub open_at : S → ℤ × S
  pub provide : S → ℤ × S
  pub close : S → S
  pub save_note : (Bytes → Bytes) → Bytes → S → (Answer Note × List Bytes) × S
  pub shutdown : S → S

-- The output is its lines, newest first.
pub record World (S : Type 0) : Type 0 where
  pub lib : S
  pub failures : ℕ
  pub stored : ℕ
  pub out : List Bytes

-- The id that the application gives a note.
abbrev pub note_stored : Bytes → Bytes
note_stored text = codes "note-" ++ dec (length text)

abbrev pub is_answer : {A : Type 0} → Answer A → Bool
is_answer (ok a) = true
is_answer (error e) = false

module _ {S : Type 0} where
  abbrev pub say : List Bytes → M (World S) (Unit {0})
  say parts w = next tt (record w { out = cat parts ∷ w.out })

  abbrev pub expect : Bool → Bytes → M (World S) (Unit {0})
  expect cond what w = next tt (record w {
    out = ((if cond then codes "  ok    " else codes "  FAIL  ") ++ what) ∷ w.out;
    failures = if cond then w.failures else w.failures + 1;
  })

  abbrev answered : {A : Type 0} → World S → A × S → Step (World S) A
  answered w (a, s) = next a (record w { lib = s })

  abbrev pub ask : {A : Type 0} → (S → A × S) → M (World S) A
  ask call w = answered w (call w.lib)

  abbrev pub tell : (S → S) → M (World S) (Unit {0})
  tell call w = next tt (record w { lib = call w.lib })

  -- Port::openState, and the names that the Builder was set, of which there is one. A port that is
  -- not kept is closed.
  abbrev pub provided : Library S → ℤ → M (World S) (Answer (Unit {0}))
  provided lib rc =
      if is_ok rc
      then pure (ok tt)
      else (tell lib.close >> pure (error (codes "provide note_stored failed: " ++ dec_int rc)))

  abbrev pub opened : Library S → ℤ → M (World S) (Answer (Unit {0}))
  opened lib rc =
      if is_ok rc
      then (ask lib.provide >>= provided lib)
      else pure (error (codes "open failed: " ++ dec_int rc))

  -- Builder::open, which reads the table behind the pointer.
  abbrev pub open_port : Library S → Bool → M (World S) (Answer (Unit {0}))
  open_port lib false = fail
  open_port lib true = ask lib.open_at >>= opened lib

  abbrev pub count_notes : Answer Note × List Bytes → M (World S) (Answer Note)
  count_notes (r, texts) w = next r (record w { stored = w.stored + length texts })

  abbrev pub save_note : Library S → Bytes → M (World S) (Answer Note)
  save_note lib text = ask (lib.save_note note_stored text) >>= count_notes

  abbrev pub check_saved : Answer Note → M (World S) (Unit {0})
  check_saved (error e) = say (codes "        error: " ∷ e ∷ [])
  check_saved (ok n) = do
    expect (str_eq n.id (codes "note-5")) (codes "id produced by the app's plugin")
    expect (str_eq n.via (codes "notes plugin")) (codes "Nim provider routed through EXTAPI")

  abbrev pub expect_stored : M (World S) (Unit {0})
  expect_stored w = expect (w.stored == 1) (codes "plugin closure invoked once") w

  -- `port.value().close()`; `value()` of an error is undefined.
  abbrev pub close_port : Library S → Answer (Unit {0}) → M (World S) (Unit {0})
  close_port lib (ok p) = tell lib.close
  close_port lib (error e) = fail

  abbrev pub stop_unless : Bool → M (World S) (Unit {0})
  stop_unless true = pure tt
  stop_unless false = return 1

  abbrev pub exit_code : M (World S) ℕ
  exit_code w =
      if ltb 0 w.failures
      then next 1 (record w {
        out = (codes "cpp_host_lib: " ++ dec w.failures ++ codes " check(s) failed") ∷ w.out;
      })
      else next 0 (record w { out = codes "cpp_host_lib: all checks passed" ∷ w.out })

  unfoldable pub main : Library S → M (World S) ℕ
  main lib = do
    say (codes "== scenario 1b: lib mode, plugin implemented by the host app (C++)" ∷ [])
    created ← ask lib.create_context
    expect (is_answer created) (codes "storagelib createContext")
    stop_unless (is_answer created)
    host ← ask lib.ext_host
    expect host (codes "storagelib_extHost()")
    port ← open_port lib host
    expect (is_answer port) (codes "notes Builder.open (provides note_stored)")
    saved ← save_note lib (codes "hello")
    expect (is_answer saved) (codes "SaveNote via the library's (API)")
    check_saved saved
    expect_stored
    close_port lib port
    later ← save_note lib (codes "again")
    expect (not (is_answer later)) (codes "after close: no provider")
    tell lib.shutdown
    exit_code

  abbrev pub at_start : S → World S
  at_start s = record { lib = s; failures = 0; stored = 0; out = [] }
