-- ===== src/Extapi/HostLib/Passes.antt =====
-- When the application's checks pass.
use nim_brokers.Prelude.{
  ℕ, ◌≡◌, ℤ, Bool, true, false, Bool-cases, inl, inr, ◌&&◌, str_eq, dec, dec_onto, List, [], ◌∷◌,
  Bytes, codes, Option, none, some, if◌then◌else◌,
}
use nim_brokers.Client.{Answer, ok, error, Step, next, stop, crash, running, ◌>>=◌}
use nim_brokers.Extapi.Abi.{is_ok}
use nim_brokers.Extapi.HostLib.{Note, Library, World, main, at_start}

-- storagelib, by whether its name `note_stored` has a provider.
abbrev pub Provided : Type 0
Provided = Bool

-- The provider of SaveNote, saveProv of examples/extapi/nimlib/storagelib.nim.
abbrev pub save_prov : Provided → (Bytes → Bytes) → Bytes → Answer Note × List Bytes
save_prov true reply text = (ok (record { id = reply text; via = codes "notes plugin" }), text ∷ [])
save_prov false reply text = (error (codes "notes plugin: no provider"), [])

-- With a host that answers `open` and `provide` with these statuses.
abbrev pub storagelib : ℤ → ℤ → Library Provided
storagelib open_rc provide_rc = record {
  create_context = λ s. (ok tt, s);
  ext_host = λ s. (true, s);
  open_at = λ s. (open_rc, s);
  provide = λ s. (provide_rc, is_ok provide_rc);
  close = λ s. false;
  save_note = λ reply text s. (save_prov s reply text, s);
  shutdown = λ s. false;
}

-- The code that the program returns, unless it is undefined what it does.
abbrev pub code_of : {S : Type 0} → Step (World S) ℕ → Option ℕ
code_of (next n w) = some n
code_of (stop n w) = some n
code_of crash = none
code_of running = none

-- Against storagelib all checks pass if the host opens the port and lets it provide the name; and if
-- the host refuses either, with whatever status, the program does not report a failure but goes on
-- to close a port that it does not have, which is undefined.
pub main-storagelib :
    (open_rc provide_rc : ℤ)
    → code_of (main (storagelib open_rc provide_rc) (at_start false))
      ≡ (if is_ok open_rc && is_ok provide_rc then some 0 else none)
unfolding main ◌>>=◌ str_eq dec dec_onto
main-storagelib open_rc provide_rc = elim (Bool-cases (is_ok open_rc)) [
  | inl y ↦ elim (Bool-cases (is_ok provide_rc)) [ inl z ↦ rw (y, z) | inr n ↦ rw (y, n) ]
  | inr n ↦ rw n
]
