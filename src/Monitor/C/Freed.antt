-- ===== src/Monitor/C/Freed.antt =====
-- The C client frees what it is handed.
use nim_brokers.Prelude.{
  ℕ, ◌≡◌, refl, ap, ◌⊎◌, inl, inr, ℤ, pos, ltb_ℤ, Bool-cases, List, [], ◌∷◌, none, some, Bytes,
  codes,
}
use nim_brokers.Client.{Step, next, stop, crash, running, M, ◌>>=◌, pure, After, Runs, Runs-bind}
use nim_brokers.Monitor.C.Types.{
  Text, Configured, Library, create_context_result, initialize_result,
}
use nim_brokers.Monitor.C.Callbacks.{World}
use nim_brokers.Monitor.C.Queries.{device_line, name_line}
use nim_brokers.Monitor.C.Sound.{
  IsSound, Has, Ended, Leads, obtain-bind, ask-bind, free-Leads, shutdown-Leads, Keeps, said,
}
use nim_brokers.Monitor.C.Main.{
  schema_status, verify_schema, created, register, configured, clean_up, summary, monitor, body,
  Exit, exited, crashed, unfinished, exit_of, main,
}
use nim_brokers.Monitor.C.Frees.{
  add_devices-Frees, list_all-Frees, query_single-Frees, remove_one-Frees, type_demos-Frees,
}

module _ (hash : Bytes) {S : Type 0} (lib : Library S) (ok : IsSound lib) where
  -- The context is open, and no result is held.
  abbrev Open : ℕ → World S → Type 0
  Open ctx w = Has [] (ctx ∷ []) w

  abbrev Empty : World S → Type 0
  Empty w = Has [] [] w

  schema_status-Leads : (r : ℤ × Bytes) → Leads Empty Empty (schema_status hash lib r)
  unfolding ◌>>=◌
  schema_status-Leads (rc, lib_hash) = elim (Bool-cases (ltb_ℤ rc (pos 0))) [
    | inl y ↦ rw y (record { at = λ w p. (refl, p) })
    | inr n ↦ rw n (record { at = λ w p. p })
  ]

  verify_schema-Leads : Leads Empty Empty (verify_schema hash lib)
  verify_schema-Leads =
      said [] [] _ _ (λ w p. p)
        λ _.
          said [] [] _ _ (λ w p. p)
            λ _. ask-bind _ _ (λ w s p. p) λ s. schema_status-Leads (lib.verify_schema hash s).0

  -- It returns, or hands on the context that it has opened.
  abbrev Opens : M (World S) ℕ → Type 0
  Opens m = Runs ⊥ ⊥ Empty Open Ended m

  created-Opens :
      (e : Text) (ctx : ℕ)
      → Runs ⊥ ⊥ (Has (create_context_result ∷ []) []) Open Ended (created hash e ctx)
  created-Opens (some e) ctx =
      said (create_context_result ∷ []) [] _ _ (λ w p. p)
        λ _.
          Runs-bind (free-Leads create_context_result [] []) λ _. record { at = λ w p. (refl, p) }
  created-Opens none ctx =
      Runs-bind {Q = λ _. Has (create_context_result ∷ []) (ctx ∷ [])}
        (record { at = λ w p. (p.0, ap (λ k. ctx ∷ k) p.1) })
        λ _. Runs-bind (free-Leads create_context_result [] (ctx ∷ [])) λ _.
          said [] (ctx ∷ []) {Q = Open} _ (λ u. pure ctx) (λ w p. p) λ _. record { at = λ w p. p }

  register-Keeps : (c : List ℕ) → Keeps [] c (register hash lib)
  unfolding ◌>>=◌
  register-Keeps c = record { at = λ w p. p }

  configured-Keeps :
      (ctx : ℕ) (e : Text) (k : Configured)
      → Leads (Has (initialize_result ∷ []) (ctx ∷ [])) (Open ctx) (configured hash lib ctx e k)
  configured-Keeps ctx (some e) k =
      said (initialize_result ∷ []) (ctx ∷ []) _ _ (λ w p. p)
        λ _.
          Runs-bind (free-Leads initialize_result [] (ctx ∷ []))
            λ _. Runs-bind (shutdown-Leads lib ctx [] []) λ _. record { at = λ w p. (refl, p) }
  configured-Keeps ctx none k =
      said (initialize_result ∷ []) (ctx ∷ []) _ _ (λ w p. p)
        λ _. Runs-bind (free-Leads initialize_result [] (ctx ∷ [])) λ _. record { at = λ w p. p }

  clean_up-Leads : (ctx h : ℕ) → Leads (Open ctx) Empty (clean_up hash lib ctx h)
  clean_up-Leads ctx h =
      said [] (ctx ∷ []) _ _ (λ w p. p)
        λ _.
          said [] (ctx ∷ []) _ _ (λ w p. p)
            λ _.
              said [] (ctx ∷ []) _ _ (λ w p. p)
                λ _.
                  said [] (ctx ∷ []) _ _ (λ w p. p)
                    λ _.
                      said [] (ctx ∷ []) _ _ (λ w p. p)
                        λ _.
                          said [] (ctx ∷ []) _ _ (λ w p. p)
                            λ _.
                              Runs-bind (shutdown-Leads lib ctx [] []) λ _. record { at = λ w p. p }

  -- The end, with nothing left behind.
  abbrev Done : ℕ → World S → Type 0
  Done code w = (code ≡ 0) × Empty w

  ended : Runs ⊥ ⊥ Empty Done Ended (summary hash >>= λ _. pure 0)
  unfolding ◌>>=◌
  ended = record { at = λ w p. (refl, p) }

  monitor-Done : (ctx h : ℕ) → Runs ⊥ ⊥ (Open ctx) Done Ended (monitor hash lib ctx h)
  unfolding monitor
  monitor-Done ctx h = Runs-bind (add_devices-Frees lib ok (ctx ∷ [])) λ ids.
      Runs-bind (list_all-Frees lib ok (ctx ∷ []) (codes "5. List all devices") device_line) λ _.
        Runs-bind (query_single-Frees lib ok (ctx ∷ []) ids.sensor) λ _.
          Runs-bind (remove_one-Frees lib ok (ctx ∷ []) ids.cam) λ _.
            Runs-bind
              (list_all-Frees lib ok (ctx ∷ []) (codes "8. List devices after removal") name_line)
              λ _.
                Runs-bind (type_demos-Frees lib ok (ctx ∷ []) ids)
                  λ _. Runs-bind (clean_up-Leads ctx h) λ _. ended

  body-Done : Runs ⊥ ⊥ Empty Done Ended (body hash lib)
  unfolding body
  body-Done = Runs-bind verify_schema-Leads λ _.
      Runs-bind
        (said [] [] _ _ (λ w p. p)
          λ _. obtain-bind create_context_result _ _ [] [] λ s. created-Opens _ _)
        λ ctx. Runs-bind (register-Keeps (ctx ∷ [])) λ h.
          Runs-bind
            (said [] (ctx ∷ []) _ _ (λ w p. p)
              λ _. obtain-bind initialize_result _ _ [] (ctx ∷ []) λ s. configured-Keeps ctx _ _)
            λ _. monitor-Done ctx h

-- The program has exited with 0 or 1, all that it was handed is freed, and the context is shut down.
abbrev pub Freed : {S : Type 0} → Exit S → Type 0
Freed (exited code w) = ((code ≡ 0) ⊎ (code ≡ 1)) × Has [] [] w
Freed crashed = ⊥
Freed unfinished = ⊥

exit_of-Freed :
    {S : Type 0} (r : Step (World S) ℕ)
    → After ⊥ ⊥ (λ code w. (code ≡ 0) × Has [] [] w) Ended r
    → Freed (exit_of r)
exit_of-Freed (next code w) (e, p) = (inl e, p)
exit_of-Freed (stop code w) (e, p) = (inr e, p)
exit_of-Freed crash p = p
exit_of-Freed running p = p

-- Against every library whose arrays are as long as their counts say, whatever it answers, the C
-- client ends with 0 or 1, without reading behind an array or freeing what it does not hold; when it
-- does, it has freed each result that it was handed and shut down the context that it has created.
pub main-Freed :
    {S : Type 0} (hash : Bytes) (lib : Library S) (s : S) → IsSound lib → Freed (main hash lib s)
unfolding main
main-Freed hash lib s ok = exit_of-Freed _ ((body-Done hash lib ok).at _ (refl, refl))
