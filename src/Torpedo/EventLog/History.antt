-- ===== src/Torpedo/EventLog/History.antt =====
-- The log against the history of the messages pushed.
use nim_brokers.Prelude.{
  ℕ, suc, ◌-◌, ◌<◌, ◌≡◌, refl, sym, ap, false, true, ◌∙◌, inl, inr, List, [], ◌∷◌, ◌++◌, Bytes,
  length, drop, length-append, drop-length, drop-append, drop-drop, append_assoc, append-nil, ltb,
  Bool-cases, arith,
}
use nim_brokers.Torpedo.EventLog.{EventLog, new, trim, push, snapshot, last_of, last, push_all}

-- The loop leaves the newest `n` entries.
trim-drop : (n : ℕ) (xs : List Bytes) → trim n xs ≡ drop (length xs - n) xs
unfolding trim
trim-drop n [] = let e : 0 - n ≡ 0 = omega arith in rw e
trim-drop n (x ∷ xs) = elim (Bool-cases (ltb n (suc (length xs)))) [
  | inl over ↦
      let e : suc (length xs) - n ≡ suc (length xs - n) = ground arith in
      rw (over, e) (trim-drop n xs)
  | inr fits ↦ let e : suc (length xs) - n ≡ 0 = ground arith in rw (fits, e)
]

-- The log holds the newest messages of `history`.
abbrev pub Shows : EventLog → List Bytes → Type 0
Shows log history = log.entries ≡ drop (length history - log.max_entries) history

shown-append :
    (max : ℕ) (xs history : List Bytes) (msg : Bytes)
    → xs ≡ drop (length history - max) history
    → drop (length (xs ++ msg ∷ []) - max) (xs ++ msg ∷ [])
      ≡ drop (length (history ++ msg ∷ []) - max) (history ++ msg ∷ [])
shown-append max xs history msg e =
    let old = length history - max in
    let joined : xs ++ msg ∷ [] ≡ drop old (history ++ msg ∷ []) =
      rw e (sym (drop-append old history (msg ∷ []) (omega arith))) in
    rw joined (
      drop-drop (length (drop old (history ++ msg ∷ [])) - max) old
        (length (history ++ msg ∷ []) - max) (history ++ msg ∷ [])
        (omega (arith, drop-length old (history ++ msg ∷ []), length-append history (msg ∷ []))))

push-Shows :
    (log : EventLog) (msg : Bytes) (history : List Bytes)
    → Shows log history
    → Shows (push log msg) (history ++ msg ∷ [])
unfolding push
push-Shows log msg history h =
    trim-drop log.max_entries (log.entries ++ msg ∷ [])
    ∙ shown-append log.max_entries log.entries history msg h

push_all-Shows :
    (msgs : List Bytes) (log : EventLog) (history : List Bytes)
    → Shows log history
    → Shows (push_all log msgs) (history ++ msgs)
unfolding push_all
push_all-Shows [] log history h = rw append-nil h
push_all-Shows (m ∷ ms) log history h =
    rw (← append_assoc history (m ∷ []) ms)
      (push_all-Shows ms (push log m) (history ++ m ∷ []) (push-Shows log m history h))

push_all-max :
    (msgs : List Bytes) (log : EventLog) → (push_all log msgs).max_entries ≡ log.max_entries
unfolding push_all push
push_all-max [] log = refl
push_all-max (m ∷ ms) log = push_all-max ms (push log m)

-- A log made for `n` entries shows, after any pushes in any order, the `n` newest messages, or all
-- of them if there are fewer, oldest first.
pub snapshot-push_all :
    (n : ℕ) (msgs : List Bytes) → snapshot (push_all (new n) msgs) ≡ drop (length msgs - n) msgs
unfolding snapshot
snapshot-push_all n msgs =
    let nothing : ◌≡◌ {A = List Bytes} [] (drop (0 - n) []) =
      (let e : 0 - n ≡ 0 = omega arith in rw e) in
    push_all-Shows msgs (new n) [] (unfold new in nothing)
    ∙ (let e : (push_all (new n) msgs).max_entries ≡ n =
          push_all-max msgs (new n) ∙ (unfold new in refl) in
        rw e)

last_of-append : (xs : List Bytes) (msg : Bytes) → last_of (xs ++ msg ∷ []) ≡ msg
last_of-append [] msg = refl
last_of-append (x ∷ []) msg = refl
last_of-append (x ∷ y ∷ xs) msg = last_of-append (y ∷ xs) msg

trim-last :
    (n : ℕ) (xs : List Bytes) (msg : Bytes) → 0 < n → last_of (trim n (xs ++ msg ∷ [])) ≡ msg
unfolding trim
trim-last n [] msg h = let e : ltb n 1 ≡ false = ground arith in rw e
trim-last n (x ∷ xs) msg h = elim (Bool-cases (ltb n (suc (length (xs ++ msg ∷ []))))) [
  | inl over ↦ rw over (trim-last n xs msg h)
  | inr fits ↦ rw fits (last_of-append (x ∷ xs) msg)
]

trim-zero : (xs : List Bytes) → trim 0 xs ≡ []
unfolding trim
trim-zero [] = refl
trim-zero (x ∷ xs) = let e : ltb 0 (suc (length xs)) ≡ true = ground arith in rw e (trim-zero xs)

-- Where the log may hold an entry at all, `last` after a push is the message pushed.
pub last-push : (log : EventLog) (msg : Bytes) → 0 < log.max_entries → last (push log msg) ≡ msg
unfolding last push
last-push log msg = trim-last log.max_entries log.entries msg

-- A log made for no entries never has a last one.
last-push_none : (log : EventLog) (msg : Bytes) → log.max_entries ≡ 0 → last (push log msg) ≡ []
unfolding last push
last-push_none log msg e =
    ap (λ n. last_of (trim n (log.entries ++ msg ∷ []))) e
    ∙ ap last_of (trim-zero (log.entries ++ msg ∷ []))
