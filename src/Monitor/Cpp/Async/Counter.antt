-- ===== src/Monitor/Cpp/Async/Counter.antt =====
-- The counter of calls in flight.
use nim_brokers.Prelude.{
  ℕ, zero, suc, ◌+◌, ◌<◌, ◌≡◌, refl, ap, ◌∙◌, ℤ, pos, negsuc, ◌+ℤ◌, Bool-cases, inl, inr, ltb,
  ltb_ℤ, List, [], ◌∷◌, Option, none, some, and_then, if◌then◌else◌, arith,
}
use nim_brokers.Monitor.Cpp.Async.{
  Phase, at_call, counted, called, waiting, left, State, Move, step, answer, fire, is_zero,
  is_again, after_call, advance, accept, answered, fired, move, run_moves, queries,
}

-- What the main thread has counted that is not in flight.
abbrev pub surplus : Phase → ℕ
surplus (counted q qs) = 1
surplus (called rc q qs) = if is_zero rc then 0 else 1
surplus _ = 0

-- The block is left early only with nothing in flight.
abbrev pub IsClean : Phase → ℕ → Type 0
IsClean (left n) k = (n < 500) → k ≡ 0
IsClean _ k = Unit

-- `pending` counts the callbacks to come and the surplus.
pub record Exact (s : State) : Type 0 where
  pub count : s.pending ≡ pos (surplus s.phase + s.in_flight)
  pub clean : IsClean s.phase s.in_flight

abbrev Kept : Option State → Type 0
Kept none = Unit
Kept (some s) = Exact s

down : (n : ℕ) → pos (1 + n) +ℤ negsuc 0 ≡ pos n
down n = ground arith

up : (n : ℕ) → pos (0 + n) +ℤ pos 1 ≡ pos (1 + n)
up n = ground arith

-- The state with this phase and so many callbacks to come.
abbrev exactly : Phase → ℕ → State
exactly p k = record { phase = p; pending = pos (surplus p + k); in_flight = k }

after_call-Exact :
    (rc q : ℤ) (qs : List ℤ) (k : ℕ) → Exact (after_call rc q qs (exactly (called rc q qs) k))
after_call-Exact rc q qs k = elim (Bool-cases (is_zero rc)) [
  | inl y ↦ rw y (record { count = refl; clean = tt })
  | inr n ↦ elim (Bool-cases (is_again rc)) [
    | inl a ↦ rw (n, a) (record { count = down k ∙ ap pos (omega arith); clean = tt })
    | inr b ↦ rw (n, b) (record { count = down k ∙ ap pos (omega arith); clean = tt })
  ]
]

advance-Kept : (p : Phase) (k : ℕ) → Kept (advance p (exactly p k))
advance-Kept (at_call []) k = record { count = refl; clean = tt }
advance-Kept (at_call (q ∷ qs)) k = record { count = up k; clean = tt }
advance-Kept (counted q qs) k = tt
advance-Kept (called rc q qs) k = after_call-Exact rc q qs k
advance-Kept (waiting n) k = elim (Bool-cases (ltb_ℤ (pos 0) (pos (0 + k)))) [
  | inl y ↦ elim (Bool-cases (ltb n 500)) [
    | inl z ↦ rw (y, z) (record { count = refl; clean = tt })
    | inr z ↦ rw (y, z) (record { count = refl; clean = λ h. absurd (ground arith) })
  ]
  | inr f ↦ rw f (record { count = refl; clean = λ h. ground arith })
]
advance-Kept (left n) k = tt

answered-Kept : (rc : ℤ) (p : Phase) (k : ℕ) → Kept (answered rc p (exactly p k))
answered-Kept rc (counted q qs) k = elim (Bool-cases (is_zero rc)) [
  | inl y ↦
      let none_more : surplus (called rc q qs) ≡ 0 = rw y in
      let queued : accept rc k ≡ suc k = rw y in
      record { count = ap pos (omega (arith, none_more, queued)); clean = tt }
  | inr n ↦
      let one_more : surplus (called rc q qs) ≡ 1 = rw n in
      let none_queued : accept rc k ≡ k = rw n in
      record { count = ap pos (omega (arith, one_more, none_queued)); clean = tt }
]
answered-Kept rc (at_call qs) k = tt
answered-Kept rc (called c q qs) k = tt
answered-Kept rc (waiting n) k = tt
answered-Kept rc (left n) k = tt

IsClean-fired : (p : Phase) (k : ℕ) → IsClean p (suc k) → IsClean p k
IsClean-fired (left n) k c = λ h. absurd (let z : suc k ≡ 0 = c h in omega arith)
IsClean-fired (at_call qs) k c = tt
IsClean-fired (counted q qs) k c = tt
IsClean-fired (called rc q qs) k c = tt
IsClean-fired (waiting n) k c = tt

fired-Kept : (p : Phase) (k : ℕ) → IsClean p k → Kept (fired k (exactly p k))
fired-Kept p zero c = tt
fired-Kept p (suc k) c =
    let e : surplus p + suc k ≡ 1 + (surplus p + k) = omega arith in
    record {
      count = ap (λ n. pos n +ℤ negsuc 0) e ∙ down (surplus p + k);
      clean = IsClean-fired p k c;
    }

move-Kept : (m : Move) (p : Phase) (k : ℕ) → IsClean p k → Kept (move m (exactly p k))
move-Kept step p k c = advance-Kept p k
move-Kept (answer rc) p k c = answered-Kept rc p k
move-Kept fire p k c = fired-Kept p k c

move-Exact : (m : Move) (s : State) → Exact s → Kept (move m s)
move-Exact m s e =
    let same : s ≡ exactly s.phase s.in_flight = ap (λ p. record s { pending = p }) e.count in
    rw same (move-Kept m s.phase s.in_flight e.clean)

Kept-bind :
    (o : Option State) (f : State → Option State)
    → Kept o
    → ((s : State) → Exact s → Kept (f s))
    → Kept (and_then o f)
Kept-bind none f k g = tt
Kept-bind (some s) f k g = g s k

run_moves-Kept : (ms : List Move) (s : State) → Exact s → Kept (run_moves ms s)
unfolding run_moves
run_moves-Kept [] s e = e
run_moves-Kept (m ∷ ms) s e =
    Kept-bind (move m s) (run_moves ms) (move-Exact m s e) (λ t k. run_moves-Kept ms t k)

-- Whatever the threads' moves are and whatever the calls return, `pending` is at each moment the
-- number of callbacks to come and the one call that is counted and not yet queued, so that it is
-- never below zero; and if the block is left before its 500th pause, no callback is to come.
pub run_moves-Exact :
    (ids : List ℤ) (moves : List Move) (s : State)
    → run_moves moves (queries ids) ≡ some s
    → Exact s
run_moves-Exact ids moves s e =
    rw e at (run_moves-Kept moves (queries ids) (record { count = refl; clean = tt }))
