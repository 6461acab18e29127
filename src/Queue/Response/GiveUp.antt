-- ===== src/Queue/Response/GiveUp.antt =====
-- `giveUpSlot` of brokers/internal/mt_request_broker.nim, run to its end by the requester alone.
use native.Mathlib.Decide.{ℕ_discrete}
use nim_brokers.Queue.Cells.{put-same}
use nim_brokers.Prelude.{
  ℕ, suc, ◌≤◌, ◌≡◌, refl, sym, ap, ◌∙◌, true, ◌==◌, ==_iff, List, none, some, replicate, arith,
}
use nim_brokers.Queue.Response.{
  ResponseState, empty, writing, ready, abandoned, provider_gone, abandoned_writing, pack_control,
  WaitPoint, weighing, from_empty, from_writing, waiting, releasing, finished, State, Move, request,
  stand, release, weigh, exchange, next_access, move, run_moves, new_slot,
}
use nim_brokers.Queue.Response.Words.{HasWord, run_moves-HasWord}
use nim_brokers.Queue.Response.Waits.{outcome, weigh-outcome, weigh-stale}

module _ {A : Type 0} (answer : ℕ → A) (n : ℕ) where
  -- At most so many accesses of the requester lead to its end.
  abbrev EndsIn : ℕ → State A → Type 0
  EndsIn most s =
      (j : ℕ) × (j ≤ most)
      × (t : State A) × (run_moves answer (replicate j (request n)) s ≡ some t)
      × (t.requesters n ≡ finished none)

  ended : (s : State A) → s.requesters n ≡ finished none → EndsIn 1 s
  unfolding run_moves
  ended s e = (0, omega arith, s, refl, e)

  releases : (s : State A) → s.requesters n ≡ releasing none → EndsIn 1 s
  unfolding run_moves move next_access release
  releases s e =
      (1, omega arith, stand n (finished none) (release s), rw e refl, put-same n _ s.requesters)

  exchanges :
      (w : WaitPoint) (g : ℕ) (old new : ResponseState) (s : State A)
      → next_access n (waiting w g) s ≡ some (exchange n g old new s)
      → s.requesters n ≡ waiting w g
      → s.control ≡ pack_control g old
      → EndsIn 1 s
  unfolding run_moves move exchange
  exchanges w g old new s access e word =
      let hit : (s.control == pack_control g old) ≡ true = (==_iff _ _).1 word in
      (
        1,
        omega arith,
        stand n (finished none) (record s { control = pack_control g new }),
        rw (e, access, hit) refl,
        put-same n _ s.requesters,
      )

  -- By the state that the load finds.
  outcome-EndsIn :
      (a : ResponseState) (g : ℕ) (s : State A)
      → s.control ≡ pack_control g a
      → EndsIn 1 (stand n (outcome a g) s)
  unfolding next_access
  outcome-EndsIn empty g s word =
      let e = put-same n (waiting from_empty g) s.requesters in
      exchanges from_empty g empty abandoned (stand n (waiting from_empty g) s) refl e word
  outcome-EndsIn writing g s word =
      let e = put-same n (waiting from_writing g) s.requesters in
      exchanges from_writing g writing abandoned_writing (stand n (waiting from_writing g) s) refl e
        word
  outcome-EndsIn ready g s word = releases _ (put-same n _ s.requesters)
  outcome-EndsIn abandoned g s word = ended _ (put-same n _ s.requesters)
  outcome-EndsIn provider_gone g s word = releases _ (put-same n _ s.requesters)
  outcome-EndsIn abandoned_writing g s word = ended _ (put-same n _ s.requesters)

  weigh-EndsIn : (g : ℕ) (s : State A) (k : HasWord s) → EndsIn 1 (stand n (weigh g s.control) s)
  weigh-EndsIn g s k = elim (ℕ_discrete g k.gen) [
    | yes now ↦
        let word = k.word ∙ ap (λ h. pack_control h k.state) (sym now) in
        let found : weigh {A = A} g s.control ≡ outcome k.state g =
          ap (weigh {A = A} g) word ∙ weigh-outcome k.state g (omega (arith, now, k.small)) in
        rw found (outcome-EndsIn k.state g s word)
    | no other ↦
        let found : weigh {A = A} g s.control ≡ finished none =
          ap (weigh {A = A} g) k.word ∙ weigh-stale k.state g k.gen k.small other in
        rw found (ended _ (put-same n _ s.requesters))
  ]

  load-EndsIn :
      (g : ℕ) (s : State A)
      → s.requesters n ≡ waiting weighing g
      → EndsIn 1 (stand n (weigh g s.control) s)
      → EndsIn 2 s
  unfolding run_moves move next_access
  load-EndsIn g s e (j, few, t, run, end) = (suc j, omega arith, t, rw e run, end)

-- On any run, a requester that has timed out and is about to give up its slot is through, without a
-- response, after at most two accesses of its own, which no other move has to precede: it never
-- waits for the provider, whatever the provider has done.
pub give_up_ends :
    {A : Type 0} (answer : ℕ → A) (blank : A) (moves : List Move) (s : State A) (n g : ℕ)
    → run_moves answer moves (new_slot blank) ≡ some s
    → s.requesters n ≡ waiting weighing g
    → (j : ℕ) × (j ≤ 2)
      × (t : State A) × (run_moves answer (replicate j (request n)) s ≡ some t)
      × (t.requesters n ≡ finished none)
give_up_ends answer blank moves s n g e wait =
    load-EndsIn answer n g s wait
      (weigh-EndsIn answer n g s (run_moves-HasWord answer blank moves s e))
