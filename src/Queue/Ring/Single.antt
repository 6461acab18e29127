-- ===== src/Queue/Ring/Single.antt =====
-- A ring of one slot, which the assertion of its constructor admits.
use nim_brokers.Prelude.{
  ℕ, zero, suc, ◌≡◌, ◌⊎◌, inl, inr, refl, ap, ◌∙◌, true, List, [], ◌∷◌, ◌++◌, Option, none, some,
  and_then, replicate,
}
use nim_brokers.Queue.Ring.{
  VyukovMpscRing, fresh_ring, new_vyukov_mpsc_ring, returned, waiting, missed, State, Move, enqueue,
  produce, consume, slot_of, try_claim, on_difference, write_payload, publish, try_enqueue,
  call_enqueue, poll, try_dequeue, move, run_moves, start,
}

-- A whole call of `tryEnqueue` with no other access between.
abbrev pub whole_call : {A : Type 0} → ℕ → A → List (Move A)
whole_call p x =
    enqueue p x ∷ produce p ∷ produce p ∷ produce p ∷ produce p ∷ produce p ∷ produce p ∷ []

module _ {A : Type 0} where
  -- The front's slot is of a later round than the consumer waits for.
  record IsStuck (s : State A) : Type 0 where
    at_zero : s.ring.deq_pos ≡ 0
    later : (s.ring.slots 0).seq ≡ 2
    by_mask : s.ring.mask ≡ 0
    outside : (s.consumer ≡ waiting) ⊎ (s.consumer ≡ missed)

  misses : (s : State A) → IsStuck s → move consume s ≡ some (record s { consumer = missed })
  unfolding move try_dequeue poll slot_of
  misses s k =
      let polled : poll s ≡ record s { consumer = missed } =
        rw (k.by_mask, k.at_zero, k.later) refl in
      elim k.outside [ inl e ↦ rw e (ap some polled) | inr e ↦ rw e (ap some polled) ]

  two_calls :
      (blank x y : A)
      → (s : State A) × (run_moves (whole_call 0 x ++ whole_call 1 y) (start (fresh_ring blank 1))
          ≡ some s)
        × IsStuck s
        × (s.producers 0 ≡ returned true)
        × (s.producers 1 ≡ returned true)
        × (s.received ≡ [])
  unfolding start run_moves move try_enqueue call_enqueue on_difference try_claim write_payload
      publish slot_of
  two_calls blank x y = (
    _,
    refl,
    record { at_zero = refl; later = refl; by_mask = refl; outside = inl refl },
    refl,
    refl,
    refl,
  )

  polls :
      (n : ℕ) (s : State A)
      → IsStuck s
      → (t : State A) × (run_moves (replicate n consume) s ≡ some t)
        × (t.producers ≡ s.producers)
        × (t.received ≡ s.received)
  unfolding run_moves
  polls zero s k = (s, refl, refl, refl)
  polls (suc n) s k =
      let next : State A = record s { consumer = missed } in
      let (t, run, same_p, same_r) = polls n next (record {
        at_zero = k.at_zero;
        later = k.later;
        by_mask = k.by_mask;
        outside = inr refl;
      }) in
      (t, ap (λ o. and_then o (run_moves (replicate n consume))) (misses s k) ∙ run, same_p, same_r)

  run_moves-append :
      (xs ys : List (Move A)) (s t v : State A)
      → run_moves xs s ≡ some t
      → run_moves ys t ≡ some v
      → run_moves (xs ++ ys) s ≡ some v
  unfolding run_moves
  run_moves-append [] ys s t v e f = let same : s ≡ t = cc in ap (run_moves ys) same ∙ f
  run_moves-append (m ∷ xs) ys s t v e f =
      through (move m s) (run_moves xs) (run_moves (xs ++ ys)) e
        (λ u e'. run_moves-append xs ys u t v e' f)
    where
      through :
          (o : Option (State A)) (g h : State A → Option (State A))
          → and_then o g ≡ some t
          → ((u : State A) → g u ≡ some t → h u ≡ some v)
          → and_then o h ≡ some v
      through none g h e' k = cc
      through (some u) g h e' k = k u e'

  -- A ring of one slot can be made, and loses items: when one producer has put an item in and no item
  -- has been taken out, the call of a second producer returns true as the first's has, and after that
  -- no number of accesses by the consumer takes anything out.
  pub single_loses :
      (blank x y : A) (n : ℕ)
      → (r : VyukovMpscRing A) × (s : State A) × (new_vyukov_mpsc_ring blank 1 ≡ some r)
        × (run_moves ((whole_call 0 x ++ whole_call 1 y) ++ replicate n consume) (start r) ≡ some s)
        × (s.producers 0 ≡ returned true)
        × (s.producers 1 ≡ returned true)
        × (s.received ≡ [])
  unfolding new_vyukov_mpsc_ring
  single_loses blank x y n =
      let (u, run, k, first, second, empty) = two_calls blank x y in
      let (t, polled, same_p, same_r) = polls n u k in
      (
        fresh_ring blank 1,
        t,
        refl,
        run_moves-append (whole_call 0 x ++ whole_call 1 y) (replicate n consume)
            (start (fresh_ring blank 1)) u t run polled,
        ap (λ f. f 0) same_p ∙ first,
        ap (λ f. f 1) same_p ∙ second,
        same_r ∙ empty,
      )
