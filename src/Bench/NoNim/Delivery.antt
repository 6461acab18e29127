-- ===== src/Bench/NoNim/Delivery.antt =====
-- When the test of foreign deliveries passes.
use nim_brokers.Prelude.{
  ℕ, zero, suc, ◌≤◌, pos, ◌≡◌, refl, sym, ap, ◌∙◌, true, false, ◌==◌, leb, Bool-cases, inl, inr,
  List, [], ◌∷◌, ◌++◌, some, replicate, cat, arith,
}
use nim_brokers.Bench.NoNim.{
  n_foreign, emit_count, land, land_all, all_ready, wait, all_equal, no_nim,
}

-- No counter of the first list is above that of the second.
abbrev Below : List ℕ → List ℕ → Type 0
Below [] [] = Unit
Below [] (d ∷ ds) = ⊥
Below (c ∷ cs) [] = ⊥
Below (c ∷ cs) (d ∷ ds) = (c ≤ d) × Below cs ds

Below-refl : (cs : List ℕ) → Below cs cs
Below-refl [] = tt
Below-refl (c ∷ cs) = (omega arith, Below-refl cs)

Below-land : (i : ℕ) (cs ds : List ℕ) → Below (land i cs) ds → Below cs ds
Below-land i [] ds b = b
Below-land zero (c ∷ cs) [] b = b
Below-land zero (c ∷ cs) (d ∷ ds) (h, b) = (omega arith, b)
Below-land (suc i) (c ∷ cs) [] b = b
Below-land (suc i) (c ∷ cs) (d ∷ ds) (h, b) = (h, Below-land i cs ds b)

Below-land_all : (is cs : List ℕ) → Below cs (land_all is cs)
Below-land_all [] cs = Below-refl cs
Below-land_all (i ∷ is) cs =
    Below-land i cs (land_all is (land i cs)) (Below-land_all is (land i cs))

land_all-append : (is js cs : List ℕ) → land_all (is ++ js) cs ≡ land_all js (land_all is cs)
land_all-append [] js cs = refl
land_all-append (i ∷ is) js cs = land_all-append is js (land i cs)

-- Counters that are ready and not above what is expected are just that.
ready_exact :
    (n e : ℕ) (cs : List ℕ) → all_ready e cs ≡ true → Below cs (replicate n e) → cs ≡ replicate n e
ready_exact zero e [] r b = refl
ready_exact zero e (c ∷ cs) r b = absurd b
ready_exact (suc n) e [] r b = absurd b
ready_exact (suc n) e (c ∷ cs) r (h, b) = elim (Bool-cases (leb e c)) [
  | inl y ↦
      let same : c ≡ e = ground arith in
      rw same (ap (λ k. e ∷ k) (ready_exact n e cs (rw y at r) b))
  | inr f ↦ absurd (let z : false ≡ true = rw f at r in cc)
]

-- The loop never leaves before the last event that is due.
wait-exact :
    (n e : ℕ) (batches : List (List ℕ)) (cs : List ℕ)
    → land_all (cat batches) cs ≡ replicate n e
    → wait e batches cs ≡ replicate n e
unfolding wait
wait-exact n e [] cs h = h
wait-exact n e (b ∷ bs) cs h = elim (Bool-cases (all_ready e cs)) [
  | inl y ↦
      let below : Below cs (replicate n e) = rw h at (Below-land_all (b ++ cat bs) cs) in
      rw y (ready_exact n e cs y below)
  | inr f ↦ rw f (wait-exact n e bs (land_all b cs) (sym (land_all-append b (cat bs) cs) ∙ h))
]

all_equal-replicate : (n e : ℕ) → all_equal e (replicate n e) ≡ true
all_equal-replicate zero e = refl
all_equal-replicate (suc n) e =
    let same : (e == e) ≡ true = ground arith in rw same (all_equal-replicate n e)

-- If the context is created, the emission is answered with its 300 events, and each of the six
-- callbacks is run 300 times before the deadline and never after the wait, in whatever order and
-- batches, and no delivery of the Nim audience is counted, then the test passes: its loop does not
-- leave before the last event.
pub no_nim-on_time :
    (early : List ℕ) (waited : List (List ℕ))
    → land_all (early ++ cat waited) (replicate n_foreign 0) ≡ replicate n_foreign emit_count
    → no_nim (record {
      created = true;
      emitted = some (pos emit_count);
      early = early;
      waited = waited;
      late = [];
      stats = some (0, 0);
    })
      ≡ 0
unfolding no_nim
no_nim-on_time early waited h =
    let start = replicate n_foreign 0 in
    let ends =
      wait-exact n_foreign emit_count waited (land_all early start)
        (sym (land_all-append early (cat waited) start) ∙ h) in
    rw ends
