-- ===== src/Persist/Client/Roundtrip.antt =====
-- A value that is stored is the one that is read back, at its backend and at no other.
use nim_brokers.Prelude.{
  ℕ, zero, suc, ◌+◌, ◌≤◌, arith, ◌≡◌, refl, ap, inl, inr, ◌==◌, ==_iff, true, Bool-cases, none,
  some, and_then, List, [], ◌∷◌, Bytes, str_eq, str_eq_iff,
}
use nim_brokers.Client.{next, ◌>>=◌}
use nim_brokers.Context.{BrokerContext}
use nim_brokers.Persist.Server.{Entry, put, get, serves, held, stored}
use nim_brokers.Persist.Client.{
  read_completed, World, no_reads, Timing, post, wait, more_than, roundtrip,
}

str_eq-same : (a : Bytes) → str_eq a a ≡ true
str_eq-same a = (str_eq_iff a a).1 refl

get-put : (key value : Bytes) (m : List (Bytes × Bytes)) → get key (put key value m) ≡ some value
get-put key value [] = rw (str_eq-same key) refl
get-put key value ((k, v) ∷ rest) = elim (Bool-cases (str_eq k key)) [
  | inl y ↦ rw (y, str_eq-same key)
  | inr n ↦ rw (n, n) (get-put key value rest)
]

-- The backend at a context after it has stored.
held-stored :
    (b : BrokerContext) (key value : Bytes) (es : List Entry) (m : List (Bytes × Bytes))
    → held b es ≡ some m
    → held b (stored b key value es) ≡ some (put key value m)
held-stored b key value [] m e = absurd (ground arith)
held-stored b key value (x ∷ es) m e = elim (Bool-cases (serves b x)) [
  | inl y ↦ rw (y, y) (ap (λ o. and_then o (λ k. some (put key value k))) (rw y at e))
  | inr n ↦ rw (n, n) (held-stored b key value es m (rw n at e))
]

-- With nothing under way, and the callback registered at a backend.
abbrev at_work : BrokerContext → ℕ → World → World
at_work b n w = record w { under_way = []; reading = some b; sink = no_reads; sent = n }

wait-read :
    (b : BrokerContext) (v : Bytes) (k : ℕ) (w : World) (n d : ℕ)
    → d ≤ n
    → wait (more_than 0) n (post d (read_completed b (some v)) (at_work b k w))
      ≡ post 0 (read_completed b (some v)) (at_work b k w)
wait-read b v k w zero zero l = refl
wait-read b v k w zero (suc d) l = absurd (omega arith)
wait-read b v k w (suc n) zero l = let self : (b == b) ≡ true = (==_iff b b).1 refl in rw self
wait-read b v k w (suc n) (suc d) l = wait-read b v k w n d (omega arith)

-- What a round trip leaves.
abbrev pub afterwards : BrokerContext → Bytes → Bytes → World → World
afterwards b key value w = record w {
  server = record w.server { backends = stored b key value w.server.backends };
  under_way = [];
  reading = none;
  sink = record { value = value; found = true; count = 1 };
  sent = w.sent + 1;
}

-- With nothing under way.
abbrev pub idle : World → World
idle w = record w { under_way = [] }

pub roundtrip-held :
    (t : Timing) (b : BrokerContext) (key value : Bytes) (w : World) (m : List (Bytes × Bytes))
    → held b w.server.backends ≡ some m
    → t.delay w.sent ≤ t.polls
    → roundtrip t b key value (idle w) ≡ next value (afterwards b key value w)
unfolding roundtrip ◌>>=◌
roundtrip-held t b key value w m e l =
    let self : (b == b) ≡ true = (==_iff b b).1 refl in
    let after_store = held-stored b key value w.server.backends m e in
    let waited =
      wait-read b value (w.sent + 1)
        (record w { server = record w.server { backends = stored b key value w.server.backends } })
        t.polls (t.delay w.sent) l in
    rw (e, after_store, get-put key value m, waited, self)
