-- ===== src/Monitor/Cpp/Main/Unguarded.antt =====
-- The query for the third device of the list.
use nim_brokers.Prelude.{◌<◌, ◌≡◌, refl, ◌↔◌, ℤ, List, [], ◌∷◌, length, arith}
use nim_brokers.Client.{Answer, ok, error, crash, ◌>>=◌}
use nim_brokers.Monitor.Types.{Library, DeviceInfo}
use nim_brokers.Monitor.Format.{newline}
use nim_brokers.Monitor.Cpp.{World, say}
use nim_brokers.Monitor.Cpp.Queries.{got, query_one}

module _ {S : Type 0} where
  answered-goes_on :
      (a : Answer DeviceInfo) (w : World S) → (got a >>= λ _. say (newline ∷ [])) w ≡ crash → ⊥
  unfolding ◌>>=◌
  answered-goes_on (error e) w h = cc
  answered-goes_on (ok d) w h = cc

  -- Against any library, the query reads behind the end of the list of ids if and only if one or two
  -- devices have been stored: its guard lets these lists through.
  pub query_one_past :
      (lib : Library S) (ids : List ℤ) (w : World S)
      → (query_one lib ids w ≡ crash) ↔ ((0 < length ids) × (length ids < 3))
  unfolding ◌>>=◌
  query_one_past lib [] w = (λ e. cc, λ p. absurd (omega (arith, p.0)))
  query_one_past lib (x ∷ []) w = (λ e. (omega arith, omega arith), λ p. refl)
  query_one_past lib (x ∷ y ∷ []) w = (λ e. (omega arith, omega arith), λ p. refl)
  query_one_past lib (x ∷ y ∷ z ∷ zs) w =
      (λ e. absurd (answered-goes_on _ _ e), λ p. absurd (omega (arith, p.1)))
