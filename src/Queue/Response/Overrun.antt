-- ===== src/Queue/Response/Overrun.antt =====
-- A limit of `withTimeout` that ends the wait after the poller has settled the request.
use nim_brokers.Queue.Cells.{put-same}
use nim_brokers.Prelude.{ℕ, ◌+◌, ◌<◌, ◌≡◌, refl, ap, ◌∙◌, true, List, [], ◌∷◌, some, none, arith}
use nim_brokers.Queue.Response.{
  ready, pack_control, polling, weighing, waiting, reading, Requester, releasing, finished, State,
  ready_test, Move, poll, overrun, request, stand, suspend, release, is_at, on_test, end_poll,
  end_wait_late, next_access, weigh, move, run_moves,
}
use nim_brokers.Queue.Response.Word.{gen_mod, is_at-same}
use nim_brokers.Queue.Response.Waits.{weigh-outcome}

-- The poller reads the response and hands the slot back; then the limit ends the wait.
abbrev pub late_limit : ℕ → List Move
late_limit n = poll n ready_test ∷ request n ∷ request n ∷ overrun n ∷ request n ∷ request n ∷ []

module _ {A : Type 0} (answer : ℕ → A) (n g : ℕ) (small : g < gen_mod) where
  goes_on :
      (m : Move) (ms : List Move) (s u t : State A)
      → move answer m s ≡ some u
      → run_moves answer ms u ≡ some t
      → run_moves answer (m ∷ ms) s ≡ some t
  unfolding run_moves
  goes_on m ms s u t e f = rw e f

  access :
      (r : Requester A) (s : State A)
      → move answer (request n) (stand n r s) ≡ next_access n r (stand n r s)
  unfolding move
  access r s = rw (put-same n r s.requesters) refl

  -- In any state of a slot with a generation below 2^32 in which the response of request `n` is ready, its poller has not seen it
  -- yet and `awaitReply` is suspended, the requester alone can hand the slot back twice: by its
  -- poller, and, when the limit ends the wait after that, by giving up. The request then ends without
  -- the response, and the slot's index is on the free-list twice more.
  pub overrun_releases_twice :
      (s : State A)
      → s.requesters n ≡ waiting polling g
      → s.awaits n ≡ some g
      → s.control ≡ pack_control g ready
      → (t : State A) × (run_moves answer (late_limit n) s ≡ some t)
        × (t.requesters n ≡ finished none)
        × (t.free ≡ s.free + 2)
  unfolding run_moves move end_poll on_test next_access end_wait_late release
  overrun_releases_twice s e a w =
      let found : is_at g ready s.control ≡ true =
        ap (is_at g ready) w ∙ is_at-same g ready ready small in
      let weighed : weigh {A = A} g s.control ≡ releasing none =
        ap (weigh g) w ∙ weigh-outcome ready g small in
      let late = overrun n ∷ request n ∷ request n ∷ [] in
      let s1 = stand n reading s in
      let s2 = stand n (releasing (some s.payload)) s1 in
      let s3 = stand n (finished (some s.payload)) (release s2) in
      let s4 = suspend n none (stand n (waiting weighing g) s3) in
      let s5 = stand n (releasing none) s4 in
      let s6 = stand n (finished none) (release s5) in
      (
        s6,
        goes_on (poll n ready_test) (request n ∷ request n ∷ late) s s1 s6 (rw (e, found) refl) (
            goes_on (request n) (request n ∷ late) s1 s2 s6 (access reading s) (
              goes_on (request n) late s2 s3 s6 (access (releasing (some s.payload)) s1) (
                goes_on (overrun n) (request n ∷ request n ∷ []) s3 s4 s6
                  (rw (a, put-same n (finished (some s.payload)) s2.requesters) refl)
                  (goes_on (request n) (request n ∷ []) s4 s5 s6
                    (rw (put-same n (waiting weighing g) s3.requesters, weighed) refl)
                    (goes_on (request n) [] s5 s6 s6 (access (releasing none) s4) refl))))),
        put-same n _ s5.requesters,
        omega arith,
      )
