-- ===== src/Persist/Client/Scenarios.antt =====
-- The first two scenarios come to their end.
use nim_brokers.Prelude.{
  ℕ, zero, suc, ◌≤◌, arith, ◌≡◌, refl, ap, ◌∙◌, true, false, Option, none, some, List, [], ◌∷◌,
  Bytes, codes, str_eq,
}
use nim_brokers.Client.{Step, next, stop, crash, running, ◌>>=◌}
use nim_brokers.Context.{
  class_ctx, make_broker_context, new_class_ctx, new_broker_context, new_instance_ctx,
}
use nim_brokers.Persist.Server.{Entry}
use nim_brokers.Persist.Client.{
  backend_created, World, ReadSink, Timing, post, wait, kind_memory, kind_file,
}
use nim_brokers.Persist.Client.Program.{
  scenario_two_contexts, two_created, make_both, scenario_mixed_one_context, run, start,
}
use nim_brokers.Persist.Client.Roundtrip.{roundtrip-held}

-- The first facade and its backend.
abbrev pub file_entry : Entry
file_entry = record { owner = 2; kind = kind_file; handle = 65538; alive = true; data_ = [] }

abbrev pub with_file : World
with_file = record start {
  server = record {
    counters = record { class_count = 1; instance_count = 1 };
    backends = file_entry ∷ [];
  };
}

abbrev stored_once : Bytes → Bytes → List (Bytes × Bytes)
stored_once key value = (key, value) ∷ []

abbrev read_of : Bytes → ReadSink
read_of value = record { value = value; found = true; count = 1 }

abbrev memory_entry : Entry
memory_entry = record { owner = 3; kind = kind_memory; handle = 131075; alive = true; data_ = [] }

abbrev after_file : Entry
after_file = record file_entry { data_ = stored_once (codes "alpha") (codes "file-payload") }

abbrev with_memory : World
with_memory = record start {
  server = record {
    counters = record { class_count = 2; instance_count = 2 };
    backends = after_file ∷ memory_entry ∷ [];
  };
  sink = read_of (codes "file-payload");
  sent = 1;
}

abbrev after_memory : Entry
after_memory = record memory_entry { data_ = stored_once (codes "alpha") (codes "memory-payload") }

-- Between the scenarios.
abbrev between : World
between = record with_memory {
  server = record with_memory.server {
    backends = record after_file { alive = false } ∷ record after_memory { alive = false } ∷ [];
  };
  sink = read_of (codes "memory-payload");
  sent = 2;
}

module _ (t : Timing) (in_time : (n : ℕ) → t.delay n ≤ t.polls) where
  two_contexts-start : scenario_two_contexts t start ≡ next tt between
  unfolding scenario_two_contexts ◌>>=◌ new_broker_context new_class_ctx make_broker_context
      new_instance_ctx class_ctx str_eq
  two_contexts-start = rw (
    roundtrip-held t 65538 (codes "alpha") (codes "file-payload") with_file [] refl (in_time 0),
    roundtrip-held t 131075 (codes "alpha") (codes "memory-payload") with_memory [] refl
        (in_time 1),
  )

-- The facade of the second scenario, and its backends.
abbrev bf : Entry
bf = record { owner = 4; kind = kind_file; handle = 196612; alive = true; data_ = [] }

abbrev bm : Entry
bm = record { owner = 4; kind = kind_memory; handle = 262148; alive = true; data_ = [] }

abbrev with_facade : World
with_facade = record between {
  server = record between.server { counters = record { class_count = 3; instance_count = 2 } };
}

-- Both backends are there, and their events are still to come.
abbrev creating : World
creating = record between {
  server = record {
    counters = record { class_count = 3; instance_count = 4 };
    backends =
        record after_file { alive = false } ∷ record after_memory { alive = false } ∷ bf ∷ bm ∷ [];
  };
  creating = some 4;
  sent = 4;
}

abbrev two_posts : ℕ → ℕ → World
two_posts a b = post b (backend_created 4) (post a (backend_created 4) creating)

posts_swap :
    (a : ℕ)
    → post a (backend_created 4) (post 0 (backend_created 4) creating)
      ≡ post 0 (backend_created 4) (post a (backend_created 4) creating)
posts_swap zero = refl
posts_swap (suc a) = refl

wait-two_posts : (n a b : ℕ) → a ≤ n → b ≤ n → wait two_created n (two_posts a b) ≡ two_posts 0 0
wait-two_posts zero zero zero h k = refl
wait-two_posts zero zero (suc b) h k = absurd (omega arith)
wait-two_posts zero (suc a) b h k = absurd (omega arith)
wait-two_posts (suc n) zero zero h k = refl
wait-two_posts (suc n) zero (suc b) h k = wait-two_posts n zero b (omega arith) (omega arith)
wait-two_posts (suc n) (suc a) zero h k =
    ap (wait two_created n) (posts_swap a) ∙ wait-two_posts n a zero (omega arith) (omega arith)
wait-two_posts (suc n) (suc a) (suc b) h k = wait-two_posts n a b (omega arith) (omega arith)

abbrev made : World
made = record creating { creating = none; created = 2 }

-- The exit code, if the program returns.
abbrev pub code_of : Step World ℕ → Option ℕ
code_of (next n w) = some n
code_of (stop n w) = some n
code_of crash = none
code_of running = none

module _ (t : Timing) (in_time : (n : ℕ) → t.delay n ≤ t.polls) where
  make_both-at :
      (a b : ℕ)
      → t.delay 2 ≡ a
      → t.delay 3 ≡ b
      → make_both t 4 with_facade ≡ next (196612, 262148) made
  unfolding make_both ◌>>=◌ make_broker_context new_instance_ctx class_ctx
  make_both-at zero zero e f =
      let waited = wait-two_posts t.polls 0 0 (omega arith) (omega arith) in rw (e, f, waited)
  make_both-at zero (suc b) e f =
      let waited = wait-two_posts t.polls 0 (suc b) (omega arith) (rw f at (in_time 3)) in
      rw (e, f, waited)
  make_both-at (suc a) zero e f =
      let waited = wait-two_posts t.polls (suc a) 0 (rw e at (in_time 2)) (omega arith) in
      rw (e, f, waited)
  make_both-at (suc a) (suc b) e f =
      let waited =
        wait-two_posts t.polls (suc a) (suc b) (rw e at (in_time 2)) (rw f at (in_time 3)) in
      rw (e, f, waited)

  abbrev file_x : Entry
  file_x = record bf { data_ = stored_once (codes "x") (codes "FILE-X") }

  abbrev memory_x : Entry
  memory_x = record bm { data_ = stored_once (codes "x") (codes "MEM-X") }

  abbrev with_file_x : World
  with_file_x = record made {
    server = record made.server {
      backends =
          record after_file { alive = false }
          ∷ record after_memory { alive = false }
          ∷ file_x
          ∷ bm
          ∷ [];
    };
    sink = read_of (codes "FILE-X");
    sent = 5;
  }

  -- The file backend is terminated.
  abbrev with_memory_x : World
  with_memory_x = record made {
    server = record made.server {
      backends =
          record after_file { alive = false }
          ∷ record after_memory { alive = false }
          ∷ record file_x { alive = false }
          ∷ memory_x
          ∷ [];
    };
    sink = read_of (codes "MEM-X");
    sent = 6;
  }

  -- If every event is handled before the deadline of the loop that waits for it, all assertions of
  -- the first two scenarios hold, and the program comes to its end with 0: each backend gives back
  -- what it has stored, the contexts of the two libraries and of the two backends differ as they
  -- should, and after one backend is terminated its requests are refused and the other goes on.
  pub run-in_time : code_of (run t start) ≡ some 0
  unfolding run scenario_mixed_one_context ◌>>=◌ new_broker_context new_class_ctx
      make_broker_context class_ctx str_eq
  run-in_time = rw (
    two_contexts-start t in_time,
    make_both-at (t.delay 2) (t.delay 3) refl refl,
    roundtrip-held t 196612 (codes "x") (codes "FILE-X") made [] refl (in_time 4),
    roundtrip-held t 262148 (codes "x") (codes "MEM-X") with_file_x [] refl (in_time 5),
    roundtrip-held t 262148 (codes "y") (codes "MEM-Y") with_memory_x memory_x.data_ refl
        (in_time 6),
  )
