-- ===== src/Context.antt =====
-- brokers/broker_context.nim: how a broker context is packed, and how new ones are allocated. The
-- counters are incremented atomically, so that all threads' requests form one sequence.
pub mod Fresh
mod Tests
use nim_brokers.Prelude.{
  ℕ, ◌+◌, ◌*◌, ◌/◌, ◌%◌, List, [], ◌∷◌, Option, none, some, ltb, and_then, if◌then◌else◌,
}

abbrev pub BrokerContext : Type 0
BrokerContext = ℕ

unfoldable pub class_ctx : BrokerContext → ℕ
class_ctx bc = bc % 65536

unfoldable pub instance_ctx : BrokerContext → ℕ
instance_ctx bc = bc / 65536 % 65536

-- The halves do not overlap, so that `or` adds them.
unfoldable pub make_broker_context : ℕ → ℕ → BrokerContext
make_broker_context class instance_ = instance_ * 65536 + class

abbrev pub default_broker_context : BrokerContext
default_broker_context = 1

-- gClassCtxCounter and gInstanceCtxCounter, of 32 bits each.
pub record Counters : Type 0 where
  pub class_count : ℕ
  pub instance_count : ℕ

abbrev pub zeroed : Counters
zeroed = record { class_count = 0; instance_count = 0 }

abbrev pub next : ℕ → ℕ
next n = (n + 1) % 4294967296

-- None when the assertion on the new id fails.
unfoldable pub new_class_ctx : Counters → Option (ℕ × Counters)
new_class_ctx k =
    let id = (k.class_count + 2) % 4294967296 in
    if ltb id 65535 then some (id, record k { class_count = next k.class_count }) else none

unfoldable pub new_broker_context : Counters → Option (BrokerContext × Counters)
new_broker_context k = and_then (new_class_ctx k) (λ new. some (make_broker_context new.0 0, new.1))

unfoldable pub new_instance_ctx : BrokerContext → Counters → Option (BrokerContext × Counters)
new_instance_ctx parent k =
    let id = (k.instance_count + 1) % 4294967296 in
    if ltb id 65536
    then some (
      make_broker_context (class_ctx parent) id,
      record k { instance_count = next k.instance_count },
    )
    else none

pub data Request : Type 0 where
  flat : Request
  under : BrokerContext → Request

abbrev pub issue : Request → Counters → Option (BrokerContext × Counters)
issue flat k = new_broker_context k
issue (under parent) k = new_instance_ctx parent k

-- The contexts that a sequence of requests is given, first to last.
unfoldable pub issue_all : List Request → Counters → Option (List BrokerContext)
issue_all [] k = some []
issue_all (r ∷ rs) k =
    and_then (issue r k) (λ new. and_then (issue_all rs new.1) (λ cs. some (new.0 ∷ cs)))
