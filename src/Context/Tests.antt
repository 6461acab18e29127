-- ===== src/Context/Tests.antt =====
-- Runs of the allocation, and its theorems at concrete requests.
use nim_brokers.Prelude.{◌≡◌, refl, List, [], ◌∷◌, some}
use nim_brokers.Context.{
  class_ctx, make_broker_context, default_broker_context, zeroed, Request, flat, under, issue_all,
  new_broker_context, new_class_ctx, new_instance_ctx,
}
use nim_brokers.Context.Fresh.{AllDistinct, issue_all-AllDistinct}

abbrev requests : List Request
requests = flat ∷ under 2 ∷ flat ∷ under 3 ∷ []

issue_all-run : issue_all requests zeroed ≡ some (2 ∷ 65538 ∷ 3 ∷ 131075 ∷ [])
unfolding issue_all new_broker_context new_class_ctx new_instance_ctx make_broker_context class_ctx
issue_all-run = refl

issue_all-AllDistinct_example :
    AllDistinct (0 ∷ default_broker_context ∷ 2 ∷ 65538 ∷ 3 ∷ 131075 ∷ [])
issue_all-AllDistinct_example =
    issue_all-AllDistinct requests (2 ∷ 65538 ∷ 3 ∷ 131075 ∷ []) issue_all-run
