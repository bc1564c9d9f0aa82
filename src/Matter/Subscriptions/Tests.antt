-- ===== src/Matter/Subscriptions/Tests.antt =====
-- One node's subscription.
use rs_matter_server.Prelude.{ℕ, ◌≡◌, Option, none, some, List, [], ◌∷◌, nat_ord, if◌then◌else◌}
use rs_matter_server.Prelude.Map.{get}
use rs_matter_server.Matter.Subscriptions.{Registry, forget_silent, is_live}
use rs_matter_server.Matter.Subscriptions.Acceptance.{Op, establish, report}
use rs_matter_server.Matter.Subscriptions.Liveness.{forget_silent-get}

abbrev ops : List Op
ops = establish 5 100 300000 0 ∷ report 5 1000 ∷ []

abbrev reported : Option ℕ
reported = some 100

abbrev registry : Registry
registry = (5, record { subscription_id = 100; max_interval = 1000; last_report = 0 }) ∷ []

forget_silent-get_example :
    get 5 (forget_silent registry 2000).1
    ≡ (if is_live registry 5 2000 then get 5 registry else none)
forget_silent-get_example = forget_silent-get registry 2000 5 (tt, tt)
