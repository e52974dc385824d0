-- ===== src/Tests/Stores.antt =====
-- Tables with rows in them.
use winify.Common.{arith, ◌+◌, ◌≡◌, refl, true, none, [], codes, ltb}
use mathlib.Core.Option
use winify.Models.Deployments.{
  Table, queued, failed, create_deployment, append_deployment_log, finish_deployment,
}
use winify.Models.Deployments.Order.{IsOrdered}
use winify.Models.Deployments.Reachable.{empty}
use winify.Models.Deliveries.{
  DeliveryKey, Deliveries, record_webhook_delivery, replay_window, replay_accepted_iff,
}
use winify.Tests.Data.{attempt, history}

history-IsOrdered : IsOrdered history
history-IsOrdered = (omega arith, (omega arith, (omega arith, tt)))

-- A row that was created, logged to and finished.
abbrev closed : Table
closed =
    finish_deployment
      (append_deployment_log (create_deployment empty (attempt queued [])).0 1 (codes "x")) 1 failed
      (codes "no") 9

abbrev push_key : DeliveryKey
push_key = record {
  provider = codes "github";
  project_id = codes "shop";
  delivery_id = codes "body:00";
}

abbrev no_deliveries : Deliveries
no_deliveries k = none

first_is_taken : (record_webhook_delivery true 5000 push_key (codes "abc") no_deliveries).1 ≡ true
unfolding record_webhook_delivery
first_is_taken = refl

replay_accepted_iff_example :
    (record_webhook_delivery true 5300 push_key
      (codes "abc")
      (record_webhook_delivery true 5000 push_key (codes "abc") no_deliveries).0).1
    ≡ ltb (5000 + replay_window) 5300
replay_accepted_iff_example =
    replay_accepted_iff true true 5000 5300 push_key (codes "abc") (codes "abc") no_deliveries
      first_is_taken
