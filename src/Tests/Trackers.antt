-- ===== src/Tests/Trackers.antt =====
-- Runs of the order tracker.
use appsec_seq.Base.{[], ◌∷◌}
use appsec_seq.Base.Maps.{nat_eq}
use appsec_seq.Orders.Priority.{priority_eq}
use appsec_seq.OrderPool.Storage.{OrderStorage}
use appsec_seq.OrderPool.Tracker.{OrderTracker}
use appsec_seq.Tests.Data.{id_of, store, two_orders}

-- The storage with the bids 5 and 6, and a tracker that knows the bid 5.
abbrev stored : OrderStorage
stored =
    let l = store.limit_orders in
    record store { limit_orders = record l { limit_orders = two_orders } }

abbrev tracker : OrderTracker
tracker = record {
  address_to_orders = (7, (id_of 5, tt) ∷ []) ∷ [];
  order_hash_to_order_id = (5, id_of 5) ∷ [];
  order_hash_to_peer_id = (5, 77 ∷ []) ∷ [];
  seen_invalid_orders = [];
  cancelled_orders = [];
  validating = [];
}
