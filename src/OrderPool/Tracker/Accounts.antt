-- ===== src/OrderPool/Tracker/Accounts.antt =====
-- angstrom-main/crates/order-pool/src/order_tracker.rs: the calls that go through the orders of an
-- address.
use appsec_seq.Base.{ℕ, List, [], ◌∷◌, ◌++◌, Option, none, some}
use appsec_seq.Base.Maps.{Map, HashSet, nat_eq, get, remove, keys}
use appsec_seq.Orders.{OrderId}
use appsec_seq.Orders.Ids.{order_id_eq}
use appsec_seq.OrderPool.Standard.{Order}
use appsec_seq.OrderPool.Storage.{OrderStorage}
use appsec_seq.OrderPool.Tracker.{OrderTracker, or_no_orders}

-- `f` may take the order out of the storage: the calls follow one another.
unfoldable pub collect_orders :
    (OrderId → OrderStorage → OrderStorage × Option Order)
    → List OrderId
    → OrderStorage
    → OrderStorage × List Order
collect_orders f [] s = (s, [])
collect_orders f (id ∷ ids) s =
    let (s', o) = f id s in
    let (s'', rest) = collect_orders f ids s' in
    (elim o [ none ↦ (s'', rest) | some a ↦ (s'', a ∷ rest) ])

unfoldable pub pending_orders_for_address :
    OrderTracker
    → ℕ
    → OrderStorage
    → (OrderId → OrderStorage → OrderStorage × Option Order)
    → OrderStorage × List Order
unfolding collect_orders
pending_orders_for_address t addr s f = elim (get addr t.address_to_orders) [
  | none ↦ (s, [])
  | some ids ↦ collect_orders f (keys ids) s
]

-- The ids of these addresses, which forget them.
unfoldable pub take_addresses :
    Map ℕ (HashSet OrderId) → List ℕ → Map ℕ (HashSet OrderId) × List OrderId
take_addresses m [] = (m, [])
take_addresses m (a ∷ addrs) =
    let rest = take_addresses (remove a m) addrs in
    (rest.0, keys (or_no_orders (get a m)) ++ rest.1)

-- `f`, which hands an order back to the validator, may change the storage and the validator.
unfoldable pub for_each_id :
    {Validator : Type 0}
    → (OrderId → OrderStorage × Validator → OrderStorage × Validator)
    → List OrderId
    → OrderStorage × Validator
    → OrderStorage × Validator
for_each_id f [] sv = sv
for_each_id f (id ∷ ids) sv = for_each_id f ids (f id sv)

unfoldable pub eoa_state_changes :
    {Validator : Type 0}
    → OrderTracker
    → List ℕ
    → OrderStorage × Validator
    → (OrderId → OrderStorage × Validator → OrderStorage × Validator)
    → OrderTracker × (OrderStorage × Validator)
unfolding take_addresses for_each_id
eoa_state_changes t eoas sv f =
    let (m, ids) = take_addresses t.address_to_orders eoas in
    (record t { address_to_orders = m }, for_each_id f ids sv)
