-- ===== src/OrderPool/Tracker.antt =====
-- angstrom-main/crates/order-pool/src/order_tracker.rs: which hashes are known, seen as invalid,
-- cancelled or under validation, and by whom. The seconds since the epoch are an argument of the
-- calls that read the clock.
pub mod Accounts
pub mod Cancel
pub mod Expiry
pub mod Peers
use appsec_seq.Base.{
  ℕ, ◌+◌, ◌*◌, Bool, true, false, not, ◌||◌, List, [], ◌∷◌, ◌++◌, Option, none, some, Outcome,
  returns, panics, ◌>>=◌, if◌then◌else◌, ltb, leb, ◌==◌, add_u64,
}
use appsec_seq.Base.Maps.{
  Map, HashSet, Eq, nat_eq, get, insert, remove, retain, keys, map_values, contains_key,
}
use appsec_seq.Orders.{
  OrderId, OrderLocation, limit, searcher, AllOrders, order_hash, from, deadline, is_tob,
}
use appsec_seq.Orders.Ids.{order_id_eq}
use appsec_seq.OrderPool.Standard.{Order}
use appsec_seq.OrderPool.Storage
use appsec_seq.OrderPool.Storage.{OrderStorage}

abbrev pub eth_block_time : ℕ
eth_block_time = 12

abbrev pub max_new_order_delay_propagation : ℕ
max_new_order_delay_propagation = 7000

pub record InnerCancelOrderRequest : Type 0 where
  pub from : ℕ
  pub deadline : ℕ

pub record OrderTracker : Type 0 where
  pub address_to_orders : Map ℕ (HashSet OrderId)
  pub order_hash_to_order_id : Map ℕ OrderId
  pub order_hash_to_peer_id : Map ℕ (List ℕ)
  pub seen_invalid_orders : HashSet ℕ
  pub cancelled_orders : Map ℕ InnerCancelOrderRequest
  pub validating : HashSet ℕ

unfoldable pub new : OrderTracker
new = record {
  address_to_orders = [];
  order_hash_to_order_id = [];
  order_hash_to_peer_id = [];
  seen_invalid_orders = [];
  cancelled_orders = [];
  validating = [];
}

unfoldable pub clear_invalid : OrderTracker → OrderTracker
clear_invalid t = record t { seen_invalid_orders = [] }

unfoldable pub is_seen_invalid : OrderTracker → ℕ → Bool
is_seen_invalid t h = contains_key h t.seen_invalid_orders

unfoldable pub is_cancelled : OrderTracker → ℕ → Bool
is_cancelled t h = contains_key h t.cancelled_orders

unfoldable pub start_validating : OrderTracker → ℕ → OrderTracker
start_validating t h = record t { validating = insert h tt t.validating }

unfoldable pub stop_validating : OrderTracker → ℕ → OrderTracker
stop_validating t h = record t { validating = remove h t.validating }

unfoldable pub is_validating : OrderTracker → ℕ → Bool
is_validating t h = contains_key h t.validating

unfoldable pub is_valid_cancel : OrderTracker → ℕ → ℕ → Bool
is_valid_cancel t h addr = elim (get h t.cancelled_orders) [
  | none ↦ false
  | some req ↦ req.from == addr
]

unfoldable pub is_duplicate : OrderTracker → ℕ → Bool
is_duplicate t h = contains_key h t.order_hash_to_order_id || contains_key h t.seen_invalid_orders

abbrev pub or_empty : Option (List ℕ) → List ℕ
or_empty none = []
or_empty (some ps) = ps

unfoldable pub track_peer_id : OrderTracker → ℕ → Option ℕ → OrderTracker
track_peer_id t h none = t
track_peer_id t h (some peer) = record t {
  order_hash_to_peer_id =
      insert h (or_empty (get h t.order_hash_to_peer_id) ++ peer ∷ []) t.order_hash_to_peer_id;
}

unfoldable pub invalid_verification : OrderTracker → ℕ → OrderTracker × List ℕ
invalid_verification t h = (
  record t {
    seen_invalid_orders = insert h tt t.seen_invalid_orders;
    order_hash_to_peer_id = remove h t.order_hash_to_peer_id;
  },
  or_empty (get h t.order_hash_to_peer_id),
)

abbrev pub expired_deadline : ℕ → Option ℕ → Bool
expired_deadline expiry none = false
expired_deadline expiry (some d) = leb d expiry

abbrev pub missed_block : ℕ → Option ℕ → Bool
missed_block block none = false
missed_block block (some b) = not (b == add_u64 block 1)

unfoldable pub is_expired : ℕ → ℕ → OrderId → Bool
is_expired expiry block id =
    expired_deadline expiry id.deadline || missed_block block id.flash_block

unfoldable pub expired_hashes : ℕ → ℕ → Map ℕ OrderId → List ℕ
unfolding is_expired
expired_hashes expiry block [] = []
expired_hashes expiry block ((h, id) ∷ m) =
    let rest = expired_hashes expiry block m in
    if is_expired expiry block id then h ∷ rest else rest

-- Every address forgets the order.
unfoldable pub forget_id : Map ℕ (HashSet OrderId) → OrderId → Map ℕ (HashSet OrderId)
forget_id m id = map_values (remove id) m

-- One round of the loop for an expired hash, whose `unwrap` panics on a hash that is not there.
unfoldable pub expire_one : OrderTracker × OrderStorage → ℕ → Outcome (OrderTracker × OrderStorage)
unfolding forget_id
expire_one (t, s) h = elim (get h t.order_hash_to_order_id) [
  | none ↦ panics
  | some id ↦ returns (
    record t {
      order_hash_to_order_id = remove h t.order_hash_to_order_id;
      address_to_orders = forget_id t.address_to_orders id;
    },
    (Storage.remove_order s id).0,
  )
]

unfoldable pub expire_each :
    OrderTracker × OrderStorage → List ℕ → Outcome (OrderTracker × OrderStorage)
unfolding expire_one
expire_each ts [] = returns ts
expire_each ts (h ∷ hs) = do ts' ← expire_one ts h; expire_each ts' hs

unfoldable pub remove_expired_orders :
    ℕ → OrderTracker → ℕ → OrderStorage → Outcome (OrderTracker × OrderStorage × List ℕ)
remove_expired_orders now t block s = do
  let expiry = now + eth_block_time
  let live = record t {
    cancelled_orders = retain (λ h req. ltb expiry req.deadline) t.cancelled_orders;
  }
  let hs = expired_hashes expiry block t.order_hash_to_order_id
  ts ← expire_each (live, s) hs
  returns (ts.0, ts.1, hs)

unfoldable pub filled_orders :
    OrderTracker → List ℕ → OrderStorage → OrderTracker × OrderStorage × List Order
filled_orders t [] s = (t, s, [])
filled_orders t (h ∷ hs) s = elim (get h t.order_hash_to_order_id) [
  | none ↦ filled_orders t hs s
  | some id ↦
      let (s', o) = Storage.remove_order s id in
      let (t', s'', rest) =
        filled_orders (record t { order_hash_to_order_id = remove h t.order_hash_to_order_id }) hs
          s' in
      (elim o [ none ↦ (t', s'', rest) | some a ↦ (t', s'', a ∷ rest) ])
]

unfoldable pub ids_of : Map ℕ OrderId → List ℕ → List OrderId
ids_of m [] = []
ids_of m (h ∷ hs) = let rest = ids_of m hs in elim (get h m) [ none ↦ rest | some id ↦ id ∷ rest ]

unfoldable pub park_orders : OrderTracker → List ℕ → OrderStorage → Outcome OrderStorage
park_orders t txes s = Storage.park_orders s (ids_of t.order_hash_to_order_id txes)

abbrev pub or_no_orders : Option (HashSet OrderId) → HashSet OrderId
or_no_orders none = []
or_no_orders (some ids) = ids

unfoldable pub new_valid_order : OrderTracker → ℕ → ℕ → OrderId → OrderTracker
new_valid_order t h user id = record t {
  order_hash_to_peer_id = remove h t.order_hash_to_peer_id;
  order_hash_to_order_id = insert h id t.order_hash_to_order_id;
  address_to_orders =
      insert user (insert id tt (or_no_orders (get user t.address_to_orders))) t.address_to_orders;
}

abbrev pub or_now : ℕ → Option ℕ → ℕ
or_now now none = now
or_now now (some d) = d

unfoldable pub insert_cancel_with_deadline : ℕ → OrderTracker → ℕ → ℕ → Option ℕ → OrderTracker
insert_cancel_with_deadline now t addr h d = record t {
  cancelled_orders = insert h (record { from = addr; deadline = or_now now d }) t.cancelled_orders;
}

unfoldable pub cancel_with_next_block_deadline : ℕ → OrderTracker → ℕ → ℕ → OrderTracker
cancel_with_next_block_deadline now t addr h =
    insert_cancel_with_deadline now t addr h
      (some (now + max_new_order_delay_propagation * eth_block_time))

-- `from_address` is the one that asks for the cancellation.
unfoldable pub cancel_order :
    ℕ → OrderTracker → ℕ → ℕ → OrderStorage → OrderTracker × OrderStorage × Option (Bool × ℕ)
unfolding cancel_with_next_block_deadline insert_cancel_with_deadline
cancel_order now t from_address h s = elim (get h t.order_hash_to_order_id) [
  | none ↦ (cancel_with_next_block_deadline now t from_address h, s, none)
  | some id ↦
      let u = record t { order_hash_to_order_id = remove h t.order_hash_to_order_id } in
      let (s', found) = Storage.cancel_order s id in
      (elim found [
        | none ↦ (cancel_with_next_block_deadline now u from_address h, s', none)
        | some o ↦
            let v = record u {
              order_hash_to_order_id = remove (order_hash o.order) u.order_hash_to_order_id;
              order_hash_to_peer_id = remove (order_hash o.order) u.order_hash_to_peer_id;
            } in
            (
              insert_cancel_with_deadline now v (from o.order) h (deadline o.order),
              s',
              some (is_tob o.order, o.pool_id),
            )
      ])
]
