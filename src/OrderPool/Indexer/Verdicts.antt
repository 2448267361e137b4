-- ===== src/OrderPool/Indexer/Verdicts.antt =====
-- What the result of a validation does to an order.
use appsec_seq.Base.{
  ℕ, ◌≡◌, refl, true, false, ◌==◌, Option, none, some, returns, if◌then◌else◌, arith, Bool-cases,
  inl, inr,
}
use appsec_seq.Base.Maps.{nat_eq, get, contains_key, get-insert_self, get-remove_self}
use appsec_seq.Orders.{AllOrders, order_hash, from, limit, is_vanilla, currently_valid}
use appsec_seq.OrderPool.Pending.{PendingPool}
use appsec_seq.OrderPool.Size.{has_space}
use appsec_seq.OrderPool.Standard.{Order}
use appsec_seq.OrderPool.Storage
use appsec_seq.OrderPool.Storage.{OrderStorage, OrderSizes, add_new_limit_order}
use appsec_seq.OrderPool.Storage.Moves.{Holds, add_new_limit_order-Holds}
use appsec_seq.OrderPool.Tracker
use appsec_seq.OrderPool.Tracker.{
  OrderTracker, is_valid_cancel, is_duplicate, is_validating, or_empty, is_seen_invalid,
  invalid_verification, stop_validating, new_valid_order, ids_of,
}
use appsec_seq.OrderPool.Subscribers.{new_order}
use appsec_seq.OrderPool.Indexer.{
  OrderIndexer, OrderValidationResults, valid, invalid, transitioned_to_block, update, tell,
  propagation, bad_order_messages, invalid_order_at_block,
}
use appsec_seq.OrderPool.Indexer.Blocks.{
  handle_validated_order, accept, blame, insert_order, insert_at, limit_result, verdict,
}
use appsec_seq.OrderPool.Indexer.Admission.{refused}

-- The tracker once it knows a valid order.
abbrev pub knowing : OrderTracker → Order → OrderTracker
knowing t o =
    new_valid_order (stop_validating t (order_hash o.order)) (order_hash o.order) (from o.order)
      o.order_id

insert_order_limit :
    (z : OrderSizes) (s : OrderStorage) (o : Order)
    → o.order_id.location ≡ limit
    → insert_order z s o
      ≡ returns ((add_new_limit_order z s o).0, limit_result (add_new_limit_order z s o).1)
unfolding insert_order insert_at
insert_order_limit z s o e = rw e refl

-- A result that is valid for the current block, of a limit order without a hook that can be filled now,
-- in a pool that is known and while the budget has room once the orders that it invalidates are parked:
-- the order is known by its hash and no longer under validation, the storage finds it by its id and
-- gives it out, and it is passed on to the peers.
pub handle_valid-Holds :
    (z : OrderSizes) (x : OrderIndexer) (o : Order) (s : OrderStorage) (p : PendingPool AllOrders)
    → o.valid_block ≡ x.block_number
    → Tracker.park_orders (knowing x.order_tracker o) o.invalidates x.order_storage ≡ returns s
    → is_vanilla o.order ≡ true
    → currently_valid o ≡ true
    → o.order_id.location ≡ limit
    → o.order_id.pool_id ≡ o.pool_id
    → get o.pool_id s.limit_orders.limit_orders.pending_orders ≡ some p
    → (has_space s.limit_orders.size z.all_orders).1 ≡ true
    → (y : OrderIndexer) × (handle_validated_order z x (valid o) ≡ returns (y, propagation o.order))
      × Holds y.order_storage o
      × (get (order_hash o.order) y.order_tracker.order_hash_to_order_id ≡ some o.order_id)
      × (is_validating y.order_tracker (order_hash o.order) ≡ false)
unfolding handle_validated_order accept update tell is_validating stop_validating new_valid_order
    contains_key
handle_valid-Holds z x o s p block parked van v loc e h room = (
  record told {
    order_tracker = knowing x.order_tracker o;
    order_storage = (add_new_limit_order z s o).0;
  },
  ground (arith, insert_order_limit z s o loc),
  (add_new_limit_order-Holds z s o p van v loc e h room).1,
  ground (
    arith,
    get-insert_self (order_hash o.order) o.order_id x.order_tracker.order_hash_to_order_id,
  ),
  ground (arith, get-remove_self (order_hash o.order) x.order_tracker.validating),
)
  where
    told : OrderIndexer
    told =
        tell
          (update
            (record x { order_tracker = stop_validating x.order_tracker (order_hash o.order) })
            (new_order o))
          (order_hash o.order) (verdict o)

-- The hash of a result that speaks against its order: it is invalid, or it is for another block.
unfoldable pub at_fault : ℕ → OrderValidationResults → Option ℕ
at_fault block (valid o) = if o.valid_block == block then none else some (order_hash o.order)
at_fault block (invalid h e) = some h
at_fault block transitioned_to_block = none

blame_lem :
    (x w : OrderIndexer) (h : ℕ) (order : AllOrders)
    → w.order_tracker ≡ stop_validating x.order_tracker h
    → order_hash order ≡ h
    → let r = blame w h in
      (r.1 ≡ bad_order_messages (or_empty (get h x.order_tracker.order_hash_to_peer_id)))
      × (is_validating r.0.order_tracker h ≡ false)
      × (get h r.0.order_tracker.order_hash_to_peer_id ≡ none)
      × (refused r.0.order_tracker order ≡ true)
unfolding blame is_validating is_duplicate invalid_verification stop_validating contains_key
blame_lem x w h order e f = ground (
  arith,
  get-remove_self h x.order_tracker.validating,
  get-insert_self h tt x.order_tracker.seen_invalid_orders,
  get-remove_self h x.order_tracker.order_hash_to_peer_id,
)

-- A result that is invalid or that is for another block is answered with the list of peers that the tracker
-- has for the hash, none if it has none, and the tracker forgets this list. The hash is no longer under
-- validation, an order with that hash is refused when it comes in, and the validator gets no new work.
pub handle_at_fault :
    (z : OrderSizes) (x : OrderIndexer) (res : OrderValidationResults) (h : ℕ) (order : AllOrders)
    → at_fault x.block_number res ≡ some h
    → order_hash order ≡ h
    → (y : OrderIndexer) × (handle_validated_order z x res
        ≡ returns (y, bad_order_messages (or_empty (get h x.order_tracker.order_hash_to_peer_id))))
      × (is_validating y.order_tracker h ≡ false)
      × (get h y.order_tracker.order_hash_to_peer_id ≡ none)
      × (refused y.order_tracker order ≡ true)
      × (y.validator ≡ x.validator)
unfolding handle_validated_order at_fault tell blame
handle_at_fault z x (valid o) h order f e = elim (Bool-cases (o.valid_block == x.block_number)) [
  | inl same ↦ absurd (ground arith)
  | inr other ↦
      let w : OrderIndexer =
        tell (record x { order_tracker = stop_validating x.order_tracker (order_hash o.order) })
          (order_hash o.order) (invalid (order_hash o.order) invalid_order_at_block) in
      let b = blame_lem x w h order (ground arith) e in
      ((blame w h).0, ground (arith, b.0), b.1, b.2, b.3, refl)
]
handle_at_fault z x (invalid k r) h order f e =
    let w : OrderIndexer =
      tell (record x { order_tracker = stop_validating x.order_tracker k }) k (invalid k r) in
    let u : OrderIndexer = record w {
      order_storage = Storage.remove_invalid_order w.order_storage k;
    } in
    let b = blame_lem x u h order (ground arith) e in
    ((blame u h).0, ground (arith, b.0), b.1, b.2, b.3, refl)
handle_at_fault z x transitioned_to_block h order f e = absurd (ground arith)
