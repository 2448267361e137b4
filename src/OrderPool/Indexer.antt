-- ===== src/OrderPool/Indexer.antt =====
-- angstrom-main/crates/order-pool/src/order_indexer.rs: the handlers of the order pool, over the
-- storage, the tracker, the validator and the subscribers. What its channels have been sent so far
-- is part of the state. Whether a cancellation is signed, and the clock, are arguments.
pub mod Blocks
pub mod Admission
pub mod Verdicts
pub mod Returns
pub mod Stale
pub mod Jobs
pub mod Marks
pub mod Served
use Prim.Native.String.{String}
use appsec_seq.Base.{
  ℕ, Bool, true, false, not, ◌||◌, ◌==◌, List, [], ◌∷◌, ◌++◌, Option, none, some, Result, ok, err,
  Outcome, returns, panics, ◌>>=◌, if◌then◌else◌, map,
}
use appsec_seq.Orders.{
  AllOrders, tob, TopOfBlockOrder, OrderLocation, limit, searcher, OrderId, OrderStatus,
  OrderWithStorageData, UserAccountVerificationError, order_hash, from,
}
use appsec_seq.OrderPool.Standard.{Order, LimitPoolError}
use appsec_seq.OrderPool.Searcher.{SearcherPoolError}
use appsec_seq.OrderPool.Storage
use appsec_seq.OrderPool.Storage.{OrderStorage, OrderSizes, OrderSet, PoolConfig}
use appsec_seq.OrderPool.Tracker
use appsec_seq.OrderPool.Tracker.{OrderTracker}
use appsec_seq.OrderPool.Tracker.Accounts.{pending_orders_for_address, eoa_state_changes}
use appsec_seq.OrderPool.Validator
use appsec_seq.OrderPool.Validator.{
  OrderValidator, OrderOrigin, local, Job, validate_order, validate_each, on_new_block,
}
use appsec_seq.OrderPool.Subscribers
use appsec_seq.OrderPool.Subscribers.{
  OrderSubscriptionTracker, PoolManagerUpdate, filled_order, unfilled_orders, cancelled_order,
  expired_order,
}

pub data OrderValidationError : Type 0 where
  state_error : UserAccountVerificationError → OrderValidationError
  invalid_tob_swap invalid_partial_order invalid_signature invalid_pool : OrderValidationError
  not_enough_gas duplicate_order invalid_order_at_block no_amount_specified : OrderValidationError
  max_gas_greater_than_min_amount no_gas_specified no_price_specified : OrderValidationError
  price_out_of_pool_bounds order_cancelled : OrderValidationError
  unknown_error : String → OrderValidationError

pub data OrderValidationResults : Type 0 where
  valid : Order → OrderValidationResults
  invalid : ℕ → OrderValidationError → OrderValidationResults
  transitioned_to_block : OrderValidationResults

pub record CancelOrderRequest : Type 0 where
  pub user_address : ℕ
  pub order_id : ℕ

pub record OrderIndexer : Type 0 where
  pub order_storage : OrderStorage
  pub block_number : ℕ
  pub order_tracker : OrderTracker
  pub validator : OrderValidator
  pub subscribers : OrderSubscriptionTracker
  -- what the channel of the updates was sent, and the results that each subscriber was sent
  pub updates_sent : List PoolManagerUpdate
  pub results_sent : List (ℕ × OrderValidationResults)

pub data PoolInnerEvent : Type 0 where
  propagation : AllOrders → PoolInnerEvent
  bad_order_messages : List ℕ → PoolInnerEvent
  has_transitioned_to_new_block : ℕ → PoolInnerEvent
  no_event : PoolInnerEvent

unfoldable pub new : OrderStorage → ℕ → OrderIndexer
new storage block = record {
  order_storage = storage;
  block_number = block;
  order_tracker = Tracker.new;
  validator = Validator.new;
  subscribers = Subscribers.new;
  updates_sent = [];
  results_sent = [];
}

-- `self.subscribers.notify_order_subscribers(..)`
unfoldable pub update : OrderIndexer → PoolManagerUpdate → OrderIndexer
update x u =
    let (s, us) = Subscribers.notify_order_subscribers x.subscribers u in
    record x { subscribers = s; updates_sent = x.updates_sent ++ us }

-- `self.subscribers.notify_validation_subscribers(..)`
unfoldable pub tell : OrderIndexer → ℕ → OrderValidationResults → OrderIndexer
tell x h res =
    let (s, told) = Subscribers.notify_validation_subscribers x.subscribers h res in
    record x { subscribers = s; results_sent = x.results_sent ++ told }

unfoldable pub subscribe : OrderIndexer → ℕ → Option ℕ → OrderIndexer
subscribe x h none = x
subscribe x h (some tx) = record x {
  subscribers = Subscribers.subscribe_to_order x.subscribers h tx;
}

-- `log_cancel_order` only counts.
unfoldable pub new_order :
    OrderIndexer → Option ℕ → OrderOrigin → AllOrders → Option ℕ → OrderIndexer
unfolding tell subscribe
new_order x peer origin order sub =
    let h = order_hash order in
    let y = subscribe x h sub in
    if Tracker.is_valid_cancel y.order_tracker h (from order)
    then tell y h (invalid h order_cancelled)
    else if Tracker.is_duplicate y.order_tracker h
    then tell y h (invalid h duplicate_order)
    else (let t = Tracker.track_peer_id y.order_tracker h peer in
        if Tracker.is_validating t h then record y { order_tracker = t } else record y {
          order_tracker = Tracker.start_validating t h;
          validator = validate_order y.validator (origin, order);
        })

unfoldable pub new_rpc_order : OrderIndexer → OrderOrigin → AllOrders → ℕ → OrderIndexer
new_rpc_order x origin order tx = new_order x none origin order (some tx)

unfoldable pub new_network_order : OrderIndexer → ℕ → OrderOrigin → AllOrders → OrderIndexer
new_network_order x peer origin order = new_order x (some peer) origin order none

unfoldable pub as_local : List Order → List Job
as_local = map (λ o. (local, o.order))

-- `valid` says whether the request's signature is that of its user.
unfoldable pub cancel_order : ℕ → Bool → OrderIndexer → CancelOrderRequest → OrderIndexer × Bool
unfolding update as_local
cancel_order now signed x req =
    if not signed
    then (x, false)
    else if Tracker.is_seen_invalid x.order_tracker req.order_id
        || Tracker.is_cancelled x.order_tracker req.order_id
    then (x, true)
    else (let (t, s, found) =
          Tracker.cancel_order now x.order_tracker req.user_address req.order_id x.order_storage in
        elim found [
          | none ↦ (record x { order_tracker = t; order_storage = s }, false)
          | some (top, pool) ↦
              let (s', parked) =
                pending_orders_for_address t req.user_address s
                  (λ id storage. Storage.remove_parked_order storage id) in
              (
                update
                    (record x {
                      order_tracker = t;
                      order_storage = s';
                      validator = validate_each x.validator (as_local parked);
                    })
                    (cancelled_order top req.user_address pool req.order_id),
                true,
              )
        ])

-- The closure of `eoa_state_change`.
unfoldable pub revalidate : OrderId → OrderStorage × OrderValidator → OrderStorage × OrderValidator
revalidate id (s, v) =
    let (s', o) = Storage.remove_order_from_id s id in
    (elim o [ none ↦ (s', v) | some a ↦ (s', validate_order v (local, a.order)) ])

unfoldable pub eoa_state_change : OrderIndexer → List ℕ → OrderIndexer
unfolding revalidate
eoa_state_change x eoas =
    let (t, (s, v)) =
      eoa_state_changes x.order_tracker eoas (x.order_storage, x.validator) revalidate in
    record x { order_tracker = t; order_storage = s; validator = v }

-- Each order of a reorg is told of and validated again.
unfoldable pub unfill : OrderIndexer → List Order → OrderIndexer
unfolding update
unfill x [] = x
unfill x (o ∷ os) =
    let y = update x (unfilled_orders o) in
    unfill (record y { validator = validate_order y.validator (local, o.order) }) os

unfoldable pub reorg : OrderIndexer → List ℕ → OrderIndexer
unfolding unfill
reorg x hs =
    let (s, orders) = Storage.reorg x.order_storage hs in
    unfill (record x { order_storage = s }) orders

unfoldable pub update_filled : OrderIndexer → ℕ → List Order → OrderIndexer
unfolding update
update_filled x block [] = x
update_filled x block (o ∷ os) = update_filled (update x (filled_order block o)) block os

unfoldable pub filled_orders : OrderIndexer → ℕ → List ℕ → Outcome OrderIndexer
unfolding update_filled
filled_orders x block [] = returns x
filled_orders x block (h ∷ hs) = do
  let taken = Tracker.filled_orders x.order_tracker (h ∷ hs) x.order_storage
  s ← Storage.add_filled_orders taken.1 block taken.2
  returns (update_filled (record x { order_tracker = taken.0; order_storage = s }) block taken.2)
