-- ===== src/OrderPool/Indexer/Admission.antt =====
-- Which orders that come in go to validation.
use appsec_seq.Base.{
  ℕ, ◌≡◌, Bool, true, ◌||◌, ◌++◌, [], ◌∷◌, Option, none, map, if◌then◌else◌, arith,
}
use appsec_seq.Base.Maps.{nat_eq, get, insert, contains_key, get-insert_self, get-remove_self}
use appsec_seq.Orders.{AllOrders, order_hash, from}
use appsec_seq.OrderPool.Tracker.{
  OrderTracker, is_valid_cancel, is_duplicate, is_validating, start_validating, track_peer_id,
}
use appsec_seq.OrderPool.Validator.{OrderOrigin, validate_order}
use appsec_seq.OrderPool.Subscribers.{or_nobody, subscribe_to_order, notify_validation_subscribers}
use appsec_seq.OrderPool.Indexer.{
  OrderIndexer, OrderValidationError, order_cancelled, duplicate_order, invalid, tell, subscribe,
  new_order, new_rpc_order,
}

-- The tracker refuses an order that its owner cancelled, that it knows, or that was seen as invalid.
abbrev pub refused : OrderTracker → AllOrders → Bool
refused t order =
    is_valid_cancel t (order_hash order) (from order) || is_duplicate t (order_hash order)

-- An order that comes in goes to validation if the tracker does not refuse it and it is not under
-- validation yet; otherwise the validator is left as it is. In both cases the storage, the block and
-- the updates sent stay, and an order that is not refused is under validation from then on.
pub new_order_exact :
    (x : OrderIndexer) (peer sub : Option ℕ) (origin : OrderOrigin) (order : AllOrders)
    → let y = new_order x peer origin order sub in
      let t = x.order_tracker in
      let h = order_hash order in
      (y.validator ≡ (
        if refused t order || is_validating t h
        then x.validator
        else validate_order x.validator (origin, order)))
      × (is_validating y.order_tracker h ≡ (if refused t order then is_validating t h else true))
      × (y.order_storage ≡ x.order_storage)
      × (y.updates_sent ≡ x.updates_sent)
      × (y.block_number ≡ x.block_number)
unfolding new_order tell subscribe is_validating track_peer_id is_duplicate is_valid_cancel
    start_validating contains_key
new_order_exact x peer sub origin order =
    ground (arith, get-insert_self (order_hash order) tt x.order_tracker.validating)

-- What a new order leaves refused.
refused-new_order :
    (x : OrderIndexer) (peer sub : Option ℕ) (origin : OrderOrigin) (order : AllOrders)
    → refused (new_order x peer origin order sub).order_tracker order
      ≡ refused x.order_tracker order
unfolding new_order tell subscribe track_peer_id is_duplicate is_valid_cancel start_validating
refused-new_order x peer sub origin order = ground arith

-- The same order that comes in twice, from whatever peers and senders, is handed to validation at most
-- once: the second time the validator is left as it is.
pub new_order_twice :
    (x : OrderIndexer) (peer peer' sub sub' : Option ℕ) (origin origin' : OrderOrigin)
    (order : AllOrders)
    → let y = new_order x peer origin order sub in
      (new_order y peer' origin' order sub').validator ≡ y.validator
new_order_twice x peer peer' sub sub' origin origin' order =
    let y : OrderIndexer = new_order x peer origin order sub in
    ground (
      arith,
      new_order_exact x peer sub origin order,
      new_order_exact y peer' sub' origin' order,
      refused-new_order x peer sub origin order,
    )

-- Why an order is refused: its cancellation comes first.
abbrev pub reason : OrderTracker → AllOrders → OrderValidationError
reason t order =
    if is_valid_cancel t (order_hash order) (from order) then order_cancelled else duplicate_order

-- The sender of an order that is refused is told at once, with all who waited for the order before, in
-- the order in which they subscribed, why it is refused; nobody waits for it any more, and neither the
-- tracker, nor the storage, nor the validator changes.
pub new_rpc_order-refused :
    (x : OrderIndexer) (origin : OrderOrigin) (order : AllOrders) (tx : ℕ)
    → refused x.order_tracker order ≡ true
    → let y = new_rpc_order x origin order tx in
      let h = order_hash order in
      (y.results_sent
        ≡ x.results_sent
          ++ map
              (λ s. (s, invalid h (reason x.order_tracker order)))
              (or_nobody (get h x.subscribers.order_validation_subs) ++ tx ∷ []))
      × (get h y.subscribers.order_validation_subs ≡ none)
      × (y.order_tracker ≡ x.order_tracker)
      × (y.order_storage ≡ x.order_storage)
      × (y.validator ≡ x.validator)
unfolding new_rpc_order new_order tell subscribe subscribe_to_order notify_validation_subscribers
new_rpc_order-refused x origin order tx r =
    let h = order_hash order in
    let all = or_nobody (get h x.subscribers.order_validation_subs) ++ tx ∷ [] in
    ground (
      arith,
      get-insert_self h all x.subscribers.order_validation_subs,
      get-remove_self h (insert h all x.subscribers.order_validation_subs),
    )
