-- ===== src/OrderPool/Indexer/Blocks.antt =====
-- angstrom-main/crates/order-pool/src/order_indexer.rs: what a validated order and a new block do.
use appsec_seq.Base.{
  ℕ, Bool, ◌==◌, List, [], ◌∷◌, ◌++◌, Option, none, some, Result, ok, err, Outcome, returns, panics,
  ◌>>=◌, if◌then◌else◌,
}
use appsec_seq.Orders.{
  AllOrders, tob, TopOfBlockOrder, OrderLocation, limit, searcher, OrderStatus, order_hash, from,
}
use appsec_seq.OrderPool.Standard.{Order, LimitPoolError}
use appsec_seq.OrderPool.Searcher.{SearcherPoolError, TobOrder}
use appsec_seq.OrderPool.Storage
use appsec_seq.OrderPool.Storage.{OrderStorage, OrderSizes, OrderSet}
use appsec_seq.OrderPool.Tracker
use appsec_seq.OrderPool.Tracker.Accounts
use appsec_seq.OrderPool.Validator.{
  OrderValidatorRes, validated_order, ensure_clear_for_transition, transition_complete,
  on_new_block, notify_validation_on_changes, poll_next, pending, finished, ready,
}
use appsec_seq.OrderPool.Subscribers
use appsec_seq.OrderPool.Subscribers.{new_order}
use appsec_seq.OrderPool.Indexer.{
  OrderIndexer, OrderValidationResults, valid, invalid, transitioned_to_block, state_error,
  invalid_order_at_block, PoolInnerEvent, propagation, bad_order_messages,
  has_transitioned_to_new_block, no_event, update, tell, eoa_state_change, filled_orders,
}

pub data InsertError : Type 0 where
  limit_error : LimitPoolError → InsertError
  searcher_error : SearcherPoolError → InsertError

unfoldable pub with_body : Order → TopOfBlockOrder → TobOrder
with_body o t = record {
  order = t;
  priority_data = o.priority_data;
  invalidates = o.invalidates;
  pool_id = o.pool_id;
  is_currently_valid = o.is_currently_valid;
  is_bid = o.is_bid;
  is_valid = o.is_valid;
  valid_block = o.valid_block;
  order_id = o.order_id;
  tob_reward = o.tob_reward;
}

-- `try_map_inner(..).expect(..)`: an order that is not a top-of-block order panics.
unfoldable pub as_tob : Order → AllOrders → Outcome TobOrder
unfolding with_body
as_tob o (tob t) = returns (with_body o t)
as_tob o _ = panics

abbrev pub limit_result : Result (Unit {0}) LimitPoolError → Result (Unit {0}) InsertError
limit_result (ok u) = ok u
limit_result (err e) = err (limit_error e)

abbrev pub searcher_result : Result (Unit {0}) SearcherPoolError → Result (Unit {0}) InsertError
searcher_result (ok u) = ok u
searcher_result (err e) = err (searcher_error e)

unfoldable pub insert_at :
    OrderLocation
    → OrderSizes
    → OrderStorage
    → Order
    → Outcome (OrderStorage × Result (Unit {0}) InsertError)
unfolding as_tob
insert_at limit z s o =
    let (s', r) = Storage.add_new_limit_order z s o in returns (s', limit_result r)
insert_at searcher z s o = do
  t ← as_tob o o.order
  let r = Storage.add_new_searcher_order z s t
  returns (r.0, searcher_result r.1)

unfoldable pub insert_order :
    OrderSizes → OrderStorage → Order → Outcome (OrderStorage × Result (Unit {0}) InsertError)
unfolding insert_at
insert_order z s o = insert_at o.order_id.location z s o

-- What the subscribers are told of an order that was found valid.
unfoldable pub verdict : Order → OrderValidationResults
verdict o = elim o.is_currently_valid [
  | none ↦ valid o
  | some e ↦ invalid (order_hash o.order) (state_error e)
]

-- A valid result that is for the current block. A failed insertion is only logged.
unfoldable pub accept : OrderSizes → OrderIndexer → Order → Outcome (OrderIndexer × PoolInnerEvent)
unfolding update tell verdict insert_order
accept z x o = do
  let h = order_hash o.order
  let y = tell (update x (new_order o)) h (verdict o)
  let t = Tracker.new_valid_order y.order_tracker h (from o.order) o.order_id
  s ← Tracker.park_orders t o.invalidates y.order_storage
  r ← insert_order z s o
  returns (record y { order_tracker = t; order_storage = r.0 }, propagation o.order)

-- The peers that sent an order are reported.
unfoldable pub blame : OrderIndexer → ℕ → OrderIndexer × PoolInnerEvent
blame x h =
    let (t, peers) = Tracker.invalid_verification x.order_tracker h in
    (record x { order_tracker = t }, bad_order_messages peers)

unfoldable pub handle_validated_order :
    OrderSizes → OrderIndexer → OrderValidationResults → Outcome (OrderIndexer × PoolInnerEvent)
unfolding tell accept blame
handle_validated_order z x (valid o) =
    let h = order_hash o.order in
    let y = record x { order_tracker = Tracker.stop_validating x.order_tracker h } in
    if o.valid_block == x.block_number
    then accept z y o
    else returns (blame (tell y h (invalid h invalid_order_at_block)) h)
handle_validated_order z x (invalid h e) =
    let y = record x { order_tracker = Tracker.stop_validating x.order_tracker h } in
    let w = tell y h (invalid h e) in
    returns (blame (record w { order_storage = Storage.remove_invalid_order w.order_storage h }) h)
handle_validated_order z x transitioned_to_block = returns (x, no_event)

unfoldable pub start_new_block_processing :
    OrderIndexer → ℕ → List ℕ → List ℕ → Outcome OrderIndexer
start_new_block_processing x block completed addresses = do
  v ← on_new_block x.validator block completed addresses
  returns (record x { validator = v })

-- The end of `finish_new_block_processing`, from the expired orders on.
unfoldable pub drop_expired : ℕ → OrderIndexer → ℕ → List ℕ → List ℕ → Outcome OrderIndexer
drop_expired now y block completed addresses = do
  e ← Tracker.remove_expired_orders now y.order_tracker block y.order_storage
  let n = Subscribers.notify_expired_orders y.subscribers e.2
  returns (record y {
    order_tracker = e.0;
    order_storage = e.1;
    subscribers = n.0;
    updates_sent = y.updates_sent ++ n.1;
    validator = notify_validation_on_changes y.validator block (completed ++ e.2) addresses;
  })

unfoldable pub finish_new_block_processing :
    ℕ → OrderIndexer → ℕ → List ℕ → List ℕ → Outcome OrderIndexer
unfolding drop_expired
finish_new_block_processing now x block completed addresses = do
  let cleared = record x {
    block_number = block;
    order_tracker = Tracker.clear_invalid x.order_tracker;
  }
  y ← filled_orders (eoa_state_change cleared addresses) block completed
  drop_expired now y block completed addresses

unfoldable pub finalized_block : OrderIndexer → ℕ → OrderIndexer
finalized_block x block = record x { order_storage = Storage.finalized_block x.order_storage block }

unfoldable pub new_pool : OrderIndexer → ℕ → Outcome OrderIndexer
new_pool x pool = do
  s ← Storage.new_pool x.order_storage pool
  returns (record x { order_storage = s })

unfoldable pub remove_pool : OrderIndexer → ℕ → OrderIndexer
remove_pool x pool = record x { order_storage = Storage.remove_pool x.order_storage pool }

unfoldable pub pending_orders_for_address : OrderIndexer → ℕ → List Order
pending_orders_for_address x addr =
    (Accounts.pending_orders_for_address x.order_tracker addr x.order_storage
      (λ id s. (s, Storage.get_order_from_id s id))).1

unfoldable pub order_status : OrderIndexer → ℕ → Outcome (Option OrderStatus)
order_status x h = Storage.fetch_status_of_order x.order_storage h

unfoldable pub orders_by_pool : OrderIndexer → ℕ → OrderLocation → List AllOrders
orders_by_pool x pool place = Storage.get_orders_by_pool x.order_storage pool place

unfoldable pub get_all_orders : OrderIndexer → Outcome OrderSet
get_all_orders x = Storage.get_all_orders x.order_storage

-- What the loop does with an answer of the validator.
unfoldable pub react :
    ℕ
    → OrderSizes
    → OrderIndexer
    → OrderValidatorRes OrderValidationResults
    → Outcome (OrderIndexer × List PoolInnerEvent)
unfolding finish_new_block_processing handle_validated_order
react now z x (ensure_clear_for_transition block orders addresses) = do
  y ← finish_new_block_processing now x block orders addresses
  returns (y, [])
react now z x (validated_order res) = do r ← handle_validated_order z x res; returns (r.0, r.1 ∷ [])
react now z x transition_complete = returns (x, has_transitioned_to_new_block x.block_number ∷ [])

-- The loop of `poll_next`. The list says what each poll of the validator finds done; the loop ends at
-- the first poll that gives nothing, or with the list.
unfoldable pub poll :
    ℕ
    → OrderSizes
    → OrderIndexer
    → List (Option (ℕ × OrderValidationResults) × Bool)
    → Outcome (OrderIndexer × List PoolInnerEvent)
unfolding react
poll now z x [] = returns (x, [])
poll now z x ((woken, informed) ∷ found) =
    let (v, res) = poll_next woken informed x.validator in
    elim res [
      | pending ↦ returns (record x { validator = v }, [])
      | finished ↦ returns (record x { validator = v }, [])
      | ready r ↦ (do
        one ← react now z (record x { validator = v }) r
        rest ← poll now z one.0 found
        returns (rest.0, one.1 ++ rest.1))
    ]
