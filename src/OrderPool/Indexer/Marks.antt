-- ===== src/OrderPool/Indexer/Marks.antt =====
-- What the results of a validation and the end of a block leave marked as under validation.
use appsec_seq.Base.{
  ℕ, ◌+◌, ◌≡◌, refl, List, ◌++◌, Option, none, some, ◌==◌, returns, ltb, arith, Bool-cases, inl,
  inr, >>=-eq-returns,
}
use appsec_seq.Base.Maps.{nat_eq, remove, retain}
use appsec_seq.Orders.{order_hash, from}
use appsec_seq.OrderPool.Standard.{Order}
use appsec_seq.OrderPool.Storage
use appsec_seq.OrderPool.Storage.{OrderStorage, OrderSizes}
use appsec_seq.OrderPool.Tracker
use appsec_seq.OrderPool.Tracker.{
  OrderTracker, is_validating, remove_expired_orders, expired_hashes, expire_each, eth_block_time,
}
use appsec_seq.OrderPool.Validator.Orders.{held-notify}
use appsec_seq.OrderPool.Subscribers.{new_order}
use appsec_seq.OrderPool.Indexer.{
  OrderIndexer, OrderValidationResults, valid, invalid, transitioned_to_block, PoolInnerEvent,
  update, tell, eoa_state_change, filled_orders,
}
use appsec_seq.OrderPool.Indexer.Blocks.{
  handle_validated_order, accept, blame, finish_new_block_processing, drop_expired, verdict,
  insert_order, finalized_block, remove_pool, new_pool,
}
use appsec_seq.OrderPool.Indexer.Jobs.{
  Keeps, then_Keeps, eoa_state_change-Keeps, filled_orders-Keeps, expire_each-marks,
}

expired-marks :
    (now block : ℕ) (t : OrderTracker) (s : OrderStorage) (r : OrderTracker × OrderStorage × List ℕ)
    → remove_expired_orders now t block s ≡ returns r
    → r.0.validating ≡ t.validating
unfolding remove_expired_orders
expired-marks now block t s r e =
    let expiry = now + eth_block_time in
    let live : OrderTracker = record t {
      cancelled_orders = retain (λ h req. ltb expiry req.deadline) t.cancelled_orders;
    } in
    let hs = expired_hashes expiry block t.order_hash_to_order_id in
    let (u, each, out) =
      >>=-eq-returns (expire_each (live, s) hs) (λ u. returns (u.0, u.1, hs)) e in
    ground (arith, expire_each-marks live u.0 s u.1 hs)

drop_expired-Keeps :
    (now : ℕ) (x y : OrderIndexer) (block : ℕ) (completed addresses : List ℕ)
    → drop_expired now x block completed addresses ≡ returns y
    → Keeps x y
unfolding drop_expired
drop_expired-Keeps now x y block completed addresses e =
    let (r, expired, out) =
      >>=-eq-returns (remove_expired_orders now x.order_tracker block x.order_storage) _ e in
    record {
      marks = ground (arith, expired-marks now block x.order_tracker x.order_storage r);
      jobs = λ f. ground (arith, held-notify f x.validator block (completed ++ r.2) addresses);
    }

pub finish-Keeps :
    (now : ℕ) (x y : OrderIndexer) (block : ℕ) (completed addresses : List ℕ)
    → finish_new_block_processing now x block completed addresses ≡ returns y
    → Keeps x y
unfolding finish_new_block_processing Tracker.clear_invalid
finish-Keeps now x y block completed addresses e =
    let cleared : OrderIndexer = record x {
      block_number = block;
      order_tracker = Tracker.clear_invalid x.order_tracker;
    } in
    let moved = eoa_state_change cleared addresses in
    let (w, filled, next) =
      >>=-eq-returns (filled_orders moved block completed)
        (λ w. drop_expired now w block completed addresses) e in
    let k =
      then_Keeps cleared w y
        (then_Keeps cleared moved w (eoa_state_change-Keeps cleared addresses)
          (filled_orders-Keeps moved w block completed filled))
        (drop_expired-Keeps now w y block completed addresses next) in
    record { marks = k.marks; jobs = k.jobs }

-- The hash that a result is about.
unfoldable pub result_hash : OrderValidationResults → Option ℕ
result_hash (valid o) = some (order_hash o.order)
result_hash (invalid h e) = some h
result_hash transitioned_to_block = none

accept-marks :
    (z : OrderSizes) (x y : OrderIndexer) (o : Order) (ev : PoolInnerEvent)
    → accept z x o ≡ returns (y, ev)
    → (y.order_tracker.validating ≡ x.order_tracker.validating) × (y.validator ≡ x.validator)
unfolding accept update tell Tracker.new_valid_order
accept-marks z x y o ev e =
    let told = tell (update x (new_order o)) (order_hash o.order) (verdict o) in
    let t =
      Tracker.new_valid_order told.order_tracker (order_hash o.order) (from o.order) o.order_id in
    let (s, parked, next) =
      >>=-eq-returns (Tracker.park_orders t o.invalidates told.order_storage) _ e in
    let (r, inserted, out) = >>=-eq-returns (insert_order z s o) _ next in ground arith

pub handle-marks :
    (z : OrderSizes) (x y : OrderIndexer) (res : OrderValidationResults) (h : ℕ)
    (ev : PoolInnerEvent)
    → result_hash res ≡ some h
    → handle_validated_order z x res ≡ returns (y, ev)
    → (y.order_tracker.validating ≡ remove h x.order_tracker.validating)
      × (y.validator ≡ x.validator)
unfolding handle_validated_order result_hash blame tell Tracker.stop_validating
    Tracker.invalid_verification
handle-marks z x y (valid o) h ev q e =
    let x' : OrderIndexer = record x {
      order_tracker = Tracker.stop_validating x.order_tracker (order_hash o.order);
    } in
    elim (Bool-cases (o.valid_block == x.block_number)) [
      | inl now ↦ ground (arith, accept-marks z x' y o ev)
      | inr late ↦ ground arith
    ]
handle-marks z x y (invalid k r) h ev q e = ground arith
handle-marks z x y transitioned_to_block h ev q e = absurd (ground arith)

pub finalized_block-Keeps : (x : OrderIndexer) (block : ℕ) → Keeps x (finalized_block x block)
unfolding finalized_block
finalized_block-Keeps x block = record { marks = refl; jobs = λ f. omega arith }

pub remove_pool-Keeps : (x : OrderIndexer) (pool : ℕ) → Keeps x (remove_pool x pool)
unfolding remove_pool
remove_pool-Keeps x pool = record { marks = refl; jobs = λ f. omega arith }

pub new_pool-Keeps : (x y : OrderIndexer) (pool : ℕ) → new_pool x pool ≡ returns y → Keeps x y
unfolding new_pool
new_pool-Keeps x y pool e =
    let (s, added, out) =
      >>=-eq-returns (Storage.new_pool x.order_storage pool)
        (λ s. returns (record x { order_storage = s })) e in
    record { marks = ground arith; jobs = λ f. ground arith }
