-- ===== src/OrderPool/Indexer/Stale.antt =====
-- An order that fails when it is validated again.
use appsec_seq.Base.{
  none, ◌⊎◌, inl, inr, Option-cases, ==_iff, ℕ, ◌≡◌, refl, true, [], ◌∷◌, some, returns, arith,
}
use appsec_seq.Base.Maps.{Map, map_values, get-map_values, nat_eq, get, keys, contains_key}
use appsec_seq.Orders.{OrderLocation, limit, searcher, AllOrders, OrderId, order_hash}
use appsec_seq.Orders.Priority.{priority_eq}
use appsec_seq.OrderPool.Pending
use appsec_seq.OrderPool.Pending.{PendingPool}
use appsec_seq.OrderPool.Pending.Lookup.{get_order-remove_order}
use appsec_seq.OrderPool.Standard
use appsec_seq.OrderPool.Standard.{Order, LimitPool}
use appsec_seq.OrderPool.Standard.Lookup.{get_order-remove_invalid_order}
use appsec_seq.OrderPool.Composable
use appsec_seq.OrderPool.Composable.{ComposableLimitPool}
use appsec_seq.OrderPool.Limit
use appsec_seq.OrderPool.Searcher
use appsec_seq.OrderPool.Searcher.{SearcherPool}
use appsec_seq.OrderPool.Storage
use appsec_seq.OrderPool.Storage.{OrderStorage, OrderSizes}
use appsec_seq.OrderPool.Tracker.{
  clear_invalid, is_duplicate, stop_validating, invalid_verification,
}
use appsec_seq.OrderPool.Tracker.Accounts.{eoa_state_changes, take_addresses, for_each_id}
use appsec_seq.OrderPool.Validator.{local, validate_order}
use appsec_seq.OrderPool.Indexer.{
  OrderIndexer, OrderValidationError, PoolInnerEvent, invalid, tell, eoa_state_change, revalidate,
}
use appsec_seq.OrderPool.Indexer.Blocks.{handle_validated_order, blame}
use appsec_seq.OrderPool.Indexer.Admission.{refused}

-- A hash that is taken out of each of a map's pools is in none of them.
gone :
    {A : Type 0} (m : Map ℕ (PendingPool A)) (pool h : ℕ)
    → get pool (map_values (λ p. (Pending.remove_order p h).0) m) ≡ none
      ⊎ ((q : PendingPool A) × (get pool (map_values (λ p. (Pending.remove_order p h).0) m)
            ≡ some q)
          × (Pending.get_order q h ≡ none))
gone m pool h = elim (Option-cases (get pool m)) [
  | inl e ↦ inl (ground (arith, get-map_values (λ p. (Pending.remove_order p h).0) pool m))
  | inr (p, e) ↦ inr (
    (Pending.remove_order p h).0,
    ground (arith, get-map_values (λ p. (Pending.remove_order p h).0) pool m),
    ground (arith, get_order-remove_order p h h, ==_iff h h),
  )
]

standard_gone :
    (s : LimitPool) (pool h : ℕ)
    → Standard.get_order (Standard.remove_invalid_order s h) pool h ≡ none
unfolding Standard.get_order
standard_gone s pool h = ground (arith, get_order-remove_invalid_order s h pool h, ==_iff h h)

composable_gone :
    (s : ComposableLimitPool) (pool h : ℕ)
    → Composable.get_order (Composable.remove_invalid_order s h) pool h ≡ none
unfolding Composable.get_order Composable.remove_invalid_order
composable_gone s pool h = ground (arith, gone s.map pool h)

searcher_gone :
    (s : SearcherPool) (pool h : ℕ)
    → Searcher.get_order (Searcher.remove_invalid_order s h) pool h ≡ none
unfolding Searcher.get_order Searcher.remove_invalid_order
searcher_gone s pool h = ground (arith, gone s.searcher_orders pool h)

get_at-remove_invalid :
    (l : OrderLocation) (s : OrderStorage) (id : OrderId)
    → Storage.get_at l (Storage.remove_invalid_order s id.hash) id ≡ none
unfolding Storage.get_at Storage.remove_invalid_order Limit.get_order Limit.remove_invalid_order
get_at-remove_invalid limit s id = ground (
  arith,
  standard_gone s.limit_orders.limit_orders id.pool_id id.hash,
  composable_gone s.limit_orders.composable_orders id.pool_id id.hash,
)
get_at-remove_invalid searcher s id =
    ground (arith, searcher_gone s.searcher_orders id.pool_id id.hash)

-- The funds of an address change whose only order is known by its hash and is given out by the storage:
-- the order is validated again. If it fails, the storage gives no order for any id of that hash, but the
-- tracker still knows the id under the hash, so the hash is a duplicate and is refused, even after the
-- invalid hashes are cleared.
pub fails_revalidation :
    (z : OrderSizes) (x : OrderIndexer) (addr h : ℕ) (id : OrderId) (s : OrderStorage) (o : Order)
    (order : AllOrders) (e : OrderValidationError)
    → get addr x.order_tracker.address_to_orders ≡ some ((id, tt) ∷ [])
    → get h x.order_tracker.order_hash_to_order_id ≡ some id
    → Storage.remove_order_from_id x.order_storage id ≡ (s, some o)
    → order_hash order ≡ h
    → let y = eoa_state_change x (addr ∷ []) in
      (y.validator ≡ validate_order x.validator (local, o.order))
      × (w : OrderIndexer) × (ev : PoolInnerEvent) × (handle_validated_order z y (invalid h e)
          ≡ returns (w, ev))
      × ((k : OrderId) → Storage.get_order_from_id w.order_storage (record k { hash = h }) ≡ none)
      × (get h (clear_invalid w.order_tracker).order_hash_to_order_id ≡ some id)
      × (is_duplicate (clear_invalid w.order_tracker) h ≡ true)
      × (refused (clear_invalid w.order_tracker) order ≡ true)
unfolding eoa_state_change eoa_state_changes take_addresses for_each_id revalidate keys
    handle_validated_order blame tell is_duplicate clear_invalid stop_validating
    invalid_verification contains_key Storage.get_order_from_id
fails_revalidation z x addr h id s o order e a k out same = (
  ground arith,
  (blame u h).0,
  (blame u h).1,
  refl,
  λ j. get_at-remove_invalid j.location w.order_storage (record j { hash = h }),
  ground arith,
  ground arith,
  ground arith,
)
  where
    y : OrderIndexer
    y = eoa_state_change x (addr ∷ [])

    w : OrderIndexer
    w = tell (record y { order_tracker = stop_validating y.order_tracker h }) h (invalid h e)

    u : OrderIndexer
    u = record w { order_storage = Storage.remove_invalid_order w.order_storage h }
