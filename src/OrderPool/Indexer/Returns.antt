-- ===== src/OrderPool/Indexer/Returns.antt =====
-- The orders that a block fills and that a reorg brings back.
use appsec_seq.Base.{
  ℕ, ◌≡◌, refl, false, ◌++◌, List, [], ◌∷◌, Option, none, returns, map, ap, append_assoc,
  append-nil, sym, arith, Distinct,
}
use appsec_seq.Base.Maps.{nat_eq, get}
use appsec_seq.Orders.{AllOrders, order_hash}
use appsec_seq.OrderPool.Standard.{Order}
use appsec_seq.OrderPool.Storage
use appsec_seq.OrderPool.Storage.{OrderStorage}
use appsec_seq.OrderPool.Finalization
use appsec_seq.OrderPool.Finalization.{FinalizationPool, hashes}
use appsec_seq.OrderPool.Finalization.Blocks.{with_block, finalized-new_orders, reorg-new_orders}
use appsec_seq.OrderPool.Tracker
use appsec_seq.OrderPool.Tracker.{OrderTracker, is_validating}
use appsec_seq.OrderPool.Validator.{OrderOrigin, local, validate_order, validate_each}
use appsec_seq.OrderPool.Subscribers.{PoolManagerUpdate, filled_order, unfilled_orders}
use appsec_seq.OrderPool.Subscribers.Updates.{IsFresh, notify-IsFresh}
use appsec_seq.OrderPool.Indexer.{
  OrderIndexer, update, as_local, unfill, reorg, update_filled, filled_orders, new_order,
}
use appsec_seq.OrderPool.Indexer.Admission.{refused, new_order_exact}

-- What an update leaves as it is.
update-updates_sent :
    (x : OrderIndexer) (u : PoolManagerUpdate)
    → IsFresh x.subscribers
    → let y = update x u in (y.updates_sent ≡ x.updates_sent ++ u ∷ []) × IsFresh y.subscribers
unfolding update
update-updates_sent x u f =
    let n = notify-IsFresh x.subscribers u f in (ap (λ us. x.updates_sent ++ us) n.0, n.1)

update_filled_lem :
    (x : OrderIndexer) (block : ℕ) (os : List Order)
    → IsFresh x.subscribers
    → let y = update_filled x block os in
      (y.updates_sent ≡ x.updates_sent ++ map (filled_order block) os)
      × IsFresh y.subscribers
      × (y.order_storage ≡ x.order_storage)
      × (y.order_tracker ≡ x.order_tracker)
      × (y.validator ≡ x.validator)
unfolding update_filled update
update_filled_lem x block [] f = (sym (append-nil x.updates_sent), f, refl, refl, refl)
update_filled_lem x block (o ∷ os) f =
    let u = update-updates_sent x (filled_order block o) f in
    let r = update_filled_lem (update x (filled_order block o)) block os u.1 in
    (
      ground (
        arith,
        append_assoc x.updates_sent (filled_order block o ∷ []) (map (filled_order block) os),
      ),
      r.1,
      r.2,
      r.3,
      r.4,
    )

unfill_lem :
    (x : OrderIndexer) (os : List Order)
    → IsFresh x.subscribers
    → let y = unfill x os in
      (y.updates_sent ≡ x.updates_sent ++ map unfilled_orders os)
      × (y.validator ≡ validate_each x.validator (as_local os))
      × (y.order_tracker ≡ x.order_tracker)
unfolding unfill update as_local validate_each
unfill_lem x [] f = (sym (append-nil x.updates_sent), refl, refl)
unfill_lem x (o ∷ os) f =
    let u = update-updates_sent x (unfilled_orders o) f in
    let y = update x (unfilled_orders o) in
    let r =
      unfill_lem (record y { validator = validate_order y.validator (local, o.order) }) os u.1 in
    (
      ground (arith, append_assoc x.updates_sent (unfilled_orders o ∷ []) (map unfilled_orders os)),
      r.1,
      r.2,
    )

reorg_lem :
    (x : OrderIndexer) (hs : List ℕ)
    → IsFresh x.subscribers
    → let y = reorg x hs in
      let os = (Finalization.reorg x.order_storage.pending_finalization_orders hs).1 in
      (y.updates_sent ≡ x.updates_sent ++ map unfilled_orders os)
      × (y.validator ≡ validate_each x.validator (as_local os))
      × (y.order_tracker ≡ x.order_tracker)
unfolding reorg Storage.reorg
reorg_lem x hs f =
    let s = Storage.reorg x.order_storage hs in unfill_lem (record x { order_storage = s.0 }) s.1 f

-- The orders that a block fills, which is new and whose orders have distinct digests, are told of as
-- filled in their order. A reorg that names them tells of exactly these orders as unfilled and hands
-- exactly them to validation again, in their order.
pub reorg-filled_orders :
    (x : OrderIndexer) (block h : ℕ) (hs : List ℕ) (t : OrderTracker) (s : OrderStorage)
    (os : List Order)
    → IsFresh x.subscribers
    → Tracker.filled_orders x.order_tracker (h ∷ hs) x.order_storage ≡ (t, s, os)
    → Distinct (hashes os)
    → get block s.pending_finalization_orders.block_to_ids ≡ none
    → (y : OrderIndexer) × (filled_orders x block (h ∷ hs) ≡ returns y)
      × (y.order_tracker ≡ t)
      × (y.updates_sent ≡ x.updates_sent ++ map (filled_order block) os)
      × ((reorg y (hashes os)).updates_sent
          ≡ x.updates_sent ++ map (filled_order block) os ++ map unfilled_orders os)
      × ((reorg y (hashes os)).validator ≡ validate_each x.validator (as_local os))
unfolding filled_orders Storage.add_filled_orders
reorg-filled_orders x block h hs t s os f taken d fresh =
    let fill = update_filled_lem z block os f in
    let back = reorg-new_orders s.pending_finalization_orders block os 0 d in
    let next = reorg_lem y (hashes os) fill.1 in
    (
      y,
      ground (arith, finalized-new_orders s.pending_finalization_orders block os 0 d fresh),
      fill.3,
      fill.0,
      ground (arith, fill, back, next),
      ground (arith, fill, back, next),
    )
  where
    stored : OrderStorage
    stored = record s {
      pending_finalization_orders = with_block s.pending_finalization_orders block os;
    }

    z : OrderIndexer
    z = record x { order_tracker = t; order_storage = stored }

    y : OrderIndexer
    y = update_filled z block os

-- A reorg marks no order as under validation: an order that the tracker does not refuse and that is not
-- marked is handed to validation when a copy of it comes in, also if the reorg has just handed it in.
pub new_order-reorg :
    (x : OrderIndexer) (hs : List ℕ) (peer sub : Option ℕ) (origin : OrderOrigin)
    (order : AllOrders)
    → IsFresh x.subscribers
    → refused x.order_tracker order ≡ false
    → is_validating x.order_tracker (order_hash order) ≡ false
    → (new_order (reorg x hs) peer origin order sub).validator
      ≡ validate_order
          (validate_each x.validator
            (as_local (Finalization.reorg x.order_storage.pending_finalization_orders hs).1))
          (origin, order)
new_order-reorg x hs peer sub origin order f r v =
    ground (arith, new_order_exact (reorg x hs) peer sub origin order, reorg_lem x hs f)
