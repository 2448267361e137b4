-- ===== src/Tests/Indexers.antt =====
-- Runs of the order indexer.
use appsec_seq.Base.{arith, ◌≡◌, refl, true, false, [], ◌∷◌, none, some, returns}
use appsec_seq.Base.Maps.{nat_eq, get, remove, insert, contains_key}
use appsec_seq.Orders.{OrderId, order_hash, from, is_vanilla}
use appsec_seq.Orders.Priority.{same_key, cmp, priority_eq}
use appsec_seq.Orders.Ids.{order_id_eq}
use appsec_seq.OrderPool.Size
use appsec_seq.OrderPool.Pending
use appsec_seq.OrderPool.Standard
use appsec_seq.OrderPool.Standard.{Order}
use appsec_seq.OrderPool.Limit
use appsec_seq.OrderPool.Storage
use appsec_seq.OrderPool.Storage.{OrderStorage}
use appsec_seq.OrderPool.Storage.Moves.{Holds}
use appsec_seq.OrderPool.Finalization.{hashes}
use appsec_seq.OrderPool.Finalization
use appsec_seq.OrderPool.Tracker
use appsec_seq.OrderPool.Tracker.{
  OrderTracker, is_validating, is_duplicate, is_valid_cancel, clear_invalid,
}
use appsec_seq.OrderPool.Validator
use appsec_seq.OrderPool.Validator.{
  local, external, validate_order, validate_each, poll_next, take_at, poll_futures,
}
use appsec_seq.OrderPool.Validator.Orders.{answered, answered_of}
use appsec_seq.OrderPool.Subscribers
use appsec_seq.OrderPool.Subscribers.{filled_order, unfilled_orders}
use appsec_seq.OrderPool.Indexer.{
  OrderIndexer, PoolInnerEvent, invalid, valid, invalid_signature, propagation, bad_order_messages,
  new, new_order, tell, subscribe, reorg, as_local, filled_orders, eoa_state_change,
}
use appsec_seq.OrderPool.Indexer.Blocks.{handle_validated_order, poll, react, blame}
use appsec_seq.OrderPool.Indexer.Admission.{refused, new_order_twice}
use appsec_seq.OrderPool.Indexer.Verdicts.{handle_valid-Holds, handle_at_fault, at_fault}
use appsec_seq.OrderPool.Indexer.Returns.{reorg-filled_orders, new_order-reorg}
use appsec_seq.OrderPool.Indexer.Stale.{fails_revalidation}
use appsec_seq.OrderPool.Indexer.Jobs.{IsServed}
use appsec_seq.OrderPool.Indexer.Marks.{result_hash}
use appsec_seq.OrderPool.Indexer.Served.{Steps, here, comes_in, polls, steps-IsServed, IsHonest}
use appsec_seq.Tests.Data.{standing, bid, id_of, store, two_orders, sizes, empty_pending}

abbrev idle : OrderIndexer
idle = new store 10

-- The storage with the bids 5 and 6, and a tracker that knows the bid 5 of the address 7.
abbrev knows_5 : OrderTracker
knows_5 = record {
  address_to_orders = (7, (id_of 5, tt) ∷ []) ∷ [];
  order_hash_to_order_id = (5, id_of 5) ∷ [];
  order_hash_to_peer_id = (5, 77 ∷ []) ∷ [];
  seen_invalid_orders = [];
  cancelled_orders = [];
  validating = [];
}

abbrev busy : OrderIndexer
busy = record idle {
  order_tracker = knows_5;
  order_storage =
      let l = store.limit_orders in
      record store { limit_orders = record l { limit_orders = two_orders } };
}

known_5 : get 5 knows_5.order_hash_to_order_id ≡ some (id_of 5)
unfolding get
known_5 = refl

owner_5 : get 7 knows_5.address_to_orders ≡ some ((id_of 5, tt) ∷ [])
unfolding get
owner_5 = refl

abbrev taken_out : OrderStorage
taken_out = (Storage.remove_order_from_id busy.order_storage (id_of 5)).0

given_out : Storage.remove_order_from_id busy.order_storage (id_of 5) ≡ (taken_out, some (bid 5 30))
unfolding Storage.remove_order_from_id Storage.remove_at Storage.remove_limit_order
    Limit.remove_order Standard.remove_order Standard.remove_pending_order Pending.remove_order
    Pending.unbook_order get same_key cmp new
given_out = refl

abbrev forgotten : OrderTracker
forgotten = record knows_5 { order_hash_to_order_id = [] }

takes :
    Tracker.filled_orders knows_5 (5 ∷ []) busy.order_storage
    ≡ (forgotten, taken_out, bid 5 30 ∷ [])
unfolding Tracker.filled_orders Storage.remove_order Storage.remove_order_from_id Storage.remove_at
    Storage.remove_limit_order Limit.remove_order Standard.remove_order
    Standard.remove_pending_order Pending.remove_order Pending.unbook_order get remove same_key cmp
    new
takes = refl

parked_none :
    Tracker.park_orders
      (Tracker.new_valid_order (Tracker.stop_validating Tracker.new 5) 5 7 (id_of 5))
      []
      store
    ≡ returns store
unfolding Tracker.park_orders Tracker.ids_of Storage.park_orders Storage.park_each
parked_none = refl

vanilla : is_vanilla (standing 5) ≡ true
unfolding is_vanilla
vanilla = refl

known_pool : get 1 store.limit_orders.limit_orders.pending_orders ≡ some empty_pending
unfolding get
known_pool = refl

faulty : at_fault 10 (invalid 5 invalid_signature) ≡ some 5
unfolding at_fault
faulty = refl

new_order_twice_example :
    (new_order
      (new_order idle (some 77) local (standing 5) none)
      none
      external
      (standing 5)
      (some 4)).validator
    ≡ (new_order idle (some 77) local (standing 5) none).validator
new_order_twice_example =
    new_order_twice idle (some 77) none none (some 4) local external (standing 5)

room : (Size.has_space store.limit_orders.size 600).1 ≡ true
unfolding Size.has_space
room = ground arith

handle_valid-Holds_example :
    (y : OrderIndexer) × (handle_validated_order sizes idle (valid (bid 5 30))
      ≡ returns (y, propagation (standing 5)))
    × Holds y.order_storage (bid 5 30)
    × (get 5 y.order_tracker.order_hash_to_order_id ≡ some (id_of 5))
    × (is_validating y.order_tracker 5 ≡ false)
unfolding order_hash new from
handle_valid-Holds_example =
    handle_valid-Holds sizes idle (bid 5 30) store empty_pending refl parked_none vanilla refl refl
      refl known_pool room

handle_at_fault_example :
    (y : OrderIndexer) × (handle_validated_order sizes busy (invalid 5 invalid_signature)
      ≡ returns (y, bad_order_messages (77 ∷ [])))
    × (is_validating y.order_tracker 5 ≡ false)
    × (get 5 y.order_tracker.order_hash_to_peer_id ≡ none)
    × (refused y.order_tracker (standing 5) ≡ true)
    × (y.validator ≡ busy.validator)
unfolding get order_hash new
handle_at_fault_example =
    handle_at_fault sizes busy (invalid 5 invalid_signature) 5 (standing 5) faulty refl

reorg-filled_orders_example :
    (y : OrderIndexer) × (filled_orders busy 11 (5 ∷ []) ≡ returns y)
    × (y.order_tracker ≡ forgotten)
    × (y.updates_sent ≡ filled_order 11 (bid 5 30) ∷ [])
    × ((reorg y (5 ∷ [])).updates_sent
        ≡ filled_order 11 (bid 5 30) ∷ unfilled_orders (bid 5 30) ∷ [])
    × ((reorg y (5 ∷ [])).validator ≡ validate_each busy.validator ((local, standing 5) ∷ []))
unfolding hashes as_local order_hash new Subscribers.new get Storage.remove_order_from_id
    Storage.remove_limit_order
reorg-filled_orders_example =
    reorg-filled_orders busy 11 5 [] forgotten taken_out (bid 5 30 ∷ []) refl takes (refl, tt) refl

new_order-reorg_example :
    (new_order (reorg idle (5 ∷ [])) (some 77) external (standing 5) none).validator
    ≡ validate_order
        (validate_each idle.validator
          (as_local (Finalization.reorg idle.order_storage.pending_finalization_orders (5 ∷ [])).1))
        (external, standing 5)
unfolding is_valid_cancel is_duplicate is_validating contains_key get new Tracker.new order_hash
    Subscribers.new
new_order-reorg_example =
    new_order-reorg idle (5 ∷ []) (some 77) none external (standing 5) refl refl refl

fails_revalidation_example :
    let y = eoa_state_change busy (7 ∷ []) in
    (y.validator ≡ validate_order busy.validator (local, standing 5))
    × (w : OrderIndexer) × (ev : PoolInnerEvent) × (handle_validated_order sizes y
          (invalid 5 invalid_signature)
        ≡ returns (w, ev))
    × ((k : OrderId) → Storage.get_order_from_id w.order_storage (record k { hash = 5 }) ≡ none)
    × (get 5 (clear_invalid w.order_tracker).order_hash_to_order_id ≡ some (id_of 5))
    × (is_duplicate (clear_invalid w.order_tracker) 5 ≡ true)
    × (refused (clear_invalid w.order_tracker) (standing 5) ≡ true)
unfolding order_hash
fails_revalidation_example =
    fails_revalidation sizes busy 7 5 (id_of 5) taken_out (bid 5 30) (standing 5) invalid_signature
      owner_5 known_5 given_out refl

-- An order comes in and the poll finds it invalid.
abbrev came_in : OrderIndexer
came_in = new_order idle (some 77) external (standing 5) none

honest : IsHonest (some (0, invalid 5 invalid_signature)) false came_in.validator
unfolding result_hash answered answered_of take_at poll_next poll_futures new_order new order_hash
    is_valid_cancel is_duplicate is_validating contains_key get Tracker.track_peer_id
    Tracker.start_validating Validator.new validate_order Tracker.new insert
honest j res one item = ground arith

idle-IsServed : IsServed idle
unfolding is_validating contains_key get new Tracker.new
idle-IsServed h v = absurd (ground arith)

abbrev after_poll : OrderIndexer
after_poll = record idle {
  order_tracker = record (idle.order_tracker) { seen_invalid_orders = (5, tt) ∷ [] };
  order_storage = Storage.remove_invalid_order store 5;
}

polled :
    poll 0 sizes came_in ((some (0, invalid 5 invalid_signature), false) ∷ [])
    ≡ returns (after_poll, bad_order_messages (77 ∷ []) ∷ [])
unfolding poll react handle_validated_order blame tell answered take_at poll_next poll_futures
    new_order subscribe new order_hash from is_valid_cancel is_duplicate is_validating contains_key
    get insert remove Tracker.track_peer_id Tracker.start_validating Tracker.stop_validating
    Tracker.invalid_verification Tracker.new Validator.new validate_order Subscribers.new
    Subscribers.notify_validation_subscribers
polled = refl

run : Steps idle after_poll
run =
    polls 0 sizes (some (0, invalid 5 invalid_signature)) false (bad_order_messages (77 ∷ []) ∷ [])
      honest polled (comes_in (some 77) none external (standing 5) here)

steps-IsServed_example : IsServed after_poll
steps-IsServed_example = steps-IsServed run idle-IsServed
