-- ===== src/OrderPool/Indexer/Jobs.antt =====
-- No order is marked as under validation that the validator does not hold.
use appsec_seq.Base.{
  ℕ, ◌≤◌, ◌≡◌, refl, Bool, true, List, [], ◌∷◌, Option, ◌==◌, returns, if◌then◌else◌, arith,
  Option-cases, inl, inr, >>=-eq-returns,
}
use appsec_seq.Base.Maps.{nat_eq, get, remove, contains_key, get-insert}
use appsec_seq.Orders.{AllOrders, OrderId, order_hash}
use appsec_seq.OrderPool.Standard.{Order}
use appsec_seq.OrderPool.Storage
use appsec_seq.OrderPool.Storage.{OrderStorage, OrderSizes}
use appsec_seq.OrderPool.Tracker
use appsec_seq.OrderPool.Tracker.{OrderTracker, is_validating, expire_one, expire_each}
use appsec_seq.OrderPool.Tracker.Accounts.{
  pending_orders_for_address, eoa_state_changes, for_each_id, take_addresses,
}
use appsec_seq.OrderPool.Validator.{Job, OrderValidator, OrderOrigin, local, validate_order}
use appsec_seq.OrderPool.Validator.Orders.{held, held-validate_order, held-validate_each}
use appsec_seq.OrderPool.Subscribers.{unfilled_orders, filled_order}
use appsec_seq.OrderPool.Indexer.{
  OrderIndexer, update, tell, subscribe, new_order, cancel_order, CancelOrderRequest, as_local,
  revalidate, eoa_state_change, unfill, update_filled, filled_orders,
}

-- The orders of a hash.
unfoldable pub of_hash : ℕ → Job → ℕ
of_hash h (origin, o) = if order_hash o == h then 1 else 0

-- Each hash that is marked is that of an order that the validator holds.
abbrev pub IsServed : OrderIndexer → Type 0
IsServed x = (h : ℕ) → is_validating x.order_tracker h ≡ true → 1 ≤ held (of_hash h) x.validator

-- A call that marks nothing and takes nothing from the validator.
pub record Keeps (x y : OrderIndexer) : Type 0 where
  pub marks : y.order_tracker.validating ≡ x.order_tracker.validating
  pub jobs : (f : Job → ℕ) → held f x.validator ≤ held f y.validator

pub Keeps-IsServed : (x y : OrderIndexer) → Keeps x y → IsServed x → IsServed y
unfolding is_validating
Keeps-IsServed x y k w h v = omega (arith, k.jobs (of_hash h), w h (ground (arith, k.marks)))

pub then_Keeps : (x y z : OrderIndexer) → Keeps x y → Keeps y z → Keeps x z
then_Keeps x y z k l = record {
  marks = ground (arith, k.marks, l.marks);
  jobs = λ f. omega (arith, k.jobs f, l.jobs f);
}

pub new_order-IsServed :
    (x : OrderIndexer) (peer sub : Option ℕ) (origin : OrderOrigin) (order : AllOrders)
    → IsServed x
    → IsServed (new_order x peer origin order sub)
unfolding new_order tell subscribe is_validating contains_key of_hash Tracker.track_peer_id
    Tracker.start_validating
new_order-IsServed x peer sub origin order w h v = ground (
  arith,
  w h,
  held-validate_order (of_hash h) x.validator (origin, order),
  get-insert h (order_hash order) tt x.order_tracker.validating,
)

pub cancel_order-Keeps :
    (now : ℕ) (signed : Bool) (x : OrderIndexer) (req : CancelOrderRequest)
    → Keeps x (cancel_order now signed x req).0
unfolding cancel_order update Tracker.cancel_order Tracker.cancel_with_next_block_deadline
    Tracker.insert_cancel_with_deadline
cancel_order-Keeps now signed x req = record {
  marks = ground arith;
  jobs = λ f. ground (
    arith,
    held-validate_each f x.validator (
        as_local
          (pending_orders_for_address found.0 req.user_address found.1
            (λ id storage. Storage.remove_parked_order storage id)).1),
  );
}
  where
    found : OrderTracker × OrderStorage × Option (Bool × ℕ)
    found = Tracker.cancel_order now x.order_tracker req.user_address req.order_id x.order_storage

pub unfill-Keeps : (x : OrderIndexer) (os : List Order) → Keeps x (unfill x os)
unfolding unfill update
unfill-Keeps x [] = record { marks = refl; jobs = λ f. omega arith }
unfill-Keeps x (o ∷ os) =
    let y = update x (unfilled_orders o) in
    let next : OrderIndexer = record y {
      validator = validate_order y.validator (local, o.order);
    } in
    let k = unfill-Keeps next os in
    record {
      marks = k.marks;
      jobs = λ f. ground (arith, k.jobs f, held-validate_order f x.validator (local, o.order));
    }

for_each_id-jobs :
    (f : Job → ℕ) (ids : List OrderId) (s : OrderStorage) (v : OrderValidator)
    → held f v ≤ held f (for_each_id revalidate ids (s, v)).1
unfolding for_each_id revalidate
for_each_id-jobs f [] s v = omega arith
for_each_id-jobs f (id ∷ ids) s v =
    let next = revalidate id (s, v) in
    elim (Option-cases (Storage.remove_order_from_id s id).1) [
      | inl e ↦ ground (arith, for_each_id-jobs f ids next.0 next.1)
      | inr (o, e) ↦
          ground
            (arith, for_each_id-jobs f ids next.0 next.1, held-validate_order f v (local, o.order))
    ]

pub eoa_state_change-Keeps : (x : OrderIndexer) (eoas : List ℕ) → Keeps x (eoa_state_change x eoas)
unfolding eoa_state_change eoa_state_changes
eoa_state_change-Keeps x eoas = record {
  marks = refl;
  jobs = λ f.
      for_each_id-jobs f (take_addresses x.order_tracker.address_to_orders eoas).1 x.order_storage
        x.validator;
}

filled_orders-marks :
    (t : OrderTracker) (hs : List ℕ) (s : OrderStorage)
    → (Tracker.filled_orders t hs s).0.validating ≡ t.validating
unfolding Tracker.filled_orders
filled_orders-marks t [] s = refl
filled_orders-marks t (h ∷ hs) s = elim (Option-cases (get h t.order_hash_to_order_id)) [
  | inl e ↦ ground (arith, filled_orders-marks t hs s)
  | inr (id, e) ↦
      let r = Storage.remove_order s id in
      let u : OrderTracker = record t {
        order_hash_to_order_id = remove h t.order_hash_to_order_id;
      } in
      ground (arith, Option-cases r.1, filled_orders-marks u hs r.0)
]

update_filled-Keeps :
    (x : OrderIndexer) (block : ℕ) (os : List Order) → Keeps x (update_filled x block os)
unfolding update_filled update
update_filled-Keeps x block [] = record { marks = refl; jobs = λ f. omega arith }
update_filled-Keeps x block (o ∷ os) =
    let k = update_filled-Keeps (update x (filled_order block o)) block os in
    record { marks = k.marks; jobs = k.jobs }

pub filled_orders-Keeps :
    (x y : OrderIndexer) (block : ℕ) (hs : List ℕ)
    → filled_orders x block hs ≡ returns y
    → Keeps x y
unfolding filled_orders
filled_orders-Keeps x y block [] e = record { marks = ground arith; jobs = λ f. ground arith }
filled_orders-Keeps x y block (h ∷ hs) e =
    let taken = Tracker.filled_orders x.order_tracker (h ∷ hs) x.order_storage in
    let filled = λ (s : OrderStorage). record x { order_tracker = taken.0; order_storage = s } in
    let (s, stored, out) =
      >>=-eq-returns (Storage.add_filled_orders taken.1 block taken.2)
        (λ s. returns (update_filled (filled s) block taken.2)) e in
    let k = update_filled-Keeps (filled s) block taken.2 in
    record {
      marks = ground (arith, k.marks, filled_orders-marks x.order_tracker (h ∷ hs) x.order_storage);
      jobs = λ f. ground (arith, k.jobs f);
    }

pub expire_each-marks :
    (t u : OrderTracker) (s s' : OrderStorage) (hs : List ℕ)
    → expire_each (t, s) hs ≡ returns (u, s')
    → u.validating ≡ t.validating
unfolding expire_each expire_one
expire_each-marks t u s s' [] e = ground arith
expire_each-marks t u s s' (h ∷ hs) e = elim (Option-cases (get h t.order_hash_to_order_id)) [
  | inl none_known ↦ absurd (ground arith)
  | inr (id, known) ↦
      let t' : OrderTracker = record t {
        order_hash_to_order_id = remove h t.order_hash_to_order_id;
        address_to_orders = Tracker.forget_id t.address_to_orders id;
      } in
      ground (arith, expire_each-marks t' u (Storage.remove_order s id).0 s' hs)
]
