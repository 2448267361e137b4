-- ===== src/OrderPool/Subscribers.antt =====
-- angstrom-main/crates/order-pool/src/order_subscribers.rs, with the updates of lib.rs: who is told
-- what of an order. A sender is a number; a call gives what it sends, on the channel of the updates
-- or to the subscribers of a hash, in its order. The results of a validation are a parameter.
pub mod Updates
use appsec_seq.Base.{
  ℕ, Bool, true, false, not, ◌&&◌, List, [], ◌∷◌, ◌++◌, Option, none, some, map, if◌then◌else◌,
}
use appsec_seq.Base.Maps.{Map, HashSet, nat_eq, get, insert, remove, contains_key}
use appsec_seq.OrderPool.Standard.{Order}

pub data PoolManagerUpdate : Type 0 where
  new_order : Order → PoolManagerUpdate
  filled_order : ℕ → Order → PoolManagerUpdate
  unfilled_orders : Order → PoolManagerUpdate
  -- whether it is a top-of-block order, user, pool id, order hash
  cancelled_order : Bool → ℕ → ℕ → ℕ → PoolManagerUpdate
  expired_order : ℕ → PoolManagerUpdate

unfoldable pub update_id : PoolManagerUpdate → ℕ
update_id (new_order o) = o.order_id.hash
update_id (filled_order n o) = o.order_id.hash
update_id (unfilled_orders o) = o.order_id.hash
update_id (cancelled_order is_tob user pool h) = h
update_id (expired_order h) = h

unfoldable pub last_notification_for_order : PoolManagerUpdate → Bool
last_notification_for_order (filled_order n o) = true
last_notification_for_order (expired_order h) = true
last_notification_for_order (cancelled_order is_tob user pool h) = true
last_notification_for_order _ = false

pub record OrderSubscriptionTracker : Type 0 where
  pub order_validation_subs : Map ℕ (List ℕ)
  pub order_notification_tracker : HashSet ℕ

unfoldable pub new : OrderSubscriptionTracker
new = record { order_validation_subs = []; order_notification_tracker = [] }

abbrev pub or_nobody : Option (List ℕ) → List ℕ
or_nobody none = []
or_nobody (some txs) = txs

unfoldable pub subscribe_to_order : OrderSubscriptionTracker → ℕ → ℕ → OrderSubscriptionTracker
subscribe_to_order s h tx = record s {
  order_validation_subs =
      insert h (or_nobody (get h s.order_validation_subs) ++ tx ∷ []) s.order_validation_subs;
}

unfoldable pub notify_order_subscribers :
    OrderSubscriptionTracker → PoolManagerUpdate → OrderSubscriptionTracker × List PoolManagerUpdate
unfolding last_notification_for_order
notify_order_subscribers s u =
    if contains_key (update_id u) s.order_notification_tracker
      && not (last_notification_for_order u)
    then (s, [])
    else if last_notification_for_order u
    then (
      record s { order_notification_tracker = remove (update_id u) s.order_notification_tracker },
      u ∷ [],
    )
    else (s, u ∷ [])

unfoldable pub notify_expired_orders :
    OrderSubscriptionTracker → List ℕ → OrderSubscriptionTracker × List PoolManagerUpdate
notify_expired_orders s [] = (s, [])
notify_expired_orders s (h ∷ hs) =
    let rest =
      notify_expired_orders
        (record s { order_notification_tracker = remove h s.order_notification_tracker }) hs in
    (rest.0, expired_order h ∷ rest.1)

unfoldable pub notify_validation_subscribers :
    {Results : Type 0}
    → OrderSubscriptionTracker
    → ℕ
    → Results
    → OrderSubscriptionTracker × List (ℕ × Results)
notify_validation_subscribers s h res = elim (get h s.order_validation_subs) [
  | none ↦ (s, [])
  | some txs ↦ (
    record s { order_validation_subs = remove h s.order_validation_subs },
    map (λ tx. (tx, res)) txs,
  )
]
