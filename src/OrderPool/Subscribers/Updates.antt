-- ===== src/OrderPool/Subscribers/Updates.antt =====
-- What the subscribers are sent over a sequence of calls.
use appsec_seq.Base.{ℕ, ◌≡◌, refl, ap, List, [], ◌∷◌, ◌++◌, map, arith}
use appsec_seq.Base.Maps.{
  nat_eq, get, insert, remove, contains_key, get-insert_self, get-remove_self,
}
use appsec_seq.OrderPool.Subscribers.{
  PoolManagerUpdate, expired_order, OrderSubscriptionTracker, or_nobody, subscribe_to_order,
  notify_order_subscribers, notify_expired_orders, notify_validation_subscribers,
}

pub data Call : Type 0 where
  subscribes : ℕ → ℕ → Call
  updates : PoolManagerUpdate → Call
  expires : List ℕ → Call

-- What the calls send, and what they are asked to send.
unfoldable pub sent : OrderSubscriptionTracker → List Call → List PoolManagerUpdate
sent s [] = []
sent s (subscribes h tx ∷ cs) = sent (subscribe_to_order s h tx) cs
sent s (updates u ∷ cs) =
    (notify_order_subscribers s u).1 ++ sent (notify_order_subscribers s u).0 cs
sent s (expires hs ∷ cs) = (notify_expired_orders s hs).1 ++ sent (notify_expired_orders s hs).0 cs

unfoldable pub asked : List Call → List PoolManagerUpdate
asked [] = []
asked (subscribes h tx ∷ cs) = asked cs
asked (updates u ∷ cs) = (u ∷ []) ++ asked cs
asked (expires hs ∷ cs) = map expired_order hs ++ asked cs

abbrev pub IsFresh : OrderSubscriptionTracker → Type 0
IsFresh s = s.order_notification_tracker ≡ []

subscribe-IsFresh :
    (s : OrderSubscriptionTracker) (h tx : ℕ) → IsFresh s → IsFresh (subscribe_to_order s h tx)
unfolding subscribe_to_order
subscribe-IsFresh s h tx f = f

pub notify-IsFresh :
    (s : OrderSubscriptionTracker) (u : PoolManagerUpdate)
    → IsFresh s
    → ((notify_order_subscribers s u).1 ≡ u ∷ []) × IsFresh (notify_order_subscribers s u).0
unfolding notify_order_subscribers contains_key get remove
notify-IsFresh s u f = ground arith

expire-IsFresh :
    (s : OrderSubscriptionTracker) (hs : List ℕ)
    → IsFresh s
    → ((notify_expired_orders s hs).1 ≡ map expired_order hs)
      × IsFresh (notify_expired_orders s hs).0
unfolding notify_expired_orders remove
expire-IsFresh s [] f = (refl, f)
expire-IsFresh s (h ∷ hs) f =
    let next : OrderSubscriptionTracker = record s {
      order_notification_tracker = remove h s.order_notification_tracker;
    } in
    let (tail, rest) = expire-IsFresh next hs (ground arith) in
    (ap (λ us. expired_order h ∷ us) tail, rest)

-- Since no call adds a hash to the tracker of notifications, it never holds back an update: from a
-- state where it is empty, as at the start, each update of each call is sent, the repeated ones too, in
-- the order of the calls.
pub every_update_sent :
    (s : OrderSubscriptionTracker) (cs : List Call) → IsFresh s → sent s cs ≡ asked cs
unfolding sent asked
every_update_sent s [] f = refl
every_update_sent s (subscribes h tx ∷ cs) f =
    every_update_sent (subscribe_to_order s h tx) cs (subscribe-IsFresh s h tx f)
every_update_sent s (updates u ∷ cs) f =
    let (one, fresh) = notify-IsFresh s u f in
    rw (one, every_update_sent (notify_order_subscribers s u).0 cs fresh) refl
every_update_sent s (expires hs ∷ cs) f =
    let (all, fresh) = expire-IsFresh s hs f in
    rw (all, every_update_sent (notify_expired_orders s hs).0 cs fresh) refl

-- The results of a validation go to all subscribers of the hash, in the order in which they subscribed,
-- and only once: for a second result nobody is left.
pub validation_told_once :
    {Results : Type 0} (s : OrderSubscriptionTracker) (h tx : ℕ) (res res' : Results)
    → let r = notify_validation_subscribers (subscribe_to_order s h tx) h res in
      (r.1 ≡ map (λ t. (t, res)) (or_nobody (get h s.order_validation_subs) ++ tx ∷ []))
      × ((notify_validation_subscribers r.0 h res').1 ≡ [])
unfolding notify_validation_subscribers subscribe_to_order
validation_told_once s h tx res res' =
    let all = or_nobody (get h s.order_validation_subs) ++ tx ∷ [] in
    ground (
      arith,
      get-insert_self h all s.order_validation_subs,
      get-remove_self h (insert h all s.order_validation_subs),
    )
