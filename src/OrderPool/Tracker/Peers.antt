-- ===== src/OrderPool/Tracker/Peers.antt =====
-- Who is to blame for an invalid order.
use appsec_seq.Base.{ℕ, ◌≡◌, true, false, [], ◌∷◌, ◌++◌, some, arith}
use appsec_seq.Base.Maps.{nat_eq, get, insert, get-insert_self, get-remove_self, contains_key}
use appsec_seq.OrderPool.Tracker.{
  OrderTracker, track_peer_id, invalid_verification, is_duplicate, is_seen_invalid, or_empty,
  clear_invalid,
}

-- An order found invalid is a duplicate from then on, until the invalid orders are cleared, the peers
-- noted for it are given out in the order in which they sent it, the last one included, and they are
-- given out once.
pub invalid_verification_peers :
    (t : OrderTracker) (h peer : ℕ)
    → let r = invalid_verification (track_peer_id t h (some peer)) h in
      (r.1 ≡ or_empty (get h t.order_hash_to_peer_id) ++ peer ∷ [])
      × (is_duplicate r.0 h ≡ true)
      × (is_seen_invalid (clear_invalid r.0) h ≡ false)
      × ((invalid_verification r.0 h).1 ≡ [])
unfolding invalid_verification track_peer_id is_duplicate is_seen_invalid clear_invalid contains_key
    get
invalid_verification_peers t h peer = ground (
  arith,
  get-insert_self h (or_empty (get h t.order_hash_to_peer_id) ++ peer ∷ []) t.order_hash_to_peer_id,
  get-insert_self h tt t.seen_invalid_orders,
  get-remove_self h
      (insert h (or_empty (get h t.order_hash_to_peer_id) ++ peer ∷ []) t.order_hash_to_peer_id),
)
