-- ===== src/OrderPool/Tracker/Expiry.antt =====
-- The removal of the orders that can be filled no more.
use appsec_seq.Base.{
  ℕ, ◌≡◌, Bool, true, false, List, Option, none, some, if◌then◌else◌, is_some, elem, All,
}
use appsec_seq.Base.Maps.{Map, nat_eq, get}
use appsec_seq.Orders.{OrderId}
use appsec_seq.OrderPool.Storage
use appsec_seq.OrderPool.Tracker.{OrderTracker, is_expired}

abbrev pub expired_at : ℕ → ℕ → Option OrderId → Bool
expired_at expiry block none = false
expired_at expiry block (some id) = is_expired expiry block id

abbrev Known : Map ℕ OrderId → List ℕ → Type 0
Known m = All (λ h. is_some (get h m) ≡ true)

record Expired (t u : OrderTracker) (hs : List ℕ) : Type 0 where
  ids :
      (h : ℕ)
      → get h u.order_hash_to_order_id
        ≡ (if elem h hs then none else get h t.order_hash_to_order_id)
  cancels : u.cancelled_orders ≡ t.cancelled_orders
