-- ===== src/OrderPool/Pending/Lookup.antt =====
-- What a pending pool returns for a hash after each change.
use appsec_seq.Base.{ℕ, ◌≡◌, none, some, ◌==◌, if◌then◌else◌, arith}
use appsec_seq.Base.Maps.{nat_eq, get-insert, get-remove}
use appsec_seq.Orders.{OrderWithStorageData}
use appsec_seq.Orders.Priority.{priority_eq}
use appsec_seq.OrderPool.Pending.{PendingPool, get_order, add_order, remove_order}

module _ {A : Type 0} where
  -- An added order reads back under its hash, and every other hash reads as before.
  pub get_order-add_order :
      (p : PendingPool A) (o : OrderWithStorageData A) (id : ℕ)
      → get_order (add_order p o) id ≡ (if o.order_id.hash == id then some o else get_order p id)
  unfolding get_order add_order
  get_order-add_order p o id = ground (arith, get-insert id o.order_id.hash o p.orders)

  -- A removed hash is gone whatever the call returns, and every other hash reads as before.
  pub get_order-remove_order :
      (p : PendingPool A) (k id : ℕ)
      → get_order (remove_order p k).0 id ≡ (if k == id then none else get_order p id)
  unfolding get_order remove_order
  get_order-remove_order p k id = ground (arith, get-remove id k p.orders)
