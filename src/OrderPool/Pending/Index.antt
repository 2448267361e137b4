-- ===== src/OrderPool/Pending/Index.antt =====
-- When the book and the hash table of a pending pool agree, and what happens when they do not.
use appsec_seq.Base.{ℕ, ◌≡◌, ◌≢◌, Bool, none, some, if◌then◌else◌, arith, Option-cases, inl, inr}
use appsec_seq.Base.Maps.{Map, nat_eq, get, remove, get-insert, get-remove, get-insert_self}
use appsec_seq.Orders.{OrderWithStorageData}
use appsec_seq.Orders.Priority.{OrderPriorityData, priority_eq, same_key_iff}
use appsec_seq.OrderPool.Pending.{PendingPool, get_order, add_order, remove_order}

module _ {A : Type 0} where
  -- The side of the book on which an order lies.
  unfoldable pub side : PendingPool A → Bool → Map OrderPriorityData ℕ
  side p is_bid = if is_bid then p.bids else p.asks

  -- Each stored order has the entry of its priority in the book.
  abbrev pub IsIndexed : PendingPool A → Type 0
  IsIndexed p =
      (id : ℕ) (o : OrderWithStorageData A)
      → get_order p id ≡ some o
      → get o.priority_data (side p o.is_bid) ≡ some id

  -- An order added to a pool in which each stored order has the entry of its priority in the book keeps
  -- that so, if no order with another hash has its priority on its side of the book.
  pub add_order-IsIndexed :
      (p : PendingPool A) (o : OrderWithStorageData A)
      → IsIndexed p
      → ((h : ℕ) → get o.priority_data (side p o.is_bid) ≡ some h → h ≡ o.order_id.hash)
      → IsIndexed (add_order p o)
  unfolding add_order get_order side
  add_order-IsIndexed p o v free id q h = ground (
    arith,
    v id q,
    free id,
    get-insert id o.order_id.hash o p.orders,
    get-insert q.priority_data o.priority_data o.order_id.hash p.bids,
    get-insert q.priority_data o.priority_data o.order_id.hash p.asks,
    same_key_iff o.priority_data q.priority_data,
  )

  -- A removal, of a hash that is stored or not, keeps each stored order at the entry of its priority.
  pub remove_order-IsIndexed :
      (p : PendingPool A) (k : ℕ) → IsIndexed p → IsIndexed (remove_order p k).0
  unfolding remove_order get_order side
  remove_order-IsIndexed p k v id q h = elim (Option-cases (get k p.orders)) [
    | inl e ↦ ground (arith, v id q)
    | inr (o, e) ↦ ground (
      arith,
      v id q,
      v k o e,
      get-remove id k p.orders,
      get-remove q.priority_data o.priority_data p.bids,
      get-remove q.priority_data o.priority_data p.asks,
      same_key_iff o.priority_data q.priority_data,
    )
  ]

  -- When each stored order has the entry of its priority in the book, a removal returns what a lookup of
  -- the hash shows.
  pub remove_order-eq-get_order :
      (p : PendingPool A) (k : ℕ) → IsIndexed p → (remove_order p k).1 ≡ get_order p k
  unfolding remove_order get_order side
  remove_order-eq-get_order p k v = elim (Option-cases (get k p.orders)) [
    | inl e ↦ ground arith
    | inr (o, e) ↦ ground (arith, v k o e)
  ]

  -- Two stored orders of one side with one priority: once the first is removed, removing the second
  -- returns nothing, though it was stored, and it is gone.
  pub remove_order_clash :
      (p : PendingPool A) (i j : ℕ) (a b : OrderWithStorageData A)
      → i ≢ j
      → get_order p i ≡ some a
      → get_order p j ≡ some b
      → a.is_bid ≡ b.is_bid
      → a.priority_data ≡ b.priority_data
      → let q = (remove_order p i).0 in
        (get_order q j ≡ some b)
        × ((remove_order q j).1 ≡ none)
        × (get_order (remove_order q j).0 j ≡ none)
  unfolding remove_order get_order
  remove_order_clash p i j a b ne ha hb s e = ground (
    arith,
    get-remove j i p.orders,
    get-remove j j (remove i p.orders),
    get-remove b.priority_data a.priority_data p.bids,
    get-remove b.priority_data a.priority_data p.asks,
    same_key_iff a.priority_data b.priority_data,
  )

  -- An order that was just added is returned by the removal of its hash.
  pub remove_order-add_order :
      (p : PendingPool A) (o : OrderWithStorageData A)
      → (remove_order (add_order p o) o.order_id.hash).1 ≡ some o
  unfolding remove_order add_order
  remove_order-add_order p o = ground (
    arith,
    get-insert_self o.order_id.hash o p.orders,
    get-insert_self o.priority_data o.order_id.hash p.bids,
    get-insert_self o.priority_data o.order_id.hash p.asks,
  )
