-- ===== src/OrderPool/Pending.antt =====
-- angstrom-main/crates/order-pool/src/limit/pending.rs and searcher/pending.rs, which differ in the
-- type of the orders only: the orders that wait for a block, by hash and on the two sides of a book.
pub mod Lookup
pub mod Index
use appsec_seq.Base.{ℕ, Bool, List, [], Option, none, some, if◌then◌else◌}
use appsec_seq.Base.Maps.{Map, get, insert, remove, values, nat_eq}
use appsec_seq.Orders.{OrderWithStorageData}
use appsec_seq.Orders.Priority.{OrderPriorityData, priority_eq}

pub record PendingPool (A : Type 0) : Type 0 where
  pub orders : Map ℕ (OrderWithStorageData A)
  pub bids : Map OrderPriorityData ℕ
  pub asks : Map OrderPriorityData ℕ

module _ {A : Type 0} where
  unfoldable pub new : PendingPool A
  new = record { orders = []; bids = []; asks = [] }

  unfoldable pub get_order : PendingPool A → ℕ → Option (OrderWithStorageData A)
  get_order p id = get id p.orders

  -- The entry in the book, which is keyed by the priority alone.
  unfoldable pub book_order : PendingPool A → OrderWithStorageData A → PendingPool A
  book_order p o =
      if o.is_bid
      then record p { bids = insert o.priority_data o.order_id.hash p.bids }
      else record p { asks = insert o.priority_data o.order_id.hash p.asks }

  unfoldable pub add_order : PendingPool A → OrderWithStorageData A → PendingPool A
  unfolding book_order
  add_order p o =
      let booked = book_order p o in
      record booked { orders = insert o.order_id.hash o booked.orders }

  -- What is left of `remove_order` once the order is out of `orders`: with no entry in the book the
  -- call gives `none`.
  unfoldable pub unbook_order :
      PendingPool A → OrderWithStorageData A → PendingPool A × Option (OrderWithStorageData A)
  unbook_order p o =
      if o.is_bid
      then (elim (get o.priority_data p.bids) [
        | none ↦ (p, none)
        | some h ↦ (record p { bids = remove o.priority_data p.bids }, some o)
      ])
      else (elim (get o.priority_data p.asks) [
        | none ↦ (p, none)
        | some h ↦ (record p { asks = remove o.priority_data p.asks }, some o)
      ])

  unfoldable pub remove_order : PendingPool A → ℕ → PendingPool A × Option (OrderWithStorageData A)
  unfolding unbook_order
  remove_order p id = elim (get id p.orders) [
    | none ↦ (p, none)
    | some o ↦ unbook_order (record p { orders = remove id p.orders }) o
  ]

  unfoldable pub get_all_orders : PendingPool A → List (OrderWithStorageData A)
  get_all_orders p = values p.orders
