-- ===== src/OrderPool/Finalization.antt =====
-- angstrom-main/crates/order-pool/src/finalization_pool.rs: the orders that a block has filled and
-- that a reorg may bring back.
pub mod Blocks
use appsec_seq.Base.{
  ℕ, List, [], ◌∷◌, Bool, Option, none, some, Outcome, returns, panics, if◌then◌else◌, is_none, map,
}
use appsec_seq.Base.Maps.{Map, nat_eq, get, insert, remove, contains_key}
use appsec_seq.Orders.{order_hash}
use appsec_seq.OrderPool.Standard.{Order}

pub record FinalizationPool : Type 0 where
  pub id_to_orders : Map ℕ Order
  pub block_to_ids : Map ℕ (List ℕ)

unfoldable pub new : FinalizationPool
new = record { id_to_orders = []; block_to_ids = [] }

unfoldable pub insert_all : Map ℕ Order → List Order → Map ℕ Order
insert_all m [] = m
insert_all m (o ∷ os) = insert_all (insert (order_hash o.order) o m) os

unfoldable pub hashes : List Order → List ℕ
hashes = map (λ o. order_hash o.order)

unfoldable pub new_orders : FinalizationPool → ℕ → List Order → Outcome FinalizationPool
unfolding insert_all hashes
new_orders s block orders =
    if is_none (get block s.block_to_ids)
    then returns (record s {
      id_to_orders = insert_all s.id_to_orders orders;
      block_to_ids = insert block (hashes orders) s.block_to_ids;
    })
    else panics

unfoldable pub has_order : FinalizationPool → ℕ → Bool
unfolding contains_key
has_order s h = contains_key h s.id_to_orders

-- The orders of these hashes, each taken out as it is found.
unfoldable pub take_all : Map ℕ Order → List ℕ → Map ℕ Order × List Order
take_all m [] = (m, [])
take_all m (h ∷ hs) =
    let rest = take_all (remove h m) hs in
    elim (get h m) [ none ↦ rest | some o ↦ (rest.0, o ∷ rest.1) ]

unfoldable pub reorg : FinalizationPool → List ℕ → FinalizationPool × List Order
reorg s hs = let (m, orders) = take_all s.id_to_orders hs in (record s { id_to_orders = m }, orders)

unfoldable pub finalized : FinalizationPool → ℕ → FinalizationPool × List Order
finalized s block = elim (get block s.block_to_ids) [
  | none ↦ (s, [])
  | some ids ↦ (
    record s {
      block_to_ids = remove block s.block_to_ids;
      id_to_orders = (take_all s.id_to_orders ids).0;
    },
    (take_all s.id_to_orders ids).1,
  )
]
