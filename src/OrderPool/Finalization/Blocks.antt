-- ===== src/OrderPool/Finalization/Blocks.antt =====
-- The orders of a block from their filling to its finality, or to a reorg.
use appsec_seq.Base.{
  ℕ, ◌≡◌, refl, false, List, [], ◌∷◌, none, some, returns, panics, if◌then◌else◌, All, elem,
  Distinct, arith,
}
use appsec_seq.Base.Maps.{Map, nat_eq, get, insert, remove, get-insert, get-remove, get-insert_self}
use appsec_seq.Orders.{order_hash}
use appsec_seq.OrderPool.Standard.{Order}
use appsec_seq.OrderPool.Finalization.{
  FinalizationPool, new_orders, insert_all, hashes, take_all, has_order, reorg, finalized,
}

get-insert_all_absent :
    (m : Map ℕ Order) (os : List Order) (h : ℕ)
    → elem h (hashes os) ≡ false
    → get h (insert_all m os) ≡ get h m
unfolding insert_all hashes
get-insert_all_absent m [] h a = refl
get-insert_all_absent m (o ∷ os) h a = ground (
  arith,
  get-insert_all_absent (insert (order_hash o.order) o m) os h,
  get-insert h (order_hash o.order) o m,
)

get-take_all :
    (m : Map ℕ Order) (hs : List ℕ) (h : ℕ)
    → get h (take_all m hs).0 ≡ (if elem h hs then none else get h m)
unfolding take_all
get-take_all m [] h = refl
get-take_all m (k ∷ ks) h = ground (arith, get-take_all (remove k m) ks h, get-remove h k m)

-- Every order of the list is stored under its digest.
abbrev Stored : Map ℕ Order → List Order → Type 0
Stored m = All (λ o. get (order_hash o.order) m ≡ some o)

Stored-remove :
    (m : Map ℕ Order) (h : ℕ) (os : List Order)
    → elem h (hashes os) ≡ false
    → Stored m os
    → Stored (remove h m) os
unfolding hashes
Stored-remove m h [] a s = tt
Stored-remove m h (o ∷ os) a s =
    ground (arith, get-remove (order_hash o.order) h m, Stored-remove m h os)

take_all-hashes :
    (m : Map ℕ Order) (os : List Order)
    → Distinct (hashes os)
    → Stored m os
    → (take_all m (hashes os)).1 ≡ os
unfolding take_all hashes
take_all-hashes m [] d s = refl
take_all-hashes m (o ∷ os) d s = ground (
  arith,
  take_all-hashes (remove (order_hash o.order) m) os d.1,
  Stored-remove m (order_hash o.order) os d.0 s.1,
)

insert_all-Stored :
    (m : Map ℕ Order) (os : List Order) → Distinct (hashes os) → Stored (insert_all m os) os
unfolding insert_all hashes
insert_all-Stored m [] d = tt
insert_all-Stored m (o ∷ os) d = ground (
  arith,
  insert_all-Stored (insert (order_hash o.order) o m) os d.1,
  get-insert_all_absent (insert (order_hash o.order) o m) os (order_hash o.order) d.0,
  get-insert_self (order_hash o.order) o m,
)

-- The pool after the orders of a block came in.
abbrev pub with_block : FinalizationPool → ℕ → List Order → FinalizationPool
with_block s block os = record s {
  id_to_orders = insert_all s.id_to_orders os;
  block_to_ids = insert block (hashes os) s.block_to_ids;
}

-- The orders of a new block, with distinct digests, are taken in; once the block is final exactly
-- these orders come out, in their order, none of them is held any more, every other order is held as
-- before, and the block is known no more.
pub finalized-new_orders :
    (s : FinalizationPool) (block : ℕ) (os : List Order) (h : ℕ)
    → Distinct (hashes os)
    → get block s.block_to_ids ≡ none
    → let t = with_block s block os in
      (new_orders s block os ≡ returns t)
      × ((finalized t block).1 ≡ os)
      × (has_order (finalized t block).0 h ≡ (if elem h (hashes os) then false else has_order s h))
      × (get block (finalized t block).0.block_to_ids ≡ none)
unfolding new_orders finalized has_order
finalized-new_orders s block os h d fresh = ground (
  arith,
  get-insert_self block (hashes os) s.block_to_ids,
  take_all-hashes (insert_all s.id_to_orders os) os d (insert_all-Stored s.id_to_orders os d),
  get-take_all (insert_all s.id_to_orders os) (hashes os) h,
  get-insert_all_absent s.id_to_orders os h,
  get-remove block block (insert block (hashes os) s.block_to_ids),
)

-- A reorg of all orders of a new block, with distinct digests, brings exactly these orders back, and
-- none of them is held any more.
pub reorg-new_orders :
    (s : FinalizationPool) (block : ℕ) (os : List Order) (h : ℕ)
    → Distinct (hashes os)
    → let t = with_block s block os in
      ((reorg t (hashes os)).1 ≡ os)
      × (has_order (reorg t (hashes os)).0 h
          ≡ (if elem h (hashes os) then false else has_order s h))
unfolding reorg has_order
reorg-new_orders s block os h d = ground (
  arith,
  take_all-hashes (insert_all s.id_to_orders os) os d (insert_all-Stored s.id_to_orders os d),
  get-take_all (insert_all s.id_to_orders os) (hashes os) h,
  get-insert_all_absent s.id_to_orders os h,
)

-- A reorg does not forget the number of the block: when the block that replaces it has filled orders,
-- whatever they are, taking them in panics.
pub new_orders-reorg_panics :
    (s t : FinalizationPool) (block : ℕ) (os os' : List Order) (hs : List ℕ)
    → new_orders s block os ≡ returns t
    → new_orders (reorg t hs).0 block os' ≡ panics
unfolding new_orders reorg
new_orders-reorg_panics s t block os os' hs e =
    ground (arith, get-insert_self block (hashes os) s.block_to_ids)
