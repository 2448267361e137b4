-- ===== src/OrderPool/Storage/Budget.antt =====
-- The byte budget of the limit orders over any sequence of calls.
use appsec_seq.Base.{
  ℕ, ◌+◌, ◌^◌, ◌≤◌, ◌<◌, ◌≡◌, returns, err, inl, inr, ◌⊎◌, List, [], ◌∷◌, arith, >>=-eq-returns,
  ◌∙◌,
}
use appsec_seq.Orders.{OrderId}
use appsec_seq.OrderPool.Size.{SizeTracker, IsWithin, has_space, has_space_exact}
use appsec_seq.OrderPool.Standard.{Order, max_size}
use appsec_seq.OrderPool.Limit
use appsec_seq.OrderPool.Limit.{LimitOrderPool}
use appsec_seq.OrderPool.Storage.{
  OrderStorage, OrderSizes, remove_pool, remove_limit_order, remove_searcher_order, cancel_order,
  remove_order, remove_order_from_id, park_orders, park_each, park_at, add_new_limit_order,
  add_new_searcher_order, add_filled_orders, finalized_block, reorg, remove_parked_order, new_pool,
  remove_invalid_order,
}
use appsec_seq.OrderPool.Storage.Steps.{Step, Reach, here, next}
use appsec_seq.OrderPool.Storage.Steps

-- What one call keeps of the budget.
record Grows (max : ℕ) (s t : SizeTracker) : Type 0 where
  within : IsWithin max t
  grows : s.current ≤ t.current

Grows-refl : (max : ℕ) (s : SizeTracker) → IsWithin max s → Grows max s s
Grows-refl max s w = record { within = w; grows = omega arith }

has_space-Grows :
    (max z : ℕ) (s : SizeTracker)
    → max < 2 ^ 63
    → z < 2 ^ 63
    → IsWithin max s
    → Grows max s (has_space s z).0
has_space-Grows max z s m h w = ground (arith, has_space_exact max z s m h w)

remove_order-size : (s : LimitOrderPool) (id : OrderId) → (Limit.remove_order s id).0.size ≡ s.size
unfolding Limit.remove_order
remove_order-size s id = ground arith

remove_parked_order-size :
    (s : LimitOrderPool) (id : OrderId) → (Limit.remove_parked_order s id).0.size ≡ s.size
unfolding Limit.remove_parked_order
remove_parked_order-size s id = ground arith

park_at-size :
    (l : LimitOrderPool) (id : OrderId) (m : LimitOrderPool)
    → park_at id.location l id ≡ returns m
    → m.size ≡ l.size
unfolding park_at Limit.park_order
park_at-size l id m e = ground arith

park_each-size :
    (l : LimitOrderPool) (ids : List OrderId) (m : LimitOrderPool)
    → park_each l ids ≡ returns m
    → m.size ≡ l.size
unfolding park_each
park_each-size l [] m e = ground arith
park_each-size l (id ∷ ids) m e =
    let (k, first, rest) = >>=-eq-returns (park_at id.location l id) (λ l'. park_each l' ids) e in
    park_each-size k ids m rest ∙ park_at-size l id k first

-- The calls but `add_new_limit_order` leave the space in use alone: nothing is given back.
Step-size :
    {z : OrderSizes} {s t : OrderStorage} (st : Step z s t)
    → (t.limit_orders.size ≡ s.limit_orders.size)
      ⊎ (t.limit_orders.size ≡ (has_space s.limit_orders.size z.all_orders).0)
unfolding remove_pool remove_limit_order remove_searcher_order cancel_order remove_order
    remove_order_from_id park_orders add_new_limit_order add_new_searcher_order add_filled_orders
    finalized_block reorg remove_parked_order new_pool remove_invalid_order Limit.remove_pool
    Limit.remove_invalid_order Limit.new_pool Limit.add_vanilla_order Limit.add_composable_order
Step-size {s = s} (Steps.removes_pool key e) = inl (ground arith)
Step-size {s = s} (Steps.removes_limit id e) =
    inl (ground (arith, remove_order-size s.limit_orders id))
Step-size {s = s} (Steps.removes_searcher id e) = inl (ground arith)
Step-size {s = s} (Steps.removes id e) = inl (ground (arith, remove_order-size s.limit_orders id))
Step-size {s = s} (Steps.removes_from_id id e) =
    inl (ground (arith, remove_order-size s.limit_orders id))
Step-size {s = s} (Steps.removes_parked id e) =
    inl (ground (arith, remove_parked_order-size s.limit_orders id))
Step-size {s = s} (Steps.cancels id e) = inl (ground (arith, remove_order-size s.limit_orders id))
Step-size {s = s} {t = t} (Steps.parks ids e) =
    inl (ground (arith, park_each-size s.limit_orders ids t.limit_orders))
Step-size {s = s} (Steps.adds_limit o e) = inr (ground arith)
Step-size {s = s} (Steps.adds_searcher o e) = inl (ground arith)
Step-size {s = s} (Steps.adds_filled block os e) = inl (ground arith)
Step-size {s = s} (Steps.finalizes block e) = inl (ground arith)
Step-size {s = s} (Steps.reorgs hs e) = inl (ground arith)
Step-size {s = s} (Steps.adds_pool pool e) = inl (ground arith)
Step-size {s = s} (Steps.invalidates h e) = inl (ground arith)

Grows-step :
    (max z : ℕ) (s t u : SizeTracker)
    → max < 2 ^ 63
    → z < 2 ^ 63
    → Grows max s t
    → (u ≡ t) ⊎ (u ≡ (has_space t z).0)
    → Grows max s u
Grows-step max z s t u m k g (inl e) = rw e g
Grows-step max z s t u m k g (inr e) =
    let h = has_space-Grows max z t m k g.within in
    rw e (record { within = h.within; grows = omega arith })

Reach-Grows :
    (max : ℕ) {z : OrderSizes} {s t : OrderStorage}
    → max < 2 ^ 63
    → z.all_orders < 2 ^ 63
    → IsWithin max s.limit_orders.size
    → Reach z s t
    → Grows max s.limit_orders.size t.limit_orders.size
Reach-Grows max {s = s} m k w here = Grows-refl max s.limit_orders.size w
Reach-Grows max {z} {s} m k w (next {t = t} {u = u} r st) =
    Grows-step max z.all_orders s.limit_orders.size t.limit_orders.size u.limit_orders.size m k
      (Reach-Grows max m k w r) (Step-size st)

-- Once the space in use leaves no room for one more limit order, no later order is taken in, whatever
-- was removed, cancelled, expired, filled or found invalid in between.
pub budget_exhausted :
    (max : ℕ) {z : OrderSizes} {s t : OrderStorage} (o : Order)
    → max < 2 ^ 63
    → z.all_orders < 2 ^ 63
    → IsWithin max s.limit_orders.size
    → max < s.limit_orders.size.current + z.all_orders
    → Reach z s t
    → (add_new_limit_order z t o).1 ≡ err max_size
unfolding add_new_limit_order Limit.add_vanilla_order Limit.add_composable_order
budget_exhausted max {z} {s} {t} o m k w full r =
    let g = Reach-Grows max m k w r in
    ground (arith, has_space_exact max z.all_orders t.limit_orders.size m k g.within, g.grows)
