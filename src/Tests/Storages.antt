-- ===== src/Tests/Storages.antt =====
-- Runs of the storage.
use appsec_seq.Base.{◌≡◌, refl, ◌<◌, ◌+◌, [], ◌∷◌, err, arith}
use appsec_seq.Base.Maps.{nat_eq}
use appsec_seq.Orders.{is_vanilla}
use appsec_seq.OrderPool.Size.{IsWithin, has_space}
use appsec_seq.OrderPool.Standard.{max_size}
use appsec_seq.OrderPool.Limit
use appsec_seq.OrderPool.Storage.{OrderStorage, PoolConfig, add_new_limit_order, remove_order}
use appsec_seq.OrderPool.Storage.Steps.{here, next, removes}
use appsec_seq.OrderPool.Storage.Budget.{budget_exhausted}
use appsec_seq.Tests.Data.{bid, id_of, store, sizes}

-- The state after one order of 600 of the 1000 bytes.
abbrev used : OrderStorage
used = (add_new_limit_order sizes store (bid 5 30)).0

used-IsWithin : IsWithin 1000 used.limit_orders.size
unfolding add_new_limit_order Limit.add_vanilla_order has_space is_vanilla
used-IsWithin = record { limit = refl; used = omega arith }

used_most : 1000 < used.limit_orders.size.current + 600
unfolding add_new_limit_order Limit.add_vanilla_order has_space is_vanilla
used_most = omega arith

budget_exhausted_example :
    (add_new_limit_order sizes (remove_order used (id_of 5)).0 (bid 6 31)).1 ≡ err max_size
budget_exhausted_example =
    budget_exhausted 1000 (bid 6 31) (omega arith) (omega arith) used-IsWithin used_most
      (next here (removes (id_of 5) refl))

abbrev config : PoolConfig
config = record { ids = 1 ∷ []; lo_pending_max_size = 1000; s_pending_max_size = 1000 }
