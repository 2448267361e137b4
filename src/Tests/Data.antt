-- ===== src/Tests/Data.antt =====
-- Orders and pools for the runs.
use appsec_seq.Base.{ℕ, true, false, [], ◌∷◌, none, some}
use appsec_seq.Base.Maps.{nat_eq}
use appsec_seq.Orders.{AllOrders, exact_standing, OrderId, limit, nonce, unknown}
use appsec_seq.Orders.Priority.{OrderPriorityData}
use appsec_seq.OrderPool.Standard.{Order, LimitPool}
use appsec_seq.OrderPool.Pending.{PendingPool}
use appsec_seq.OrderPool.Storage.{OrderStorage, OrderSizes}

-- A standing order of address 7.
abbrev pub standing : ℕ → AllOrders
standing h =
    exact_standing
      (record { order_hash = h; from = 7; nonce = 1; deadline = 100; has_hook = false })

abbrev pub id_of : ℕ → OrderId
id_of h = record {
  address = 7;
  pool_id = 1;
  hash = h;
  reuse_avoidance = nonce 1;
  deadline = some 100;
  flash_block = none;
  location = limit;
}

abbrev pub priced : ℕ → OrderPriorityData
priced p = record { price = p; volume = 1; gas = 0; gas_units = 0 }

-- A bid in pool 1, by its hash and price.
abbrev pub bid : ℕ → ℕ → Order
bid h price = record {
  order = standing h;
  priority_data = priced price;
  invalidates = [];
  pool_id = 1;
  is_currently_valid = none;
  is_bid = true;
  is_valid = true;
  valid_block = 10;
  order_id = id_of h;
  tob_reward = 0;
}

abbrev pub unfunded : ℕ → ℕ → Order
unfunded h price = record (bid h price) { is_currently_valid = some (unknown "no funds") }

abbrev pub empty_pending : PendingPool AllOrders
empty_pending = record { orders = []; bids = []; asks = [] }

abbrev pub one_bid : PendingPool AllOrders
one_bid = record { orders = (5, bid 5 30) ∷ []; bids = (priced 30, 5) ∷ []; asks = [] }

-- Pool 1 with the bid 5 pending and the bid 6 parked.
abbrev pub two_orders : LimitPool
two_orders = record {
  pending_orders = (1, one_bid) ∷ [];
  parked_orders = (1, (6, unfunded 6 40) ∷ []) ∷ [];
}

abbrev pub no_orders : LimitPool
no_orders = record { pending_orders = (1, empty_pending) ∷ []; parked_orders = (1, []) ∷ [] }

abbrev pub sizes : OrderSizes
sizes = record { all_orders = 600; top_of_block_order = 400 }

abbrev pub store : OrderStorage
store = record {
  limit_orders = record {
    limit_orders = no_orders;
    composable_orders = record { map = (1, empty_pending) ∷ [] };
    size = record { max = some 1000; current = 0 };
  };
  searcher_orders = record {
    searcher_orders = (1, record { orders = []; bids = []; asks = [] }) ∷ [];
    size = record { max = some 1000; current = 0 };
  };
  pending_finalization_orders = record { id_to_orders = []; block_to_ids = [] };
  filled_orders = [];
}
