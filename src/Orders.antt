-- ===== src/Orders.antt =====
-- angstrom-main/crates/types/src/orders/orderpool and the order types of
-- sol_bindings/ext/grouped_orders.rs, as the pools read them. A hash, an address, a pool id and a
-- price are numbers. The digest of an order and its recovered fields are carried by the order; the
-- encoding behind them is not read here.
pub mod Priority
pub mod Ids
use Prim.Native.String.{String}
use appsec_seq.Base.{
  ℕ, ◌≡◌, Bool, true, false, not, List, Option, none, some, Result, ok, err, is_none,
}
use Priority.{OrderPriorityData}

pub data RespendAvoidanceMethod : Type 0 where
  nonce : ℕ → RespendAvoidanceMethod
  block : ℕ → RespendAvoidanceMethod

pub data OrderLocation : Type 0 where
  limit searcher : OrderLocation

pub record OrderId : Type 0 where
  pub address : ℕ
  pub pool_id : ℕ
  pub hash : ℕ
  pub reuse_avoidance : RespendAvoidanceMethod
  pub deadline : Option ℕ
  pub flash_block : Option ℕ
  pub location : OrderLocation

pub record StandingOrder : Type 0 where
  pub order_hash : ℕ
  pub from : ℕ
  pub nonce : ℕ
  pub deadline : ℕ
  pub has_hook : Bool

pub record FlashOrder : Type 0 where
  pub order_hash : ℕ
  pub from : ℕ
  pub valid_for_block : ℕ
  pub has_hook : Bool

pub record TopOfBlockOrder : Type 0 where
  pub order_hash : ℕ
  pub from : ℕ
  pub valid_for_block : ℕ

pub data AllOrders : Type 0 where
  exact_standing : StandingOrder → AllOrders
  partial_standing : StandingOrder → AllOrders
  exact_flash : FlashOrder → AllOrders
  partial_flash : FlashOrder → AllOrders
  tob : TopOfBlockOrder → AllOrders

unfoldable pub order_hash : AllOrders → ℕ
order_hash (exact_standing p) = p.order_hash
order_hash (partial_standing p) = p.order_hash
order_hash (exact_flash p) = p.order_hash
order_hash (partial_flash p) = p.order_hash
order_hash (tob t) = t.order_hash

unfoldable pub from : AllOrders → ℕ
from (exact_standing p) = p.from
from (partial_standing p) = p.from
from (exact_flash p) = p.from
from (partial_flash p) = p.from
from (tob t) = t.from

unfoldable pub deadline : AllOrders → Option ℕ
deadline (exact_standing p) = some p.deadline
deadline (partial_standing p) = some p.deadline
deadline (exact_flash p) = none
deadline (partial_flash p) = none
deadline (tob t) = none

unfoldable pub flash_block : AllOrders → Option ℕ
flash_block (exact_standing p) = none
flash_block (partial_standing p) = none
flash_block (exact_flash p) = some p.valid_for_block
flash_block (partial_flash p) = some p.valid_for_block
flash_block (tob t) = some t.valid_for_block

unfoldable pub is_tob : AllOrders → Bool
is_tob (tob t) = true
is_tob _ = false

unfoldable pub is_vanilla : AllOrders → Bool
is_vanilla (exact_standing p) = not p.has_hook
is_vanilla (partial_standing p) = not p.has_hook
is_vanilla (exact_flash p) = not p.has_hook
is_vanilla (partial_flash p) = not p.has_hook
is_vanilla (tob t) = true

unfoldable pub order_location : AllOrders → OrderLocation
order_location (tob t) = searcher
order_location _ = limit

unfoldable pub respend_avoidance_strategy : AllOrders → RespendAvoidanceMethod
respend_avoidance_strategy (exact_standing p) = nonce p.nonce
respend_avoidance_strategy (partial_standing p) = nonce p.nonce
respend_avoidance_strategy (exact_flash p) = block p.valid_for_block
respend_avoidance_strategy (partial_flash p) = block p.valid_for_block
respend_avoidance_strategy (tob t) = block t.valid_for_block

-- `OrderId::from_all_orders`
unfoldable pub from_all_orders : AllOrders → ℕ → OrderId
from_all_orders order pool_id = record {
  address = from order;
  pool_id = pool_id;
  hash = order_hash order;
  reuse_avoidance = respend_avoidance_strategy order;
  deadline = deadline order;
  flash_block = flash_block order;
  location = order_location order;
}

pub record UserOrderPoolInfo : Type 0 where
  pub token : ℕ
  pub is_bid : Bool
  pub pool_id : ℕ

pub data UserAccountVerificationError : Type 0 where
  block_miss_match : ℕ → ℕ → UserOrderPoolInfo → UserAccountVerificationError
  order_is_cancelled : ℕ → UserAccountVerificationError
  duplicate_nonce : ℕ → UserAccountVerificationError
  bad_block : ℕ → ℕ → UserAccountVerificationError
  non_empty_hook : UserAccountVerificationError
  could_not_fetch : String → UserAccountVerificationError
  -- order hash, token, amount
  insufficient_approval : ℕ → ℕ → ℕ → UserAccountVerificationError
  insufficient_balance : ℕ → ℕ → ℕ → UserAccountVerificationError
  -- order hash, token, amount of balance, amount of approval
  insufficient_both : ℕ → ℕ → ℕ → ℕ → UserAccountVerificationError
  unknown : String → UserAccountVerificationError

pub data OrderStatus : Type 0 where
  filled pending : OrderStatus
  -- token, approval needed, balance needed
  blocked : ℕ → ℕ → ℕ → OrderStatus
  order_not_found : OrderStatus

-- `OrderStatus::try_from_err`: an error that is no lack of funds is passed back.
unfoldable pub try_from_err :
    UserAccountVerificationError → Result OrderStatus UserAccountVerificationError
try_from_err (insufficient_both h token balance approval) = ok (blocked token approval balance)
try_from_err (insufficient_balance h token amount) = ok (blocked token 0 amount)
try_from_err (insufficient_approval h token amount) = ok (blocked token amount 0)
try_from_err (unknown e) = ok (blocked 0 0 0)
try_from_err e = err e

pub record OrderWithStorageData (A : Type 0) : Type 0 where
  pub order : A
  pub priority_data : OrderPriorityData
  pub invalidates : List ℕ
  pub pool_id : ℕ
  pub is_currently_valid : Option UserAccountVerificationError
  pub is_bid : Bool
  pub is_valid : Bool
  pub valid_block : ℕ
  pub order_id : OrderId
  pub tob_reward : ℕ

-- The method `is_currently_valid`.
abbrev pub currently_valid : {A : Type 0} → OrderWithStorageData A → Bool
currently_valid o = is_none o.is_currently_valid

-- `try_map_inner` with a closure that does not fail.
unfoldable pub map_inner :
    {A B : Type 0} → (A → B) → OrderWithStorageData A → OrderWithStorageData B
map_inner f o = record {
  order = f o.order;
  priority_data = o.priority_data;
  invalidates = o.invalidates;
  pool_id = o.pool_id;
  is_currently_valid = o.is_currently_valid;
  is_bid = o.is_bid;
  is_valid = o.is_valid;
  valid_block = o.valid_block;
  order_id = o.order_id;
  tob_reward = o.tob_reward;
}
