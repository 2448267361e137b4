-- ===== src/Accounts.antt =====
-- angstrom-main/crates/validation/src/order/state/account/user.rs: what the pending orders of a user
-- spend, and what is left for another order. The state of the chain is read through an interface; a
-- DashMap is a map.
pub mod Live
pub mod Verify
pub mod Ranked
pub mod Covered
pub mod Pending
pub mod Respend
pub mod Internal
use Prim.Native.Nat.{compare, Ordering}
use Prim.Native.String.{String}
use appsec_seq.Base.{
  ℕ, ◌+◌, ◌-◌, ◌%◌, Bool, true, false, not, ◌&&◌, ◌||◌, List, [], ◌∷◌, ◌++◌, Option, none, some,
  Result, ok, err, Outcome, returns, panics, ◌>>=◌, if◌then◌else◌, ltb, leb, ◌==◌, add_u128, elem,
}
use appsec_seq.Base.Maps.{Map, nat_eq, get, insert, remove, retain}
use appsec_seq.Orders.{
  RespendAvoidanceMethod, nonce, block, UserOrderPoolInfo, UserAccountVerificationError,
  insufficient_balance, insufficient_approval, insufficient_both,
}
use appsec_seq.Prices.{DivRound, inverse_quantity, u256_mod}

-- What is read of an order, the trait `RawPoolOrder`.
pub record RawPoolOrder : Type 0 where
  pub order_hash : ℕ
  pub from : ℕ
  pub token_in : ℕ
  pub use_internal : Bool
  pub is_tob : Bool
  pub is_partial : Bool
  pub is_bid : Bool
  pub exact_in : Bool
  pub amount : ℕ
  pub max_gas_token_0 : ℕ
  pub limit_price : ℕ
  pub respend : RespendAvoidanceMethod
  pub has_hook : Bool

pub record OrderValidationPriority : Type 0 where
  pub order_hash : ℕ
  pub is_tob : Bool
  pub is_partial : Bool
  pub respend : RespendAvoidanceMethod

unfoldable pub get_ord_for_pending_orders : RespendAvoidanceMethod → ℕ
get_ord_for_pending_orders (nonce n) = n
get_ord_for_pending_orders (block b) = 0

-- `bool::cmp`, and `then_with`.
abbrev pub compare_bool : Bool → Bool → Ordering
compare_bool true false = Ordering.gt
compare_bool false true = Ordering.lt
compare_bool _ _ = Ordering.eq

abbrev pub then_with : Ordering → Ordering → Ordering
then_with Ordering.eq o = o
then_with Ordering.lt o = Ordering.lt
then_with Ordering.gt o = Ordering.gt

unfoldable pub is_higher_priority : OrderValidationPriority → OrderValidationPriority → Ordering
unfolding get_ord_for_pending_orders
is_higher_priority p q = then_with (compare_bool p.is_tob q.is_tob) (
    then_with (compare_bool p.is_partial q.is_partial) (
      then_with
        (compare (get_ord_for_pending_orders q.respend) (get_ord_for_pending_orders p.respend))
        (compare q.order_hash p.order_hash)))

unfoldable pub validation_priority : RawPoolOrder → OrderValidationPriority
validation_priority o = record {
  order_hash = o.order_hash;
  is_tob = o.is_tob;
  is_partial = o.is_partial;
  respend = o.respend;
}

pub record PendingUserAction : Type 0 where
  pub order_priority : OrderValidationPriority
  pub token_address : ℕ
  pub token_delta : ℕ
  pub token_approval : ℕ
  pub angstrom_delta : ℕ
  pub pool_info : UserOrderPoolInfo

pub record BaselineState : Type 0 where
  pub token_approval : Map ℕ ℕ
  pub token_balance : Map ℕ ℕ
  pub angstrom_balance : Map ℕ ℕ

pub record LiveState : Type 0 where
  pub token : ℕ
  pub approval : ℕ
  pub balance : ℕ
  pub angstrom_balance : ℕ

pub record UserAccounts : Type 0 where
  pub pending_actions : Map ℕ (List PendingUserAction)
  pub last_known_state : Map ℕ BaselineState

unfoldable pub new : UserAccounts
new = record { pending_actions = []; last_known_state = [] }

abbrev pub or_no_actions : Option (List PendingUserAction) → List PendingUserAction
or_no_actions none = []
or_no_actions (some acts) = acts

unfoldable pub without : List ℕ → List PendingUserAction → List PendingUserAction
without orders [] = []
without orders (a ∷ acts) =
    let rest = without orders acts in
    if elem a.order_priority.order_hash orders then rest else a ∷ rest

-- `retain`, which drops the users without a pending order.
unfoldable pub prune : List ℕ → Map ℕ (List PendingUserAction) → Map ℕ (List PendingUserAction)
unfolding without
prune orders [] = []
prune orders ((user, acts) ∷ m) =
    let rest = prune orders m in
    elim (without orders acts) [ [] ↦ rest | a ∷ left ↦ (user, a ∷ left) ∷ rest ]

unfoldable pub remove_each {ℓ} : {A : Type ℓ} → List ℕ → Map ℕ A → Map ℕ A
remove_each [] m = m
remove_each (user ∷ users) m = remove_each users (remove user m)

unfoldable pub new_block : UserAccounts → List ℕ → List ℕ → UserAccounts
unfolding prune remove_each
new_block s users orders = record {
  pending_actions = prune orders (remove_each users s.pending_actions);
  last_known_state = remove_each users s.last_known_state;
}

unfoldable pub has_order : ℕ → List PendingUserAction → Bool
has_order h [] = false
has_order h (a ∷ acts) = a.order_priority.order_hash == h || has_order h acts

unfoldable pub cancel_order : UserAccounts → ℕ → ℕ → UserAccounts × Bool
unfolding without has_order
cancel_order s user h = elim (get user s.pending_actions) [
  | none ↦ (s, false)
  | some acts ↦ (
    record s { pending_actions = insert user (without (h ∷ []) acts) s.pending_actions },
    has_order h acts,
  )
]

unfoldable pub same_respend : RespendAvoidanceMethod → RespendAvoidanceMethod → Bool
same_respend (nonce a) (nonce b) = a == b
same_respend (block a) (block b) = a == b
same_respend _ _ = false

unfoldable pub of_respend : RespendAvoidanceMethod → List PendingUserAction → List PendingUserAction
unfolding same_respend
of_respend r [] = []
of_respend r (a ∷ acts) =
    let rest = of_respend r acts in
    if same_respend a.order_priority.respend r then a ∷ rest else rest

unfoldable pub respend_conflicts :
    UserAccounts → ℕ → RespendAvoidanceMethod → List PendingUserAction
unfolding of_respend
respend_conflicts s user (nonce n) =
    of_respend (nonce n) (or_no_actions (get user s.pending_actions))
respend_conflicts s user (block b) = []

-- What the pending orders of a token that come before a priority spend: approval, balance, and balance
-- in Angstrom. The sums wrap at 256 bits.
unfoldable pub spent_before :
    ℕ → OrderValidationPriority → List PendingUserAction → ℕ → ℕ → ℕ → ℕ × ℕ × ℕ
unfolding is_higher_priority
spent_before token p [] approval balance angstrom = (approval, balance, angstrom)
spent_before token p (a ∷ acts) approval balance angstrom =
    let rest =
      spent_before token p acts ((approval + a.token_approval) % u256_mod)
        ((balance + a.token_delta) % u256_mod) ((angstrom + a.angstrom_delta) % u256_mod) in
    let skipped = spent_before token p acts approval balance angstrom in
    if not (a.token_address == token)
    then skipped
    else (elim (is_higher_priority a.order_priority p) [
      | Ordering.gt ↦ rest
      | _ ↦ (approval, balance, angstrom)
    ])

unfoldable pub try_fetch_live_pending_state :
    UserAccounts → ℕ → ℕ → OrderValidationPriority → Option LiveState
unfolding spent_before
try_fetch_live_pending_state s user token p = elim (get user s.last_known_state) [
  | none ↦ none
  | some b ↦ elim (get token b.token_approval) [
    | none ↦ none
    | some approval ↦ elim (get token b.token_balance) [
      | none ↦ none
      | some balance ↦ elim (get token b.angstrom_balance) [
        | none ↦ none
        | some angstrom ↦
            let spent = spent_before token p (or_no_actions (get user s.pending_actions)) 0 0 0 in
            some (record {
              token = token;
              approval = approval - spent.0;
              balance = balance - spent.1;
              angstrom_balance = angstrom - spent.2;
            })
      ]
    ]
  ]
]
