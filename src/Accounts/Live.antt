-- ===== src/Accounts/Live.antt =====
-- The live state of a user and the orders that it no longer pays for: UserAccounts of
-- angstrom-main/crates/validation/src/order/state/account/user.rs.
use Prim.Native.Nat.{Ordering}
use Prim.Native.String.{String}
use appsec_seq.Base.{
  ℕ, ◌+◌, ◌-◌, ◌%◌, Bool, false, not, ◌||◌, List, [], ◌∷◌, ◌++◌, Option, none, some, Result, ok,
  err, Outcome, returns, panics, ◌>>=◌, if◌then◌else◌, ltb, ◌==◌,
}
use appsec_seq.Base.Maps.{nat_eq, get, insert}
use appsec_seq.Prices.{u256_mod}
use appsec_seq.Accounts.{
  OrderValidationPriority, is_higher_priority, PendingUserAction, BaselineState, LiveState,
  UserAccounts, or_no_actions, try_fetch_live_pending_state,
}

-- The state of the chain: whether a nonce is unused, the approval, and the balance of a user.
pub record StateFetchUtils : Type 0 where
  pub is_valid_nonce : ℕ → ℕ → Result Bool String
  pub fetch_approval_balance_for_token : ℕ → ℕ → Result (Option ℕ) String
  pub fetch_balance_for_token : ℕ → ℕ → Result ℕ String

unfoldable pub empty_baseline : BaselineState
empty_baseline = record { token_approval = []; token_balance = []; angstrom_balance = [] }

abbrev pub or_empty_baseline : Option BaselineState → BaselineState
or_empty_baseline none = empty_baseline
or_empty_baseline (some b) = b

unfoldable pub with_balances : BaselineState → ℕ → ℕ → ℕ → BaselineState
with_balances b token approval balance = record {
  token_approval = insert token approval b.token_approval;
  token_balance = insert token balance b.token_balance;
  angstrom_balance = insert token balance b.angstrom_balance;
}

unfoldable pub load_state_for : StateFetchUtils → UserAccounts → ℕ → ℕ → Result UserAccounts String
unfolding with_balances empty_baseline
load_state_for u s user token = elim (u.fetch_approval_balance_for_token user token) [
  | err e ↦ err e
  | ok none ↦ err "could not properly find approvals"
  | ok (some approval) ↦ elim (u.fetch_balance_for_token user token) [
    | err e ↦ err e
    | ok balance ↦
        let b = or_empty_baseline (get user s.last_known_state) in
        ok (record s {
          last_known_state =
              insert user (with_balances b token approval balance) s.last_known_state;
        })
  ]
]

abbrev pub found_state : UserAccounts → Option LiveState → Result (UserAccounts × LiveState) String
found_state s none = err "after loading state for a address, the state wasn't found"
found_state s (some l) = ok (s, l)

unfoldable pub get_live_state_for_order :
    StateFetchUtils
    → UserAccounts
    → ℕ
    → ℕ
    → OrderValidationPriority
    → Result (UserAccounts × LiveState) String
unfolding load_state_for
get_live_state_for_order u s user token p = elim (try_fetch_live_pending_state s user token p) [
  | some l ↦ ok (s, l)
  | none ↦ elim (load_state_for u s user token) [
    | err e ↦ err e
    | ok s' ↦ found_state s' (try_fetch_live_pending_state s' user token p)
  ]
]

-- By `is_higher_priority`, from the highest on. The sort is an insertion sort: orders with distinct hashes
-- have distinct priorities, so that every sort gives the same list.
unfoldable pub insert_action : PendingUserAction → List PendingUserAction → List PendingUserAction
insert_action a [] = a ∷ []
insert_action a (b ∷ bs) =
    let after = insert_action a bs in
    elim (is_higher_priority b.order_priority a.order_priority) [
      | Ordering.gt ↦ b ∷ after
      | _ ↦ a ∷ b ∷ bs
    ]

unfoldable pub sort_actions : List PendingUserAction → List PendingUserAction
unfolding insert_action
sort_actions [] = []
sort_actions (a ∷ acts) = insert_action a (sort_actions acts)

-- `overflowing_sub`, whose overflow is kept.
abbrev pub sub_u256 : ℕ → ℕ → ℕ
sub_u256 a b = (a + u256_mod - b) % u256_mod

unfoldable pub invalidated : ℕ → ℕ → ℕ → ℕ → Bool → List PendingUserAction → List ℕ
invalidated token approval balance angstrom overflowed [] = []
invalidated token approval balance angstrom overflowed (a ∷ acts) =
    let skipped = invalidated token approval balance angstrom overflowed acts in
    let over =
      overflowed
      || ltb approval a.token_approval
      || ltb balance a.token_delta
      || ltb angstrom a.angstrom_delta in
    let rest =
      invalidated token (sub_u256 approval a.token_approval) (sub_u256 balance a.token_delta)
        (sub_u256 angstrom a.angstrom_delta) over acts in
    if not (a.token_address == token)
    then skipped
    else if over
    then a.order_priority.order_hash ∷ rest
    else rest

-- `unwrap` on the balances of a token and on the user's orders.
unfoldable pub fetch_all_invalidated_orders : UserAccounts → ℕ → ℕ → Outcome (List ℕ)
unfolding invalidated
fetch_all_invalidated_orders s user token = elim (get user s.last_known_state) [
  | none ↦ returns []
  | some b ↦ elim (get token b.token_approval) [
    | none ↦ panics
    | some approval ↦ elim (get token b.token_balance) [
      | none ↦ panics
      | some balance ↦ elim (get token b.angstrom_balance) [
        | none ↦ panics
        | some angstrom ↦ elim (get user s.pending_actions) [
          | none ↦ panics
          | some acts ↦ returns (invalidated token approval balance angstrom false acts)
        ]
      ]
    ]
  ]
]

unfoldable pub insert_pending_user_action :
    UserAccounts → ℕ → PendingUserAction → Outcome (UserAccounts × List ℕ)
unfolding sort_actions fetch_all_invalidated_orders
insert_pending_user_action s user action = do
  let acts = or_no_actions (get user s.pending_actions)
  let s' = record s {
    pending_actions = insert user (sort_actions (acts ++ action ∷ [])) s.pending_actions;
  }
  bad ← fetch_all_invalidated_orders s' user action.token_address
  returns (s', bad)
