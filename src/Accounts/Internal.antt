-- ===== src/Accounts/Internal.antt =====
-- What is loaded as the balance of a user in Angstrom.
use appsec_seq.Base.{
  ℕ, ◌+◌, ◌-◌, true, err, leb, if◌then◌else◌, ◌≤◌, ◌≡◌, refl, arith, [], none, some, ok,
}
use appsec_seq.Base.Maps.{nat_eq, get, insert, get-insert_self}
use appsec_seq.Orders.{UserOrderPoolInfo, insufficient_balance}
use appsec_seq.Accounts.{
  UserAccounts, OrderValidationPriority, LiveState, RawPoolOrder, spent_before,
  try_fetch_live_pending_state, PendingUserAction, BaselineState, validation_priority,
}
use appsec_seq.Accounts.Live.{
  StateFetchUtils, load_state_for, with_balances, empty_baseline, get_live_state_for_order,
}
use appsec_seq.Accounts.Verify.{supports, action_for}

-- For a user without pending orders and without a known state, whose balance and approval of the token
-- can be read: the balance in Angstrom that the live state has is the balance of the user's own account,
-- and an order that spends from inside Angstrom is supported if this balance covers its amount in, and
-- otherwise refused for the difference, whatever the user holds inside of Angstrom.
pub live_state-internal :
    (u : StateFetchUtils) (s : UserAccounts) (user token approval balance : ℕ)
    (p : OrderValidationPriority) (o : RawPoolOrder) (info : UserOrderPoolInfo) (n : ℕ)
    → get user s.last_known_state ≡ none
    → get user s.pending_actions ≡ none
    → u.fetch_approval_balance_for_token user token ≡ ok (some approval)
    → u.fetch_balance_for_token user token ≡ ok balance
    → o.use_internal ≡ true
    → (s' : UserAccounts) × (l : LiveState) × (get_live_state_for_order u s user token p
        ≡ ok (s', l))
      × (l.balance ≡ balance)
      × (l.angstrom_balance ≡ balance)
      × (l.approval ≡ approval)
      × (supports l o info n ≡ (
          if leb n balance
          then ok (action_for o info 0 n n)
          else err (insufficient_balance o.order_hash token (n - balance))))
unfolding get_live_state_for_order load_state_for try_fetch_live_pending_state spent_before
    with_balances empty_baseline supports
live_state-internal u s user token approval balance p o info n e f a b i = (
  loaded,
  record { token = token; approval = approval; balance = balance; angstrom_balance = balance },
  ground (arith, known, get-insert_self user new_state s.last_known_state),
  refl,
  refl,
  refl,
  ground arith,
)
  where
    new_state : BaselineState
    new_state = with_balances empty_baseline token approval balance

    loaded : UserAccounts
    loaded = record s { last_known_state = insert user new_state s.last_known_state }

    known :
        (get token new_state.token_approval ≡ some approval)
        × (get token new_state.token_balance ≡ some balance)
        × (get token new_state.angstrom_balance ≡ some balance)
    known = (
      get-insert_self token approval [],
      get-insert_self token balance [],
      get-insert_self token balance [],
    )

-- Of an order that is supported: what it spends inside of Angstrom and what it spends outside of it are
-- together its amount in, the live state has each of them, and the approval covers what it spends
-- outside; the action keeps the priority of the order.
pub supports-covers :
    (l : LiveState) (o : RawPoolOrder) (info : UserOrderPoolInfo) (n : ℕ)
    (action : PendingUserAction)
    → supports l o info n ≡ ok action
    → (action.token_delta + action.angstrom_delta ≡ n)
      × (action.token_delta ≤ l.balance)
      × (action.token_delta ≤ l.approval)
      × (action.angstrom_delta ≤ l.angstrom_balance)
      × (action.order_priority ≡ validation_priority o)
unfolding supports action_for
supports-covers l o info n action e = ground arith
