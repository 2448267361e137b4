-- ===== src/Accounts/Verify.antt =====
-- angstrom-main/crates/validation/src/order/state/account/user.rs and mod.rs: whether an order can
-- be paid for, and which other orders it displaces.
use appsec_seq.Base.{
  ℕ, ◌+◌, ◌-◌, ◌%◌, ◌^◌, Bool, true, false, ◌||◌, List, [], ◌∷◌, ◌++◌, Option, none, some, Result,
  ok, err, Outcome, returns, panics, ◌>>=◌, if◌then◌else◌, ltb, leb, ◌==◌, add_u128, map,
}
use appsec_seq.Base.Maps.{nat_eq}
use appsec_seq.Orders.{
  RespendAvoidanceMethod, nonce, block, UserOrderPoolInfo, UserAccountVerificationError,
  insufficient_balance, insufficient_approval, insufficient_both, duplicate_nonce, bad_block,
  non_empty_hook, could_not_fetch,
}
use appsec_seq.Prices.{DivRound, inverse_quantity}
use appsec_seq.Accounts.{
  RawPoolOrder, validation_priority, PendingUserAction, LiveState, UserAccounts, cancel_order,
  respend_conflicts,
}
use appsec_seq.Accounts.Live.{StateFetchUtils, get_live_state_for_order, insert_pending_user_action}

unfoldable pub action_for : RawPoolOrder → UserOrderPoolInfo → ℕ → ℕ → ℕ → PendingUserAction
action_for o info token_delta angstrom_delta amount_in = record {
  order_priority = validation_priority o;
  token_address = info.token;
  token_delta = token_delta;
  angstrom_delta = angstrom_delta;
  token_approval = amount_in;
  pool_info = info;
}

unfoldable pub supports :
    LiveState
    → RawPoolOrder
    → UserOrderPoolInfo
    → ℕ
    → Result PendingUserAction UserAccountVerificationError
unfolding action_for
supports l o info amount_in =
    if o.use_internal
    then (if ltb l.angstrom_balance amount_in
        then err (insufficient_balance o.order_hash l.token (amount_in - l.angstrom_balance))
        else ok (action_for o info 0 amount_in amount_in))
    else if ltb l.approval amount_in
    then (if ltb l.balance amount_in
        then err (
            insufficient_both o.order_hash l.token (amount_in - l.balance) (amount_in - l.approval))
        else err (insufficient_approval o.order_hash l.token (amount_in - l.approval)))
    else if ltb l.balance amount_in
    then err (insufficient_balance o.order_hash l.token (amount_in - l.balance))
    else ok (action_for o info amount_in 0 amount_in)

-- What `verify_order` gives for an order that is not refused: the error for now, if any, and the orders
-- that it invalidates. The storage data around it only repeats the order.
pub record Verified : Type 0 where
  pub is_currently_valid : Option UserAccountVerificationError
  pub invalidates : List ℕ

unfoldable pub hashes : List PendingUserAction → List ℕ
hashes = map (λ a. a.order_priority.order_hash)

unfoldable pub cancel_each : UserAccounts → ℕ → List ℕ → UserAccounts
cancel_each s user [] = s
cancel_each s user (h ∷ hs) = cancel_each (cancel_order s user h).0 user hs

unfoldable pub some_at_most : ℕ → List ℕ → Bool
some_at_most h [] = false
some_at_most h (k ∷ ks) = leb k h || some_at_most h ks

-- The nonce was not used, or the order is for the next block.
unfoldable pub respend_allowed :
    StateFetchUtils
    → RawPoolOrder
    → ℕ
    → RespendAvoidanceMethod
    → Result (Unit {0}) UserAccountVerificationError
respend_allowed u o now (nonce n) = elim (u.is_valid_nonce o.from n) [
  | err e ↦ err (could_not_fetch e)
  | ok true ↦ ok tt
  | ok false ↦ err (duplicate_nonce o.order_hash)
]
respend_allowed u o now (block b) =
    if (now + 1) % 2 ^ 64 == b then ok tt else err (bad_block ((now + 1) % 2 ^ 64) b)

module _ ⦃m : DivRound⦄ where
  unfoldable pub fetch_amount_in : RawPoolOrder → Outcome ℕ
  fetch_amount_in o =
      if o.exact_in
      then returns o.amount
      else if o.is_bid
      then inverse_quantity o.limit_price (add_u128 o.amount o.max_gas_token_0) true
      else (do
        t ← inverse_quantity o.limit_price o.amount true
        returns (add_u128 t o.max_gas_token_0))

  -- `assert_eq!` on the token.
  unfoldable pub can_support_order :
      LiveState
      → RawPoolOrder
      → UserOrderPoolInfo
      → Outcome (Result PendingUserAction UserAccountVerificationError)
  unfolding fetch_amount_in supports
  can_support_order l o info =
      if o.token_in == l.token
      then (do amount_in ← fetch_amount_in o; returns (supports l o info amount_in))
      else panics

  -- From the live state on.
  unfoldable pub pay_for :
      UserAccounts
      → LiveState
      → RawPoolOrder
      → UserOrderPoolInfo
      → List ℕ
      → Outcome (UserAccounts × Verified)
  unfolding can_support_order insert_pending_user_action
  pay_for s l o info conflicts = do
    support ← can_support_order l o info
    elim support [
      | ok action ↦ (do
        r ← insert_pending_user_action s o.from action
        returns (r.0, record { is_currently_valid = none; invalidates = r.1 ++ conflicts }))
      | err e ↦ returns (s, record { is_currently_valid = some e; invalidates = conflicts })
    ]

  unfoldable pub verify_order :
      StateFetchUtils
      → UserAccounts
      → RawPoolOrder
      → UserOrderPoolInfo
      → ℕ
      → Outcome (UserAccounts × Result Verified UserAccountVerificationError)
  unfolding respend_allowed some_at_most cancel_each get_live_state_for_order pay_for hashes
  verify_order u s o info now = elim (respend_allowed u o now o.respend) [
    | err e ↦ returns (s, err e)
    | ok _ ↦
        let conflicts = hashes (respend_conflicts s o.from o.respend) in
        if o.has_hook
        then returns (s, err non_empty_hook)
        else if some_at_most o.order_hash conflicts
        then returns (s, err (duplicate_nonce o.order_hash))
        else (let s' = cancel_each s o.from conflicts in
            elim (get_live_state_for_order u s' o.from info.token (validation_priority o)) [
              | err e ↦ returns (s', err (could_not_fetch e))
              | ok (s'', l) ↦ (do r ← pay_for s'' l o info conflicts; returns (r.0, ok r.1))
            ])
  ]
