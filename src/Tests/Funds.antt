-- ===== src/Tests/Funds.antt =====
-- Runs of the accounts of the users.
use appsec_seq.Base.{
  ℕ, ◌≡◌, ◌+◌, List, ◌-◌, err, leb, if◌then◌else◌, refl, arith, true, false, not, ◌&&◌, ◌==◌, [],
  ◌∷◌, none, some, ok, returns,
}
use appsec_seq.Base.Maps.{nat_eq, get}
use appsec_seq.Orders.{nonce, insufficient_balance, UserOrderPoolInfo}
use appsec_seq.Accounts.{
  OrderValidationPriority, PendingUserAction, BaselineState, UserAccounts, LiveState, or_no_actions,
  cancel_order, RawPoolOrder,
}
use appsec_seq.Accounts.Live.{StateFetchUtils, insert_pending_user_action, get_live_state_for_order}
use appsec_seq.Accounts.Verify.{hashes, supports, action_for}
use appsec_seq.Accounts.Covered.{Split}
use appsec_seq.Accounts.Pending.{insert_pending_user_action_exact}
use appsec_seq.Accounts.Ranked.{IsRanked, total}
use appsec_seq.Accounts.Respend.{is_pending, cancel_order_exact}
use appsec_seq.Accounts.Internal.{live_state-internal}

abbrev info : UserOrderPoolInfo
info = record { token = 3; is_bid = true; pool_id = 1 }

abbrev rank : ℕ → ℕ → OrderValidationPriority
rank h n = record { order_hash = h; is_tob = false; is_partial = false; respend = nonce n }

-- An order of the hash and the nonce that spends an amount of the token 3.
abbrev spends : ℕ → ℕ → ℕ → PendingUserAction
spends h n amount = record {
  order_priority = rank h n;
  token_address = 3;
  token_delta = amount;
  token_approval = amount;
  angstrom_delta = 0;
  pool_info = info;
}

-- The user 7 has 100 of the token 3, and two orders for 60 each.
abbrev base_100 : BaselineState
base_100 = record {
  token_approval = (3, 100) ∷ [];
  token_balance = (3, 100) ∷ [];
  angstrom_balance = (3, 100) ∷ [];
}

abbrev two_pending : UserAccounts
two_pending = record {
  pending_actions = (7, spends 5 1 60 ∷ spends 6 2 60 ∷ []) ∷ [];
  last_known_state = (7, base_100) ∷ [];
}

user_7 : get 7 two_pending.last_known_state ≡ some base_100
unfolding get
user_7 = refl

has_100 : get 3 base_100.token_balance ≡ some 100
unfolding get
has_100 = refl

-- An order of a lower nonce comes in and displaces the one of nonce 2.
abbrev one_pending : UserAccounts
one_pending = record {
  pending_actions = (7, spends 6 2 60 ∷ []) ∷ [];
  last_known_state = (7, base_100) ∷ [];
}

insert_pending_user_action_exact_example :
    (s' : UserAccounts) × (acts : List PendingUserAction) × (p : Split 3 100 100 100 acts)
    × (insert_pending_user_action one_pending 7 (spends 5 1 60) ≡ returns (s', hashes p.dropped))
    × ((who : ℕ)
        → get who s'.pending_actions
          ≡ (if 7 == who then some acts else get who one_pending.pending_actions))
    × IsRanked acts
    × ((f : PendingUserAction → ℕ)
        → total f acts
          ≡ f (spends 5 1 60) + total f (or_no_actions (get 7 one_pending.pending_actions)))
    × (s'.last_known_state ≡ one_pending.last_known_state)
insert_pending_user_action_exact_example =
    insert_pending_user_action_exact one_pending 7 100 100 100 (spends 5 1 60) base_100 user_7
      has_100 has_100 has_100 (omega arith) (omega arith) (omega arith)

cancel_order_exact_example :
    let r = cancel_order two_pending 7 5 in
    (r.1 ≡ is_pending two_pending 7 5)
    × (is_pending r.0 7 6 ≡ (not (7 == 7 && 5 == 6) && is_pending two_pending 7 6))
    × (r.0.last_known_state ≡ two_pending.last_known_state)
cancel_order_exact_example = cancel_order_exact two_pending 7 5 7 6

abbrev chain : StateFetchUtils
chain = record {
  is_valid_nonce = λ user n. ok true;
  fetch_approval_balance_for_token = λ user token. ok (some 90);
  fetch_balance_for_token = λ user token. ok 80;
}

abbrev nobody : UserAccounts
nobody = record { pending_actions = []; last_known_state = [] }

unknown_user : get 7 nobody.last_known_state ≡ none
unfolding get
unknown_user = refl

no_orders : get 7 nobody.pending_actions ≡ none
unfolding get
no_orders = refl

-- It spends from inside Angstrom.
abbrev inside_5 : RawPoolOrder
inside_5 = record {
  order_hash = 5;
  from = 7;
  token_in = 3;
  use_internal = true;
  is_tob = false;
  is_partial = false;
  is_bid = true;
  exact_in = true;
  amount = 60;
  max_gas_token_0 = 0;
  limit_price = 1;
  respend = nonce 1;
  has_hook = false;
}

live_state-internal_example :
    (s' : UserAccounts) × (l : LiveState) × (get_live_state_for_order chain nobody 7 3 (rank 5 1)
      ≡ ok (s', l))
    × (l.balance ≡ 80)
    × (l.angstrom_balance ≡ 80)
    × (l.approval ≡ 90)
    × (supports l inside_5 info 60 ≡ (
        if leb 60 80
        then ok (action_for inside_5 info 0 60 60)
        else err (insufficient_balance 5 3 (60 - 80))))
live_state-internal_example =
    live_state-internal chain nobody 7 3 90 80 (rank 5 1) inside_5 info 60 unknown_user no_orders
      refl refl refl
