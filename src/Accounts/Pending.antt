-- ===== src/Accounts/Pending.antt =====
-- What a new pending order does to the others of its user.
use appsec_seq.Base.{
  ℕ, ◌+◌, ◌<◌, ◌≡◌, refl, arith, List, [], ◌∷◌, ◌++◌, some, returns, if◌then◌else◌, ◌==◌,
}
use appsec_seq.Base.Maps.{nat_eq, get, insert, get-insert, get-insert_self}
use appsec_seq.Prices.{u256_mod}
use appsec_seq.Accounts.{PendingUserAction, UserAccounts, BaselineState, or_no_actions}
use appsec_seq.Accounts.Live.{insert_pending_user_action, sort_actions}
use appsec_seq.Accounts.Verify.{hashes}
use appsec_seq.Accounts.Ranked.{
  IsRanked, total, total-sort_actions, total-append, sort_actions-IsRanked,
}
use appsec_seq.Accounts.Covered.{Split, fetch_all_invalidated-split}

kept_all :
    (f : PendingUserAction → ℕ) (old : List PendingUserAction) (a : PendingUserAction)
    → total f (sort_actions (old ++ a ∷ [])) ≡ f a + total f old
unfolding total
kept_all f old a = omega (arith, total-sort_actions f (old ++ a ∷ []), total-append f old (a ∷ []))

-- A new pending order of a user whose balances of its token are known and below 2 ^ 256: it is kept with the
-- others, which stay, each as often as before, from the highest priority on (top-of-block orders, then
-- partial ones, then by nonce and hash); the orders of the other users stay. Of those of the token, the ones
-- up to some place the balances pay for together; the first one after it they would not pay for too, and
-- it and all after it are reported as invalidated.
pub insert_pending_user_action_exact :
    (s : UserAccounts) (user approval balance angstrom : ℕ) (action : PendingUserAction)
    (b : BaselineState)
    → get user s.last_known_state ≡ some b
    → get action.token_address b.token_approval ≡ some approval
    → get action.token_address b.token_balance ≡ some balance
    → get action.token_address b.angstrom_balance ≡ some angstrom
    → approval < u256_mod
    → balance < u256_mod
    → angstrom < u256_mod
    → (s' : UserAccounts) × (acts : List PendingUserAction) × (p : Split action.token_address
        approval balance angstrom acts)
      × (insert_pending_user_action s user action ≡ returns (s', hashes p.dropped))
      × ((who : ℕ)
          → get who s'.pending_actions
            ≡ (if user == who then some acts else get who s.pending_actions))
      × IsRanked acts
      × ((f : PendingUserAction → ℕ)
          → total f acts ≡ f action + total f (or_no_actions (get user s.pending_actions)))
      × (s'.last_known_state ≡ s.last_known_state)
unfolding insert_pending_user_action
insert_pending_user_action_exact s user approval balance angstrom action b e p q r x y z =
    let old = or_no_actions (get user s.pending_actions) in
    let acts = sort_actions (old ++ action ∷ []) in
    let s' : UserAccounts = record s { pending_actions = insert user acts s.pending_actions } in
    let (split, found) =
      fetch_all_invalidated-split s' user action.token_address approval balance angstrom b acts e p
        q r (get-insert_self user acts s.pending_actions) x y z in
    (
      s',
      acts,
      split,
      ground (arith, found),
      (λ who. get-insert who user acts s.pending_actions),
      sort_actions-IsRanked (old ++ action ∷ []),
      (λ f. kept_all f old action),
      refl,
    )
