-- ===== src/Accounts/Respend.antt =====
-- The orders that one order displaces.
use appsec_seq.Base.{
  ℕ, ◌≡◌, refl, arith, Bool, not, ◌&&◌, List, [], ◌∷◌, ◌==◌, ==_iff, Option-cases, inl, inr, ap,
  ◌∙◌,
}
use appsec_seq.Base.Maps.{nat_eq, get, get-insert, get-insert_self}
use appsec_seq.Orders.{RespendAvoidanceMethod, nonce, block}
use appsec_seq.Accounts.{
  PendingUserAction, UserAccounts, or_no_actions, without, has_order, cancel_order, of_respend,
  respend_conflicts,
}
use appsec_seq.Accounts.Verify.{hashes, cancel_each}

-- Whether an order of a user is pending.
abbrev pub is_pending : UserAccounts → ℕ → ℕ → Bool
is_pending s user h = has_order h (or_no_actions (get user s.pending_actions))

has_order-without :
    (h k : ℕ) (acts : List PendingUserAction)
    → has_order h (without (k ∷ []) acts) ≡ (not (k == h) && has_order h acts)
unfolding has_order without
has_order-without h k [] = ground arith
has_order-without h k (a ∷ acts) = ground (arith, has_order-without h k acts)

-- A cancellation succeeds exactly when the user has the order pending. It is pending no more, and every
-- other order, of the user or of another one, is pending as before.
pub cancel_order_exact :
    (s : UserAccounts) (user h who k : ℕ)
    → let r = cancel_order s user h in
      (r.1 ≡ is_pending s user h)
      × (is_pending r.0 who k ≡ (not (user == who && h == k) && is_pending s who k))
      × (r.0.last_known_state ≡ s.last_known_state)
unfolding cancel_order has_order
cancel_order_exact s user h who k = elim (Option-cases (get user s.pending_actions)) [
  | inl none_there ↦ ground (arith, ==_iff user who)
  | inr (acts, e) ↦ ground (
    arith,
    ==_iff user who,
    get-insert who user (without (h ∷ []) acts) s.pending_actions,
    has_order-without k h acts,
  )
]

-- The orders of a user once some are cancelled.
without_each : List ℕ → List PendingUserAction → List PendingUserAction
without_each [] acts = acts
without_each (h ∷ hs) acts = without_each hs (without (h ∷ []) acts)

actions-cancel_order :
    (s : UserAccounts) (user h : ℕ)
    → or_no_actions (get user (cancel_order s user h).0.pending_actions)
      ≡ without (h ∷ []) (or_no_actions (get user s.pending_actions))
unfolding cancel_order without
actions-cancel_order s user h = elim (Option-cases (get user s.pending_actions)) [
  | inl none_there ↦ ground arith
  | inr (acts, e) ↦ ground (arith, get-insert_self user (without (h ∷ []) acts) s.pending_actions)
]

actions-cancel_each :
    (s : UserAccounts) (user : ℕ) (hs : List ℕ)
    → or_no_actions (get user (cancel_each s user hs).pending_actions)
      ≡ without_each hs (or_no_actions (get user s.pending_actions))
unfolding cancel_each without_each
actions-cancel_each s user [] = refl
actions-cancel_each s user (h ∷ hs) =
    actions-cancel_each (cancel_order s user h).0 user hs
    ∙ ap (without_each hs) (actions-cancel_order s user h)

of_respend-without :
    (r : RespendAvoidanceMethod) (h : ℕ) (acts : List PendingUserAction)
    → of_respend r (without (h ∷ []) acts) ≡ without (h ∷ []) (of_respend r acts)
unfolding of_respend without
of_respend-without r h [] = refl
of_respend-without r h (a ∷ acts) = ground (arith, of_respend-without r h acts)

of_respend-without_each :
    (r : RespendAvoidanceMethod) (hs : List ℕ) (acts : List PendingUserAction)
    → of_respend r (without_each hs acts) ≡ without_each hs (of_respend r acts)
unfolding without_each
of_respend-without_each r [] acts = refl
of_respend-without_each r (h ∷ hs) acts =
    of_respend-without_each r hs (without (h ∷ []) acts)
    ∙ ap (without_each hs) (of_respend-without r h acts)

without-without :
    (h k : ℕ) (acts : List PendingUserAction)
    → without (h ∷ []) (without (k ∷ []) acts) ≡ without (k ∷ []) (without (h ∷ []) acts)
unfolding without
without-without h k [] = refl
without-without h k (a ∷ acts) = ground (arith, without-without h k acts)

without_each-without :
    (k : ℕ) (hs : List ℕ) (acts : List PendingUserAction)
    → without_each hs (without (k ∷ []) acts) ≡ without (k ∷ []) (without_each hs acts)
unfolding without_each
without_each-without k [] acts = refl
without_each-without k (h ∷ hs) acts =
    ap (without_each hs) (without-without h k acts)
    ∙ without_each-without k hs (without (h ∷ []) acts)

without-first :
    (a : PendingUserAction) (acts : List PendingUserAction)
    → without (a.order_priority.order_hash ∷ []) (a ∷ acts)
      ≡ without (a.order_priority.order_hash ∷ []) acts
unfolding without
without-first a acts =
    ground (arith, ==_iff a.order_priority.order_hash a.order_priority.order_hash)

-- Nothing is left of orders that are all cancelled.
without_each-hashes : (acts : List PendingUserAction) → without_each (hashes acts) acts ≡ []
unfolding without_each hashes without
without_each-hashes [] = refl
without_each-hashes (a ∷ acts) =
    let h = a.order_priority.order_hash in
    ap (without_each (hashes acts)) (without-first a acts)
    ∙ without_each-without h (hashes acts) acts
    ∙ ap (without (h ∷ [])) (without_each-hashes acts)

-- Once the orders of a user that share a nonce with an order are cancelled, no pending order of that user
-- shares it, whatever else the user has pending.
pub cancel_each-respend_conflicts :
    (s : UserAccounts) (user : ℕ) (r : RespendAvoidanceMethod)
    → respend_conflicts (cancel_each s user (hashes (respend_conflicts s user r))) user r ≡ []
unfolding respend_conflicts
cancel_each-respend_conflicts s user (block b) = refl
cancel_each-respend_conflicts s user (nonce n) =
    let acts = or_no_actions (get user s.pending_actions) in
    let found = of_respend (nonce n) acts in
    ap (of_respend (nonce n)) (actions-cancel_each s user (hashes found))
    ∙ of_respend-without_each (nonce n) (hashes found) acts
    ∙ without_each-hashes found
