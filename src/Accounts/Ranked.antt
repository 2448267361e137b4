-- ===== src/Accounts/Ranked.antt =====
-- The order in which the pending orders of a user are kept.
use Prim.Native.Nat.{Ordering}
use appsec_seq.Base.{
  ℕ, ◌+◌, ◌≡◌, refl, arith, Bool, true, false, not, ◌&&◌, List, [], ◌∷◌, ◌++◌, if◌then◌else◌, ltb,
  leb, All, All-imp, Bool-cases, inl, inr,
}
use appsec_seq.Orders.{RespendAvoidanceMethod, nonce, block}
use appsec_seq.Accounts.{
  OrderValidationPriority, PendingUserAction, is_higher_priority, get_ord_for_pending_orders,
}
use appsec_seq.Accounts.Live.{insert_action, sort_actions}

-- Orders for a block come before all nonces but 0.
abbrev pub turn : RespendAvoidanceMethod → ℕ
turn (nonce n) = n
turn (block b) = 0

-- Whether the first order may be paid for before the second: a top-of-block order before any other, then a
-- partial one before an exact one, then the lower nonce, then the lower hash.
abbrev pub may_precede : OrderValidationPriority → OrderValidationPriority → Bool
may_precede p q =
    if p.is_tob && not q.is_tob
    then true
    else if q.is_tob && not p.is_tob
    then false
    else if p.is_partial && not q.is_partial
    then true
    else if q.is_partial && not p.is_partial
    then false
    else if ltb (turn p.respend) (turn q.respend)
    then true
    else if ltb (turn q.respend) (turn p.respend)
    then false
    else leb p.order_hash q.order_hash

may_precede_trans :
    (p q r : OrderValidationPriority)
    → may_precede p q ≡ true
    → may_precede q r ≡ true
    → may_precede p r ≡ true
may_precede_trans p q r e f = ground arith

-- Each order may precede all orders after it.
abbrev pub IsRanked : List PendingUserAction → Type 0
IsRanked [] = Unit
IsRanked (a ∷ acts) =
    All (λ b. may_precede a.order_priority b.order_priority ≡ true) acts × IsRanked acts

abbrev is_gt : Ordering → Bool
is_gt Ordering.gt = true
is_gt Ordering.eq = false
is_gt Ordering.lt = false

higher-may_precede :
    (p q : OrderValidationPriority) → is_gt (is_higher_priority p q) ≡ true → may_precede p q ≡ true
unfolding is_higher_priority get_ord_for_pending_orders
higher-may_precede p q e = ground arith

lower-may_precede :
    (p q : OrderValidationPriority)
    → is_gt (is_higher_priority p q) ≡ false
    → may_precede q p ≡ true
unfolding is_higher_priority get_ord_for_pending_orders
lower-may_precede p q e = ground arith

-- The sum of a share of each order.
unfoldable pub total : (PendingUserAction → ℕ) → List PendingUserAction → ℕ
total f [] = 0
total f (a ∷ acts) = f a + total f acts

insert_action-cases :
    (a b : PendingUserAction) (bs : List PendingUserAction)
    → insert_action a (b ∷ bs) ≡ (
        if is_gt (is_higher_priority b.order_priority a.order_priority)
        then b ∷ insert_action a bs
        else a ∷ b ∷ bs)
unfolding insert_action
insert_action-cases a b bs = ground arith

total-insert_action :
    (f : PendingUserAction → ℕ) (a : PendingUserAction) (bs : List PendingUserAction)
    → total f (insert_action a bs) ≡ f a + total f bs
unfolding total insert_action
total-insert_action f a [] = refl
total-insert_action f a (b ∷ bs) =
    ground (arith, insert_action-cases a b bs, total-insert_action f a bs)

pub total-sort_actions :
    (f : PendingUserAction → ℕ) (acts : List PendingUserAction)
    → total f (sort_actions acts) ≡ total f acts
unfolding total sort_actions
total-sort_actions f [] = refl
total-sort_actions f (a ∷ acts) =
    omega (arith, total-insert_action f a (sort_actions acts), total-sort_actions f acts)

pub total-append :
    (f : PendingUserAction → ℕ) (xs ys : List PendingUserAction)
    → total f (xs ++ ys) ≡ total f xs + total f ys
unfolding total
total-append f [] ys = omega arith
total-append f (x ∷ xs) ys = omega (arith, total-append f xs ys)

abbrev AllAfter : PendingUserAction → List PendingUserAction → Type 0
AllAfter a acts = All (λ b. may_precede a.order_priority b.order_priority ≡ true) acts

insert_action-all :
    (c a : PendingUserAction) (bs : List PendingUserAction)
    → may_precede c.order_priority a.order_priority ≡ true
    → AllAfter c bs
    → AllAfter c (insert_action a bs)
unfolding insert_action
insert_action-all c a [] m h = (m, tt)
insert_action-all c a (b ∷ bs) m h =
    rw (insert_action-cases a b bs)
      (elim (Bool-cases (is_gt (is_higher_priority b.order_priority a.order_priority))) [
        | inl t ↦ rw t (h.0, insert_action-all c a bs m h.1)
        | inr f ↦ rw f (m, h)
      ])

insert_action-IsRanked :
    (a : PendingUserAction) (bs : List PendingUserAction)
    → IsRanked bs
    → IsRanked (insert_action a bs)
unfolding insert_action
insert_action-IsRanked a [] r = (tt, tt)
insert_action-IsRanked a (b ∷ bs) r =
    rw (insert_action-cases a b bs)
      (elim (Bool-cases (is_gt (is_higher_priority b.order_priority a.order_priority))) [
        | inl t ↦
            let first = higher-may_precede b.order_priority a.order_priority t in
            rw t (insert_action-all b a bs first r.0, insert_action-IsRanked a bs r.1)
        | inr f ↦
            let first = lower-may_precede b.order_priority a.order_priority f in
            rw f (
              (
                first,
                All-imp bs
                    (λ x m.
                      may_precede_trans a.order_priority b.order_priority x.order_priority first m)
                    r.0,
              ),
              r,
            )
      ])

pub sort_actions-IsRanked : (acts : List PendingUserAction) → IsRanked (sort_actions acts)
unfolding sort_actions
sort_actions-IsRanked [] = tt
sort_actions-IsRanked (a ∷ acts) =
    insert_action-IsRanked a (sort_actions acts) (sort_actions-IsRanked acts)
