-- ===== src/OrderPool/Validator/Orders.antt =====
-- The orders that the validator holds and those that it answers.
use appsec_seq.Base.{
  ℕ, suc, zero, ◌+◌, ◌≡◌, ◌≢◌, refl, Bool, true, false, List, [], ◌∷◌, ◌++◌, Option, none, some,
  returns, arith, Option-cases, inl, inr, ◌⊎◌,
}
use appsec_seq.OrderPool.Validator.{
  Job, OrderValidator, clearing_for_new_block, waiting_for_storage_cleanup, inform_state,
  regular_processing, pending, finished, ready, validated_order, on_new_block,
  notify_validation_on_changes, validate_order, validate_each, take_at, poll_futures, poll_next,
  is_transitioning,
}

-- A weight counts orders: with weight 1 for one order and 0 for all others it counts that one.
unfoldable pub weigh : (Job → ℕ) → List Job → ℕ
weigh f [] = 0
weigh f (j ∷ js) = f j + weigh f js

-- The orders that wait or whose future remains.
unfoldable pub held : (Job → ℕ) → OrderValidator → ℕ
unfolding weigh
held f (clearing_for_new_block b w c a r) = weigh f w + weigh f r
held f (waiting_for_storage_cleanup w) = weigh f w
held f (inform_state w b c a) = weigh f w
held f (regular_processing r) = weigh f r

weigh-append : (f : Job → ℕ) (xs ys : List Job) → weigh f (xs ++ ys) ≡ weigh f xs + weigh f ys
unfolding weigh
weigh-append f [] ys = omega arith
weigh-append f (x ∷ xs) ys = ground (arith, weigh-append f xs ys)

-- The order whose future is taken.
pub weigh-take_at :
    (f : Job → ℕ) (n : ℕ) (js : List Job) (k : Job) (ks : List Job)
    → take_at n js ≡ some (k, ks)
    → weigh f js ≡ f k + weigh f ks
unfolding take_at weigh
weigh-take_at f n [] k ks e = absurd (ground arith)
weigh-take_at f zero (j ∷ js) k ks e = ground arith
weigh-take_at f (suc n) (j ∷ js) k ks e = elim (Option-cases (take_at n js)) [
  | inl none_left ↦ absurd (ground arith)
  | inr ((i, is), taken) ↦ ground (arith, weigh-take_at f n js i is taken)
]

pub held-validate_order :
    (f : Job → ℕ) (v : OrderValidator) (j : Job) → held f (validate_order v j) ≡ held f v + f j
unfolding held validate_order weigh
held-validate_order f (clearing_for_new_block b w c a r) j =
    ground (arith, weigh-append f w (j ∷ []))
held-validate_order f (waiting_for_storage_cleanup w) j = ground (arith, weigh-append f w (j ∷ []))
held-validate_order f (inform_state w b c a) j = ground (arith, weigh-append f w (j ∷ []))
held-validate_order f (regular_processing r) j = ground (arith, weigh-append f r (j ∷ []))

held_none : (f : Job → ℕ) → held f (regular_processing []) ≡ 0
unfolding held weigh
held_none f = refl

pub held-validate_each :
    (f : Job → ℕ) (v : OrderValidator) (js : List Job)
    → held f (validate_each v js) ≡ held f v + weigh f js
unfolding validate_each weigh
held-validate_each f v [] = omega arith
held-validate_each f v (j ∷ js) =
    ground (arith, held-validate_each f (validate_order v j) js, held-validate_order f v j)

pub held-on_new_block :
    (f : Job → ℕ) (v u : OrderValidator) (block : ℕ) (completed addresses : List ℕ)
    → on_new_block v block completed addresses ≡ returns u
    → held f u ≡ held f v
unfolding on_new_block held weigh is_transitioning
held-on_new_block f v u block completed addresses e = ground arith

pub held-notify :
    (f : Job → ℕ) (v : OrderValidator) (block : ℕ) (orders addresses : List ℕ)
    → held f (notify_validation_on_changes v block orders addresses) ≡ held f v
unfolding held notify_validation_on_changes
held-notify f v block orders addresses = ground arith

module _ {Results : Type 0} where
  -- The order of the future at the position that is woken.
  unfoldable pub answered_of : Option (ℕ × Results) → List Job → List Job
  unfolding take_at
  answered_of none js = []
  answered_of (some (n, res)) js = elim (take_at n js) [ none ↦ [] | some (k, ks) ↦ k ∷ [] ]

  -- The order that a poll answers.
  unfoldable pub answered : Option (ℕ × Results) → OrderValidator → List Job
  unfolding answered_of
  answered woken (regular_processing r) = answered_of woken r
  answered woken (clearing_for_new_block b w c a r) = answered_of woken r
  answered woken (waiting_for_storage_cleanup w) = []
  answered woken (inform_state w b c a) = []

  weigh-poll_futures :
      (f : Job → ℕ) (woken : Option (ℕ × Results)) (js : List Job)
      → weigh f js ≡ weigh f (answered_of woken js) + weigh f (poll_futures woken js).0
  unfolding answered_of poll_futures weigh take_at
  weigh-poll_futures f none [] = refl
  weigh-poll_futures f none (j ∷ js) = omega arith
  weigh-poll_futures f (some (n, res)) [] = refl
  weigh-poll_futures f (some (n, res)) (j ∷ js) = elim (Option-cases (take_at n (j ∷ js))) [
    | inl none_left ↦ ground arith
    | inr ((k, ks), taken) ↦ ground (arith, weigh-take_at f n (j ∷ js) k ks taken)
  ]

  -- The futures are at their end only if none remains.
  weigh-finished :
      (f : Job → ℕ) (woken : Option (ℕ × Results)) (js : List Job)
      → (poll_futures woken js).1 ≡ finished
      → weigh f js ≡ 0
  unfolding poll_futures weigh
  weigh-finished f woken [] e = refl
  weigh-finished f none (j ∷ js) e = absurd (ground arith)
  weigh-finished f (some (n, res)) (j ∷ js) e = absurd (ground arith)

  pub held-poll_next :
      (f : Job → ℕ) (woken : Option (ℕ × Results)) (informed : Bool) (v : OrderValidator)
      → held f v ≡ weigh f (answered woken v) + held f (poll_next woken informed v).0
  unfolding held poll_next answered weigh
  held-poll_next f woken informed (regular_processing r) = weigh-poll_futures f woken r
  held-poll_next f woken informed (waiting_for_storage_cleanup w) = omega arith
  held-poll_next f woken true (inform_state w b c a) =
      ground (arith, held-validate_each f (regular_processing []) w, held_none f)
  held-poll_next f woken false (inform_state w b c a) = omega arith
  held-poll_next f woken informed (clearing_for_new_block b w c a r) =
      ground (arith, weigh-poll_futures f woken r, weigh-finished f woken r)

  poll_futures-answered :
      (woken : Option (ℕ × Results)) (js : List Job)
      → (answered_of woken js ≡ []) × ((poll_futures woken js).1 ≡ pending)
        ⊎ (answered_of woken js ≡ []) × ((poll_futures woken js).1 ≡ finished)
        ⊎ (j : Job) × (res : Results) × (answered_of woken js ≡ j ∷ [])
          × ((poll_futures woken js).1 ≡ ready res)
  unfolding poll_futures answered_of
  poll_futures-answered none [] = inr (inl (refl, refl))
  poll_futures-answered (some (n, res)) [] = inr (inl (ground arith, refl))
  poll_futures-answered none (j ∷ js) = inl (refl, refl)
  poll_futures-answered (some (n, res)) (j ∷ js) = elim (Option-cases (take_at n (j ∷ js))) [
    | inl none_left ↦ inl (ground arith, ground arith)
    | inr ((k, ks), taken) ↦ inr (inr (k, res, ground arith, ground arith))
  ]

  -- A poll gives the results of a validation and answers one order, or it gives something else and
  -- answers none.
  pub poll_next-answered :
      (woken : Option (ℕ × Results)) (informed : Bool) (v : OrderValidator)
      → (answered woken v ≡ [])
          × ((res : Results) → (poll_next woken informed v).1 ≢ ready (validated_order res))
        ⊎ (j : Job) × (res : Results) × (answered woken v ≡ j ∷ [])
          × ((poll_next woken informed v).1 ≡ ready (validated_order res))
  unfolding poll_next answered
  poll_next-answered woken informed (waiting_for_storage_cleanup w) = inl (refl, λ res e. cc)
  poll_next-answered woken true (inform_state w b c a) = inl (refl, λ res e. cc)
  poll_next-answered woken false (inform_state w b c a) = inl (refl, λ res e. cc)
  poll_next-answered woken informed (regular_processing r) = elim (poll_futures-answered woken r) [
    | inl (no_order, item) ↦ inl (no_order, λ res e. absurd (ground arith))
    | inr (inl (no_order, item)) ↦ inl (no_order, λ res e. absurd (ground arith))
    | inr (inr (j, res, one, item)) ↦ inr (j, res, one, ground arith)
  ]
  poll_next-answered woken informed (clearing_for_new_block b w c a r) =
      elim (poll_futures-answered woken r) [
        | inl (no_order, item) ↦ inl (no_order, λ res e. absurd (ground arith))
        | inr (inl (no_order, item)) ↦ inl (no_order, λ res e. absurd (ground arith))
        | inr (inr (j, res, one, item)) ↦ inr (j, res, one, ground arith)
      ]

-- The calls from one state to another, with the orders that were handed in and those that were
-- answered, the last ones first.
pub data Reach (Results : Type 0) (v : OrderValidator)
    : List Job → List Job → OrderValidator → Type 0 where
  here : Reach Results v [] [] v
  submits :
      {s a : List Job} {u : OrderValidator} (j : Job)
      → Reach Results v s a u
      → Reach Results v (j ∷ s) a (validate_order u j)
  announces :
      {s a : List Job} {u t : OrderValidator} (block : ℕ) (completed addresses : List ℕ)
      → on_new_block u block completed addresses ≡ returns t
      → Reach Results v s a u
      → Reach Results v s a t
  notifies :
      {s a : List Job} {u : OrderValidator} (block : ℕ) (orders addresses : List ℕ)
      → Reach Results v s a u
      → Reach Results v s a (notify_validation_on_changes u block orders addresses)
  polls :
      {s a : List Job} {u : OrderValidator} (woken : Option (ℕ × Results)) (informed : Bool)
      → Reach Results v s a u
      → Reach Results v s (answered woken u ++ a) (poll_next woken informed u).0

-- Over any sequence of calls, across any number of new blocks, each order is counted once: as often
-- as it was held at first or handed in, it was answered or is still held.
pub no_order_lost :
    {Results : Type 0} {v u : OrderValidator} {s a : List Job} (f : Job → ℕ)
    → Reach Results v s a u
    → held f v + weigh f s ≡ weigh f a + held f u
unfolding weigh
no_order_lost f here = omega arith
no_order_lost f (submits {u = u} j r) = ground (arith, no_order_lost f r, held-validate_order f u j)
no_order_lost f (announces {u = u} {t = t} block completed addresses e r) =
    ground (arith, no_order_lost f r, held-on_new_block f u t block completed addresses e)
no_order_lost f (notifies {u = u} block orders addresses r) =
    ground (arith, no_order_lost f r, held-notify f u block orders addresses)
no_order_lost f (polls {a = a} {u = u} woken informed r) = ground (
  arith,
  no_order_lost f r,
  held-poll_next f woken informed u,
  weigh-append f (answered woken u) a,
)
