-- ===== src/OrderPool/Indexer/Served.antt =====
-- The calls of the order indexer as a step relation, and what holds after any number of them.
use appsec_seq.Base.{
  ℕ, ◌+◌, ◌≡◌, refl, Bool, List, [], ◌∷◌, ◌++◌, Option, some, returns, arith, inl, inr, ◌⊎◌,
  >>=-eq-returns,
}
use appsec_seq.Base.Maps.{nat_eq, remove, contains_key, get-remove}
use appsec_seq.Orders.{AllOrders, order_hash}
use appsec_seq.OrderPool.Storage
use appsec_seq.OrderPool.Storage.{OrderStorage, OrderSizes}
use appsec_seq.OrderPool.Tracker.{is_validating}
use appsec_seq.OrderPool.Validator.{
  Job, OrderValidator, OrderOrigin, Poll, pending, finished, OrderValidatorRes, poll_next, ready,
  on_new_block, validated_order, ensure_clear_for_transition, transition_complete,
}
use appsec_seq.OrderPool.Validator.Orders.{
  weigh, held, held-on_new_block, held-poll_next, poll_next-answered, answered,
}
use appsec_seq.OrderPool.Indexer.{
  OrderIndexer, OrderValidationResults, PoolInnerEvent, new_order, cancel_order, CancelOrderRequest,
  reorg, unfill,
}
use appsec_seq.OrderPool.Indexer.Blocks.{
  handle_validated_order, react, poll, start_new_block_processing, finish_new_block_processing,
  finalized_block, new_pool, remove_pool,
}
use appsec_seq.OrderPool.Indexer.Marks.{
  finish-Keeps, handle-marks, result_hash, finalized_block-Keeps, remove_pool-Keeps, new_pool-Keeps,
}
use appsec_seq.OrderPool.Indexer.Jobs.{
  IsServed, Keeps, Keeps-IsServed, of_hash, new_order-IsServed, cancel_order-Keeps, unfill-Keeps,
}

-- What a poll of the validator gives.
Poll-cases :
    {Results : Type 0} (p : Poll (OrderValidatorRes Results))
    → (p ≡ pending)
      ⊎ (p ≡ finished)
      ⊎ (p ≡ ready transition_complete)
      ⊎ ((res : Results) × (p ≡ ready (validated_order res)))
      ⊎ ((b : ℕ) × (c : List ℕ) × (a : List ℕ) × (p ≡ ready (ensure_clear_for_transition b c a)))
Poll-cases pending = inl refl
Poll-cases finished = inr (inl refl)
Poll-cases (ready transition_complete) = inr (inr (inl refl))
Poll-cases (ready (validated_order res)) = inr (inr (inr (inl (res, refl))))
Poll-cases (ready (ensure_clear_for_transition b c a)) = inr (inr (inr (inr (b, c, a, refl))))

-- A result that a poll gives is about the order whose future is done.
abbrev pub IsHonest : Option (ℕ × OrderValidationResults) → Bool → OrderValidator → Type 0
IsHonest woken informed v =
    (j : Job) (res : OrderValidationResults)
    → answered woken v ≡ j ∷ []
    → (poll_next woken informed v).1 ≡ ready (validated_order res)
    → result_hash res ≡ some (order_hash j.1)

poll_ready :
    (now : ℕ) (z : OrderSizes) (x y : OrderIndexer) (woken : Option (ℕ × OrderValidationResults))
    (informed : Bool) (evs : List PoolInnerEvent) (r : OrderValidatorRes OrderValidationResults)
    → (poll_next woken informed x.validator).1 ≡ ready r
    → poll now z x ((woken, informed) ∷ []) ≡ returns (y, evs)
    → (es : List PoolInnerEvent) × (react now z
          (record x { validator = (poll_next woken informed x.validator).0 })
          r
        ≡ returns (y, es))
unfolding poll
poll_ready now z x y woken informed evs r item e =
    let (one, reacted, out) =
      >>=-eq-returns {B = OrderIndexer × List PoolInnerEvent}
        (react now z (record x { validator = (poll_next woken informed x.validator).0 }) r)
        (λ one. returns (one.0, one.1 ++ [])) {b = (y, evs)} (ground arith) in
    (one.1, ground arith)

-- An answer: the hash is marked no more, and only its order is held no more.
answer-IsServed :
    (x y : OrderIndexer) (v : OrderValidator) (j : Job)
    → ((f : Job → ℕ) → held f x.validator ≡ f j + held f v)
    → y.order_tracker.validating ≡ remove (order_hash j.1) x.order_tracker.validating
    → y.validator ≡ v
    → IsServed x
    → IsServed y
unfolding is_validating contains_key of_hash
answer-IsServed x y v j count marks jobs w h marked =
    ground (arith, w h, count (of_hash h), get-remove h (order_hash j.1) x.order_tracker.validating)

poll_idle-IsServed :
    (x y : OrderIndexer) (woken : Option (ℕ × OrderValidationResults)) (informed : Bool)
    → answered woken x.validator ≡ []
    → Keeps (record x { validator = (poll_next woken informed x.validator).0 }) y
    → IsServed x
    → IsServed y
unfolding weigh
poll_idle-IsServed x y woken informed no_order k = Keeps-IsServed x y (record {
  marks = k.marks;
  jobs = λ f. ground (arith, k.jobs f, held-poll_next f woken informed x.validator);
})

poll-IsServed :
    (now : ℕ) (z : OrderSizes) (x y : OrderIndexer) (woken : Option (ℕ × OrderValidationResults))
    (informed : Bool) (evs : List PoolInnerEvent)
    → IsHonest woken informed x.validator
    → poll now z x ((woken, informed) ∷ []) ≡ returns (y, evs)
    → IsServed x
    → IsServed y
unfolding poll react weigh
poll-IsServed now z x y woken informed evs honest e w =
    let v : OrderValidator = (poll_next woken informed x.validator).0 in
    let x' : OrderIndexer = record x { validator = v } in
    elim (poll_next-answered woken informed x.validator) [
      | inr (j, res, one, item) ↦
          let (es, reacted) =
            poll_ready now z x y woken informed evs (validated_order res) item e in
          let (r, handled, out) = >>=-eq-returns (handle_validated_order z x' res) _ reacted in
          let m = handle-marks z x' r.0 res (order_hash j.1) r.1 (honest j res one item) handled in
          answer-IsServed x y v j (λ f. ground (arith, held-poll_next f woken informed x.validator))
            (ground (arith, m)) (ground (arith, m)) w
      | inl (no_order, other) ↦ elim (Poll-cases (poll_next woken informed x.validator).1) [
        | inl idle ↦
            poll_idle-IsServed x y woken informed no_order
              (record { marks = ground arith; jobs = λ f. ground arith }) w
        | inr (inl ended) ↦
            poll_idle-IsServed x y woken informed no_order
              (record { marks = ground arith; jobs = λ f. ground arith }) w
        | inr (inr (inl moved)) ↦
            let (es, reacted) =
              poll_ready now z x y woken informed evs transition_complete moved e in
            poll_idle-IsServed x y woken informed no_order
              (record { marks = ground arith; jobs = λ f. ground arith }) w
        | inr (inr (inr (inl (res, item)))) ↦ absurd (other res item)
        | inr (inr (inr (inr (b, c, a, clear)))) ↦
            let (es, reacted) =
              poll_ready now z x y woken informed evs (ensure_clear_for_transition b c a) clear e in
            let (u, finish, out) =
              >>=-eq-returns (finish_new_block_processing now x' b c a) _ reacted in
            let k = finish-Keeps now x' u b c a finish in
            poll_idle-IsServed x y woken informed no_order
              (record { marks = ground (arith, k.marks); jobs = λ f. ground (arith, k.jobs f) }) w
      ]
    ]

-- The calls from one state to another. A poll that panics has no state after it.
pub data Steps (x : OrderIndexer) : OrderIndexer → Type 0 where
  here : Steps x x
  comes_in :
      {y : OrderIndexer} (peer sub : Option ℕ) (origin : OrderOrigin) (order : AllOrders)
      → Steps x y
      → Steps x (new_order y peer origin order sub)
  cancels :
      {y : OrderIndexer} (now : ℕ) (signed : Bool) (req : CancelOrderRequest)
      → Steps x y
      → Steps x (cancel_order now signed y req).0
  reorgs : {y : OrderIndexer} (hs : List ℕ) → Steps x y → Steps x (reorg y hs)
  starts :
      {y u : OrderIndexer} (block : ℕ) (completed addresses : List ℕ)
      → start_new_block_processing y block completed addresses ≡ returns u
      → Steps x y
      → Steps x u
  polls :
      {y u : OrderIndexer} (now : ℕ) (z : OrderSizes) (woken : Option (ℕ × OrderValidationResults))
      (informed : Bool) (evs : List PoolInnerEvent)
      → IsHonest woken informed y.validator
      → poll now z y ((woken, informed) ∷ []) ≡ returns (u, evs)
      → Steps x y
      → Steps x u
  finalizes : {y : OrderIndexer} (block : ℕ) → Steps x y → Steps x (finalized_block y block)
  adds : {y u : OrderIndexer} (pool : ℕ) → new_pool y pool ≡ returns u → Steps x y → Steps x u
  removes : {y : OrderIndexer} (pool : ℕ) → Steps x y → Steps x (remove_pool y pool)

start-IsServed :
    (x y : OrderIndexer) (block : ℕ) (completed addresses : List ℕ)
    → start_new_block_processing x block completed addresses ≡ returns y
    → IsServed x
    → IsServed y
unfolding start_new_block_processing
start-IsServed x y block completed addresses e =
    let (v, moved, out) =
      >>=-eq-returns (on_new_block x.validator block completed addresses)
        (λ v. returns (record x { validator = v })) e in
    Keeps-IsServed x y (record {
      marks = ground arith;
      jobs = λ f. ground (arith, held-on_new_block f x.validator v block completed addresses moved);
    })

reorg-IsServed : (x : OrderIndexer) (hs : List ℕ) → IsServed x → IsServed (reorg x hs)
unfolding reorg
reorg-IsServed x hs =
    let s = Storage.reorg x.order_storage hs in
    let x' : OrderIndexer = record x { order_storage = s.0 } in
    let k = unfill-Keeps x' s.1 in
    Keeps-IsServed x (unfill x' s.1) (record { marks = k.marks; jobs = k.jobs })

-- After any sequence of calls, across blocks and reorgs, where each result is about the order whose
-- future is done: a hash that is marked as under validation is that of an order that the validator
-- still holds, if that was so at first. So no hash stays marked, and refused, without an answer to come.
pub steps-IsServed : {x y : OrderIndexer} → Steps x y → IsServed x → IsServed y
steps-IsServed here w = w
steps-IsServed (comes_in {y = y} peer sub origin order s) w =
    new_order-IsServed y peer sub origin order (steps-IsServed s w)
steps-IsServed (cancels {y = y} now signed req s) w =
    Keeps-IsServed y (cancel_order now signed y req).0 (cancel_order-Keeps now signed y req)
      (steps-IsServed s w)
steps-IsServed (reorgs {y = y} hs s) w = reorg-IsServed y hs (steps-IsServed s w)
steps-IsServed (starts {y = y} {u = u} block completed addresses e s) w =
    start-IsServed y u block completed addresses e (steps-IsServed s w)
steps-IsServed (polls {y = y} {u = u} now z woken informed evs honest e s) w =
    poll-IsServed now z y u woken informed evs honest e (steps-IsServed s w)
steps-IsServed (finalizes {y = y} block s) w =
    Keeps-IsServed y (finalized_block y block) (finalized_block-Keeps y block) (steps-IsServed s w)
steps-IsServed (adds {y = y} {u = u} pool e s) w =
    Keeps-IsServed y u (new_pool-Keeps y u pool e) (steps-IsServed s w)
steps-IsServed (removes {y = y} pool s) w =
    Keeps-IsServed y (remove_pool y pool) (remove_pool-Keeps y pool) (steps-IsServed s w)
