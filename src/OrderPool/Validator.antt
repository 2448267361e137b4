-- ===== src/OrderPool/Validator.antt =====
-- angstrom-main/crates/order-pool/src/validator.rs: the orders that wait for their validation, and
-- the passage from one block to the next. A future stands for the order that it validates; which
-- future is done, and with what result, is an argument of a poll. The handle of the validation
-- service is not part of the state: no call here changes it.
pub mod Orders
pub mod Transition
use appsec_seq.Base.{
  ℕ, suc, zero, Bool, true, false, List, [], ◌∷◌, ◌++◌, Option, none, some, Outcome, returns,
  panics, if◌then◌else◌,
}
use appsec_seq.Orders.{AllOrders}

pub data OrderOrigin : Type 0 where
  local external private : OrderOrigin

abbrev pub Job : Type 0
Job = OrderOrigin × AllOrders

pub data OrderValidator : Type 0 where
  -- block number, waiting orders, completed orders, addresses, futures that remain
  clearing_for_new_block : ℕ → List Job → List ℕ → List ℕ → List Job → OrderValidator
  waiting_for_storage_cleanup : List Job → OrderValidator
  -- waiting orders, and what the service is told: the block, the orders and the addresses
  inform_state : List Job → ℕ → List ℕ → List ℕ → OrderValidator
  regular_processing : List Job → OrderValidator

pub data OrderValidatorRes (Results : Type 0) : Type 0 where
  validated_order : Results → OrderValidatorRes Results
  ensure_clear_for_transition : ℕ → List ℕ → List ℕ → OrderValidatorRes Results
  transition_complete : OrderValidatorRes Results

-- A poll that is not ready, the end of the stream, and an item.
pub data Poll (A : Type 0) : Type 0 where
  pending : Poll A
  finished : Poll A
  ready : A → Poll A

unfoldable pub new : OrderValidator
new = regular_processing []

unfoldable pub is_transitioning : OrderValidator → Bool
is_transitioning (clearing_for_new_block b w c a r) = true
is_transitioning (inform_state w b c a) = true
is_transitioning _ = false

-- `assert!` on `is_transitioning`, and `unreachable!` in every state but regular processing.
unfoldable pub on_new_block : OrderValidator → ℕ → List ℕ → List ℕ → Outcome OrderValidator
unfolding is_transitioning
on_new_block v block completed addresses = if is_transitioning v then panics else (elim v [
  | regular_processing r ↦ returns (clearing_for_new_block block [] completed addresses r)
  | clearing_for_new_block b w c a r ↦ panics
  | waiting_for_storage_cleanup w ↦ panics
  | inform_state w b c a ↦ panics
])

-- In any other state but the clean-up of the storage the call only logs.
unfoldable pub notify_validation_on_changes : OrderValidator → ℕ → List ℕ → List ℕ → OrderValidator
notify_validation_on_changes (waiting_for_storage_cleanup w) block orders addresses =
    inform_state w block orders addresses
notify_validation_on_changes (clearing_for_new_block b w c a r) block orders addresses =
    clearing_for_new_block b w c a r
notify_validation_on_changes (inform_state w b c a) block orders addresses = inform_state w b c a
notify_validation_on_changes (regular_processing r) block orders addresses = regular_processing r

unfoldable pub validate_order : OrderValidator → Job → OrderValidator
validate_order (regular_processing r) j = regular_processing (r ++ j ∷ [])
validate_order (waiting_for_storage_cleanup w) j = waiting_for_storage_cleanup (w ++ j ∷ [])
validate_order (clearing_for_new_block b w c a r) j = clearing_for_new_block b (w ++ j ∷ []) c a r
validate_order (inform_state w b c a) j = inform_state (w ++ j ∷ []) b c a

unfoldable pub validate_each : OrderValidator → List Job → OrderValidator
unfolding validate_order
validate_each v [] = v
validate_each v (j ∷ js) = validate_each (validate_order v j) js

-- The future at a position, and the others.
unfoldable pub take_at : ℕ → List Job → Option (Job × List Job)
take_at n [] = none
take_at zero (j ∷ js) = some (j, js)
take_at (suc n) (j ∷ js) =
    let rest = take_at n js in elim rest [ none ↦ none | some (k, ks) ↦ some (k, j ∷ ks) ]

module _ {Results : Type 0} where
  -- `FuturesUnordered::poll_next`: with no future it is at its end.
  unfoldable pub poll_futures : Option (ℕ × Results) → List Job → List Job × Poll Results
  unfolding take_at
  poll_futures woken [] = ([], finished)
  poll_futures none (j ∷ js) = (j ∷ js, pending)
  poll_futures (some (n, res)) (j ∷ js) = elim (take_at n (j ∷ js)) [
    | none ↦ (j ∷ js, pending)
    | some (k, ks) ↦ (ks, ready res)
  ]

  abbrev pub as_validated : Poll Results → Poll (OrderValidatorRes Results)
  as_validated pending = pending
  as_validated finished = finished
  as_validated (ready res) = ready (validated_order res)

  -- `informed` says whether the service has moved to the new block.
  unfoldable pub poll_next :
      Option (ℕ × Results)
      → Bool
      → OrderValidator
      → OrderValidator × Poll (OrderValidatorRes Results)
  unfolding poll_futures validate_each
  poll_next woken informed (regular_processing r) =
      let (r', p) = poll_futures woken r in (regular_processing r', as_validated p)
  poll_next woken informed (waiting_for_storage_cleanup w) =
      (waiting_for_storage_cleanup w, pending)
  poll_next woken informed (inform_state w b c a) =
      if informed
      then (validate_each (regular_processing []) w, ready transition_complete)
      else (inform_state w b c a, pending)
  poll_next woken informed (clearing_for_new_block b w c a r) =
      let (r', p) = poll_futures woken r in
      (elim p [
        | pending ↦ (clearing_for_new_block b w c a r', pending)
        | ready res ↦ (clearing_for_new_block b w c a r', ready (validated_order res))
        | finished ↦ (waiting_for_storage_cleanup w, ready (ensure_clear_for_transition b c a))
      ])
