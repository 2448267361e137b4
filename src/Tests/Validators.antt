-- ===== src/Tests/Validators.antt =====
-- Runs of the validator.
use appsec_seq.Base.{ℕ, ◌+◌, ◌≡◌, refl, true, false, [], ◌∷◌, ◌++◌, none, some, returns}
use appsec_seq.OrderPool.Validator.{
  Job, OrderValidator, local, clearing_for_new_block, waiting_for_storage_cleanup,
  regular_processing, ready, ensure_clear_for_transition, transition_complete, on_new_block,
  notify_validation_on_changes, validate_order, validate_each, poll_next, is_transitioning,
}
use appsec_seq.OrderPool.Validator.Orders.{
  held, weigh, answered, Reach, here, submits, announces, polls, no_order_lost,
}
use appsec_seq.OrderPool.Validator.Transition.{answer_each, new_block_passes}
use appsec_seq.Tests.Data.{standing}

abbrev job : ℕ → Job
job h = (local, standing h)

-- One order is handed in and answered, and one waits for the block 8.
abbrev begun : OrderValidator
begun = clearing_for_new_block 8 [] [] [] (job 5 ∷ [])

begins : on_new_block (validate_order (regular_processing []) (job 5)) 8 [] [] ≡ returns begun
unfolding on_new_block validate_order is_transitioning
begins = refl

run :
    Reach ℕ
      (regular_processing [])
      (job 6 ∷ job 5 ∷ [])
      (answered {Results = ℕ} (some (0, 77)) (validate_order begun (job 6)) ++ [])
      (poll_next {Results = ℕ} (some (0, 77)) false (validate_order begun (job 6))).0
run = polls (some (0, 77)) false (submits (job 6) (announces 8 [] [] begins (submits (job 5) here)))

no_order_lost_example :
    held (λ j. 1) (regular_processing []) + weigh (λ j. 1) (job 6 ∷ job 5 ∷ [])
    ≡ weigh (λ j. 1) (answered {Results = ℕ} (some (0, 77)) (validate_order begun (job 6)) ++ [])
      + held
          (λ j. 1)
          (poll_next {Results = ℕ} (some (0, 77)) false (validate_order begun (job 6))).0
no_order_lost_example = no_order_lost (λ j. 1) run

starts : on_new_block (regular_processing (job 5 ∷ [])) 8 [] [] ≡ returns begun
unfolding on_new_block is_transitioning
starts = refl

new_block_passes_example :
    let u = answer_each {Results = ℕ} (77 ∷ []) (validate_each begun (job 6 ∷ [])) in
    (poll_next {Results = ℕ} none false u
      ≡ (waiting_for_storage_cleanup (job 6 ∷ []), ready (ensure_clear_for_transition 8 [] [])))
    × (poll_next {Results = ℕ} none true
          (notify_validation_on_changes (waiting_for_storage_cleanup (job 6 ∷ [])) 8 (5 ∷ []) [])
        ≡ (regular_processing (job 6 ∷ []), ready transition_complete))
new_block_passes_example =
    new_block_passes 8 [] [] (5 ∷ []) (job 5 ∷ []) (job 6 ∷ []) (77 ∷ []) begun starts refl
