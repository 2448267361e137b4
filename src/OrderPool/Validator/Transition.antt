-- ===== src/OrderPool/Validator/Transition.antt =====
-- The passage of the validator to a new block.
use appsec_seq.Base.{
  ℕ, ◌≡◌, refl, ap, sym, ◌∙◌, Bool, true, false, List, [], ◌∷◌, ◌++◌, Option, none, some, returns,
  arith, length,
}
use mathlib.Core.List.{append-nil, append_assoc}
use appsec_seq.OrderPool.Validator.{
  Job, OrderValidator, clearing_for_new_block, waiting_for_storage_cleanup, inform_state,
  regular_processing, ready, ensure_clear_for_transition, transition_complete, on_new_block,
  notify_validation_on_changes, validate_order, validate_each, take_at, poll_futures, poll_next,
  is_transitioning,
}

validate_each-regular :
    (r js : List Job) → validate_each (regular_processing r) js ≡ regular_processing (r ++ js)
unfolding validate_each validate_order
validate_each-regular r [] = ap regular_processing (sym (append-nil r))
validate_each-regular r (j ∷ js) =
    validate_each-regular (r ++ j ∷ []) js ∙ ap regular_processing (append_assoc r (j ∷ []) js)

validate_each-clearing :
    (b : ℕ) (w : List Job) (c a : List ℕ) (r js : List Job)
    → validate_each (clearing_for_new_block b w c a r) js ≡ clearing_for_new_block b (w ++ js) c a r
unfolding validate_each validate_order
validate_each-clearing b w c a r [] =
    ap (λ x. clearing_for_new_block b x c a r) (sym (append-nil w))
validate_each-clearing b w c a r (j ∷ js) =
    validate_each-clearing b (w ++ j ∷ []) c a r js
    ∙ ap (λ x. clearing_for_new_block b x c a r) (append_assoc w (j ∷ []) js)

module _ {Results : Type 0} where
  -- A poll for each result, which answers the first future that remains.
  unfoldable pub answer_each : List Results → OrderValidator → OrderValidator
  answer_each [] v = v
  answer_each (res ∷ rs) v = answer_each rs (poll_next (some (0, res)) false v).0

  answer_each-clearing :
      (b : ℕ) (w : List Job) (c a : List ℕ) (r : List Job) (rs : List Results)
      → length rs ≡ length r
      → answer_each rs (clearing_for_new_block b w c a r) ≡ clearing_for_new_block b w c a []
  unfolding answer_each poll_next poll_futures take_at
  answer_each-clearing b w c a [] [] e = refl
  answer_each-clearing b w c a [] (res ∷ rs) e = absurd (ground arith)
  answer_each-clearing b w c a (j ∷ r) [] e = absurd (ground arith)
  answer_each-clearing b w c a (j ∷ r) (res ∷ rs) e =
      answer_each-clearing b w c a r rs (ground arith)

  -- A new block while orders are under validation: orders that come in meanwhile wait. Once each future
  -- of the old block is answered, the next poll asks for the clean-up with what the block brought; once
  -- that is reported and the service informed, the orders that came in are validated, in their order,
  -- and nothing else is.
  pub new_block_passes :
      (b : ℕ) (c a done : List ℕ) (r js : List Job) (rs : List Results) (t : OrderValidator)
      → on_new_block (regular_processing r) b c a ≡ returns t
      → length rs ≡ length r
      → let u = answer_each rs (validate_each t js) in
        (poll_next {Results = Results} none false u
          ≡ (waiting_for_storage_cleanup js, ready (ensure_clear_for_transition b c a)))
        × (poll_next {Results = Results} none true
              (notify_validation_on_changes (waiting_for_storage_cleanup js) b done a)
            ≡ (regular_processing js, ready transition_complete))
  unfolding on_new_block is_transitioning poll_next poll_futures notify_validation_on_changes
  new_block_passes b c a done r js rs t e n =
      let begun : t ≡ clearing_for_new_block b [] c a r = ground arith in
      (
        rw (begun, validate_each-clearing b [] c a r js, answer_each-clearing b js c a r rs n) refl,
        rw (validate_each-regular [] js) refl,
      )

  -- The clean-up is asked for in one state only: while a new block is awaited and no future of the old
  -- one remains.
  pub clean_up_when_clear :
      (woken : Option (ℕ × Results)) (informed : Bool) (v : OrderValidator) (b : ℕ) (c a : List ℕ)
      → (poll_next woken informed v).1 ≡ ready (ensure_clear_for_transition b c a)
      → (w : List Job) × (v ≡ clearing_for_new_block b w c a [])
        × ((poll_next woken informed v).0 ≡ waiting_for_storage_cleanup w)
  unfolding poll_next poll_futures take_at
  clean_up_when_clear woken informed (regular_processing r) b c a e = absurd (ground arith)
  clean_up_when_clear woken informed (waiting_for_storage_cleanup w) b c a e = absurd (ground arith)
  clean_up_when_clear woken informed (inform_state w b' c' a') b c a e = absurd (ground arith)
  clean_up_when_clear woken informed (clearing_for_new_block b' w c' a' []) b c a e =
      (w, ground arith, refl)
  clean_up_when_clear none informed (clearing_for_new_block b' w c' a' (j ∷ r)) b c a e =
      absurd (ground arith)
  clean_up_when_clear (some (n, res)) informed (clearing_for_new_block b' w c' a' (j ∷ r)) b c a e =
      absurd (ground arith)
