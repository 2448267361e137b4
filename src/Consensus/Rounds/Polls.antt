-- ===== src/Consensus/Rounds/Polls.antt =====
-- A poll keeps what a state of a round holds valid.
use appsec_seq.Base.{
  ◌≡◌, refl, true, false, ◌&&◌, ◌||◌, List, [], ◌∷◌, none, some, leb, arith, length, returns, ok,
  err, Bool-cases, Option-cases, inl, inr, leb→le, ◌⊎◌, Bool, if◌then◌else◌, panics, Outcome-cases,
}
use appsec_seq.Base.Maps.{Eq}
use appsec_seq.OrderPool.Validator.{Poll, pending, finished, ready}
use appsec_seq.Consensus.{
  PreProposal, PreProposalAggregation, PoolSolution, Signing, generate_pre_proposal,
  new_aggregation, generate_proposal, all_valid, all_valid_aggregations,
}
use appsec_seq.Consensus.Rounds.{
  SharedRoundState, propagate_message, propagate_proposal, propagate_empty_block_attestation,
  insert_set, i_am_leader, two_thirds_of_validation_set,
}
use appsec_seq.Consensus.Rounds.States.{
  RoundState, ProposalState, Found, bid_aggregation, pre_proposal, pre_proposal_aggregation,
  proposing, finalization, poll_transition, moved, new_pre_proposal, new_pre_proposal_aggregation,
  new_proposal, new_finalization, poll_proposal, poll_submission, try_build_proposal,
}
use appsec_seq.Consensus.Rounds.Valid.{
  all_valid-append, all_valid_aggregations-append, generated_is_valid, aggregation_is_valid,
  proposal_is_valid,
}
use appsec_seq.Consensus.Rounds.Sound.{IsSound, IsBuilding}

module _ {L S : Type 0} ⦃c : Signing L S⦄ where
  module _ ⦃ep : Eq (PreProposal L S)⦄ ⦃ea : Eq (PreProposalAggregation L S)⦄ where
    poll_submission-IsSound :
        (f : Found L S) (s : SharedRoundState L S) (st : ProposalState L S)
        → IsBuilding s st
        → (t : SharedRoundState L S) × (next : RoundState L S) × (r : Poll (RoundState L S))
          × (poll_submission f s st ≡ returns (t, next, r))
          × IsSound t (moved next r)
    unfolding poll_submission propagate_message two_thirds_of_validation_set i_am_leader
    poll_submission-IsSound f s st w = elim (Bool-cases st.submission_future) [
      | inr e ↦ (s, proposing st, pending, ground arith, w)
      | inl e ↦
          let (p, has) = w.built e in
          elim (Option-cases f.landed) [
            | inl n ↦ (s, proposing st, pending, ground arith, w)
            | inr (true, l) ↦ (
              propagate_message s (propagate_proposal p),
              proposing (record st { submission_future = false; proposal = none }),
              finished,
              ground arith,
              record {
                aggregations = w.aggregations;
                leader = w.leader;
                enough = w.enough;
                built = λ f. absurd (ground arith);
                valid = tt;
              },
            )
            | inr (false, l) ↦ (
              s,
              proposing (record st { submission_future = false }),
              finished,
              ground arith,
              record {
                aggregations = w.aggregations;
                leader = w.leader;
                enough = w.enough;
                built = λ f. absurd (ground arith);
                valid = w.valid;
              },
            )
          ]
    ]

    -- What `try_build_proposal` leaves when there is a solution.
    unfoldable built_state :
        Found L S
        → SharedRoundState L S
        → ProposalState L S
        → List PoolSolution
        → Bool
        → SharedRoundState L S × ProposalState L S
    unfolding propagate_message
    built_state f s st sols encoded = (
      (if encoded
          then s
          else propagate_message s (propagate_empty_block_attestation f.attestation)),
      record st {
        matching_engine_future = none;
        last_round_info = true;
        proposal = some (generate_proposal s.block_height s.signer st.pre_proposal_aggs sols);
        submission_future = true;
      },
    )

    poll_proposal-IsSound :
        (f : Found L S) (s : SharedRoundState L S) (st : ProposalState L S)
        → IsBuilding s st
        → (poll_proposal f s st ≡ panics) × (f.from_proposal ≡ panics)
          ⊎ ((t : SharedRoundState L S) × (next : RoundState L S) × (r : Poll (RoundState L S))
              × (poll_proposal f s st ≡ returns (t, next, r))
              × IsSound t (moved next r))
    unfolding poll_proposal try_build_proposal propagate_message built_state
        two_thirds_of_validation_set i_am_leader
    poll_proposal-IsSound f s st w = elim (Option-cases st.matching_engine_future) [
      | inl n ↦
          let (t, next, r, e, k) = poll_submission-IsSound f s st w in
          inr (t, next, r, ground arith, k)
      | inr (orders, m) ↦ elim (Option-cases f.solved) [
        | inl n ↦
            let (t, next, r, e, k) = poll_submission-IsSound f s st w in
            inr (t, next, r, ground arith, k)
        | inr (err x, n) ↦ inr (
          s,
          proposing (record st { matching_engine_future = none; last_round_info = true }),
          finished,
          ground arith,
          record {
            aggregations = w.aggregations;
            leader = w.leader;
            enough = w.enough;
            built = w.built;
            valid = w.valid;
          },
        )
        | inr (ok sols, n) ↦ elim (Outcome-cases f.from_proposal) [
          | inl fails ↦ inl (ground arith, fails)
          | inr (encoded, b) ↦
              let (t, st') = built_state f s st sols encoded in
              let (u, next, r, e, k) = poll_submission-IsSound f t st' (record {
                aggregations = ground (arith, w.aggregations);
                leader = ground (arith, w.leader);
                enough = ground (arith, w.enough);
                built = λ h.
                    (generate_proposal s.block_height s.signer st.pre_proposal_aggs sols, refl);
                valid = ground (
                  arith,
                  proposal_is_valid s.block_height s.signer (two_thirds_of_validation_set s)
                      st.pre_proposal_aggs sols w.aggregations,
                );
              }) in
              inr (u, next, r, ground arith, k)
        ]
      ]
    ]

    module _ ⦃el : Eq L⦄ ⦃es : Eq S⦄ where
      -- A poll in a state that is sound does not panic, unless building the bundle does,
      -- and the state that it goes to is sound.
      pub poll_transition-IsSound :
          (f : Found L S) (s : SharedRoundState L S) (st : RoundState L S)
          → IsSound s st
          → (poll_transition f s st ≡ panics) × (f.from_proposal ≡ panics)
            ⊎ ((t : SharedRoundState L S) × (next : RoundState L S) × (r : Poll (RoundState L S))
                × (poll_transition f s st ≡ returns (t, next, r))
                × IsSound t (moved next r))
      unfolding poll_transition new_finalization new_pre_proposal new_pre_proposal_aggregation
          new_proposal propagate_message two_thirds_of_validation_set i_am_leader insert_set
          all_valid all_valid_aggregations
      poll_transition-IsSound f s (bid_aggregation ps aggs (some p)) w =
          inr (s, bid_aggregation ps aggs none, ready (new_finalization s p), refl, w.2)
      poll_transition-IsSound f s (bid_aggregation ps aggs none) w = elim (Bool-cases f.timed_out) [
        | inr e ↦ inr (s, bid_aggregation ps aggs none, pending, ground arith, w)
        | inl e ↦
            let (t, next) = new_pre_proposal s f.limit f.searcher ps aggs in
            let mine = generate_pre_proposal s.block_height s.signer f.limit f.searcher in
            inr (
              t,
              bid_aggregation [] [] none,
              ready next,
              ground arith,
              (
                ground (
                  arith,
                  generated_is_valid s.block_height s.signer f.limit f.searcher,
                  all_valid-append ps (mine ∷ []) s.block_height,
                ),
                w.1,
                tt,
              ),
            )
      ]
      poll_transition-IsSound f s (pre_proposal ps aggs (some p)) w =
          inr (s, pre_proposal ps aggs none, ready (new_finalization s p), refl, w.2)
      poll_transition-IsSound f s (pre_proposal ps aggs none) w =
          let n = two_thirds_of_validation_set s in
          elim (Bool-cases (leb n (length ps))) [
            | inr e ↦ inr (s, pre_proposal ps aggs none, pending, ground arith, w)
            | inl e ↦
                let (t, next) = new_pre_proposal_aggregation s ps aggs in
                let mine = new_aggregation s.block_height s.signer ps in
                inr (
                  t,
                  pre_proposal [] [] none,
                  ready next,
                  ground arith,
                  (
                    ground (
                      arith,
                      aggregation_is_valid s.block_height s.signer n ps w.0
                          (leb→le n (length ps) e),
                      all_valid_aggregations-append aggs (mine ∷ []) s.block_height n,
                    ),
                    tt,
                  ),
                )
          ]
      poll_transition-IsSound f s (pre_proposal_aggregation aggs (some p)) w =
          inr (s, pre_proposal_aggregation aggs none, ready (new_finalization s p), refl, w.1)
      poll_transition-IsSound f s (pre_proposal_aggregation aggs none) w =
          let n = two_thirds_of_validation_set s in
          elim (Bool-cases (leb n (length aggs) && i_am_leader s)) [
            | inr e ↦ inr (s, pre_proposal_aggregation aggs none, pending, ground arith, w)
            | inl e ↦ inr (
              s,
              pre_proposal_aggregation [] none,
              ready (new_proposal s aggs),
              ground arith,
              record {
                aggregations = w.0;
                leader = ground arith;
                enough = leb→le n (length aggs) (ground arith);
                built = λ h. absurd (ground arith);
                valid = tt;
              },
            )
          ]
      poll_transition-IsSound f s (proposing st) w = poll_proposal-IsSound f s st w
      poll_transition-IsSound f s (finalization p orders completed) w =
          elim (Bool-cases (completed || f.verified)) [
            | inl e ↦ inr (s, finalization p orders true, finished, ground arith, w)
            | inr e ↦ inr (s, finalization p orders false, pending, ground arith, w)
          ]
