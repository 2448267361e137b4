-- ===== src/Consensus/Rounds/Sound.antt =====
-- What each state of a round holds is valid.
use appsec_seq.Base.{◌≤◌, ◌≡◌, true, List, [], ◌∷◌, Option, none, some, arith, length}
use appsec_seq.Base.Maps.{Eq}
use appsec_seq.Consensus.{
  PreProposal, PreProposalAggregation, Proposal, Signing, all_valid, all_valid_aggregations,
  is_valid_proposal,
}
use appsec_seq.Consensus.Rounds.{
  SharedRoundState, StromConsensusEvent, pre_proposal_event, pre_proposal_agg_event, proposal_event,
  bundle_unlock_attestation, propagate_message, i_am_leader, two_thirds_of_validation_set,
  handle_pre_proposal, handle_pre_proposal_aggregation, verify_proposal,
  handle_proposal_verification,
}
use appsec_seq.Consensus.Rounds.States.{
  RoundState, ProposalState, bid_aggregation, pre_proposal, pre_proposal_aggregation, proposing,
  finalization, on_consensus_message,
}
use appsec_seq.Consensus.Rounds.Valid.{all_valid-append, all_valid_aggregations-append}

module _ {L S : Type 0} ⦃c : Signing L S⦄ where
  abbrev pub IsOk : SharedRoundState L S → Option (Proposal L S) → Type 0
  IsOk s none = Unit
  IsOk s (some p) = is_valid_proposal p s.block_height (two_thirds_of_validation_set s) ≡ true

  abbrev pub AreValid : SharedRoundState L S → List (PreProposal L S) → Type 0
  AreValid s ps = all_valid ps s.block_height ≡ true

  abbrev pub AggregationsValid : SharedRoundState L S → List (PreProposalAggregation L S) → Type 0
  AggregationsValid s aggs =
      all_valid_aggregations aggs s.block_height (two_thirds_of_validation_set s) ≡ true

  -- A proposal is built by the leader only, from enough aggregations, and there is one to send once it is
  -- submitted.
  pub record IsBuilding (s : SharedRoundState L S) (st : ProposalState L S) : Type 0 where
    pub aggregations : AggregationsValid s st.pre_proposal_aggs
    pub leader : i_am_leader s ≡ true
    pub enough : two_thirds_of_validation_set s ≤ length st.pre_proposal_aggs
    pub built : st.submission_future ≡ true → (p : Proposal L S) × (st.proposal ≡ some p)
    pub valid : IsOk s st.proposal

  -- All that a state holds is valid for the height and the validators.
  abbrev pub IsSound : SharedRoundState L S → RoundState L S → Type 0
  IsSound s (bid_aggregation ps aggs p) = AreValid s ps × AggregationsValid s aggs × IsOk s p
  IsSound s (pre_proposal ps aggs p) = AreValid s ps × AggregationsValid s aggs × IsOk s p
  IsSound s (pre_proposal_aggregation aggs p) = AggregationsValid s aggs × IsOk s p
  IsSound s (proposing st) = IsBuilding s st
  IsSound s (finalization p orders completed) = IsOk s (some p)

  module _ ⦃ep : Eq (PreProposal L S)⦄ ⦃ea : Eq (PreProposalAggregation L S)⦄ where
    -- A message that comes in keeps a state sound.
    pub on_message-IsSound :
        (s : SharedRoundState L S) (st : RoundState L S) (m : StromConsensusEvent L S)
        → IsSound s st
        → let r = on_consensus_message s st m in IsSound r.0 r.1
    unfolding on_consensus_message handle_pre_proposal handle_pre_proposal_aggregation
        handle_proposal_verification verify_proposal propagate_message all_valid
        all_valid_aggregations two_thirds_of_validation_set
    on_message-IsSound s (bid_aggregation ps aggs p) (pre_proposal_event peer m) w =
        ground (arith, all_valid-append ps (m ∷ []) s.block_height)
    on_message-IsSound s (bid_aggregation ps aggs p) (pre_proposal_agg_event peer m) w = ground (
      arith,
      all_valid_aggregations-append aggs (m ∷ []) s.block_height (two_thirds_of_validation_set s),
    )
    on_message-IsSound s (bid_aggregation ps aggs p) (proposal_event peer m) w = ground arith
    on_message-IsSound s (bid_aggregation ps aggs p) (bundle_unlock_attestation a b bs) w = w
    on_message-IsSound s (pre_proposal ps aggs p) (pre_proposal_event peer m) w =
        ground (arith, all_valid-append ps (m ∷ []) s.block_height)
    on_message-IsSound s (pre_proposal ps aggs p) (pre_proposal_agg_event peer m) w = ground (
      arith,
      all_valid_aggregations-append aggs (m ∷ []) s.block_height (two_thirds_of_validation_set s),
    )
    on_message-IsSound s (pre_proposal ps aggs p) (proposal_event peer m) w = ground arith
    on_message-IsSound s (pre_proposal ps aggs p) (bundle_unlock_attestation a b bs) w = w
    on_message-IsSound s (pre_proposal_aggregation aggs p) (pre_proposal_event peer m) w = w
    on_message-IsSound s (pre_proposal_aggregation aggs p) (pre_proposal_agg_event peer m) w =
        ground (
          arith,
          all_valid_aggregations-append aggs (m ∷ []) s.block_height
              (two_thirds_of_validation_set s),
        )
    on_message-IsSound s (pre_proposal_aggregation aggs p) (proposal_event peer m) w = ground arith
    on_message-IsSound s (pre_proposal_aggregation aggs p) (bundle_unlock_attestation a b bs) w = w
    on_message-IsSound s (proposing st) m w = w
    on_message-IsSound s (finalization p orders completed) m w = w
