-- ===== src/Consensus/Rounds/Votes.antt =====
-- Whose pre-proposals reach two thirds.
use appsec_seq.Base.{
  ℕ, ◌+◌, ◌≤◌, ◌≡◌, true, false, List, [], ◌∷◌, ◌++◌, none, arith, length, length-append,
  append_assoc, append-nil, returns,
}
use appsec_seq.Base.Maps.{Eq}
use appsec_seq.OrderPool.Validator.{ready}
use appsec_seq.Consensus.{PreProposal, PreProposalAggregation, Signing, all_valid}
use appsec_seq.Consensus.Rounds.{
  SharedRoundState, pre_proposal_event, propagate_pre_proposal, contains, is_validator,
  two_thirds_of_validation_set, handle_pre_proposal, handle_proposal_verification,
  propagate_message,
}
use appsec_seq.Consensus.Rounds.States.{
  RoundState, Found, pre_proposal, on_consensus_message, poll_transition,
  new_pre_proposal_aggregation,
}

module _ {L S : Type 0} ⦃c : Signing L S⦄ ⦃ep : Eq (PreProposal L S)⦄
    ⦃ea : Eq (PreProposalAggregation L S)⦄ where
  -- Pre-proposals that one peer sends after one another.
  unfoldable pub hear_each :
      SharedRoundState L S
      → RoundState L S
      → ℕ
      → List (PreProposal L S)
      → SharedRoundState L S × RoundState L S
  hear_each s st peer [] = (s, st)
  hear_each s st peer (p ∷ ps) =
      let (t, next) = on_consensus_message s st (pre_proposal_event peer p) in
      hear_each t next peer ps

  -- Each one is new to the set when it comes in.
  abbrev pub AreNew : List (PreProposal L S) → List (PreProposal L S) → Type 0
  AreNew [] set = Unit
  AreNew (p ∷ ps) set = (contains p set ≡ false) × AreNew ps (set ++ p ∷ [])

  hear_each_lem :
      (s : SharedRoundState L S) (peer : ℕ) (set ps : List (PreProposal L S))
      (aggs : List (PreProposalAggregation L S))
      → is_validator peer s.validators ≡ true
      → all_valid ps s.block_height ≡ true
      → AreNew ps set
      → let r = hear_each s (pre_proposal set aggs none) peer ps in
        (r.1 ≡ pre_proposal (set ++ ps) aggs none)
        × (r.0.validators ≡ s.validators)
        × (r.0.block_height ≡ s.block_height)
  unfolding hear_each on_consensus_message handle_pre_proposal handle_proposal_verification
      propagate_message all_valid
  hear_each_lem s peer set [] aggs i v n = ground (arith, append-nil set)
  hear_each_lem s peer set (p ∷ ps) aggs i v n =
      let t = propagate_message s (propagate_pre_proposal p) in
      ground (
        arith,
        hear_each_lem t peer (set ++ p ∷ []) ps aggs i (ground arith) n.1,
        append_assoc set (p ∷ []) ps,
      )

  module _ ⦃el : Eq L⦄ ⦃es : Eq S⦄ where
    -- Valid pre-proposals that are new and distinct are all taken from one validator, whoever signed them,
    -- and each counts for the two thirds: once their number and that of those before reach them, the next
    -- poll goes on to the aggregation, whether or not a second validator has sent any.
    pub votes_of_one :
        (f : Found L S) (s : SharedRoundState L S) (peer : ℕ) (set ps : List (PreProposal L S))
        (aggs : List (PreProposalAggregation L S))
        → is_validator peer s.validators ≡ true
        → all_valid ps s.block_height ≡ true
        → AreNew ps set
        → two_thirds_of_validation_set s ≤ length set + length ps
        → let r = hear_each s (pre_proposal set aggs none) peer ps in
          let q = new_pre_proposal_aggregation r.0 (set ++ ps) aggs in
          (r.1 ≡ pre_proposal (set ++ ps) aggs none)
          × (poll_transition f r.0 r.1 ≡ returns (q.0, pre_proposal [] [] none, ready q.1))
    unfolding poll_transition two_thirds_of_validation_set
    votes_of_one f s peer set ps aggs i v n le =
        ground (arith, hear_each_lem s peer set ps aggs i v n, length-append set ps)
