-- ===== src/Consensus/Rounds/States.antt =====
-- angstrom-main/crates/consensus/src/rounds: the states of a round (bid_aggregation.rs, pre_proposal.rs,
-- pre_proposal_aggregation.rs, proposal.rs, finalization.rs) and the machine that goes through them
-- (mod.rs). What a poll finds done outside is an argument.
use appsec_seq.Base.{
  ℕ, Bool, true, false, not, ◌&&◌, List, [], ◌∷◌, Option, none, some, if◌then◌else◌, leb, length,
  Outcome, returns, panics, ◌>>=◌, Result, ok, err,
}
use appsec_seq.Base.Maps.{Eq}
use appsec_seq.OrderPool.Validator.{Poll, pending, finished, ready}
use appsec_seq.Consensus.{
  PreProposal, PreProposalAggregation, Proposal, PoolSolution, Signing, generate_pre_proposal,
  new_aggregation, generate_proposal,
}
use appsec_seq.Consensus.Rounds.{
  SharedRoundState, StromConsensusEvent, pre_proposal_event, pre_proposal_agg_event, proposal_event,
  ConsensusMessage, propagate_pre_proposal, propagate_pre_proposal_agg, propagate_proposal,
  propagate_empty_block_attestation, propagate_message, insert_set, as_set, i_am_leader,
  two_thirds_of_validation_set, matching_engine_output, handle_pre_proposal,
  handle_pre_proposal_aggregation, verify_proposal,
}

-- The orders under the matching engine's solution stand for its future, and a Boolean says whether there is
-- a submission.
pub record ProposalState (L S : Type 0) : Type 0 where
  pub matching_engine_future : Option (List L × List S)
  pub submission_future : Bool
  pub pre_proposal_aggs : List (PreProposalAggregation L S)
  pub proposal : Option (Proposal L S)
  pub last_round_info : Bool

-- The finalization has the proposal and the orders that are solved again to verify it.
pub data RoundState (L S : Type 0) : Type 0 where
  bid_aggregation :
      List (PreProposal L S)
      → List (PreProposalAggregation L S)
      → Option (Proposal L S)
      → RoundState L S
  pre_proposal :
      List (PreProposal L S)
      → List (PreProposalAggregation L S)
      → Option (Proposal L S)
      → RoundState L S
  pre_proposal_aggregation :
      List (PreProposalAggregation L S) → Option (Proposal L S) → RoundState L S
  proposing : ProposalState L S → RoundState L S
  finalization : Proposal L S → List L × List S → Bool → RoundState L S

-- What a poll finds: whether the wait is over, the orders of the storage, the answer of the matching
-- engine, what building the bundle gives (whether there is one, or a panic), the attestation of an empty
-- block, the answer of the submission, and whether the verification is done.
pub record Found (L S : Type 0) : Type 0 where
  pub timed_out : Bool
  pub limit : List L
  pub searcher : List S
  pub solved : Option (Result (List PoolSolution) (Unit {0}))
  pub from_proposal : Outcome Bool
  pub attestation : ℕ
  pub landed : Option Bool
  pub verified : Bool

module _ {L S : Type 0} where
  abbrev pub or_proposal : Option (Proposal L S) → Option (Proposal L S) → Option (Proposal L S)
  or_proposal none old = old
  or_proposal (some p) old = some p

  abbrev pub moved : RoundState L S → Poll (RoundState L S) → RoundState L S
  moved st (ready next) = next
  moved st pending = st
  moved st finished = st

  unfoldable pub new_bid_aggregation : RoundState L S
  new_bid_aggregation = bid_aggregation [] [] none

  module _ ⦃c : Signing L S⦄ ⦃ep : Eq (PreProposal L S)⦄
      ⦃ea : Eq (PreProposalAggregation L S)⦄ where
    unfoldable pub on_consensus_message :
        SharedRoundState L S
        → RoundState L S
        → StromConsensusEvent L S
        → SharedRoundState L S × RoundState L S
    on_consensus_message s (bid_aggregation ps aggs p) (pre_proposal_event peer m) =
        let (t, ps') = handle_pre_proposal s peer m ps in (t, bid_aggregation ps' aggs p)
    on_consensus_message s (bid_aggregation ps aggs p) (pre_proposal_agg_event peer m) =
        let (t, aggs') = handle_pre_proposal_aggregation s peer m aggs in
        (t, bid_aggregation ps aggs' p)
    on_consensus_message s (bid_aggregation ps aggs p) (proposal_event peer m) =
        let (t, p') = verify_proposal s peer m in (t, bid_aggregation ps aggs (or_proposal p' p))
    on_consensus_message s (pre_proposal ps aggs p) (pre_proposal_event peer m) =
        let (t, ps') = handle_pre_proposal s peer m ps in (t, pre_proposal ps' aggs p)
    on_consensus_message s (pre_proposal ps aggs p) (pre_proposal_agg_event peer m) =
        let (t, aggs') = handle_pre_proposal_aggregation s peer m aggs in
        (t, pre_proposal ps aggs' p)
    on_consensus_message s (pre_proposal ps aggs p) (proposal_event peer m) =
        let (t, p') = verify_proposal s peer m in (t, pre_proposal ps aggs (or_proposal p' p))
    on_consensus_message s (pre_proposal_aggregation aggs p) (pre_proposal_agg_event peer m) =
        let (t, aggs') = handle_pre_proposal_aggregation s peer m aggs in
        (t, pre_proposal_aggregation aggs' p)
    on_consensus_message s (pre_proposal_aggregation aggs p) (proposal_event peer m) =
        let (t, p') = verify_proposal s peer m in
        (t, pre_proposal_aggregation aggs (or_proposal p' p))
    on_consensus_message s st m = (s, st)

    -- `PreProposalState::new`.
    unfoldable pub new_pre_proposal :
        SharedRoundState L S
        → List L
        → List S
        → List (PreProposal L S)
        → List (PreProposalAggregation L S)
        → SharedRoundState L S × RoundState L S
    unfolding propagate_message
    new_pre_proposal s limit searcher ps aggs =
        let mine = generate_pre_proposal s.block_height s.signer limit searcher in
        (
          propagate_message s (propagate_pre_proposal mine),
          pre_proposal (insert_set mine ps) aggs none,
        )

    -- `PreProposalAggregationState::new`.
    unfoldable pub new_pre_proposal_aggregation :
        SharedRoundState L S
        → List (PreProposal L S)
        → List (PreProposalAggregation L S)
        → SharedRoundState L S × RoundState L S
    unfolding propagate_message
    new_pre_proposal_aggregation s ps aggs =
        let mine = new_aggregation s.block_height s.signer ps in
        (
          propagate_message s (propagate_pre_proposal_agg mine),
          pre_proposal_aggregation (insert_set mine aggs) none,
        )

    -- The bundle, or an attestation that there is none, is submitted. `AngstromBundle::from_proposal`, with
    -- the snapshot of the pools, is run here and can panic.
    unfoldable pub try_build_proposal :
        Found L S
        → SharedRoundState L S
        → ProposalState L S
        → Result (List PoolSolution) (Unit {0})
        → Outcome (SharedRoundState L S × ProposalState L S × Bool)
    unfolding propagate_message
    try_build_proposal f s st (err e) = returns (s, record st { last_round_info = true }, false)
    try_build_proposal f s st (ok solutions) = do
      let p = generate_proposal s.block_height s.signer st.pre_proposal_aggs solutions
      encoded ← f.from_proposal
      returns (
        (if encoded
            then s
            else propagate_message s (propagate_empty_block_attestation f.attestation)),
        record st { last_round_info = true; proposal = some p; submission_future = true },
        true,
      )

    -- The second half of the poll of a proposal.
    unfoldable pub poll_submission :
        Found L S
        → SharedRoundState L S
        → ProposalState L S
        → Outcome (SharedRoundState L S × RoundState L S × Poll (RoundState L S))
    unfolding propagate_message
    poll_submission f s st =
        if not st.submission_future then returns (s, proposing st, pending) else (elim f.landed [
          | none ↦ returns (s, proposing st, pending)
          | some false ↦ returns (s, proposing (record st { submission_future = false }), finished)
          | some true ↦ elim st.proposal [
            | none ↦ panics
            | some p ↦ returns (
              propagate_message s (propagate_proposal p),
              proposing (record st { submission_future = false; proposal = none }),
              finished,
            )
          ]
        ])

    unfoldable pub poll_proposal :
        Found L S
        → SharedRoundState L S
        → ProposalState L S
        → Outcome (SharedRoundState L S × RoundState L S × Poll (RoundState L S))
    unfolding try_build_proposal poll_submission
    poll_proposal f s st = elim st.matching_engine_future [
      | none ↦ poll_submission f s st
      | some orders ↦ elim f.solved [
        | none ↦ poll_submission f s st
        | some r ↦ (do
          b ← try_build_proposal f s (record st { matching_engine_future = none }) r
          if b.2 then poll_submission f b.0 b.1 else returns (b.0, proposing b.1, finished))
      ]
    ]

    module _ ⦃el : Eq L⦄ ⦃es : Eq S⦄ where
      -- `FinalizationState::new`. The aggregations of the proposal are collected into a set.
      unfoldable pub new_finalization : SharedRoundState L S → Proposal L S → RoundState L S
      unfolding as_set
      new_finalization s p =
          finalization p (matching_engine_output s (as_set [] p.preproposals)) false

      -- `ProposalState::new`.
      unfoldable pub new_proposal :
          SharedRoundState L S → List (PreProposalAggregation L S) → RoundState L S
      new_proposal s aggs = proposing (record {
        matching_engine_future = some (matching_engine_output s aggs);
        submission_future = false;
        pre_proposal_aggs = aggs;
        proposal = none;
        last_round_info = false;
      })

      unfoldable pub poll_transition :
          Found L S
          → SharedRoundState L S
          → RoundState L S
          → Outcome (SharedRoundState L S × RoundState L S × Poll (RoundState L S))
      unfolding new_finalization new_proposal new_pre_proposal new_pre_proposal_aggregation
          poll_proposal
      poll_transition f s (bid_aggregation ps aggs (some p)) =
          returns (s, bid_aggregation ps aggs none, ready (new_finalization s p))
      poll_transition f s (bid_aggregation ps aggs none) =
          if f.timed_out
          then (let (t, next) = new_pre_proposal s f.limit f.searcher ps aggs in
              returns (t, bid_aggregation [] [] none, ready next))
          else returns (s, bid_aggregation ps aggs none, pending)
      poll_transition f s (pre_proposal ps aggs (some p)) =
          returns (s, pre_proposal ps aggs none, ready (new_finalization s p))
      poll_transition f s (pre_proposal ps aggs none) =
          if leb (two_thirds_of_validation_set s) (length ps)
          then (let (t, next) = new_pre_proposal_aggregation s ps aggs in
              returns (t, pre_proposal [] [] none, ready next))
          else returns (s, pre_proposal ps aggs none, pending)
      poll_transition f s (pre_proposal_aggregation aggs (some p)) =
          returns (s, pre_proposal_aggregation aggs none, ready (new_finalization s p))
      poll_transition f s (pre_proposal_aggregation aggs none) =
          if leb (two_thirds_of_validation_set s) (length aggs) && i_am_leader s
          then returns (s, pre_proposal_aggregation [] none, ready (new_proposal s aggs))
          else returns (s, pre_proposal_aggregation aggs none, pending)
      poll_transition f s (proposing st) = poll_proposal f s st
      poll_transition f s (finalization p orders completed) =
          if completed
          then returns (s, finalization p orders true, finished)
          else if f.verified
          then returns (s, finalization p orders true, finished)
          else returns (s, finalization p orders false, pending)

      -- One turn of the stream of messages.
      unfoldable pub poll_next :
          Found L S
          → SharedRoundState L S
          → RoundState L S
          → Outcome (SharedRoundState L S × RoundState L S × Option (ConsensusMessage L S))
      unfolding poll_transition
      poll_next f s st = do
        r ← poll_transition f s st
        elim r.0.messages [
          | [] ↦ returns (r.0, moved r.1 r.2, none)
          | m ∷ ms ↦ returns (record (r.0) { messages = ms }, moved r.1 r.2, some m)
        ]

  unfoldable pub reset_round : ℕ → ℕ → SharedRoundState L S → SharedRoundState L S × RoundState L S
  unfolding new_bid_aggregation
  reset_round block leader s =
      (record s { block_height = block; round_leader = leader }, new_bid_aggregation)
