-- ===== src/Tests/Rounds.antt =====
-- Runs of a round of the consensus.
use native.Mathlib.Decide.{ℕ_discrete}
use appsec_seq.Base.{
  ℕ, ◌≤◌, ◌≡◌, refl, ◌&&◌, [], ◌∷◌, none, some, true, false, arith, leb, returns, Option, panics,
  ◌⊎◌, List,
}
use appsec_seq.Base.Maps.{Eq, nat_eq, beq_of_discrete, beq_of_discrete_iff}
use appsec_seq.OrderPool.Validator.{ready}
use appsec_seq.Leader.{new_validator}
use appsec_seq.Consensus.{
  new_aggregation, PreProposal, PreProposalAggregation, Signing, PreProposal-discrete,
  PreProposalAggregation-discrete, generate_pre_proposal, all_valid, is_valid_pre_proposal,
}
use appsec_seq.Consensus.Rounds.{
  matching_engine_output, SharedRoundState, ConsensusMessage, new, pre_proposal_event, contains,
  is_validator, two_thirds_of_validation_set,
}
use appsec_seq.Consensus.Rounds.States.{
  Found, RoundState, new_bid_aggregation, on_consensus_message, poll_next, pre_proposal,
  poll_transition, new_pre_proposal_aggregation,
}
use appsec_seq.Consensus.Rounds.Quorum.{all_votes, matching_engine_output_exact}
use appsec_seq.Consensus.Rounds.Sound.{IsSound}
use appsec_seq.Consensus.Rounds.Steps.{starts, hears, Reached-poll_next}
use appsec_seq.Consensus.Rounds.Votes.{hear_each, AreNew, votes_of_one}

-- Each node's key is its own signature.
instance abbrev signing : Signing ℕ ℕ
signing = record {
  peer_id = λ k. k;
  sign = λ k p. k;
  recover = λ p s. some s;
  recover-sign = λ k p. refl;
}

instance abbrev pre_proposal_eq : Eq (PreProposal ℕ ℕ)
pre_proposal_eq = record {
  beq = beq_of_discrete (PreProposal-discrete ℕ_discrete ℕ_discrete);
  beq_iff = beq_of_discrete_iff (PreProposal-discrete ℕ_discrete ℕ_discrete);
}

instance abbrev aggregation_eq : Eq (PreProposalAggregation ℕ ℕ)
aggregation_eq = record {
  beq = beq_of_discrete (PreProposalAggregation-discrete ℕ_discrete ℕ_discrete);
  beq_iff = beq_of_discrete_iff (PreProposalAggregation-discrete ℕ_discrete ℕ_discrete);
}

-- Node 1 of three validators.
abbrev three : SharedRoundState ℕ ℕ
three = new 100 1 1 (new_validator 1 10 ∷ new_validator 2 10 ∷ new_validator 3 10 ∷ [])

-- Two pre-proposals of validator 2.
abbrev one_order : PreProposal ℕ ℕ
one_order = generate_pre_proposal 100 2 (5 ∷ []) []

abbrev two_orders : PreProposal ℕ ℕ
two_orders = generate_pre_proposal 100 2 (5 ∷ 6 ∷ []) []

-- One pre-proposal in the aggregations of validators 2 and 3.
abbrev both : List (PreProposalAggregation ℕ ℕ)
both = new_aggregation 100 2 (one_order ∷ []) ∷ new_aggregation 100 3 (one_order ∷ []) ∷ []

matching_engine_output_exact_example :
    let n = two_thirds_of_validation_set three in
    let k = all_votes (λ p. p.limit) 5 both in
    let m = all_votes (λ p. p.searcher) 6 both in
    (contains {A = ℕ} 5 (matching_engine_output three both).0 ≡ (leb 1 k && leb n k))
    × (contains {A = ℕ} 6 (matching_engine_output three both).1 ≡ (leb 1 m && leb n m))
matching_engine_output_exact_example = matching_engine_output_exact three both 5 6

abbrev quiet : Found ℕ ℕ
quiet = record {
  timed_out = true;
  limit = [];
  searcher = [];
  solved = none;
  from_proposal = returns true;
  attestation = 0;
  landed = none;
  verified = false;
}

abbrev heard : SharedRoundState ℕ ℕ × RoundState ℕ ℕ
heard = on_consensus_message three new_bid_aggregation (pre_proposal_event 2 one_order)

Reached-poll_next_example :
    IsSound heard.0 heard.1
    × ((poll_next quiet heard.0 heard.1 ≡ panics) × (quiet.from_proposal ≡ panics)
        ⊎ ((u : SharedRoundState ℕ ℕ) × (next : RoundState ℕ ℕ) × (sent : Option
              (ConsensusMessage ℕ ℕ))
            × (poll_next quiet heard.0 heard.1 ≡ returns (u, next, sent))))
Reached-poll_next_example =
    Reached-poll_next {s = three} {t = heard.0} {st = heard.1} quiet
      (hears (pre_proposal_event 2 one_order) starts)

valid_2 : all_valid (one_order ∷ two_orders ∷ []) 100 ≡ true
unfolding all_valid generate_pre_proposal is_valid_pre_proposal
valid_2 = refl

differ : contains two_orders (one_order ∷ []) ≡ false
unfolding contains generate_pre_proposal
differ = ground (arith, pre_proposal_eq.beq_iff one_order two_orders)

among_three : is_validator 2 three.validators ≡ true
unfolding is_validator new new_validator
among_three = refl

enough : two_thirds_of_validation_set three ≤ 2
unfolding two_thirds_of_validation_set new
enough = omega arith

are_new : AreNew (one_order ∷ two_orders ∷ []) []
unfolding contains
are_new = (refl, (differ, tt))

votes_of_one_example :
    let r = hear_each three (pre_proposal [] [] none) 2 (one_order ∷ two_orders ∷ []) in
    let q = new_pre_proposal_aggregation r.0 (one_order ∷ two_orders ∷ []) [] in
    (r.1 ≡ pre_proposal (one_order ∷ two_orders ∷ []) [] none)
    × (poll_transition quiet r.0 r.1 ≡ returns (q.0, pre_proposal [] [] none, ready q.1))
unfolding new
votes_of_one_example =
    votes_of_one quiet three 2 [] (one_order ∷ two_orders ∷ []) [] among_three valid_2 are_new
      enough
