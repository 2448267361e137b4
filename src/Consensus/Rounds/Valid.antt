-- ===== src/Consensus/Rounds/Valid.antt =====
-- What a node signs is valid.
use appsec_seq.Base.{ℕ, ◌≤◌, ◌≡◌, refl, true, ◌&&◌, ==_iff, List, [], ◌∷◌, ◌++◌, arith, length}
use appsec_seq.Consensus.{
  PreProposal, PreProposalAggregation, PoolSolution, Signing, generate_pre_proposal,
  new_aggregation, generate_proposal, all_valid, all_valid_aggregations, is_valid_proposal,
  is_valid_pre_proposal, is_valid_aggregation, signed_by, Payload, of_pre_proposal, of_aggregation,
  of_proposal, sort_solutions,
}

module _ {L S : Type 0} ⦃c : Signing L S⦄ where
  pub all_valid-append :
      (ps qs : List (PreProposal L S)) (h : ℕ)
      → all_valid (ps ++ qs) h ≡ (all_valid ps h && all_valid qs h)
  unfolding all_valid
  all_valid-append [] qs h = refl
  all_valid-append (p ∷ ps) qs h = ground (arith, all_valid-append ps qs h)

  pub all_valid_aggregations-append :
      (ps qs : List (PreProposalAggregation L S)) (h n : ℕ)
      → all_valid_aggregations (ps ++ qs) h n
        ≡ (all_valid_aggregations ps h n && all_valid_aggregations qs h n)
  unfolding all_valid_aggregations
  all_valid_aggregations-append [] qs h n = refl
  all_valid_aggregations-append (p ∷ ps) qs h n =
      ground (arith, all_valid_aggregations-append ps qs h n)

  signed_by-sign : (k : ℕ) (p : Payload L S) → signed_by p (c.sign k p) (c.peer_id k) ≡ true
  unfolding signed_by
  signed_by-sign k p = ground (arith, c.recover-sign k p, ==_iff (c.peer_id k) (c.peer_id k))

  pub generated_is_valid :
      (height sk : ℕ) (limit : List L) (searcher : List S)
      → is_valid_pre_proposal (generate_pre_proposal height sk limit searcher) height ≡ true
  unfolding is_valid_pre_proposal generate_pre_proposal
  generated_is_valid height sk limit searcher =
      ground
        (arith, signed_by-sign sk (of_pre_proposal height limit searcher), ==_iff height height)

  pub aggregation_is_valid :
      (height sk n : ℕ) (ps : List (PreProposal L S))
      → all_valid ps height ≡ true
      → n ≤ length ps
      → is_valid_aggregation (new_aggregation height sk ps) height n ≡ true
  unfolding is_valid_aggregation new_aggregation
  aggregation_is_valid height sk n ps v le =
      ground (arith, signed_by-sign sk (of_aggregation height ps))

  pub proposal_is_valid :
      (height sk n : ℕ) (aggs : List (PreProposalAggregation L S)) (sols : List PoolSolution)
      → all_valid_aggregations aggs height n ≡ true
      → is_valid_proposal (generate_proposal height sk aggs sols) height n ≡ true
  unfolding is_valid_proposal generate_proposal
  proposal_is_valid height sk n aggs sols v =
      ground
        (arith, signed_by-sign sk (of_proposal height (c.peer_id sk) aggs (sort_solutions sols)))
