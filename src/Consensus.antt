-- ===== src/Consensus.antt =====
-- angstrom-main/crates/types/src/consensus: the messages of a consensus round, and when they are valid.
-- The serialization, the digest and the signature of a message are parameters.
pub mod Rounds
use native.Mathlib.Decide.{ℕ_discrete}
use appsec_seq.Base.{
  ℕ, ◌≡◌, Bool, true, false, not, ◌&&◌, List, [], ◌∷◌, Option, none, some, ◌==◌, if◌then◌else◌, ltb,
  leb, length,
}

-- The orders of a pre-proposal are only compared and passed on: `L` are the limit orders and `S` those of
-- the searchers. A signature and a peer id are numbers.
pub record PreProposal (L S : Type 0) : Type 0 where
  pub block_height : ℕ
  pub source : ℕ
  pub limit : List L
  pub searcher : List S
  pub signature : ℕ

pub record PreProposalAggregation (L S : Type 0) : Type 0 where
  pub block_height : ℕ
  pub source : ℕ
  pub pre_proposals : List (PreProposal L S)
  pub signature : ℕ

-- Of the solution of a pool only its id is read; a number stands for the rest.
pub record PoolSolution : Type 0 where
  pub id : ℕ
  pub body : ℕ

pub record Proposal (L S : Type 0) : Type 0 where
  pub block_height : ℕ
  pub source : ℕ
  pub preproposals : List (PreProposalAggregation L S)
  pub solutions : List PoolSolution
  pub signature : ℕ

unfoldable pub PreProposal-discrete :
    {L S : Type 0} → Discrete L → Discrete S → Discrete (PreProposal L S)
PreProposal-discrete l s = hlevel (ℕ_discrete, l, s)

unfoldable pub PreProposalAggregation-discrete :
    {L S : Type 0} → Discrete L → Discrete S → Discrete (PreProposalAggregation L S)
PreProposalAggregation-discrete l s = hlevel (ℕ_discrete, PreProposal-discrete l s)

-- What is signed.
pub data Payload (L S : Type 0) : Type 0 where
  of_pre_proposal : ℕ → List L → List S → Payload L S
  of_aggregation : ℕ → List (PreProposal L S) → Payload L S
  of_proposal : ℕ → ℕ → List (PreProposalAggregation L S) → List PoolSolution → Payload L S

-- Signatures over the digest of a serialized payload, with the peer id of each signer. What a signer signs
-- is recovered as its own.
pub record Signing (L S : Type 0) : Type 0 where
  pub peer_id : ℕ → ℕ
  pub sign : ℕ → Payload L S → ℕ
  pub recover : Payload L S → ℕ → Option ℕ
  pub recover-sign : (k : ℕ) (p : Payload L S) → recover p (sign k p) ≡ some (peer_id k)

-- `solutions.sort_by_key(|sol| sol.id)`, which is stable.
unfoldable pub insert_solution : PoolSolution → List PoolSolution → List PoolSolution
insert_solution a [] = a ∷ []
insert_solution a (b ∷ bs) =
    let after = insert_solution a bs in if leb a.id b.id then a ∷ b ∷ bs else b ∷ after

unfoldable pub sort_solutions : List PoolSolution → List PoolSolution
unfolding insert_solution
sort_solutions [] = []
sort_solutions (a ∷ rest) = insert_solution a (sort_solutions rest)

module _ {L S : Type 0} ⦃c : Signing L S⦄ where
  -- Whether a signature is that of a peer.
  unfoldable pub signed_by : Payload L S → ℕ → ℕ → Bool
  signed_by p signature source = elim (c.recover p signature) [
    | none ↦ false
    | some signer ↦ signer == source
  ]

  unfoldable pub is_valid_pre_proposal : PreProposal L S → ℕ → Bool
  unfolding signed_by
  is_valid_pre_proposal p height =
      signed_by (of_pre_proposal p.block_height p.limit p.searcher) p.signature p.source
      && p.block_height == height

  unfoldable pub all_valid : List (PreProposal L S) → ℕ → Bool
  all_valid [] height = true
  all_valid (p ∷ ps) height = is_valid_pre_proposal p height && all_valid ps height

  unfoldable pub is_valid_aggregation : PreProposalAggregation L S → ℕ → ℕ → Bool
  unfolding all_valid
  is_valid_aggregation a height two_thirds =
      if not (all_valid a.pre_proposals height)
      then false
      else if ltb (length a.pre_proposals) two_thirds
      then false
      else signed_by (of_aggregation a.block_height a.pre_proposals) a.signature a.source

  unfoldable pub all_valid_aggregations : List (PreProposalAggregation L S) → ℕ → ℕ → Bool
  all_valid_aggregations [] height two_thirds = true
  all_valid_aggregations (a ∷ rest) height two_thirds =
      is_valid_aggregation a height two_thirds && all_valid_aggregations rest height two_thirds

  unfoldable pub is_valid_proposal : Proposal L S → ℕ → ℕ → Bool
  unfolding all_valid_aggregations
  is_valid_proposal p height two_thirds =
      all_valid_aggregations p.preproposals height two_thirds
      && signed_by (of_proposal p.block_height p.source p.preproposals p.solutions) p.signature
          p.source

  unfoldable pub generate_pre_proposal : ℕ → ℕ → List L → List S → PreProposal L S
  generate_pre_proposal height sk limit searcher = record {
    block_height = height;
    source = c.peer_id sk;
    limit = limit;
    searcher = searcher;
    signature = c.sign sk (of_pre_proposal height limit searcher);
  }

  unfoldable pub new_aggregation : ℕ → ℕ → List (PreProposal L S) → PreProposalAggregation L S
  new_aggregation height sk pre_proposals = record {
    block_height = height;
    source = c.peer_id sk;
    pre_proposals = pre_proposals;
    signature = c.sign sk (of_aggregation height pre_proposals);
  }

  unfoldable pub generate_proposal :
      ℕ → ℕ → List (PreProposalAggregation L S) → List PoolSolution → Proposal L S
  unfolding sort_solutions
  generate_proposal height sk preproposals solutions =
      let sorted = sort_solutions solutions in
      record {
        block_height = height;
        source = c.peer_id sk;
        preproposals = preproposals;
        solutions = sorted;
        signature = c.sign sk (of_proposal height (c.peer_id sk) preproposals sorted);
      }
