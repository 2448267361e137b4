-- ===== src/Consensus/Rounds.antt =====
-- angstrom-main/crates/consensus/src/rounds/mod.rs: what the states of a round share, and the messages that
-- they take and send. A HashSet is a list without repetition; wake-ups and metrics are left out.
pub mod States
pub mod Quorum
pub mod Valid
pub mod Sound
pub mod Polls
pub mod Steps
pub mod Votes
use appsec_seq.Base.{
  ℕ, suc, ◌+◌, ◌*◌, ◌/◌, Bool, true, false, not, ◌||◌, List, [], ◌∷◌, ◌++◌, Option, none, some,
  ◌==◌, if◌then◌else◌, ltb, leb, length,
}
use appsec_seq.Base.Maps.{Eq, nat_eq, Map, get, insert}
use appsec_seq.Leader.{AngstromValidator}
use appsec_seq.Consensus.{
  PreProposal, PreProposalAggregation, Proposal, Signing, is_valid_pre_proposal,
  is_valid_aggregation, is_valid_proposal,
}

pub data ConsensusMessage (L S : Type 0) : Type 0 where
  propagate_pre_proposal : PreProposal L S → ConsensusMessage L S
  propagate_pre_proposal_agg : PreProposalAggregation L S → ConsensusMessage L S
  propagate_proposal : Proposal L S → ConsensusMessage L S
  propagate_empty_block_attestation : ℕ → ConsensusMessage L S

-- A message with the peer that sent it.
pub data StromConsensusEvent (L S : Type 0) : Type 0 where
  pre_proposal_event : ℕ → PreProposal L S → StromConsensusEvent L S
  pre_proposal_agg_event : ℕ → PreProposalAggregation L S → StromConsensusEvent L S
  proposal_event : ℕ → Proposal L S → StromConsensusEvent L S
  bundle_unlock_attestation : ℕ → ℕ → ℕ → StromConsensusEvent L S

-- `signer` is the address of the node.
pub record SharedRoundState (L S : Type 0) : Type 0 where
  pub block_height : ℕ
  pub signer : ℕ
  pub round_leader : ℕ
  pub validators : List AngstromValidator
  pub messages : List (ConsensusMessage L S)

abbrev pub or_zero : Option ℕ → ℕ
or_zero none = 0
or_zero (some n) = n

module _ {ℓ} {A : Type ℓ} ⦃e : Eq A⦄ where
  unfoldable pub contains : A → List A → Bool
  contains x [] = false
  contains x (y ∷ ys) = e.beq y x || contains x ys

  unfoldable pub insert_set : A → List A → List A
  insert_set x xs = if contains x xs then xs else xs ++ x ∷ []

  -- `collect` into a set.
  unfoldable pub as_set : List A → List A → List A
  unfolding insert_set
  as_set acc [] = acc
  as_set acc (x ∷ xs) = as_set (insert_set x acc) xs

  -- How often each order occurs.
  unfoldable pub counts : Map A ℕ → List A → Map A ℕ
  counts acc [] = acc
  counts acc (o ∷ os) = counts (insert o (suc (or_zero (get o acc))) acc) os

  unfoldable pub at_least : ℕ → Map A ℕ → List A
  at_least n [] = []
  at_least n ((o, k) ∷ m) = let rest = at_least n m in if leb n k then o ∷ rest else rest

unfoldable pub is_validator : ℕ → List AngstromValidator → Bool
is_validator peer [] = false
is_validator peer (v ∷ vs) = v.peer_id == peer || is_validator peer vs

module _ {L S : Type 0} where
  unfoldable pub new : ℕ → ℕ → ℕ → List AngstromValidator → SharedRoundState L S
  new height signer leader validators = record {
    block_height = height;
    signer = signer;
    round_leader = leader;
    validators = validators;
    messages = [];
  }

  unfoldable pub propagate_message :
      SharedRoundState L S → ConsensusMessage L S → SharedRoundState L S
  propagate_message s m = record s { messages = s.messages ++ m ∷ [] }

  unfoldable pub i_am_leader : SharedRoundState L S → Bool
  i_am_leader s = s.round_leader == s.signer

  -- `div_ceil`.
  unfoldable pub two_thirds_of_validation_set : SharedRoundState L S → ℕ
  two_thirds_of_validation_set s = (2 * length s.validators + 2) / 3

  unfoldable pub filter_quorum_orders {ℓ} :
      {O : Type ℓ} → ⦃e : Eq O⦄ → SharedRoundState L S → List O → List O
  unfolding at_least counts
  filter_quorum_orders s input = at_least (two_thirds_of_validation_set s) (counts [] input)

  -- The caller evaluates `valid` on the proposal and the block height.
  unfoldable pub handle_proposal_verification :
      {P : Type 0}
      → ⦃e : Eq P⦄ → SharedRoundState L S
      → ℕ
      → P
      → List P
      → Bool
      → (P → ConsensusMessage L S)
      → SharedRoundState L S × List P
  unfolding contains propagate_message is_validator
  handle_proposal_verification s peer p set valid message =
      if not (is_validator peer s.validators)
      then (s, set)
      else if not valid
      then (s, set)
      else if contains p set
      then (s, set)
      else (propagate_message s (message p), set ++ p ∷ [])

  -- The orders that are given to the matching engine.
  unfoldable pub all_limit : List (PreProposal L S) → List L
  all_limit [] = []
  all_limit (p ∷ ps) = p.limit ++ all_limit ps

  unfoldable pub all_searcher : List (PreProposal L S) → List S
  all_searcher [] = []
  all_searcher (p ∷ ps) = p.searcher ++ all_searcher ps

  unfoldable pub all_pre_proposals : List (PreProposalAggregation L S) → List (PreProposal L S)
  all_pre_proposals [] = []
  all_pre_proposals (a ∷ rest) = a.pre_proposals ++ all_pre_proposals rest

  unfoldable pub matching_engine_output :
      ⦃el : Eq L⦄
      → ⦃es : Eq S⦄ → SharedRoundState L S
      → List (PreProposalAggregation L S)
      → List L × List S
  unfolding filter_quorum_orders all_limit all_searcher all_pre_proposals
  matching_engine_output s aggs =
      let ps = all_pre_proposals aggs in
      (filter_quorum_orders s (all_limit ps), filter_quorum_orders s (all_searcher ps))

  module _ ⦃c : Signing L S⦄ where
    unfoldable pub handle_pre_proposal :
        ⦃e : Eq (PreProposal L S)⦄
        → SharedRoundState L S
        → ℕ
        → PreProposal L S
        → List (PreProposal L S)
        → SharedRoundState L S × List (PreProposal L S)
    unfolding handle_proposal_verification
    handle_pre_proposal s peer p set =
        handle_proposal_verification s peer p set (is_valid_pre_proposal p s.block_height)
          propagate_pre_proposal

    unfoldable pub handle_pre_proposal_aggregation :
        ⦃e : Eq (PreProposalAggregation L S)⦄
        → SharedRoundState L S
        → ℕ
        → PreProposalAggregation L S
        → List (PreProposalAggregation L S)
        → SharedRoundState L S × List (PreProposalAggregation L S)
    unfolding handle_proposal_verification
    handle_pre_proposal_aggregation s peer a set =
        handle_proposal_verification s peer a set
          (is_valid_aggregation a s.block_height (two_thirds_of_validation_set s))
          propagate_pre_proposal_agg

    unfoldable pub verify_proposal :
        SharedRoundState L S → ℕ → Proposal L S → SharedRoundState L S × Option (Proposal L S)
    unfolding propagate_message
    verify_proposal s peer p =
        if not (s.round_leader == peer)
        then (s, none)
        else if is_valid_proposal p s.block_height (two_thirds_of_validation_set s)
        then (propagate_message s (propagate_proposal p), some p)
        else (s, none)
