-- ===== src/Consensus/Rounds/Steps.antt =====
-- The round's machine as a step relation.
use appsec_seq.Base.{
  ℕ, ◌≡◌, refl, List, Option, none, arith, returns, [], ◌∷◌, some, subst, sym, ◌∙◌, panics, ◌⊎◌,
  inl, inr,
}
use appsec_seq.Base.Maps.{Eq}
use appsec_seq.OrderPool.Validator.{Poll}
use appsec_seq.Consensus.{
  PreProposal, PreProposalAggregation, Proposal, Signing, all_valid, all_valid_aggregations,
}
use appsec_seq.Consensus.Rounds.{
  SharedRoundState, StromConsensusEvent, ConsensusMessage, two_thirds_of_validation_set,
  i_am_leader,
}
use appsec_seq.Consensus.Rounds.States.{
  RoundState, bid_aggregation, pre_proposal, pre_proposal_aggregation, proposing, finalization,
  Found, on_consensus_message, poll_next, poll_transition, reset_round, new_bid_aggregation, moved,
}
use appsec_seq.Consensus.Rounds.Sound.{IsSound, IsOk, on_message-IsSound}
use appsec_seq.Consensus.Rounds.Polls.{poll_transition-IsSound}

-- A result that is returned in two ways.
returned : {A : Type 0} {x y : A} → returns x ≡ returns y → x ≡ y
returned e = ground arith

module _ {L S : Type 0} ⦃c : Signing L S⦄ ⦃ep : Eq (PreProposal L S)⦄
    ⦃ea : Eq (PreProposalAggregation L S)⦄ ⦃el : Eq L⦄ ⦃es : Eq S⦄ where
  -- The states that a node comes to from its start, by messages, polls and new blocks.
  pub data Reached (s : SharedRoundState L S) : SharedRoundState L S → RoundState L S → Type 0 where
    starts : Reached s s new_bid_aggregation
    hears :
        {t : SharedRoundState L S} {st : RoundState L S} (m : StromConsensusEvent L S)
        → Reached s t st
        → Reached s (on_consensus_message t st m).0 (on_consensus_message t st m).1
    polls :
        {t u : SharedRoundState L S} {st next : RoundState L S} (f : Found L S)
        (sent : Option (ConsensusMessage L S))
        → poll_next f t st ≡ returns (u, next, sent)
        → Reached s t st
        → Reached s u next
    resets :
        {t : SharedRoundState L S} {st : RoundState L S} (block leader : ℕ)
        → Reached s t st
        → Reached s (reset_round block leader t).0 (reset_round block leader t).1

  reset_round-IsSound :
      (block leader : ℕ) (s : SharedRoundState L S)
      → IsSound (reset_round block leader s).0 (reset_round block leader s).1
  unfolding reset_round new_bid_aggregation all_valid all_valid_aggregations
  reset_round-IsSound block leader s = (refl, refl, tt)

  still-IsOk :
      (s : SharedRoundState L S) (ms : List (ConsensusMessage L S)) (p : Option (Proposal L S))
      → IsOk s p
      → IsOk (record s { messages = ms }) p
  unfolding two_thirds_of_validation_set
  still-IsOk s ms none w = tt
  still-IsOk s ms (some p) w = w

  taken-IsSound :
      (s : SharedRoundState L S) (ms : List (ConsensusMessage L S)) (st : RoundState L S)
      → IsSound s st
      → IsSound (record s { messages = ms }) st
  unfolding two_thirds_of_validation_set i_am_leader
  taken-IsSound s ms (bid_aggregation ps aggs none) w = w
  taken-IsSound s ms (bid_aggregation ps aggs (some p)) w = w
  taken-IsSound s ms (pre_proposal ps aggs none) w = w
  taken-IsSound s ms (pre_proposal ps aggs (some p)) w = w
  taken-IsSound s ms (pre_proposal_aggregation aggs none) w = w
  taken-IsSound s ms (pre_proposal_aggregation aggs (some p)) w = w
  taken-IsSound s ms (proposing st) w = record {
    aggregations = w.aggregations;
    leader = w.leader;
    enough = w.enough;
    built = w.built;
    valid = still-IsOk s ms st.proposal w.valid;
  }
  taken-IsSound s ms (finalization p orders completed) w = w

  poll_next_at :
      (f : Found L S) (s t : SharedRoundState L S) (st next : RoundState L S)
      (r : Poll (RoundState L S)) (ms : List (ConsensusMessage L S))
      → poll_transition f s st ≡ returns (t, next, r)
      → t.messages ≡ ms
      → IsSound t (moved next r)
      → (u : SharedRoundState L S) × (sent : Option (ConsensusMessage L S)) × (poll_next f s st
          ≡ returns (u, moved next r, sent))
        × IsSound u (moved next r)
  unfolding poll_next
  poll_next_at f s t st next r [] e m w = (t, none, ground arith, w)
  poll_next_at f s t st next r (x ∷ xs) e m w =
      (record t { messages = xs }, some x, ground arith, taken-IsSound t xs (moved next r) w)

  poll_next-IsSound :
      (f : Found L S) (s : SharedRoundState L S) (st : RoundState L S)
      → IsSound s st
      → (poll_next f s st ≡ panics) × (f.from_proposal ≡ panics)
        ⊎ ((t : SharedRoundState L S) × (next : RoundState L S) × (sent : Option
              (ConsensusMessage L S))
            × (poll_next f s st ≡ returns (t, next, sent))
            × IsSound t next)
  unfolding poll_next
  poll_next-IsSound f s st w = elim (poll_transition-IsSound f s st w) [
    | inl (e, p) ↦ inl (ground arith, p)
    | inr (t, next, r, e, k) ↦
        let (u, sent, e', k') = poll_next_at f s t st next r t.messages e refl k in
        inr (u, moved next r, sent, e', k')
  ]

  Reached-IsSound :
      {s t : SharedRoundState L S} {st : RoundState L S} → Reached s t st → IsSound t st
  unfolding new_bid_aggregation all_valid all_valid_aggregations
  Reached-IsSound starts = (refl, refl, tt)
  Reached-IsSound (hears {t = t} {st = st} m r) = on_message-IsSound t st m (Reached-IsSound r)
  Reached-IsSound (polls {t = t} {u = u} {st = st} {next = next} f sent e r) =
      elim (poll_next-IsSound f t st (Reached-IsSound r)) [
        | inl (fails, p) ↦ absurd (ground arith)
        | inr (u', next', sent', e', k) ↦ subst (λ x. IsSound x.0 x.1) (returned (sym e' ∙ e)) k
      ]
  Reached-IsSound (resets {t = t} block leader r) = reset_round-IsSound block leader t

  -- Whatever messages come in, from whomever, and whatever the polls find: in every state that a node comes
  -- to, all pre-proposals, aggregations and proposals that it holds are valid for its height and its
  -- validators, and it builds a proposal only as the leader and from two thirds of the validators' number
  -- of aggregations. The next poll returns, or it panics and building the bundle panics in it.
  pub Reached-poll_next :
      {s t : SharedRoundState L S} {st : RoundState L S} (f : Found L S)
      → Reached s t st
      → IsSound t st
        × ((poll_next f t st ≡ panics) × (f.from_proposal ≡ panics)
            ⊎ ((u : SharedRoundState L S) × (next : RoundState L S) × (sent : Option
                  (ConsensusMessage L S))
                × (poll_next f t st ≡ returns (u, next, sent))))
  Reached-poll_next {t = t} {st = st} f r = elim (poll_next-IsSound f t st (Reached-IsSound r)) [
    | inl fails ↦ (Reached-IsSound r, inl fails)
    | inr (u, next, sent, e, k) ↦ (Reached-IsSound r, inr (u, next, sent, e))
  ]
