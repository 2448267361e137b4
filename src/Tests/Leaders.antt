-- ===== src/Tests/Leaders.antt =====
-- Runs of the choice of a leader.
use appsec_seq.Base.{ℕ, ◌≡◌, refl, ◌<◌, ◌^◌, List, [], ◌∷◌, none, some, returns, arith}
use appsec_seq.Base.Int.{pos, negsuc, ◌+ℤ◌, ◌-ℤ◌, ◌*ℤ◌}
use appsec_seq.Leader.{
  AngstromValidator, WeightedRoundRobin, proposer_selection, choose_proposer, raise, round, rounds,
  center_priorities, scale_priorities, lower, total_voting_power, max_by, max_from, priority,
  replace, shift, scale_by, max_priority, min_priority, sum_priorities,
}
use appsec_seq.Leader.Words.{to_i64, add_i64, sub_i64, mul_i64, wrap_i64, quot}
use appsec_seq.Leader.Sums.{power_sum, priority_sum, proposer_selection-sum}
use appsec_seq.Leader.Rounds.{choose_proposer_catch_up}

abbrev validator : ℕ → ℕ → AngstromValidator
validator id power = record { peer_id = id; voting_power = power; priority = pos 0 }

abbrev set : List AngstromValidator → WeightedRoundRobin
set vs = record {
  validators = vs;
  new_joiner_penalty_factor = 1125;
  block_number = 10;
  last_proposer = none;
}

abbrev two : WeightedRoundRobin
two = set (validator 1 100 ∷ validator 2 200 ∷ [])

abbrev turned : WeightedRoundRobin
turned = set (validator 2 200 ∷ validator 1 100 ∷ [])

-- After the choice of validator 2.
abbrev chosen : WeightedRoundRobin
chosen = set (
    record { peer_id = 1; voting_power = 100; priority = pos 100 }
    ∷ record { peer_id = 2; voting_power = 200; priority = negsuc 99 }
    ∷ [])

abbrev chosen_turned : WeightedRoundRobin
chosen_turned = set (
    record { peer_id = 2; voting_power = 200; priority = negsuc 99 }
    ∷ record { peer_id = 1; voting_power = 100; priority = pos 100 }
    ∷ [])

abbrev leader_two : ℕ
leader_two = 2

abbrev leader_turned : ℕ
leader_turned = 2

two_power : power_sum two.validators < 2 ^ 62
unfolding power_sum
two_power = omega arith

two_chooses : proposer_selection two ≡ returns (chosen, 2)
unfolding proposer_selection raise lower total_voting_power max_by max_from priority replace to_i64
    add_i64 sub_i64 wrap_i64 ◌+ℤ◌ ◌-ℤ◌
two_chooses = refl

turned_chooses : proposer_selection turned ≡ returns (chosen_turned, 2)
unfolding proposer_selection raise lower total_voting_power max_by max_from priority replace to_i64
    add_i64 sub_i64 wrap_i64 ◌+ℤ◌ ◌-ℤ◌
turned_chooses = refl

proposer_selection-sum_example : priority_sum chosen.validators ≡ priority_sum two.validators
proposer_selection-sum_example =
    proposer_selection-sum two chosen 2 (ground arith) two_power (ground arith) two_chooses

-- After one block.
abbrev later : WeightedRoundRobin
later = record chosen { block_number = 11; last_proposer = some 2 }

two_at_11 : choose_proposer two 11 ≡ returns (later, some 2)
unfolding choose_proposer rounds round center_priorities shift scale_priorities scale_by
    max_priority min_priority sum_priorities quot mul_i64 proposer_selection raise lower
    total_voting_power max_by max_from priority replace to_i64 add_i64 sub_i64 wrap_i64 ◌+ℤ◌ ◌-ℤ◌
    ◌*ℤ◌
two_at_11 = refl

choose_proposer_catch_up_example : choose_proposer later 12 ≡ choose_proposer two 12
choose_proposer_catch_up_example =
    choose_proposer_catch_up two later 11 12 (some 2) (omega arith) (omega arith) (omega arith)
      two_at_11
