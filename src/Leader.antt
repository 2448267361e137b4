-- ===== src/Leader.antt =====
-- angstrom-main/crates/consensus/src/leader_selection.rs: weighted round robin over the validators.
-- A peer id is a number. An i64 is an integer that each operation wraps; the set of validators,
-- which compares them by peer id alone, is a list in the order of its iteration.
pub mod Words
pub mod Sums
pub mod Rounds
pub mod Selection
use Prim.Native.Nat.{compare, Ordering}
use appsec_seq.Base.{
  ℕ, zero, suc, ◌*◌, ◌/◌, ◌+◌, ◌%◌, ◌-◌, ◌^◌, Bool, true, false, List, [], ◌∷◌, map, length, Option,
  none, some, Outcome, returns, panics, ◌>>=◌, if◌then◌else◌, ◌==◌, ltb, add_u64, sub_u64, u64_mod,
}
use appsec_seq.Base.Int.{ℤ, pos, negsuc, ltb_ℤ, pos_part, neg_part}
use Words.{add_i64, sub_i64, mul_i64, to_i64, quot}

abbrev pub one_e3 : ℕ
one_e3 = 1000

abbrev pub penalty_factor : ℕ
penalty_factor = 1125

pub record AngstromValidator : Type 0 where
  pub peer_id : ℕ
  pub voting_power : ℕ
  pub priority : ℤ

unfoldable pub new_validator : ℕ → ℕ → AngstromValidator
new_validator name power = record {
  peer_id = name;
  voting_power = (power * one_e3) % u64_mod;
  priority = pos 0;
}

pub record WeightedRoundRobin : Type 0 where
  pub validators : List AngstromValidator
  pub new_joiner_penalty_factor : ℕ
  pub block_number : ℕ
  pub last_proposer : Option ℕ

-- `HashSet::insert` keeps the validator that it has.
unfoldable pub insert_validator :
    AngstromValidator → List AngstromValidator → List AngstromValidator
insert_validator v [] = v ∷ []
insert_validator v (x ∷ xs) = if x.peer_id == v.peer_id then x ∷ xs else x ∷ insert_validator v xs

unfoldable pub from_iter : List AngstromValidator → List AngstromValidator → List AngstromValidator
from_iter acc [] = acc
from_iter acc (v ∷ vs) = from_iter (insert_validator v acc) vs

-- `HashSet::replace` of a validator that is in the set.
unfoldable pub replace : AngstromValidator → List AngstromValidator → List AngstromValidator
replace v [] = []
replace v (x ∷ xs) = (if x.peer_id == v.peer_id then v else x) ∷ replace v xs

unfoldable pub remove_peer : ℕ → List AngstromValidator → List AngstromValidator
remove_peer id [] = []
remove_peer id (x ∷ xs) = let rest = remove_peer id xs in if x.peer_id == id then rest else x ∷ rest

unfoldable pub new : List AngstromValidator → ℕ → WeightedRoundRobin
unfolding from_iter
new vs start = record {
  validators = from_iter [] vs;
  new_joiner_penalty_factor = penalty_factor;
  block_number = start;
  last_proposer = none;
}

unfoldable pub total_voting_power : List AngstromValidator → ℕ
total_voting_power [] = 0
total_voting_power (v ∷ vs) = add_u64 v.voting_power (total_voting_power vs)

-- By priority, and by peer id between equal priorities.
unfoldable pub priority : AngstromValidator → AngstromValidator → Ordering
priority a b =
    if ltb_ℤ a.priority b.priority
    then Ordering.lt
    else if ltb_ℤ b.priority a.priority
    then Ordering.gt
    else compare a.peer_id b.peer_id

-- `max_by` keeps the earlier of two only if it is the greater one.
unfoldable pub max_from : AngstromValidator → List AngstromValidator → AngstromValidator
unfolding priority
max_from m [] = m
max_from m (x ∷ xs) =
    max_from (elim (priority m x) [ Ordering.gt ↦ m | Ordering.lt ↦ x | Ordering.eq ↦ x ]) xs

unfoldable pub max_by : List AngstromValidator → Option AngstromValidator
unfolding max_from
max_by [] = none
max_by (x ∷ xs) = some (max_from x xs)

unfoldable pub raise : AngstromValidator → AngstromValidator
raise v = record v { priority = add_i64 v.priority (to_i64 v.voting_power) }

unfoldable pub lower : ℕ → AngstromValidator → AngstromValidator
lower total v = record v { priority = sub_i64 v.priority (to_i64 total) }

unfoldable pub proposer_selection : WeightedRoundRobin → Outcome (WeightedRoundRobin × ℕ)
unfolding raise lower
proposer_selection w =
    let total = total_voting_power w.validators in
    let raised = map raise w.validators in
    elim (max_by raised) [
      | none ↦ panics
      | some p ↦ returns (record w { validators = replace (lower total p) raised }, p.peer_id)
    ]

unfoldable pub sum_priorities : List AngstromValidator → ℤ
sum_priorities [] = pos 0
sum_priorities (v ∷ vs) = add_i64 v.priority (sum_priorities vs)

unfoldable pub shift : ℤ → AngstromValidator → AngstromValidator
shift avg v = record v { priority = sub_i64 v.priority avg }

-- A division by the length of an empty set panics.
unfoldable pub center_priorities : WeightedRoundRobin → Outcome WeightedRoundRobin
unfolding shift
center_priorities w = elim w.validators [
  | [] ↦ panics
  | v ∷ vs ↦ returns (record w {
    validators =
        map (shift (quot (sum_priorities w.validators) (pos (length w.validators)))) w.validators;
  })
]

abbrev pub max_ℤ : ℤ → ℤ → ℤ
max_ℤ a b = if ltb_ℤ a b then b else a

abbrev pub min_ℤ : ℤ → ℤ → ℤ
min_ℤ a b = if ltb_ℤ b a then b else a

abbrev pub i64_min : ℤ
i64_min = negsuc (2 ^ 63 - 1)

abbrev pub i64_max : ℤ
i64_max = pos (2 ^ 63 - 1)

unfoldable pub max_priority : ℤ → List AngstromValidator → ℤ
max_priority m [] = m
max_priority m (v ∷ vs) = max_priority (max_ℤ m v.priority) vs

unfoldable pub min_priority : ℤ → List AngstromValidator → ℤ
min_priority m [] = m
min_priority m (v ∷ vs) = min_priority (min_ℤ m v.priority) vs

unfoldable pub scale_by : ℤ → AngstromValidator → AngstromValidator
scale_by scale v = record v { priority = quot (mul_i64 v.priority (pos one_e3)) scale }

abbrev pub is_zero_ℤ : ℤ → Bool
is_zero_ℤ (pos n) = n == 0
is_zero_ℤ (negsuc n) = false

-- A division by a threshold or a scale of zero panics.
unfoldable pub scale_priorities : WeightedRoundRobin → Outcome WeightedRoundRobin
unfolding scale_by max_priority min_priority
scale_priorities w =
    let diff = sub_i64 (max_priority i64_min w.validators) (min_priority i64_max w.validators) in
    let threshold = mul_i64 (pos 2) (to_i64 (total_voting_power w.validators)) in
    let scale = quot (mul_i64 diff (pos one_e3)) threshold in
    if ltb_ℤ threshold diff
    then (if is_zero_ℤ threshold
        then panics
        else if is_zero_ℤ scale
        then panics
        else returns (record w { validators = map (scale_by scale) w.validators }))
    else returns w

-- One round of catching up, which also notes the leader.
unfoldable pub round : WeightedRoundRobin → Outcome WeightedRoundRobin
round w = do
  centered ← center_priorities w
  scaled ← scale_priorities centered
  chosen ← proposer_selection scaled
  returns (record (chosen.0) { last_proposer = some chosen.1 })

unfoldable pub rounds : ℕ → WeightedRoundRobin → Outcome WeightedRoundRobin
rounds zero w = returns w
rounds (suc n) w = do w' ← round w; rounds n w'

-- The first call for the block at which the set started.
unfoldable pub same_block : WeightedRoundRobin → Outcome (WeightedRoundRobin × Option ℕ)
same_block w = elim w.last_proposer [
  | some p ↦ returns (w, some p)
  | none ↦ (do
    chosen ← proposer_selection w
    returns (record (chosen.0) { last_proposer = some chosen.1 }, some chosen.1))
]

-- The leader of the last round; there is at least one, or the block would be the same.
unfoldable pub choose_proposer : WeightedRoundRobin → ℕ → Outcome (WeightedRoundRobin × Option ℕ)
unfolding same_block
choose_proposer w block =
    let same = same_block w in
    let others = (do
      w' ← rounds (sub_u64 block w.block_number) w
      returns (record w' { block_number = block }, w'.last_proposer)) in
    if block == w.block_number then same else others

unfoldable pub remove_validator : WeightedRoundRobin → ℕ → WeightedRoundRobin
unfolding remove_peer
remove_validator w id = record w { validators = remove_peer id w.validators }

unfoldable pub add_validator : WeightedRoundRobin → ℕ → ℕ → WeightedRoundRobin
unfolding insert_validator new_validator
add_validator w id power =
    let penalty =
      (w.new_joiner_penalty_factor * total_voting_power w.validators) % u64_mod / one_e3 in
    let v = new_validator id power in
    record w {
      validators =
          insert_validator (record v { priority = sub_i64 v.priority (to_i64 penalty) })
            w.validators;
    }
