-- ===== src/Leader/Sums.antt =====
-- The sum of the priorities in a choice of Leader.
use appsec_seq.Base.{
  ℕ, ◌+◌, ◌^◌, ◌≤◌, ◌<◌, ◌≡◌, ◌≢◌, refl, sym, ap, ◌∙◌, false, List, [], ◌∷◌, map, some, returns,
  ◌==◌, ==_iff, inl, inr, All, All-imp, Option-cases, arith,
}
use appsec_seq.Base.Int.{ℤ, pos, pos_part, neg_part, ◌+ℤ◌, ◌-ℤ◌, +ℤ_parts, -ℤ_parts, int_laws}
use appsec_seq.Leader.Words.{wrap_i64-eq, to_i64, add_i64, sub_i64}
use appsec_seq.Leader.{
  AngstromValidator, WeightedRoundRobin, total_voting_power, raise, lower, replace, max_by,
  proposer_selection,
}
use appsec_seq.Leader.Selection.{In, All-In, max_by_lem}

-- The sum of the priorities, and of the powers, in unbounded numbers.
unfoldable pub priority_sum : List AngstromValidator → ℤ
priority_sum [] = pos 0
priority_sum (v ∷ vs) = v.priority +ℤ priority_sum vs

unfoldable pub power_sum : List AngstromValidator → ℕ
power_sum [] = 0
power_sum (v ∷ vs) = v.voting_power + power_sum vs

-- No validator's priority is 2^62 or more away from zero.
abbrev pub IsCalm : List AngstromValidator → Type 0
IsCalm = All (λ v. (neg_part v.priority < 2 ^ 62) × (pos_part v.priority < 2 ^ 62))

abbrev pub DistinctPeers : List AngstromValidator → Type 0
DistinctPeers [] = Unit
DistinctPeers (v ∷ vs) = All (λ x. x.peer_id ≢ v.peer_id) vs × DistinctPeers vs

total-eq-power_sum :
    (vs : List AngstromValidator) → power_sum vs < 2 ^ 62 → total_voting_power vs ≡ power_sum vs
unfolding total_voting_power power_sum
total-eq-power_sum [] h = refl
total-eq-power_sum (v ∷ vs) h = ground (arith, total-eq-power_sum vs)

raise-priority :
    (v : AngstromValidator)
    → neg_part v.priority < 2 ^ 62
    → pos_part v.priority < 2 ^ 62
    → v.voting_power < 2 ^ 62
    → (raise v).priority ≡ v.priority +ℤ pos v.voting_power
unfolding raise add_i64 to_i64
raise-priority v a b c = ground (
  arith,
  wrap_i64-eq (pos v.voting_power),
  wrap_i64-eq (v.priority +ℤ pos v.voting_power),
  +ℤ_parts v.priority (pos v.voting_power),
)

sum-raise :
    (vs : List AngstromValidator)
    → IsCalm vs
    → power_sum vs < 2 ^ 62
    → priority_sum (map raise vs) ≡ priority_sum vs +ℤ pos (power_sum vs)
unfolding priority_sum power_sum
sum-raise [] a b = omega int_laws
sum-raise (v ∷ vs) a b = omega (
  int_laws,
  ap pos_part (raise-priority v a.0.0 a.0.1 (omega arith)),
  ap neg_part (raise-priority v a.0.0 a.0.1 (omega arith)),
  ap pos_part (sum-raise vs a.1 (omega arith)),
  ap neg_part (sum-raise vs a.1 (omega arith)),
)

-- A validator whose priority is not too far from zero to be lowered by the powers.
abbrev CanLower : AngstromValidator → Type 0
CanLower v = (neg_part v.priority < 2 ^ 62) × (pos_part v.priority < 2 ^ 63)

lower-priority :
    (total : ℕ) (v : AngstromValidator)
    → total < 2 ^ 62
    → CanLower v
    → (lower total v).priority ≡ v.priority -ℤ pos total
unfolding lower sub_i64 to_i64
lower-priority total v a b = ground (
  arith,
  wrap_i64-eq (pos total),
  wrap_i64-eq (v.priority -ℤ pos total),
  -ℤ_parts v.priority (pos total),
)

+ℤ_pos : (a : ℤ) (n : ℕ) → pos_part (a +ℤ pos n) ≤ pos_part a + n
unfolding ◌+ℤ◌
+ℤ_pos a n = ground arith

+ℤ_neg : (a : ℤ) (n : ℕ) → neg_part (a +ℤ pos n) ≤ neg_part a
unfolding ◌+ℤ◌
+ℤ_neg a n = ground arith

raise-CanLower :
    (vs : List AngstromValidator) → IsCalm vs → power_sum vs < 2 ^ 62 → All CanLower (map raise vs)
unfolding power_sum
raise-CanLower [] a b = tt
raise-CanLower (v ∷ vs) a b =
    let e = raise-priority v a.0.0 a.0.1 (omega arith) in
    (
      (
        ground
            (arith, e, +ℤ_parts v.priority (pos v.voting_power), +ℤ_neg v.priority v.voting_power),
        ground
            (arith, e, +ℤ_parts v.priority (pos v.voting_power), +ℤ_pos v.priority v.voting_power),
      ),
      raise-CanLower vs a.1 (omega arith),
    )

replace-absent :
    (q : AngstromValidator) (xs : List AngstromValidator)
    → All (λ x. x.peer_id ≢ q.peer_id) xs
    → replace q xs ≡ xs
unfolding replace
replace-absent q [] a = refl
replace-absent q (x ∷ xs) a = ground (arith, replace-absent q xs a.1)

not_same : (a b : ℕ) → a ≢ b → (a == b) ≡ false
not_same a b h = ground arith

sum-replace :
    (m q : AngstromValidator) (t : ℕ) (xs : List AngstromValidator)
    → In m xs
    → DistinctPeers xs
    → q.peer_id ≡ m.peer_id
    → q.priority ≡ m.priority -ℤ pos t
    → priority_sum (replace q xs) ≡ priority_sum xs -ℤ pos t
unfolding priority_sum replace
sum-replace m q t [] i d e f = absurd i
sum-replace m q t (x ∷ xs) (inl h) d e f =
    let same : q.peer_id ≡ x.peer_id = e ∙ ap (λ v. v.peer_id) h in
    rw
      (
        (==_iff x.peer_id q.peer_id).1 (sym same),
        replace-absent q xs (All-imp xs (λ y n. λ r. n (r ∙ same)) d.0),
      )
      (omega (
        int_laws,
        ap pos_part f,
        ap neg_part f,
        ap (λ (v : AngstromValidator). pos_part v.priority) h,
        ap (λ (v : AngstromValidator). neg_part v.priority) h,
      ))
sum-replace m q t (x ∷ xs) (inr i) d e f =
    let other : m.peer_id ≢ x.peer_id = All-In (λ y. y.peer_id ≢ x.peer_id) m xs d.0 i in
    let rest = sum-replace m q t xs i d.1 e f in
    rw (not_same x.peer_id q.peer_id (λ r. other (sym e ∙ sym r)), rest) (omega int_laws)

raise-others :
    (v : AngstromValidator) (vs : List AngstromValidator)
    → All (λ x. x.peer_id ≢ v.peer_id) vs
    → All (λ x. x.peer_id ≢ (raise v).peer_id) (map raise vs)
unfolding raise
raise-others v [] a = tt
raise-others v (x ∷ vs) a = (a.0, raise-others v vs a.1)

raise-DistinctPeers :
    (vs : List AngstromValidator) → DistinctPeers vs → DistinctPeers (map raise vs)
raise-DistinctPeers [] d = tt
raise-DistinctPeers (v ∷ vs) d = (raise-others v vs d.0, raise-DistinctPeers vs d.1)

lower-peer_id : (t : ℕ) (v : AngstromValidator) → (lower t v).peer_id ≡ v.peer_id
unfolding lower
lower-peer_id t v = refl

-- The list that a choice leaves.
chosen_validators :
    (w u : WeightedRoundRobin) (p : ℕ)
    → proposer_selection w ≡ returns (u, p)
    → (m : AngstromValidator) × (max_by (map raise w.validators) ≡ some m)
      × (u.validators
          ≡ replace (lower (total_voting_power w.validators) m) (map raise w.validators))
unfolding proposer_selection
chosen_validators w u p e = elim (Option-cases (max_by (map raise w.validators))) [
  | inl f ↦ absurd (ground arith)
  | inr (m, f) ↦ (m, f, ground arith)
]

-- With priorities and powers far from the limits of an i64 and one validator to a peer id, a choice
-- leaves the sum of all priorities as it was.
pub proposer_selection-sum :
    (w u : WeightedRoundRobin) (p : ℕ)
    → IsCalm w.validators
    → power_sum w.validators < 2 ^ 62
    → DistinctPeers w.validators
    → proposer_selection w ≡ returns (u, p)
    → priority_sum u.validators ≡ priority_sum w.validators
proposer_selection-sum w u p a b d e =
    let (m, f, g) = chosen_validators w u p e in
    let (i, top) = max_by_lem (map raise w.validators) m f in
    let t = total-eq-power_sum w.validators b in
    let low =
      lower-priority (power_sum w.validators) m b
        (All-In CanLower m (map raise w.validators) (raise-CanLower w.validators a b) i) in
    let swapped =
      sum-replace m (lower (power_sum w.validators) m) (power_sum w.validators)
        (map raise w.validators) i (raise-DistinctPeers w.validators d)
        (lower-peer_id (power_sum w.validators) m) low in
    let raised = sum-raise w.validators a b in
    rw (g, t)
      (omega (
        int_laws,
        ap pos_part swapped,
        ap neg_part swapped,
        ap pos_part raised,
        ap neg_part raised,
      ))
