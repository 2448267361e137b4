-- ===== src/Peers/Bans.antt =====
-- When a peer is banned, and what a ban entails.
use appsec_seq.Base.{ℕ, zero, suc, ◌+◌, ◌-◌, ◌*◌, ◌^◌, ◌≡◌, refl, List, [], ◌∷◌, ltb, arith}
use appsec_seq.Base.Int.{ℤ, pos, negsuc, ◌≤ℤ◌, +ℤ_parts, pos_part, neg_part}
use appsec_seq.Base.Maps.{nat_eq}
use appsec_seq.Peers.{
  ReputationChangeKind, bad_message, bad_order, bad_composable_order, bad_bundle, invalid_order,
  reset, is_banned_reputation, default_weights, change, Peer, i32_min, i32_max, saturating_add,
  is_banned, apply_reputation,
}

-- How much a kind takes off, with the default weights.
abbrev pub penalty : ReputationChangeKind → ℕ
penalty bad_message = 5 * 1024
penalty bad_order = 10 * 1024
penalty bad_composable_order = 15 * 1024
penalty bad_bundle = 20 * 1024
penalty invalid_order = 17 * 1024
penalty reset = 0

abbrev pub penalties : List ReputationChangeKind → ℕ
penalties [] = 0
penalties (k ∷ ks) = penalty k + penalties ks

abbrev pub minus : ℕ → ℤ
minus zero = pos 0
minus (suc n) = negsuc n

pub change_default : (k : ReputationChangeKind) → change default_weights k ≡ minus (penalty k)
unfolding change default_weights
change_default bad_message = refl
change_default bad_order = refl
change_default bad_composable_order = refl
change_default bad_bundle = refl
change_default invalid_order = refl
change_default reset = refl

-- The peer after several changes.
abbrev pub apply_each : List ReputationChangeKind → Peer → Peer
apply_each [] p = p
apply_each (k ∷ ks) p = apply_each ks (apply_reputation (change default_weights k) p).0

abbrev pub IsI32 : ℤ → Type 0
IsI32 r = (i32_min ≤ℤ r) × (r ≤ℤ i32_max)

-- How far a reputation is above the least one.
abbrev pub above : ℤ → ℕ
above r = pos_part r + 2 ^ 31 - neg_part r

parts_minus : (n : ℕ) → (pos_part (minus n) ≡ 0) × (neg_part (minus n) ≡ n)
parts_minus zero = (refl, refl)
parts_minus (suc n) = (refl, refl)

saturating_add-IsI32 : (r s : ℤ) → IsI32 (saturating_add r s)
unfolding saturating_add
saturating_add-IsI32 r s = ground arith

above-saturating_add : (r : ℤ) (n : ℕ) → IsI32 r → above (saturating_add r (minus n)) ≡ above r - n
unfolding saturating_add
above-saturating_add r n h = ground (arith, +ℤ_parts r (minus n), parts_minus n)

pub above_exact : (r s : ℤ) → IsI32 r → IsI32 s → above r ≡ above s → r ≡ s
above_exact (pos m) (pos n) h k e = ground arith
above_exact (pos m) (negsuc n) h k e = ground arith
above_exact (negsuc m) (pos n) h k e = ground arith
above_exact (negsuc m) (negsuc n) h k e = ground arith

pub is_banned-above :
    (r : ℤ) → IsI32 r → is_banned_reputation r ≡ ltb (above r) (2 ^ 31 - 50 * 1024)
unfolding is_banned_reputation
is_banned-above r h = ground arith

pub reputation_applied :
    (r : ℤ) (p : Peer) → (apply_reputation r p).0.reputation ≡ saturating_add p.reputation r
unfolding apply_reputation
reputation_applied r p = ground arith

pub above-reputation :
    (k : ReputationChangeKind) (p : Peer)
    → IsI32 p.reputation
    → above (apply_reputation (change default_weights k) p).0.reputation
      ≡ above p.reputation - penalty k
above-reputation k p h =
    rw (reputation_applied (change default_weights k) p, change_default k)
      (above-saturating_add p.reputation (penalty k) h)

pub reputation-IsI32 : (r : ℤ) (p : Peer) → IsI32 (apply_reputation r p).0.reputation
reputation-IsI32 r p = rw (reputation_applied r p) (saturating_add-IsI32 p.reputation r)

above-apply_each :
    (ks : List ReputationChangeKind) (p : Peer)
    → IsI32 p.reputation
    → above (apply_each ks p).reputation ≡ above p.reputation - penalties ks
above-apply_each [] p h = ground arith
above-apply_each (k ∷ ks) p h = ground (
  arith,
  above-reputation k p h,
  above-apply_each ks (apply_reputation (change default_weights k) p).0
      (reputation-IsI32 (change default_weights k) p),
)

apply_each-IsI32 :
    (ks : List ReputationChangeKind) (p : Peer)
    → IsI32 p.reputation
    → IsI32 (apply_each ks p).reputation
apply_each-IsI32 [] p h = h
apply_each-IsI32 (k ∷ ks) p h =
    apply_each-IsI32 ks (apply_reputation (change default_weights k) p).0
      (reputation-IsI32 (change default_weights k) p)

-- With the default weights, a peer that starts at the default reputation is banned after a list of
-- changes exactly if the penalties of the list add up to more than 50 * 1024, in whatever order they
-- came and with whatever resets between them.
pub banned_by_sum :
    (ks : List ReputationChangeKind) (p : Peer)
    → p.reputation ≡ pos 0
    → is_banned (apply_each ks p) ≡ ltb (50 * 1024) (penalties ks)
unfolding is_banned
banned_by_sum ks p e =
    let start : IsI32 p.reputation = ground arith in
    ground (
      arith,
      above-apply_each ks p start,
      is_banned-above (apply_each ks p).reputation (apply_each-IsI32 ks p start),
    )
