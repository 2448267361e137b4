-- ===== src/Peers/Default.antt =====
-- Sequences of calls with the default weights.
use appsec_seq.Base.{
  ℕ, ◌≡◌, refl, sym, ap, ◌∙◌, subst, inl, inr, Option-cases, true, false, List, [], ◌∷◌, some, ◌==◌,
  Bool-cases, arith,
}
use appsec_seq.Base.Int.{pos, ◌+ℤ◌, +ℤ_parts, eq_of_parts}
use appsec_seq.Base.Maps.{get, insert, nat_eq, get-insert}
use appsec_seq.Peers.{
  ReputationChangeKind, reset, ReputationChangeOutcome, change, default_weights, Peer, basic,
  PeersManager, is_banned, apply_reputation, saturating_add, no_change, ban, disconnect_and_ban,
  unban, act, change_weight, remove_peer, remove_peer_from_trusted_set, poll, is_trusted,
}
use appsec_seq.Peers.Bans.{IsI32, above-reputation, reputation-IsI32, is_banned-above}
use appsec_seq.Peers.Barred.{
  Call, weigh, drop, distrust, next, calls, change_weight-none, change_weight-some, act_peers,
}

-- A peer that is banned before a change is banned after it.
still_banned :
    (k : ReputationChangeKind) (p : Peer)
    → IsI32 p.reputation
    → is_banned p ≡ true
    → is_banned (apply_reputation (change default_weights k) p).0 ≡ true
unfolding is_banned
still_banned k p h b = ground (
  arith,
  above-reputation k p h,
  is_banned-above p.reputation h,
  is_banned-above (apply_reputation (change default_weights k) p).0.reputation
      (reputation-IsI32 (change default_weights k) p),
)

module _ {BanList Reason : Type 0} (put : BanList → ℕ → BanList) where
  -- The peer is known and banned, and the weights are the default ones.
  abbrev pub IsBannedPeer : ℕ → PeersManager BanList Reason → Type 0
  IsBannedPeer i m =
      (m.reputation_weights ≡ default_weights)
      × (p : Peer) × (get i m.peers ≡ some p)
      × IsI32 p.reputation
      × (is_banned p ≡ true)

  act_weights :
      (m : PeersManager BanList Reason) (i : ℕ) (o : ReputationChangeOutcome)
      → (act put m i o).reputation_weights ≡ m.reputation_weights
  unfolding act
  act_weights m i no_change = refl
  act_weights m i ban = refl
  act_weights m i disconnect_and_ban = refl
  act_weights m i unban = refl

  weigh-IsBannedPeer :
      (m : PeersManager BanList Reason) (i j : ℕ) (k : ReputationChangeKind)
      → IsBannedPeer i m
      → IsBannedPeer i (change_weight put m j k)
  weigh-IsBannedPeer m i j k (w, p, here, h, b) = elim (Option-cases (get j m.peers)) [
    | inl gone ↦ subst (IsBannedPeer i) (sym (change_weight-none put m j k gone)) (w, p, here, h, b)
    | inr (q, there) ↦
        let o = apply_reputation (change m.reputation_weights k) q in
        let m' = record m { peers = insert j o.0 m.peers } in
        let weights : (act put m' j o.1).reputation_weights ≡ default_weights =
          act_weights m' j o.1 ∙ w in
        let known : (act put m' j o.1).peers ≡ insert j o.0 m.peers = act_peers put m' j o.1 in
        subst (IsBannedPeer i) (sym (change_weight-some put m j k q there))
          (elim (Bool-cases (j == i)) [
            | inl equal ↦
                let same : q ≡ p = ground arith in
                let now : get i (act put m' j o.1).peers ≡ some o.0 =
                  ap (get i) known ∙ ground (arith, get-insert i j o.0 m.peers) in
                (
                  weights,
                  o.0,
                  now,
                  reputation-IsI32 (change m.reputation_weights k) q,
                  rw (w, same) (still_banned k p h b),
                )
            | inr other ↦
                let now : get i (act put m' j o.1).peers ≡ some p =
                  ap (get i) known ∙ ground (arith, get-insert i j o.0 m.peers) in
                (weights, p, now, h, b)
          ])
  ]

  drop-IsBannedPeer :
      (m : PeersManager BanList Reason) (i j : ℕ)
      → IsBannedPeer i m
      → IsBannedPeer i (remove_peer m j)
  unfolding remove_peer
  drop-IsBannedPeer m i j (w, p, here, h, b) = (ground arith, p, ground arith, h, b)

  distrust-IsBannedPeer :
      (m : PeersManager BanList Reason) (i j : ℕ)
      → IsBannedPeer i m
      → IsBannedPeer i (remove_peer_from_trusted_set m j)
  unfolding remove_peer_from_trusted_set is_banned
  distrust-IsBannedPeer m i j (w, p, here, h, b) = elim (Option-cases (get j m.peers)) [
    | inl gone ↦ (ground arith, p, ground arith, h, b)
    | inr (q, there) ↦ elim (Bool-cases (is_trusted q)) [
      | inr t ↦ (ground arith, p, ground arith, h, b)
      | inl t ↦ elim (Bool-cases (j == i)) [
        | inl equal ↦
            let same : q ≡ p = ground arith in
            (
              ground arith,
              record p { kind = basic },
              ground (arith, get-insert i j (record q { kind = basic }) m.peers),
              h,
              b,
            )
        | inr other ↦ (
          ground arith,
          p,
          ground (arith, get-insert i j (record q { kind = basic }) m.peers),
          h,
          b,
        )
      ]
    ]
  ]

  next-IsBannedPeer :
      (m : PeersManager BanList Reason) (i : ℕ) → IsBannedPeer i m → IsBannedPeer i (poll m).0
  unfolding poll
  next-IsBannedPeer m i (w, p, here, h, b) = (ground arith, p, ground arith, h, b)

apply_zero :
    (p : Peer)
    → IsI32 p.reputation
    → (is_banned p ≡ true → p.connected ≡ false)
    → apply_reputation (pos 0) p ≡ (p, no_change)
unfolding apply_reputation is_banned saturating_add
apply_zero p h off =
    ground (arith, +ℤ_parts p.reputation (pos 0), eq_of_parts (p.reputation +ℤ pos 0) p.reputation)

-- With the default weights a ban is for good: a known peer whose reputation is below the threshold is
-- still known, and still below it, after any sequence of calls.
pub banned_for_good :
    {BanList Reason : Type 0} (put : BanList → ℕ → BanList) (m : PeersManager BanList Reason)
    (i : ℕ) (cs : List Call)
    → IsBannedPeer put i m
    → IsBannedPeer put i (calls put m cs)
banned_for_good put m i [] h = h
banned_for_good put m i (weigh j k ∷ cs) h =
    banned_for_good put (change_weight put m j k) i cs (weigh-IsBannedPeer put m i j k h)
banned_for_good put m i (drop j ∷ cs) h =
    banned_for_good put (remove_peer m j) i cs (drop-IsBannedPeer put m i j h)
banned_for_good put m i (distrust j ∷ cs) h =
    banned_for_good put (remove_peer_from_trusted_set m j) i cs (distrust-IsBannedPeer put m i j h)
banned_for_good put m i (next ∷ cs) h =
    banned_for_good put (poll m).0 i cs (next-IsBannedPeer put m i h)

-- A reset does not set a reputation back to the default: for a known peer that is not both connected
-- and banned, it leaves the manager's queue and ban list as they are, and each peer as it was.
pub reset_keeps :
    {BanList Reason : Type 0} (put : BanList → ℕ → BanList) (m : PeersManager BanList Reason)
    (i : ℕ) (p : Peer)
    → get i m.peers ≡ some p
    → IsI32 p.reputation
    → (is_banned p ≡ true → p.connected ≡ false)
    → (j : ℕ)
    → (get j (change_weight put m i reset).peers ≡ get j m.peers)
      × ((change_weight put m i reset).queued_actions ≡ m.queued_actions)
      × ((change_weight put m i reset).ban_list ≡ m.ban_list)
unfolding act change
reset_keeps put m i p here h off j =
    let zero_change : change m.reputation_weights reset ≡ pos 0 = refl in
    let now : change_weight put m i reset ≡ record m { peers = insert i p m.peers } =
      change_weight-some put m i reset p here ∙ rw (zero_change, apply_zero p h off) refl in
    rw now (ground (arith, get-insert j i p m.peers), refl, refl)
