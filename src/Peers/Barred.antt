-- ===== src/Peers/Barred.antt =====
-- What a ban entails for the manager's state, over any sequence of its calls.
use appsec_seq.Base.{
  ℕ, ◌≡◌, refl, sym, ap, ◌∙◌, subst, inl, inr, Option-cases, true, false, List, [], ◌∷◌, none, some,
  ◌==◌, Bool-cases, arith,
}
use appsec_seq.Base.Int.{ℤ}
use appsec_seq.Base.Maps.{get, insert, nat_eq, get-insert}
use appsec_seq.Peers.{
  ReputationChangeKind, ReputationChangeOutcome, change, Peer, basic, PeersManager, is_banned,
  apply_reputation, no_change, ban, disconnect_and_ban, unban, act, change_weight, remove_peer,
  remove_peer_from_trusted_set, poll, is_trusted,
}

-- The calls that the network makes.
pub data Call : Type 0 where
  weigh : ℕ → ReputationChangeKind → Call
  drop : ℕ → Call
  distrust : ℕ → Call
  next : Call

module _ {BanList Reason : Type 0} (put : BanList → ℕ → BanList) where
  abbrev pub call : PeersManager BanList Reason → Call → PeersManager BanList Reason
  call m (weigh i k) = change_weight put m i k
  call m (drop i) = remove_peer m i
  call m (distrust i) = remove_peer_from_trusted_set m i
  call m next = (poll m).0

  abbrev pub calls : PeersManager BanList Reason → List Call → PeersManager BanList Reason
  calls m [] = m
  calls m (c ∷ cs) = calls (call m c) cs

  pub act_peers :
      (m : PeersManager BanList Reason) (i : ℕ) (o : ReputationChangeOutcome)
      → (act put m i o).peers ≡ m.peers
  unfolding act
  act_peers m i no_change = refl
  act_peers m i ban = refl
  act_peers m i disconnect_and_ban = refl
  act_peers m i unban = refl

  pub change_weight-none :
      (m : PeersManager BanList Reason) (i : ℕ) (k : ReputationChangeKind)
      → get i m.peers ≡ none
      → change_weight put m i k ≡ m
  unfolding change_weight
  change_weight-none m i k e = rw (change_weight, e) refl

  pub change_weight-some :
      (m : PeersManager BanList Reason) (i : ℕ) (k : ReputationChangeKind) (p : Peer)
      → get i m.peers ≡ some p
      → change_weight put m i k
        ≡ act put
            (record m {
              peers = insert i (apply_reputation (change m.reputation_weights k) p).0 m.peers;
            })
            i
            (apply_reputation (change m.reputation_weights k) p).1
  unfolding change_weight
  change_weight-some m i k p e = rw (change_weight, e) refl

module _ {BanList Reason : Type 0} (On : BanList → ℕ → Type 0) where
  -- A peer whose reputation is below the threshold is on the ban list and not connected.
  abbrev pub IsBarred : PeersManager BanList Reason → Type 0
  IsBarred m =
      (i : ℕ) (p : Peer)
      → get i m.peers ≡ some p
      → is_banned p ≡ true
      → On m.ban_list i × (p.connected ≡ false)

module _ {BanList Reason : Type 0} (put : BanList → ℕ → BanList) (On : BanList → ℕ → Type 0)
    (put_on : (l : BanList) (i : ℕ) → On (put l i) i)
    (put_keeps : (l : BanList) (i j : ℕ) → On l j → On (put l i) j) where
  act_keeps :
      (m : PeersManager BanList Reason) (i j : ℕ) (o : ReputationChangeOutcome)
      → On m.ban_list j
      → On (act put m i o).ban_list j
  unfolding act
  act_keeps m i j no_change h = h
  act_keeps m i j ban h = put_keeps m.ban_list i j h
  act_keeps m i j disconnect_and_ban h = put_keeps m.ban_list i j h
  act_keeps m i j unban h = h

  -- The outcome bans a peer that was not banned, and a peer that was connected.
  outcome_bans :
      (m : PeersManager BanList Reason) (i : ℕ) (r : ℤ) (p : Peer)
      → (is_banned p ≡ true → On m.ban_list i × (p.connected ≡ false))
      → is_banned (apply_reputation r p).0 ≡ true
      → On (act put m i (apply_reputation r p).1).ban_list i
        × ((apply_reputation r p).0.connected ≡ false)
  unfolding apply_reputation act is_banned
  outcome_bans m i r p h b = ground (arith, put_on m.ban_list i)

  -- The peers and the list after a change of weight of a peer that is there.
  weighed-IsBarred :
      (m : PeersManager BanList Reason) (i : ℕ) (r : ℤ) (p : Peer)
      → get i m.peers ≡ some p
      → IsBarred On m
      → IsBarred On (
          act put
            (record m { peers = insert i (apply_reputation r p).0 m.peers })
            i
            (apply_reputation r p).1)
  weighed-IsBarred m i r p here h j q e b =
      let o = (apply_reputation r p).1 in
      let m' = record m { peers = insert i (apply_reputation r p).0 m.peers } in
      let found : get j (insert i (apply_reputation r p).0 m.peers) ≡ some q =
        sym (ap (get j) (act_peers put m' i o)) ∙ e in
      elim (Bool-cases (i == j)) [
        | inl equal ↦
            let same : i ≡ j = ground arith in
            let now : (apply_reputation r p).0 ≡ q =
              ground (arith, same, get-insert j i (apply_reputation r p).0 m.peers) in
            let (on, off) = outcome_bans m' i r p (h i p here) (rw now b) in
            (subst (λ x. On (act put m' i o).ban_list x) same on, ground (arith))
        | inr other ↦
            let before : get j m.peers ≡ some q =
              ground (arith, get-insert j i (apply_reputation r p).0 m.peers) in
            let (on, off) = h j q before b in (act_keeps m' i j o on, off)
      ]

  change_weight-IsBarred :
      (m : PeersManager BanList Reason) (i : ℕ) (k : ReputationChangeKind)
      → IsBarred On m
      → IsBarred On (change_weight put m i k)
  change_weight-IsBarred m i k h = elim (Option-cases (get i m.peers)) [
    | inl gone ↦ rw (change_weight-none put m i k gone) h
    | inr (p, here) ↦
        rw (change_weight-some put m i k p here)
          (weighed-IsBarred m i (change m.reputation_weights k) p here h)
  ]

  remove_peer-IsBarred :
      (m : PeersManager BanList Reason) (i : ℕ) → IsBarred On m → IsBarred On (remove_peer m i)
  unfolding remove_peer
  remove_peer-IsBarred m i h j q e b = ground (arith, h j q)

  -- A peer that is no longer trusted keeps its reputation and its connection.
  distrusted-IsBarred :
      (m : PeersManager BanList Reason) (i : ℕ) (p : Peer)
      → get i m.peers ≡ some p
      → IsBarred On m
      → IsBarred On (record m { peers = insert i (record p { kind = basic }) m.peers })
  unfolding is_banned
  distrusted-IsBarred m i p here h j q e b = elim (Bool-cases (i == j)) [
    | inl equal ↦
        let same : i ≡ j = ground arith in
        let now : record p { kind = basic } ≡ q =
          ground (arith, same, get-insert j i (record p { kind = basic }) m.peers) in
        let (on, off) = h i p here (ground arith) in
        (subst (λ x. On m.ban_list x) same on, ground arith)
    | inr other ↦
        let before : get j m.peers ≡ some q =
          ground (arith, get-insert j i (record p { kind = basic }) m.peers) in
        h j q before b
  ]

  distrust-IsBarred :
      (m : PeersManager BanList Reason) (i : ℕ)
      → IsBarred On m
      → IsBarred On (remove_peer_from_trusted_set m i)
  unfolding remove_peer_from_trusted_set
  distrust-IsBarred m i h = elim (Option-cases (get i m.peers)) [
    | inl gone ↦
        let now : remove_peer_from_trusted_set m i ≡ m = ground arith in
        subst (IsBarred On) (sym now) h
    | inr (p, here) ↦ elim (Bool-cases (is_trusted p)) [
      | inl t ↦
          let now : remove_peer_from_trusted_set m i
              ≡ record m { peers = insert i (record p { kind = basic }) m.peers } =
            ground arith in
          subst (IsBarred On) (sym now) (distrusted-IsBarred m i p here h)
      | inr t ↦
          let now : remove_peer_from_trusted_set m i ≡ m = ground arith in
          subst (IsBarred On) (sym now) h
    ]
  ]

  poll-IsBarred : (m : PeersManager BanList Reason) → IsBarred On m → IsBarred On (poll m).0
  unfolding poll
  poll-IsBarred m h j q e b = ground (arith, h j q)

  -- Whatever the weights, after any sequence of calls each peer whose reputation is below the threshold
  -- is on the ban list and not connected, if that held at first and where `put` adds a peer to the list
  -- and takes no other one off it.
  pub calls-IsBarred :
      (m : PeersManager BanList Reason) (cs : List Call)
      → IsBarred On m
      → IsBarred On (calls put m cs)
  calls-IsBarred m [] h = h
  calls-IsBarred m (weigh i k ∷ cs) h =
      calls-IsBarred (call put m (weigh i k)) cs (change_weight-IsBarred m i k h)
  calls-IsBarred m (drop i ∷ cs) h =
      calls-IsBarred (call put m (drop i)) cs (remove_peer-IsBarred m i h)
  calls-IsBarred m (distrust i ∷ cs) h =
      calls-IsBarred (call put m (distrust i)) cs (distrust-IsBarred m i h)
  calls-IsBarred m (next ∷ cs) h = calls-IsBarred (call put m next) cs (poll-IsBarred m h)
