-- ===== src/Peers.antt =====
-- angstrom-main/crates/angstrom-net/src/peers/reputation.rs and manager.rs: the reputation of the
-- peers, and when they are banned. A peer id is a number. The types `BanList` and `DisconnectReason`
-- are reth's and not part of the repository: they are parameters, and so is the list's own
-- `ban_peer`, named put. A reputation is an i32, which the one sum here saturates.
pub mod Bans
pub mod Barred
pub mod Default
pub mod Idle
use appsec_seq.Base.{
  ℕ, suc, ◌+◌, ◌-◌, ◌*◌, ◌^◌, Bool, true, false, List, [], ◌∷◌, ◌++◌, Option, none, some, not, ◌&&◌,
  if◌then◌else◌,
}
use appsec_seq.Base.Int.{ℤ, pos, negsuc, ◌+ℤ◌, ltb_ℤ}
use appsec_seq.Base.Maps.{Map, get, insert, nat_eq}

abbrev pub default_reputation : ℤ
default_reputation = pos 0

-- n times the unit of -1024.
abbrev pub units : ℕ → ℤ
units n = negsuc (n * 1024 - 1)

abbrev pub banned_reputation : ℤ
banned_reputation = units 50

pub data ReputationChangeKind : Type 0 where
  bad_message : ReputationChangeKind
  bad_order : ReputationChangeKind
  bad_composable_order : ReputationChangeKind
  bad_bundle : ReputationChangeKind
  invalid_order : ReputationChangeKind
  reset : ReputationChangeKind

unfoldable pub is_reset : ReputationChangeKind → Bool
is_reset reset = true
is_reset _ = false

unfoldable pub is_banned_reputation : ℤ → Bool
is_banned_reputation r = ltb_ℤ r banned_reputation

pub record ReputationChangeWeights : Type 0 where
  pub bad_message : ℤ
  pub bad_order : ℤ
  pub bad_composable_order : ℤ
  pub bad_bundle : ℤ
  pub invalid_order : ℤ

unfoldable pub default_weights : ReputationChangeWeights
default_weights = record {
  bad_message = units 5;
  bad_order = units 10;
  bad_composable_order = units 15;
  bad_bundle = units 20;
  invalid_order = units 17;
}

unfoldable pub change : ReputationChangeWeights → ReputationChangeKind → ℤ
change w bad_message = w.bad_message
change w bad_order = w.bad_order
change w bad_composable_order = w.bad_composable_order
change w bad_bundle = w.bad_bundle
change w invalid_order = w.invalid_order
change w reset = default_reputation

pub data PeerKind : Type 0 where
  basic : PeerKind
  mev_guard : PeerKind
  trusted : PeerKind
  trusted_mev_guard : PeerKind

pub record Peer : Type 0 where
  pub reputation : ℤ
  pub kind : PeerKind
  pub connected : Bool

pub data ReputationChangeOutcome : Type 0 where
  no_change : ReputationChangeOutcome
  ban : ReputationChangeOutcome
  disconnect_and_ban : ReputationChangeOutcome
  unban : ReputationChangeOutcome

abbrev pub i32_min : ℤ
i32_min = negsuc (2 ^ 31 - 1)

abbrev pub i32_max : ℤ
i32_max = pos (2 ^ 31 - 1)

unfoldable pub saturating_add : ℤ → ℤ → ℤ
saturating_add a b =
    let sum = a +ℤ b in
    if ltb_ℤ sum i32_min then i32_min else if ltb_ℤ i32_max sum then i32_max else sum

unfoldable pub is_banned : Peer → Bool
unfolding is_banned_reputation
is_banned p = is_banned_reputation p.reputation

unfoldable pub apply_reputation : ℤ → Peer → Peer × ReputationChangeOutcome
unfolding is_banned
apply_reputation r p =
    let p' = record p { reputation = saturating_add p.reputation r } in
    if p.connected && is_banned p'
    then (record p' { connected = false }, disconnect_and_ban)
    else if is_banned p' && not (is_banned_reputation p.reputation)
    then (p', ban)
    else if not (is_banned p') && is_banned_reputation p.reputation
    then (p', unban)
    else (p', no_change)

unfoldable pub is_trusted : Peer → Bool
is_trusted p = elim p.kind [
  | trusted ↦ true
  | basic ↦ false
  | mev_guard ↦ false
  | trusted_mev_guard ↦ false
]

pub data PeerAction (Reason : Type 0) : Type 0 where
  disconnect : ℕ → Option Reason → PeerAction Reason
  disconnect_banned_incoming : ℕ → PeerAction Reason
  ban_peer : ℕ → PeerAction Reason
  unban_peer : ℕ → PeerAction Reason
  peer_added : ℕ → PeerAction Reason
  peer_removed : ℕ → PeerAction Reason

pub record PeersManager (BanList Reason : Type 0) : Type 0 where
  pub peers : Map ℕ Peer
  pub queued_actions : List (PeerAction Reason)
  pub reputation_weights : ReputationChangeWeights
  pub ban_list : BanList

unfoldable pub new : {BanList Reason : Type 0} → BanList → PeersManager BanList Reason
unfolding default_weights
new empty = record {
  peers = [];
  queued_actions = [];
  reputation_weights = default_weights;
  ban_list = empty;
}

unfoldable pub remove_peer :
    {BanList Reason : Type 0} → PeersManager BanList Reason → ℕ → PeersManager BanList Reason
unfolding is_trusted
remove_peer m id = elim (get id m.peers) [
  | none ↦ m
  | some p ↦
      if is_trusted p
      then m
      else record m { queued_actions = m.queued_actions ++ (peer_removed id ∷ []) }
]

unfoldable pub act :
    {BanList Reason : Type 0}
    → (BanList → ℕ → BanList)
    → PeersManager BanList Reason
    → ℕ
    → ReputationChangeOutcome
    → PeersManager BanList Reason
act put m id ban = record m { ban_list = put m.ban_list id }
act put m id disconnect_and_ban = record m {
  ban_list = put m.ban_list id;
  queued_actions = m.queued_actions ++ (disconnect_banned_incoming id ∷ []);
}
act put m id unban = record m { queued_actions = m.queued_actions ++ (unban_peer id ∷ []) }
act put m id no_change = m

unfoldable pub change_weight :
    {BanList Reason : Type 0}
    → (BanList → ℕ → BanList)
    → PeersManager BanList Reason
    → ℕ
    → ReputationChangeKind
    → PeersManager BanList Reason
unfolding act apply_reputation change
change_weight put m id kind = elim (get id m.peers) [
  | none ↦ m
  | some p ↦
      let changed = apply_reputation (change m.reputation_weights kind) p in
      act put (record m { peers = insert id changed.0 m.peers }) id changed.1
]

unfoldable pub remove_peer_from_trusted_set :
    {BanList Reason : Type 0} → PeersManager BanList Reason → ℕ → PeersManager BanList Reason
unfolding is_trusted
remove_peer_from_trusted_set m id = elim (get id m.peers) [
  | none ↦ m
  | some p ↦
      if is_trusted p then record m { peers = insert id (record p { kind = basic }) m.peers } else m
]

unfoldable pub poll :
    {BanList Reason : Type 0}
    → PeersManager BanList Reason
    → PeersManager BanList Reason × Option (PeerAction Reason)
poll m = elim m.queued_actions [
  | [] ↦ (m, none)
  | a ∷ rest ↦ (record m { queued_actions = rest }, some a)
]
