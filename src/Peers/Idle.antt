-- ===== src/Peers/Idle.antt =====
-- angstrom-main/crates/angstrom-net/src/peers/manager.rs: the manager as the network makes it.
use appsec_seq.Base.{ℕ, ◌≡◌, refl, List, [], ◌∷◌}
use appsec_seq.Base.Maps.{get, nat_eq}
use appsec_seq.Peers.{new, change_weight, remove_peer, remove_peer_from_trusted_set, poll}
use appsec_seq.Peers.Barred.{Call, weigh, drop, distrust, next, call, calls}

module _ {BanList Reason : Type 0} (put : BanList → ℕ → BanList) where
  call-new : (l : BanList) (c : Call) → call {Reason = Reason} put (new l) c ≡ new l
  unfolding new change_weight remove_peer remove_peer_from_trusted_set poll get
  call-new l (weigh i k) = refl
  call-new l (drop i) = refl
  call-new l (distrust i) = refl
  call-new l next = refl

  -- The manager starts without peers and no call adds one: after any sequence of calls it is as it was at
  -- the start, so that no reputation is ever changed, no peer is ever banned and no action is queued.
  pub calls-new : (l : BanList) (cs : List Call) → calls {Reason = Reason} put (new l) cs ≡ new l
  calls-new l [] = refl
  calls-new l (c ∷ cs) = rw (call-new l c) (calls-new l cs)
