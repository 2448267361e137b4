-- ===== src/Tests/Bans.antt =====
-- Runs of the peers manager; its ban list is a list of peer ids.
use appsec_seq.Base.{ℕ, ◌≡◌, List, [], ◌∷◌}
use appsec_seq.Peers.{new, bad_bundle}
use appsec_seq.Peers.Barred.{Call, calls, weigh, next}
use appsec_seq.Peers.Idle.{calls-new}

abbrev put : List ℕ → ℕ → List ℕ
put l i = i ∷ l

-- Peer 1 sends three bad bundles, enough for a ban.
abbrev bad_peer : List Call
bad_peer = weigh 1 bad_bundle ∷ weigh 1 bad_bundle ∷ weigh 1 bad_bundle ∷ next ∷ []

calls-new_example : calls {Reason = Unit {0}} put (new []) bad_peer ≡ new []
calls-new_example = calls-new put [] bad_peer
