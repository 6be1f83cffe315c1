-- ===== src/Status/Aging.antt =====
-- src/server/status.ts, lines 5 to 17: the status of a peer at different times.
use wireguard_panel.Base.{ℕ, ◌+◌, ◌*◌, ◌≤◌, ◌≡◌, ◌↔◌, false, Option, none, some, arith}
use wireguard_panel.Status.{
  PeerStatus, online, recent, offline, StatusPeer, Thresholds, is_set, or_no, status_by_age,
  peer_status,
}

-- The last handshake is known and at most so many seconds ago.
abbrev pub Handshake : ℕ → ℕ → Option ℕ → Type 0
Handshake now seconds none = ⊥
Handshake now seconds (some t) = now ≤ t + seconds * 1000

-- A peer is shown online exactly when it is not expired, has not reached its limit, is disabled
-- neither in its row nor on the router, its router is reachable, and its last handshake is at most
-- the first threshold ago.
pub peer_status-online_iff :
    (now : ℕ) (thresholds : Thresholds) (peer : StatusPeer)
    → (peer_status now thresholds peer ≡ online) ↔ (
        (peer.expired ≡ false)
        × (is_set peer.quota_reached_at ≡ false)
        × (peer.disabled ≡ false)
        × (or_no peer.remote_disabled ≡ false)
        × (peer.is_unreachable ≡ false)
        × Handshake now thresholds.online_seconds peer.last_handshake_at)
unfolding peer_status status_by_age
peer_status-online_iff now thresholds peer = ground arith

-- How long ago a status says that the last handshake was; the others are not about time.
abbrev pub age : PeerStatus → ℕ
age online = 0
age recent = 1
age offline = 2
age _ = 3

-- While time passes and the peer's row stays, the status never becomes fresher.
pub peer_status-age :
    (now later : ℕ) (thresholds : Thresholds) (peer : StatusPeer)
    → now ≤ later
    → age (peer_status now thresholds peer) ≤ age (peer_status later thresholds peer)
unfolding peer_status status_by_age
peer_status-age now later thresholds peer h = ground arith
