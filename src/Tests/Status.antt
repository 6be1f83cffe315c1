-- ===== src/Tests/Status.antt =====
-- Runs of the status: a peer whose last handshake was at 100000.
use wireguard_panel.Base.{◌≡◌, ◌↔◌, true, false, none, some}
use wireguard_panel.Base.Text.{codes}
use wireguard_panel.Status.{online, StatusPeer, Thresholds, peer_status, LocalPeer, RemoteState}
use wireguard_panel.Status.Aging.{Handshake, peer_status-online_iff}

abbrev peer : StatusPeer
peer = record {
  disabled = false;
  remote_disabled = none;
  expired = false;
  last_handshake_at = some 100000;
  quota_reached_at = none;
  is_unreachable = false;
}

abbrev thresholds : Thresholds
thresholds = record { online_seconds = 180; recent_seconds = 600 }

peer_status-online_iff_example : (peer_status 200000 thresholds peer ≡ online) ↔ (
    (false ≡ false)
    × (false ≡ false)
    × (false ≡ false)
    × (false ≡ false)
    × (false ≡ false)
    × Handshake 200000 180 (some 100000))
peer_status-online_iff_example = peer_status-online_iff 200000 thresholds peer

abbrev local : LocalPeer
local = record {
  remote_id = some (codes "*1");
  remote_fingerprint = some (codes "ab");
  disabled = false;
}

abbrev remote : RemoteState
remote = record { disabled = true; fingerprint = codes "cd" }
