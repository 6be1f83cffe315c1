-- ===== src/Status/Compared.antt =====
-- src/server/reconciliation.ts, lines 5 to 11: the comparison of a row and the router's peer.
use wireguard_panel.Base.{◌≡◌, ◌↔◌, ◌≢◌, true, some, arith}
use wireguard_panel.Base.Text.{Text, text_eq_iff}
use wireguard_panel.Base.Decimal.{nonempty}
use wireguard_panel.Status.{
  in_sync, modified_externally, disabled_externally, LocalPeer, RemoteState, classify_peer_sync,
}

-- A row with a fingerprint that is not empty, compared with a peer that is there, is in sync
-- exactly when the fingerprints are equal; otherwise it was disabled or enabled outside when the
-- two states differ, and was modified outside when they are the same.
pub classify_peer_sync_known :
    (local : LocalPeer) (remote : RemoteState) (s : Text)
    → local.remote_fingerprint ≡ some s
    → nonempty s ≡ true
    → ((classify_peer_sync (some local) (some remote) ≡ in_sync) ↔ (s ≡ remote.fingerprint))
      × ((classify_peer_sync (some local) (some remote) ≡ disabled_externally)
          ↔ ((s ≢ remote.fingerprint) × (local.disabled ≢ remote.disabled)))
      × ((classify_peer_sync (some local) (some remote) ≡ modified_externally)
          ↔ ((s ≢ remote.fingerprint) × (local.disabled ≡ remote.disabled)))
unfolding classify_peer_sync
classify_peer_sync_known local remote s e n = ground (arith, text_eq_iff s remote.fingerprint)
