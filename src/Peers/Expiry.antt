-- ===== src/Peers/Expiry.antt =====
-- src/server/expiration.ts: the peers whose time is over are disabled on their router.
use wireguard_panel.Base.{
  ℕ, ◌+◌, Bool, true, false, not, ◌&&◌, List, [], ◌∷◌, Option, none, some, Result, ok, err, leb,
  if◌then◌else◌, length,
}
use wireguard_panel.Base.Text.{Text}
use wireguard_panel.Routeros.Types.{RemoteWireGuardPeer}
use wireguard_panel.Traffic.Rows.{DisabledReason}
use wireguard_panel.Peers.World.{
  PeerRecord, PeerAudit, peer_expired, peer_expiration_failed, World, Failure, Handler, ◌>>◌,
  modify, update_record,
}
use wireguard_panel.Peers.Handlers.{set_peer_enabled}

abbrev pub is_past : ℕ → Option ℕ → Bool
is_past now none = false
is_past now (some at) = leb at now

-- `expires_at IS NOT NULL AND expires_at <= now() AND expired=false`.
abbrev pub is_due : ℕ → PeerRecord → Bool
is_due now p = is_past now p.expires_at && not p.expired

unfoldable pub due_peers : ℕ → List PeerRecord → List ℕ
due_peers now [] = []
due_peers now (p ∷ records) =
    if is_due now p then p.id ∷ due_peers now records else due_peers now records

abbrev pub mark_expired : PeerRecord → PeerRecord
mark_expired p = record p { expired = true }

abbrev pub write_audit : PeerAudit → World → World
write_audit audit w = record w { audits = audit ∷ w.audits }

pub record Totals : Type 0 where
  pub checked : ℕ
  pub disabled : ℕ
  pub failed : ℕ

-- The `catch` of a round, and the counters of both ends.
unfoldable pub counted_as : ℕ → Totals → Result Failure (Unit {0}) × World → Totals × World
counted_as peer_id totals (ok a, w) = (record totals { disabled = totals.disabled + 1 }, w)
counted_as peer_id totals (err e, w) =
    (record totals { failed = totals.failed + 1 }, write_audit (peer_expiration_failed peer_id) w)

module _ (fingerprint : RemoteWireGuardPeer → Text) where
  unfoldable pub expire_peer : ℕ → Handler (Unit {0})
  expire_peer peer_id = do
    modify (update_record peer_id mark_expired)
    set_peer_enabled fingerprint peer_id false DisabledReason.expired
    modify (write_audit (peer_expired peer_id))

  unfoldable pub expire_peers : List ℕ → Totals → World → Totals × World
  expire_peers [] totals w = (totals, w)
  expire_peers (peer_id ∷ ids) totals w =
      let (totals', w') = counted_as peer_id totals (expire_peer peer_id w) in
      expire_peers ids totals' w'

  unfoldable pub enforce_expirations : World → Totals × World
  enforce_expirations w =
      let ids = due_peers w.now w.records in
      expire_peers ids (record { checked = length ids; disabled = 0; failed = 0 }) w
