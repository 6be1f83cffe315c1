-- ===== src/Status.antt =====
-- src/server/status.ts, lines 3 to 17, and src/server/reconciliation.ts, lines 4 to 11: the status
-- that is shown of a peer, and how its row compares with the router's peer. Times are
-- milliseconds; a handshake is a valid date. The fingerprint is a parameter.
pub mod Aging
pub mod Compared
use wireguard_panel.Base.{
  ℕ, ◌+◌, ◌*◌, Bool, true, false, not, ◌||◌, Option, none, some, leb, if◌then◌else◌,
}
use wireguard_panel.Base.Text.{Text, text_eq}
use wireguard_panel.Base.Decimal.{nonempty}

pub data PeerStatus : Type 0 where
  online recent offline never disabled expired traffic_limit_reached router_unreachable : PeerStatus

pub record StatusPeer : Type 0 where
  pub disabled : Bool
  pub remote_disabled : Option Bool
  pub expired : Bool
  pub last_handshake_at : Option ℕ
  pub quota_reached_at : Option ℕ
  pub is_unreachable : Bool

pub record Thresholds : Type 0 where
  pub online_seconds : ℕ
  pub recent_seconds : ℕ

abbrev pub is_set {ℓ} : {A : Type ℓ} → Option A → Bool
is_set none = false
is_set (some a) = true

abbrev pub or_no : Option Bool → Bool
or_no none = false
or_no (some b) = b

-- `Math.max(0, (now - timestamp) / 1000) <= seconds`.
abbrev pub is_within : ℕ → ℕ → ℕ → Bool
is_within now timestamp seconds = leb now (timestamp + seconds * 1000)

unfoldable pub status_by_age : ℕ → Thresholds → Option ℕ → PeerStatus
status_by_age now thresholds none = never
status_by_age now thresholds (some timestamp) =
    if is_within now timestamp thresholds.online_seconds
    then online
    else if is_within now timestamp thresholds.recent_seconds
    then recent
    else offline

unfoldable pub peer_status : ℕ → Thresholds → StatusPeer → PeerStatus
peer_status now thresholds peer =
    if peer.expired
    then expired
    else if is_set peer.quota_reached_at
    then traffic_limit_reached
    else if peer.disabled || or_no peer.remote_disabled
    then disabled
    else if peer.is_unreachable
    then router_unreachable
    else status_by_age now thresholds peer.last_handshake_at

pub data ReconciliationState : Type 0 where
  in_sync router_only db_only modified_externally disabled_externally deleted_externally :
      ReconciliationState

pub record LocalPeer : Type 0 where
  pub remote_id : Option Text
  pub remote_fingerprint : Option Text
  pub disabled : Bool

abbrev pub bool_eq : Bool → Bool → Bool
bool_eq true b = b
bool_eq false b = not b

-- What is read of the router's peer: its state, and what `remotePeerFingerprint` gives for it.
pub record RemoteState : Type 0 where
  pub disabled : Bool
  pub fingerprint : Text

-- A string is falsy when it is empty.
abbrev pub is_text : Option Text → Bool
is_text none = false
is_text (some s) = nonempty s

-- `!local.remoteFingerprint || local.remoteFingerprint === remotePeerFingerprint(remote)`.
abbrev pub is_known : Option Text → Text → Bool
is_known none fingerprint = true
is_known (some s) fingerprint = not (nonempty s) || text_eq s fingerprint

unfoldable pub classify_peer_sync : Option LocalPeer → Option RemoteState → ReconciliationState
classify_peer_sync none (some remote) = router_only
classify_peer_sync (some local) none =
    if is_text local.remote_id then deleted_externally else db_only
classify_peer_sync none none = db_only
classify_peer_sync (some local) (some remote) =
    if is_known local.remote_fingerprint remote.fingerprint
    then in_sync
    else if bool_eq local.disabled remote.disabled
    then modified_externally
    else disabled_externally
