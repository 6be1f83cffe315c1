-- ===== src/Peers/Resets.antt =====
-- src/server/peer-service.ts, lines 519 to 574: the usage of a peer is reset, and a peer that reached
-- its traffic limit is let through for a while. The window of a period is an argument; times are
-- seconds.
use wireguard_panel.Base.{
  ℕ, ◌+◌, ◌*◌, Bool, true, false, not, ◌&&◌, ◌||◌, List, [], ◌∷◌, ◌++◌, map, Option, none, some, ok,
  err, if◌then◌else◌,
}
use wireguard_panel.Base.Int.{ℤ, pos, ◌+ℤ◌}
use wireguard_panel.Base.Text.{Text}
use wireguard_panel.Quota.{QuotaPeriod}
use wireguard_panel.Traffic.Rows.{DisabledReason, Archive, ResetReason, Window}
use wireguard_panel.Routeros.Types.{RemoteWireGuardPeer}
use wireguard_panel.Peers.World.{
  QuotaColumns, PeerRecord, World, Handler, ◌>>=◌, ◌>>◌, pure, modify, check, call, with_disabled,
  update_record, no_traffic_limit, limit_not_reached, is_expired, disabled_manually,
}
use wireguard_panel.Peers.Handlers.{mutable_peer, assert_current_remote, is_quota_reason}

-- A row of `quota_period_history`, where the period has a start.
unfoldable pub archive_rows : ResetReason → ℕ → QuotaColumns → QuotaPeriod → Option ℕ → List Archive
archive_rows reason now q period none = []
archive_rows reason now q period (some started_at) =
    record {
      period = period;
      configured_limit_bytes = q.quota_limit_bytes;
      rx_bytes = q.period_rx_bytes;
      tx_bytes = q.period_tx_bytes;
      started_at = started_at;
      ended_at = now;
      reached_at = q.quota_reached_at;
      usage_when_disabled = q.quota_usage_when_disabled;
      reason = reason;
    }
    ∷ []

abbrev pub owned_by : ℕ → Archive → ℕ × Archive
owned_by id archive = (id, archive)

abbrev pub add_history : ℕ → List Archive → World → World
add_history id archives w = record w { history = map (owned_by id) archives ++ w.history }

-- `UPDATE peers SET period_rx_bytes=0, …` of `resetPeerQuotaUsage`.
abbrev pub reset_row : ℕ → Option ℕ → Text → PeerRecord → PeerRecord
reset_row now end fingerprint p =
    let lifted = is_quota_reason p.disabled_reason in
    record p {
      quota = record (p.quota) {
        period_rx_bytes = pos 0;
        period_tx_bytes = pos 0;
        quota_period_started_at = some now;
        quota_period_ends_at = end;
        quota_reached_at = none;
        quota_usage_when_disabled = none;
      };
      quota_bypass_until = none;
      disabled = if lifted then false else p.disabled;
      disabled_reason = if lifted then none else p.disabled_reason;
      remote_fingerprint = some fingerprint;
    }

-- `!row.quota_limit_bytes || !row.quota_period`.
abbrev pub limited_period : Option ℤ → Option QuotaPeriod → Handler QuotaPeriod
limited_period (some limit) (some period) w = (ok period, w)
limited_period _ _ w = (err no_traffic_limit, w)

abbrev pub enabled_remote : RemoteWireGuardPeer → RemoteWireGuardPeer
enabled_remote remote = record remote { disabled = false }

-- `if (row.disabled && row.disabled_reason === "quota") { … }`.
unfoldable pub lift_remote : Bool → RemoteWireGuardPeer → Handler RemoteWireGuardPeer
lift_remote false remote w = (ok remote, w)
lift_remote true remote w =
    (call (with_disabled remote.id false) >>= λ _. pure (enabled_remote remote)) w

-- `UPDATE peers SET disabled=false, …` of `temporarilyReenablePeer`.
abbrev pub bypass_row : ℕ → Text → PeerRecord → PeerRecord
bypass_row until fingerprint p = record p {
  disabled = false;
  disabled_reason = none;
  quota_bypass_until = some until;
  remote_fingerprint = some fingerprint;
}

abbrev pub has_reached : QuotaColumns → Bool
has_reached q = elim q.quota_limit_bytes [
  | none ↦ false
  | some limit ↦ elim q.quota_reached_at [ none ↦ false | some at ↦ true ]
]

abbrev pub is_expired_reason : Option DisabledReason → Bool
is_expired_reason (some DisabledReason.expired) = true
is_expired_reason _ = false

abbrev pub is_manual_reason : Option DisabledReason → Bool
is_manual_reason (some DisabledReason.manual) = true
is_manual_reason _ = false

module _ (fingerprint : RemoteWireGuardPeer → Text) where
  unfoldable pub reset_peer_quota_usage : (ℕ → QuotaPeriod → Window) → ℕ → Handler ℤ
  reset_peer_quota_usage quota_period_window peer_id = do
    row ← mutable_peer peer_id
    period ← limited_period row.quota.quota_limit_bytes row.quota.quota_period
    remote ← assert_current_remote fingerprint row
    observed ← lift_remote (row.disabled && is_quota_reason row.disabled_reason) remote
    modify (λ w.
        add_history row.id
          (archive_rows ResetReason.manual w.now row.quota period row.quota.quota_period_started_at)
          (update_record row.id
            (reset_row w.now (quota_period_window w.now period).end (fingerprint observed)) w))
    pure (row.quota.period_rx_bytes +ℤ row.quota.period_tx_bytes)

  unfoldable pub temporarily_reenable_peer : ℕ → ℕ → Handler (Unit {0})
  temporarily_reenable_peer peer_id minutes = do
    row ← mutable_peer peer_id
    check (has_reached row.quota) limit_not_reached
    check (not (row.expired || is_expired_reason row.disabled_reason)) is_expired
    check (not (is_manual_reason row.disabled_reason)) disabled_manually
    remote ← assert_current_remote fingerprint row
    call (with_disabled remote.id false)
    modify (λ w.
        update_record row.id
          (bypass_row (w.now + minutes * 60) (fingerprint (enabled_remote remote))) w)
