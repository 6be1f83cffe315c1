-- ===== src/Traffic/Rows.antt =====
-- src/server/traffic-accounting.ts, lines 11 to 42 and the columns that its statements write: the
-- rows of one peer. Times are milliseconds.
use wireguard_panel.Base.{ℕ, Bool, List, Option}
use wireguard_panel.Base.Int.{ℤ}
use wireguard_panel.Base.Text.{Text}
use wireguard_panel.Quota.{QuotaPeriod}

pub data DisabledReason : Type 0 where
  manual expired quota : DisabledReason

pub record AccountingPeer : Type 0 where
  pub disabled : Bool
  pub expired : Bool
  pub disabled_reason : Option DisabledReason
  pub quota_limit_bytes : Option ℤ
  pub quota_period : Option QuotaPeriod
  pub quota_period_started_at : Option ℕ
  pub quota_period_ends_at : Option ℕ
  pub period_rx_bytes : ℤ
  pub period_tx_bytes : ℤ
  pub lifetime_rx_bytes : ℤ
  pub lifetime_tx_bytes : ℤ
  pub last_observed_rx_bytes : Option ℤ
  pub last_observed_tx_bytes : Option ℤ
  pub quota_reached_at : Option ℕ
  pub quota_usage_when_disabled : Option ℤ
  pub quota_bypass_until : Option ℕ
  pub last_traffic_snapshot_at : Option ℕ
  -- the columns that the update of lines 138 to 155 writes besides
  pub rx_bytes : ℤ
  pub tx_bytes : ℤ
  pub last_counter_observed_at : Option ℕ
  pub last_handshake_at : Option ℕ
  pub last_seen_at : Option ℕ
  pub last_online_at : Option ℕ
  pub last_statistics_poll_at : Option ℕ
  pub last_handshake_raw : Option Text
  pub last_handshake_parse_valid : Bool
  pub remote_disabled : Bool
  pub last_synced_at : Option ℕ

-- The fields of the router's peer that the accounting reads.
pub record RemotePeer : Type 0 where
  pub disabled : Bool
  pub last_handshake_at : Option ℕ
  pub last_handshake_raw : Option Text
  pub last_handshake_parse_valid : Bool
  pub rx_bytes : ℤ
  pub tx_bytes : ℤ

pub data ResetReason : Type 0 where
  scheduled manual configuration_changed limit_removed : ResetReason

-- A row of `quota_period_history`.
pub record Archive : Type 0 where
  pub period : QuotaPeriod
  pub configured_limit_bytes : Option ℤ
  pub rx_bytes : ℤ
  pub tx_bytes : ℤ
  pub started_at : ℕ
  pub ended_at : ℕ
  pub reached_at : Option ℕ
  pub usage_when_disabled : Option ℤ
  pub reason : ResetReason

-- A row of `traffic_snapshots`.
pub record Snapshot : Type 0 where
  pub rx_bytes : ℤ
  pub tx_bytes : ℤ
  pub last_handshake_at : Option ℕ
  pub captured_at : ℕ
  pub delta_rx_bytes : ℤ
  pub delta_tx_bytes : ℤ
  pub lifetime_rx_bytes : ℤ
  pub lifetime_tx_bytes : ℤ
  pub period_rx_bytes : ℤ
  pub period_tx_bytes : ℤ
  pub period_started_at : Option ℕ

pub data Audit : Type 0 where
  period_reset auto_reenabled quota_reached : Audit

-- What the database holds of one peer.
pub record Account : Type 0 where
  pub peer : AccountingPeer
  pub history : List Archive
  pub snapshots : List Snapshot
  pub audits : List Audit

pub record Window : Type 0 where
  pub start : ℕ
  pub end : Option ℕ
