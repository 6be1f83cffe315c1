-- ===== src/Traffic/Observe.antt =====
-- src/server/traffic-accounting.ts, lines 89 to 170 and 218 to 227: one observation of a peer's
-- counters. The window of a quota period is a parameter.
use wireguard_panel.Base.{
  ℕ, ◌+◌, ◌*◌, max, Bool, true, false, not, ◌&&◌, List, [], ◌∷◌, ◌++◌, Option, none, some, Result,
  ok, ◌>>=◌, leb, if◌then◌else◌,
}
use wireguard_panel.Base.Int.{ℤ, pos, ◌+ℤ◌, ltb_ℤ}
use wireguard_panel.Base.Text.{Text}
use wireguard_panel.Quota.{QuotaPeriod, one_time, counter_delta}
use wireguard_panel.Traffic.Rows.{
  AccountingPeer, RemotePeer, ResetReason, Archive, Snapshot, Audit, Account, Window, scheduled,
  period_reset,
}

-- `archivePeriod`: nothing is written for a peer with no period or no start.
unfoldable pub archive_of :
    AccountingPeer → ResetReason → ℕ → Option QuotaPeriod → Option ℕ → List Archive
archive_of peer reason ended_at (some period) (some started_at) =
    record {
      period = period;
      configured_limit_bytes = peer.quota_limit_bytes;
      rx_bytes = peer.period_rx_bytes;
      tx_bytes = peer.period_tx_bytes;
      started_at = started_at;
      ended_at = ended_at;
      reached_at = peer.quota_reached_at;
      usage_when_disabled = peer.quota_usage_when_disabled;
      reason = reason;
    }
    ∷ []
archive_of peer reason ended_at (some period) none = []
archive_of peer reason ended_at none started_at = []

unfoldable pub archive_period : AccountingPeer → ResetReason → ℕ → List Archive
archive_period peer reason ended_at =
    archive_of peer reason ended_at peer.quota_period peer.quota_period_started_at

abbrev pub or_else {ℓ} : {A : Type ℓ} → Option A → A → A
or_else none a = a
or_else (some b) a = b

-- The period after line 127: its usage before the deltas, its bounds, and what was written.
pub record Rolled : Type 0 where
  pub period_rx : ℤ
  pub period_tx : ℤ
  pub period_start : Option ℕ
  pub period_end : Option ℕ
  pub rolled : Bool
  pub archived : List Archive
  pub audited : List Audit

unfoldable pub unrolled : AccountingPeer → Rolled
unrolled peer = record {
  period_rx = peer.period_rx_bytes;
  period_tx = peer.period_tx_bytes;
  period_start = peer.quota_period_started_at;
  period_end = peer.quota_period_ends_at;
  rolled = false;
  archived = [];
  audited = [];
}

unfoldable pub roll_over : ℕ → AccountingPeer → Window → Rolled
roll_over now peer expected = record {
  period_rx = pos 0;
  period_tx = pos 0;
  period_start = some expected.start;
  period_end = expected.end;
  rolled = true;
  archived = archive_period peer scheduled (or_else peer.quota_period_ends_at now);
  audited = period_reset ∷ [];
}

-- `!periodStart || !periodEnd || now >= periodEnd`.
unfoldable pub is_over : ℕ → Option ℕ → Option ℕ → Bool
is_over now none end = true
is_over now (some start) none = true
is_over now (some start) (some end) = leb end now

unfoldable pub roll_period : ℕ → AccountingPeer → QuotaPeriod → Window → Rolled
roll_period now peer one_time expected = record (unrolled peer) {
  period_start = some (or_else peer.quota_period_started_at expected.start);
  period_end = none;
}
roll_period now peer _ expected =
    if is_over now peer.quota_period_started_at peer.quota_period_ends_at
    then roll_over now peer expected
    else unrolled peer

-- A `bigint` is falsy at zero only.
abbrev pub is_zero : ℤ → Bool
is_zero (pos n) = leb n 0
is_zero _ = false

-- `limit && used >= limit`. Its negation is the test `!limit || used < limit` of line 182.
unfoldable pub is_reached : ℤ → Option ℤ → Bool
is_reached used none = false
is_reached used (some limit) = not (is_zero limit) && not (ltb_ℤ used limit)

-- Lines 107 to 127: a peer with no limit or no period has no period to roll.
unfoldable pub rolled_of :
    ℕ
    → AccountingPeer
    → (QuotaPeriod → Result Text Window)
    → Option ℤ
    → Option QuotaPeriod
    → Result Text Rolled
rolled_of now peer window (some limit) (some period) =
    window period >>= λ expected. ok (roll_period now peer period expected)
rolled_of now peer window none _ = ok (unrolled peer)
rolled_of now peer window (some limit) none = ok (unrolled peer)

-- `GREATEST(COALESCE(old, $5), $5)` when the handshake is valid and known.
unfoldable pub latest : Bool → Option ℕ → Option ℕ → Option ℕ
latest true (some seen) old = some (max (or_else old seen) seen)
latest _ _ old = old

-- `now - lastHandshakeAt <= onlineSeconds * 1000`.
abbrev pub is_online : ℕ → ℕ → Option ℕ → Bool
is_online now online_seconds none = false
is_online now online_seconds (some seen) = leb now (seen + online_seconds * 1000)

abbrev pub first_some {ℓ} : {A : Type ℓ} → Option A → A → Option A
first_some none a = some a
first_some (some b) a = some b

-- Lines 138 to 155.
unfoldable pub update_peer :
    ℕ → ℕ → AccountingPeer → RemotePeer → Rolled → ℤ → ℤ → Bool → AccountingPeer
update_peer now online_seconds peer remote r delta_rx delta_tx reached = record peer {
  rx_bytes = remote.rx_bytes;
  tx_bytes = remote.tx_bytes;
  last_observed_rx_bytes = some remote.rx_bytes;
  last_observed_tx_bytes = some remote.tx_bytes;
  last_counter_observed_at = some now;
  last_handshake_at =
      latest remote.last_handshake_parse_valid remote.last_handshake_at peer.last_handshake_at;
  last_seen_at =
      latest remote.last_handshake_parse_valid remote.last_handshake_at peer.last_seen_at;
  last_online_at =
      if is_online now online_seconds remote.last_handshake_at
      then some now
      else peer.last_online_at;
  last_statistics_poll_at = some now;
  last_handshake_raw = remote.last_handshake_raw;
  last_handshake_parse_valid = remote.last_handshake_parse_valid;
  remote_disabled = remote.disabled;
  period_rx_bytes = r.period_rx +ℤ delta_rx;
  period_tx_bytes = r.period_tx +ℤ delta_tx;
  lifetime_rx_bytes = peer.lifetime_rx_bytes +ℤ delta_rx;
  lifetime_tx_bytes = peer.lifetime_tx_bytes +ℤ delta_tx;
  quota_period_started_at = r.period_start;
  quota_period_ends_at = r.period_end;
  quota_reached_at =
      if reached
      then first_some peer.quota_reached_at now
      else if r.rolled
      then none
      else peer.quota_reached_at;
  quota_usage_when_disabled = if r.rolled then none else peer.quota_usage_when_disabled;
  quota_bypass_until = if r.rolled then none else peer.quota_bypass_until;
  last_synced_at = some now;
}

pub record Observation : Type 0 where
  pub peer : AccountingPeer
  pub used : ℤ
  pub limit : Option ℤ
  pub rolled : Bool
  pub previous_used : ℤ

-- `now - lastSnapshot >= rawTrafficSampleSeconds * 1000`, from the epoch on when there is none.
abbrev pub snapshot_due : ℕ → ℕ → Option ℕ → Bool
snapshot_due now sample_seconds last = leb (or_else last 0 + sample_seconds * 1000) now

unfoldable pub snapshot_of : ℕ → AccountingPeer → RemotePeer → ℤ → ℤ → Snapshot
snapshot_of now peer remote delta_rx delta_tx = record {
  rx_bytes = remote.rx_bytes;
  tx_bytes = remote.tx_bytes;
  last_handshake_at = remote.last_handshake_at;
  captured_at = now;
  delta_rx_bytes = delta_rx;
  delta_tx_bytes = delta_tx;
  lifetime_rx_bytes = peer.lifetime_rx_bytes;
  lifetime_tx_bytes = peer.lifetime_tx_bytes;
  period_rx_bytes = peer.period_rx_bytes;
  period_tx_bytes = peer.period_tx_bytes;
  period_started_at = peer.quota_period_started_at;
}

-- Line 165, which runs only when a snapshot was due.
unfoldable pub stamp_snapshot : Bool → ℕ → AccountingPeer → AccountingPeer
stamp_snapshot due now peer = record peer {
  last_traffic_snapshot_at = if due then some now else peer.last_traffic_snapshot_at;
}

-- Lines 129 to 167, after the roll of the period.
unfoldable pub observe : ℕ → ℕ → ℕ → Account → RemotePeer → Rolled → Account × Observation
observe now online_seconds sample_seconds a remote r =
    let delta_rx = counter_delta a.peer.last_observed_rx_bytes remote.rx_bytes in
    let delta_tx = counter_delta a.peer.last_observed_tx_bytes remote.tx_bytes in
    let used = (r.period_rx +ℤ delta_rx) +ℤ (r.period_tx +ℤ delta_tx) in
    let reached = is_reached used a.peer.quota_limit_bytes in
    let updated = update_peer now online_seconds a.peer remote r delta_rx delta_tx reached in
    let due = snapshot_due now sample_seconds a.peer.last_traffic_snapshot_at in
    (
      record {
        peer = stamp_snapshot due now updated;
        history = a.history ++ r.archived;
        snapshots =
            if due
            then a.snapshots ++ snapshot_of now updated remote delta_rx delta_tx ∷ []
            else a.snapshots;
        audits = a.audits ++ r.audited;
      },
      record {
        peer = updated;
        used = used;
        limit = a.peer.quota_limit_bytes;
        rolled = r.rolled;
        previous_used = a.peer.period_rx_bytes +ℤ a.peer.period_tx_bytes;
      },
    )

-- One transaction: when the window cannot be computed it is rolled back, and nothing is written.
unfoldable pub record_observation :
    ℕ
    → ℕ
    → ℕ
    → (ℕ → QuotaPeriod → Result Text Window)
    → Account
    → RemotePeer
    → Result Text (Account × Observation)
record_observation now online_seconds sample_seconds window a remote =
    rolled_of now a.peer (window now) a.peer.quota_limit_bytes a.peer.quota_period >>= λ r.
    ok (observe now online_seconds sample_seconds a remote r)
