-- ===== src/Tests/Traffic.antt =====
-- Runs of the accounting: a limit of 100 bytes in a day that ends at 1000.
use wireguard_panel.Base.{
  ℕ, ◌≡◌, refl, Bool, true, false, not, ◌||◌, List, [], ◌∷◌, ◌++◌, Option, none, some, Result, ok,
  All, arith,
}
use wireguard_panel.Base.Int.{pos, ◌+ℤ◌, ◌≤ℤ◌}
use wireguard_panel.Base.Text.{Text, codes}
use wireguard_panel.Quota.{QuotaPeriod, daily}
use wireguard_panel.Traffic.Rows.{
  DisabledReason, quota, quota_reached, AccountingPeer, RemotePeer, Account, Window,
}
use wireguard_panel.Traffic.Observe.{
  Observation, record_observation, rolled_of, roll_period, roll_over, is_over, observe, is_reached,
}
use wireguard_panel.Traffic.Enforce.{
  Enforcing, to_disabled, reenabled, set_remote_quota_state, disabled_by_quota, decide,
  enforce_observation,
}
use wireguard_panel.Traffic.Recording.{IsAccounted, record_observation-IsAccounted}
use wireguard_panel.Traffic.Enforcement.{
  enforce_observation_disables, enforce_observation_to_disabled, enforce_observation_reenabled,
}
use wireguard_panel.Traffic.Polling.{Listed, Turn, Policy, Tally, poll}
use wireguard_panel.Traffic.Polling.Books.{poll-IsAccounted}

abbrev client : Bool → Option DisabledReason → AccountingPeer
client disabled reason = record {
  disabled = disabled;
  expired = false;
  disabled_reason = reason;
  quota_limit_bytes = some (pos 100);
  quota_period = some daily;
  quota_period_started_at = some 0;
  quota_period_ends_at = some 1000;
  period_rx_bytes = pos 40;
  period_tx_bytes = pos 30;
  lifetime_rx_bytes = pos 40;
  lifetime_tx_bytes = pos 30;
  last_observed_rx_bytes = some (pos 40);
  last_observed_tx_bytes = some (pos 30);
  quota_reached_at = none;
  quota_usage_when_disabled = none;
  quota_bypass_until = none;
  last_traffic_snapshot_at = none;
  rx_bytes = pos 40;
  tx_bytes = pos 30;
  last_counter_observed_at = some 500;
  last_handshake_at = none;
  last_seen_at = none;
  last_online_at = none;
  last_statistics_poll_at = none;
  last_handshake_raw = none;
  last_handshake_parse_valid = false;
  remote_disabled = false;
  last_synced_at = none;
}

abbrev rows : Bool → Option DisabledReason → Account
rows disabled reason = record {
  peer = client disabled reason;
  history = [];
  snapshots = [];
  audits = [];
}

abbrev router_peer : Bool → RemotePeer
router_peer disabled = record {
  disabled = disabled;
  last_handshake_at = none;
  last_handshake_raw = none;
  last_handshake_parse_valid = false;
  rx_bytes = pos 90;
  tx_bytes = pos 35;
}

abbrev day : ℕ → QuotaPeriod → Result Text Window
day now period = ok (record { start = 1000; end = some 2000 })

rows_IsAccounted : IsAccounted (rows false none)
unfolding ◌+ℤ◌
rows_IsAccounted = record {
  balanced = record { rx = refl; tx = refl };
  counted = record { rx = omega arith; tx = omega arith; rx_le = omega arith; tx_le = omega arith };
  opened = refl;
}

-- The first observation of the next day.
abbrev next_day : Account × Observation
next_day =
    observe 1200 180 60 (rows false none) (router_peer false)
      (roll_over 1200 (client false none) (record { start = 1000; end = some 2000 }))

next_day_recorded :
    record_observation 1200 180 60 day (rows false none) (router_peer false)
    ≡ ok (next_day.0, next_day.1)
unfolding record_observation rolled_of roll_period is_over
next_day_recorded = refl

record_observation-IsAccounted_example :
    IsAccounted next_day.0
    × (pos 40 ≤ℤ next_day.0.peer.lifetime_rx_bytes)
    × (pos 30 ≤ℤ next_day.0.peer.lifetime_tx_bytes)
record_observation-IsAccounted_example =
    record_observation-IsAccounted 1200 180 60 day (rows false none) (router_peer false) next_day.0
      next_day.1 rows_IsAccounted next_day_recorded

abbrev enforcing : Bool → Option DisabledReason → List Bool → Enforcing
enforcing disabled reason answers = record {
  account = rows disabled reason;
  remote = router_peer disabled;
  answers = answers;
}

abbrev seen : Bool → Option DisabledReason → ℕ → Observation
seen disabled reason used = record {
  peer = client disabled reason;
  used = pos used;
  limit = some (pos 100);
  rolled = false;
  previous_used = pos 70;
}

reached_at_125 : is_reached (pos 125) (some (pos 100)) ≡ true
unfolding is_reached
reached_at_125 = refl

enforce_observation_disables_example :
    let (e', action) =
      enforce_observation 600 (enforcing false none (true ∷ true ∷ [])) (seen false none 125) in
    (action ≡ some to_disabled)
    × (e'.remote.disabled ≡ true)
    × (e'.account.peer.disabled ≡ true)
    × (e'.account.peer.disabled_reason ≡ some quota)
    × (e'.account.peer.quota_usage_when_disabled ≡ some (pos 125))
    × (e'.account.peer.quota_bypass_until ≡ none)
    × (e'.account.audits
        ≡ (enforcing false none (true ∷ true ∷ [])).account.audits ++ quota_reached ∷ [])
enforce_observation_disables_example =
    enforce_observation_disables 600 (enforcing false none (true ∷ true ∷ [])) (seen false none 125)
      [] reached_at_125 refl refl refl refl refl

abbrev disabled_now : Enforcing
disabled_now = (enforce_observation 600 (enforcing false none (true ∷ [])) (seen false none 125)).0

disabled_now_result :
    enforce_observation 600 (enforcing false none (true ∷ [])) (seen false none 125)
    ≡ (disabled_now, some to_disabled)
unfolding enforce_observation decide is_reached set_remote_quota_state
disabled_now_result = refl

enforce_observation_to_disabled_example :
    (is_reached (pos 125) (some (pos 100)) ≡ true)
    × (false ≡ false)
    × (false ≡ false)
    × (true ≡ true)
    × (false ≡ false)
    × (disabled_now.remote.disabled ≡ true)
    × (disabled_now.account.peer.disabled ≡ true)
    × (disabled_now.account.peer.disabled_reason ≡ some quota)
enforce_observation_to_disabled_example =
    enforce_observation_to_disabled 600 (enforcing false none (true ∷ [])) disabled_now
      (seen false none 125) disabled_now_result

abbrev enabled_now : Enforcing
enabled_now =
    (enforce_observation 600 (enforcing true (some quota) (true ∷ []))
      (seen true (some quota) 80)).0

enabled_now_result :
    enforce_observation 600 (enforcing true (some quota) (true ∷ [])) (seen true (some quota) 80)
    ≡ (enabled_now, some reenabled)
unfolding enforce_observation decide is_reached set_remote_quota_state
enabled_now_result = refl

enforce_observation_reenabled_example :
    (disabled_by_quota (client true (some quota)) ≡ true)
    × (false || not (is_reached (pos 80) (some (pos 100))) ≡ true)
    × (enabled_now.remote.disabled ≡ false)
    × (enabled_now.account.peer.disabled ≡ false)
    × (enabled_now.account.peer.disabled_reason ≡ none)
enforce_observation_reenabled_example =
    enforce_observation_reenabled 600 (enforcing true (some quota) (true ∷ [])) enabled_now
      (seen true (some quota) 80) enabled_now_result

abbrev policy : Policy
policy = record { online_seconds = 180; sample_seconds = 60; window = day }

abbrev local : Turn
local = record {
  remote_id = some (codes "*1");
  public_key = codes "key";
  account = rows false none;
  now = 600;
  later = 601;
  answers = true ∷ [];
}

abbrev listed : List Listed
listed = record { id = codes "*1"; public_key = codes "key"; peer = router_peer false } ∷ []

abbrev no_tally : Tally
no_tally = record { observed = 0; disabled = 0; reenabled = 0; failed = 0 }

poll-IsAccounted_example :
    All (λ l. IsAccounted l.account) (poll policy (local ∷ []) listed no_tally).rows
poll-IsAccounted_example =
    poll-IsAccounted policy (local ∷ []) listed no_tally (rows_IsAccounted, tt)
