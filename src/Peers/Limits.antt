-- ===== src/Peers/Limits.antt =====
-- src/server/peer-service.ts, lines 475 to 517: the first client address of a peer, and its
-- traffic limit when the configuration changes. The window of a period is an argument; times are
-- seconds.
use wireguard_panel.Base.{
  ℕ, Bool, true, false, not, ◌&&◌, ◌||◌, List, [], ◌∷◌, ◌++◌, map, Option, none, some, ◌==◌,
  if◌then◌else◌, keep,
}
use wireguard_panel.Base.Int.{ℤ, pos, negsuc, ◌+ℤ◌, ltb_ℤ}
use wireguard_panel.Base.Text.{Text, codes, split, join, trim}
use wireguard_panel.Base.Decimal.{nonempty}
use wireguard_panel.Quota.{QuotaPeriod, one_time, daily, weekly, monthly}
use wireguard_panel.Traffic.Rows.{ResetReason, Window, configuration_changed, limit_removed}
use wireguard_panel.Bandwidth.Queues.{is_nonzero}
use wireguard_panel.Peers.World.{QuotaColumns, PeerRecord}
use wireguard_panel.Peers.Handlers.{is_quota_reason}

-- `existing.split(",").map(trim).filter(Boolean)`, with the first one replaced.
abbrev pub replace_first : Text → List Text → List Text
replace_first address [] = address ∷ []
replace_first address (first ∷ addresses) = address ∷ addresses

unfoldable pub replace_client_address : Text → Text → Text
replace_client_address existing client_ip =
    join (codes ",")
      (replace_first (client_ip ++ codes "/32") (keep nonempty (map trim (split b',' existing))))

-- `value === undefined ? old : value`, where the outer `none` is `undefined`.
abbrev pub changed_to {ℓ} : {A : Type ℓ} → Option A → Option (Option A) → Option A
changed_to old none = old
changed_to old (some value) = value

-- `input.quotaPeriod ?? row.quota_period ?? "monthly"`.
abbrev pub or_monthly : Option QuotaPeriod → Option QuotaPeriod → QuotaPeriod
or_monthly (some period) old = period
or_monthly none (some period) = period
or_monthly none none = monthly

abbrev pub same_period : QuotaPeriod → Option QuotaPeriod → Bool
same_period one_time (some one_time) = true
same_period daily (some daily) = true
same_period weekly (some weekly) = true
same_period monthly (some monthly) = true
same_period _ _ = false

abbrev pub same_bigint : ℤ → ℤ → Bool
same_bigint (pos a) (pos b) = a == b
same_bigint (negsuc a) (negsuc b) = a == b
same_bigint _ _ = false

abbrev pub same_limit : Option ℤ → Option ℤ → Bool
same_limit none none = true
same_limit (some a) (some b) = same_bigint a b
same_limit _ _ = false

pub record QuotaConfiguration : Type 0 where
  pub limit : Option ℤ
  pub period : Option QuotaPeriod
  pub start : Option ℕ
  pub end : Option ℕ
  pub period_rx : ℤ
  pub period_tx : ℤ
  pub used : ℤ
  pub reached_at : Option ℕ
  pub usage_when_disabled : Option ℤ
  pub bypass_until : Option ℕ
  pub archive : Option ResetReason

-- `row.quota_period_started_at && (removing || periodChanged) ? … : null`.
abbrev pub archive_reason : Option ℕ → Bool → Bool → Option ResetReason
archive_reason none removing period_changed = none
archive_reason (some start) removing period_changed =
    if removing
    then some limit_removed
    else if period_changed
    then some configuration_changed
    else none

abbrev pub no_limit : Option ResetReason → QuotaConfiguration
no_limit archive = record {
  limit = none;
  period = none;
  start = none;
  end = none;
  period_rx = pos 0;
  period_tx = pos 0;
  used = pos 0;
  reached_at = none;
  usage_when_disabled = none;
  bypass_until = none;
  archive = archive;
}

-- The bounds of the period and its counters, which a new period starts anew.
pub record Bounds : Type 0 where
  pub start : Option ℕ
  pub end : Option ℕ
  pub period_rx : ℤ
  pub period_tx : ℤ

abbrev pub kept_bounds : QuotaColumns → Bounds
kept_bounds q = record {
  start = q.quota_period_started_at;
  end = q.quota_period_ends_at;
  period_rx = q.period_rx_bytes;
  period_tx = q.period_tx_bytes;
}

abbrev pub new_bounds : Window → Bounds
new_bounds w = record { start = some w.start; end = w.end; period_rx = pos 0; period_tx = pos 0 }

-- `reset || !start`.
abbrev pub bounds_of : Bool → QuotaColumns → Window → Bounds
bounds_of reset q window = elim q.quota_period_started_at [
  | none ↦ new_bounds window
  | some start ↦ if reset then new_bounds window else kept_bounds q
]

abbrev pub some_if {ℓ} : {A : Type ℓ} → Bool → A → Option A
some_if true a = some a
some_if false a = none

-- `row.quota_reached_at ?? new Date()`.
abbrev pub or_now : Option ℕ → ℕ → ℕ
or_now none now = now
or_now (some at) now = at

module _ (quota_period_window : ℕ → QuotaPeriod → Window) where
  -- The rest, for a limit that is not absent and not zero.
  unfoldable pub limited :
      ℕ → PeerRecord → ℤ → QuotaPeriod → Bool → Bool → Option ResetReason → QuotaConfiguration
  limited now row limit period reset kept_bypass archive =
      let bounds = bounds_of reset row.quota (quota_period_window now period) in
      let used = bounds.period_rx +ℤ bounds.period_tx in
      let reached = not (ltb_ℤ used limit) in
      record {
        limit = some limit;
        period = some period;
        start = bounds.start;
        end = bounds.end;
        period_rx = bounds.period_rx;
        period_tx = bounds.period_tx;
        used = used;
        reached_at = some_if reached (or_now row.quota.quota_reached_at now);
        usage_when_disabled = some_if (reached && is_quota_reason row.disabled_reason) used;
        bypass_until = if kept_bypass then row.quota_bypass_until else none;
        archive = archive;
      }

  -- With the new limit, which is absent or zero, or neither.
  unfoldable pub configured : ℕ → PeerRecord → Option ℤ → Option QuotaPeriod → QuotaConfiguration
  unfolding limited
  configured now row none input_period = no_limit (
      archive_reason row.quota.quota_period_started_at (is_nonzero row.quota.quota_limit_bytes)
        false)
  configured now row (some limit) input_period =
      let old = row.quota.quota_limit_bytes in
      let had = is_nonzero old in
      let period = or_monthly input_period row.quota.quota_period in
      let period_changed = had && not (same_period period row.quota.quota_period) in
      let started = row.quota.quota_period_started_at in
      if is_nonzero (some limit)
      then limited now row limit period (not had || period_changed)
          (same_limit old (some limit) && not period_changed)
          (archive_reason started false period_changed)
      else no_limit (archive_reason started had false)

  -- `quotaConfiguration`, with the limit and the period of the input.
  unfoldable pub quota_configuration :
      ℕ → PeerRecord → Option (Option ℤ) → Option QuotaPeriod → QuotaConfiguration
  unfolding configured
  quota_configuration now row input_limit input_period =
      configured now row (changed_to row.quota.quota_limit_bytes input_limit) input_period
