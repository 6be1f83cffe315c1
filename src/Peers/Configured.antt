-- ===== src/Peers/Configured.antt =====
-- src/server/peer-service.ts, lines 482 to 517: what a new configuration of the traffic limit keeps.
use wireguard_panel.Base.{
  ℕ, ◌≡◌, refl, Bool, true, false, not, ◌&&◌, ◌||◌, Option, none, some, arith, Bool-cases,
  Option-cases, inl, inr, ◌⊎◌,
}
use wireguard_panel.Base.Int.{ℤ, pos, ◌+ℤ◌, ltb_ℤ}
use wireguard_panel.Quota.{QuotaPeriod}
use wireguard_panel.Traffic.Rows.{ResetReason, Window}
use wireguard_panel.Bandwidth.Queues.{is_nonzero}
use wireguard_panel.Peers.World.{QuotaColumns, PeerRecord}
use wireguard_panel.Peers.Limits.{
  QuotaConfiguration, some_if, or_now, no_limit, new_bounds, kept_bounds, bounds_of, archive_reason,
  changed_to, or_monthly, same_period, limited, configured, quota_configuration,
}

abbrev pub is_some {ℓ} : {A : Type ℓ} → Option A → Bool
is_some none = false
is_some (some a) = true

-- The counters of the period that goes on.
pub record KeepsCounters (q : QuotaColumns) (c : QuotaConfiguration) : Type 0 where
  pub start : c.start ≡ q.quota_period_started_at
  pub end : c.end ≡ q.quota_period_ends_at
  pub period_rx : c.period_rx ≡ q.period_rx_bytes
  pub period_tx : c.period_tx ≡ q.period_tx_bytes

-- The new limit is stored with the usage that belongs to it; the usage so far goes on, or is written
-- to the history; and a limit has a period that has started.
pub record IsConsistent (row : PeerRecord) (c : QuotaConfiguration) : Type 0 where
  pub used : c.used ≡ c.period_rx +ℤ c.period_tx
  pub reached : (limit : ℤ) → c.limit ≡ some limit → is_some c.reached_at ≡ not (ltb_ℤ c.used limit)
  pub unlimited : c.limit ≡ none → (c.reached_at ≡ none) × (c.used ≡ pos 0)
  pub started : is_some c.start ≡ is_some c.limit
  pub archived :
      is_nonzero row.quota.quota_limit_bytes ≡ true
      → is_some row.quota.quota_period_started_at ≡ true
      → KeepsCounters row.quota c ⊎ (is_some c.archive ≡ true)

no_limit-IsConsistent :
    (row : PeerRecord) (archive : Option ResetReason)
    → (is_nonzero row.quota.quota_limit_bytes ≡ true
        → is_some row.quota.quota_period_started_at ≡ true
        → is_some archive ≡ true)
    → IsConsistent row (no_limit archive)
unfolding ◌+ℤ◌
no_limit-IsConsistent row archive h = record {
  used = refl;
  reached = λ limit e. ground (arith, e);
  unlimited = λ _. (refl, refl);
  started = refl;
  archived = λ had started. inr (h had started);
}

archive_reason-removed :
    (started : Option ℕ) (changed : Bool)
    → is_some started ≡ true
    → is_some (archive_reason started true changed) ≡ true
archive_reason-removed none changed h = ground (arith, h)
archive_reason-removed (some at) changed h = refl

archive_reason-changed :
    (started : Option ℕ) (changed : Bool)
    → is_some started ≡ true
    → changed ≡ true
    → is_some (archive_reason started false changed) ≡ true
archive_reason-changed none changed h c = ground (arith, h)
archive_reason-changed (some at) changed h c = rw c refl

is_some-some_if : (b : Bool) (at : ℕ) → is_some (some_if b at) ≡ b
is_some-some_if true at = refl
is_some-some_if false at = refl

reached_by :
    (used limit limit' : ℤ) (at : ℕ)
    → some limit ≡ some limit'
    → is_some (some_if (not (ltb_ℤ used limit)) at) ≡ not (ltb_ℤ used limit')
reached_by used limit limit' at e =
    let same : limit' ≡ limit = cc e in rw same (is_some-some_if (not (ltb_ℤ used limit)) at)

limit_left : {A : Type 0} {limit : ℤ} → some limit ≡ none → A
limit_left e = absurd (ground (arith, e))

-- The bounds are those of a new period, which is asked for or the first, or those so far.
bounds_of-cases :
    (reset : Bool) (q : QuotaColumns) (window : Window)
    → ((bounds_of reset q window ≡ new_bounds window)
        × ((reset ≡ true) ⊎ (q.quota_period_started_at ≡ none)))
      ⊎ ((bounds_of reset q window ≡ kept_bounds q) × (is_some q.quota_period_started_at ≡ true))
bounds_of-cases reset q window = elim (Option-cases q.quota_period_started_at) [
  | inl e ↦ inl (rw e refl, inr e)
  | inr (at, e) ↦ elim (Bool-cases reset) [
    | inl r ↦ inl (rw (e, r) refl, inl r)
    | inr r ↦ inr (rw (e, r) refl, rw e refl)
  ]
]

module _ (quota_period_window : ℕ → QuotaPeriod → Window) where
  limited-IsConsistent :
      (now : ℕ) (row : PeerRecord) (limit : ℤ) (period : QuotaPeriod) (reset kept_bypass : Bool)
      (archive : Option ResetReason)
      → (is_nonzero row.quota.quota_limit_bytes ≡ true
          → is_some row.quota.quota_period_started_at ≡ true
          → reset ≡ true
          → is_some archive ≡ true)
      → IsConsistent row
          (limited quota_period_window now row limit period reset kept_bypass archive)
  unfolding limited
  limited-IsConsistent now row limit period reset kept_bypass archive h =
      let window = quota_period_window now period in
      let bounds = bounds_of reset row.quota window in
      elim (bounds_of-cases reset row.quota window) [
        | inl (e, why) ↦ record {
          used = refl;
          reached = λ limit' e.
              reached_by (bounds.period_rx +ℤ bounds.period_tx) limit limit'
                (or_now row.quota.quota_reached_at now) e;
          unlimited = λ none_left. limit_left none_left;
          started = rw e refl;
          archived = λ had started. inr (elim why [
            | inl r ↦ h had started r
            | inr none_started ↦ ground (arith, none_started, started)
          ]);
        }
        | inr (e, started) ↦ record {
          used = refl;
          reached = λ limit' e.
              reached_by (bounds.period_rx +ℤ bounds.period_tx) limit limit'
                (or_now row.quota.quota_reached_at now) e;
          unlimited = λ none_left. limit_left none_left;
          started = rw e started;
          archived = λ had _. inl (record {
            start = rw e refl;
            end = rw e refl;
            period_rx = rw e refl;
            period_tx = rw e refl;
          });
        }
      ]

  configured-IsConsistent :
      (now : ℕ) (row : PeerRecord) (limit : Option ℤ) (input_period : Option QuotaPeriod)
      → IsConsistent row (configured quota_period_window now row limit input_period)
  unfolding configured
  configured-IsConsistent now row none input_period = no_limit-IsConsistent row _ (λ had started.
      rw had (archive_reason-removed row.quota.quota_period_started_at false started))
  configured-IsConsistent now row (some limit) input_period =
      let had = is_nonzero row.quota.quota_limit_bytes in
      let period = or_monthly input_period row.quota.quota_period in
      let changed = had && not (same_period period row.quota.quota_period) in
      elim (Bool-cases (is_nonzero (some limit))) [
        | inl e ↦ rw e (
            limited-IsConsistent now row limit period (not had || changed) _ _ (λ has started reset.
              archive_reason-changed row.quota.quota_period_started_at changed started
                (ground (arith, has, reset))))
        | inr e ↦ rw e (
            no_limit-IsConsistent row _ (λ has started.
              rw has (archive_reason-removed row.quota.quota_period_started_at false started)))
      ]

  -- A new configuration of the traffic limit: the usage that is stored is the sum of its counters; the
  -- limit counts as reached exactly when the usage is not below it; without a limit there is no usage;
  -- a period has started exactly when there is a limit; and when the peer had a limit and a period
  -- that had started, its counters go on or the period is written to the history.
  pub quota_configuration-IsConsistent :
      (now : ℕ) (row : PeerRecord) (input_limit : Option (Option ℤ))
      (input_period : Option QuotaPeriod)
      → IsConsistent row (quota_configuration quota_period_window now row input_limit input_period)
  unfolding quota_configuration
  quota_configuration-IsConsistent now row input_limit input_period =
      configured-IsConsistent now row (changed_to row.quota.quota_limit_bytes input_limit)
        input_period
