-- ===== src/Traffic/Enforcement.antt =====
-- src/server/traffic-accounting.ts, lines 172 to 216: when the enforcement of a limit acts.
use wireguard_panel.Base.{
  ℕ, ◌≡◌, Bool, true, false, if◌then◌else◌, not, ◌&&◌, ◌||◌, List, [], ◌∷◌, ◌++◌, none, some, arith,
}
use wireguard_panel.Traffic.Rows.{auto_reenabled, quota, quota_reached}
use wireguard_panel.Traffic.Observe.{is_reached, Observation}
use wireguard_panel.Traffic.Enforce.{
  Enforcing, set_row, set_remote_quota_state, is_quota, bypass_active, disabled_by_quota, decide,
  enforce_observation, to_disabled, reenabled, nothing,
}

-- A peer that was disabled by hand or by its expiry stays as it is, and the router is not called:
-- whatever its usage, its limit, the rolled period and the router's answers.
pub enforce_observation_spares :
    (now : ℕ) (e : Enforcing) (o : Observation)
    → o.peer.disabled ≡ true
    → is_quota o.peer.disabled_reason ≡ false
    → enforce_observation now e o ≡ (e, some nothing)
unfolding enforce_observation decide
enforce_observation_spares now e o h k = ground arith

-- With the limit reached, no bypass running, and the peer not expired and not disabled by the router
-- alone, and when it is not disabled in its row, or the quota had disabled it and its period just
-- rolled over, calls that the router accepts disable the peer: the router's peer and the row are
-- disabled, the row has the quota as the reason, the usage and no bypass, and the audit has a line on
-- it, after one on the end of the old period where the row was disabled.
pub enforce_observation_disables :
    (now : ℕ) (e : Enforcing) (o : Observation) (answers : List Bool)
    → is_reached o.used o.limit ≡ true
    → bypass_active now o.peer.quota_bypass_until ≡ false
    → o.peer.expired ≡ false
    → not o.peer.disabled || (o.rolled && is_quota o.peer.disabled_reason) ≡ true
    → e.remote.disabled && not o.peer.disabled ≡ false
    → e.answers ≡ true ∷ true ∷ answers
    → let (e', action) = enforce_observation now e o in
      (action ≡ some to_disabled)
      × (e'.remote.disabled ≡ true)
      × (e'.account.peer.disabled ≡ true)
      × (e'.account.peer.disabled_reason ≡ some quota)
      × (e'.account.peer.quota_usage_when_disabled ≡ some o.used)
      × (e'.account.peer.quota_bypass_until ≡ none)
      × (e'.account.audits
          ≡ (if o.peer.disabled then e.account.audits ++ auto_reenabled ∷ [] else e.account.audits)
            ++ quota_reached ∷ [])
unfolding enforce_observation decide set_remote_quota_state set_row
enforce_observation_disables now e o answers r b x d m c = ground arith

-- A peer is disabled only for a reached limit, with no bypass running, when it is not expired, and
-- when it is not disabled in its row, or the quota had disabled it and its period just rolled
-- over; and not when only the router has it disabled. Afterwards the router's peer and the row are
-- both disabled, with the quota as the reason.
pub enforce_observation_to_disabled :
    (now : ℕ) (e e' : Enforcing) (o : Observation)
    → enforce_observation now e o ≡ (e', some to_disabled)
    → (is_reached o.used o.limit ≡ true)
      × (bypass_active now o.peer.quota_bypass_until ≡ false)
      × (o.peer.expired ≡ false)
      × (not o.peer.disabled || (o.rolled && is_quota o.peer.disabled_reason) ≡ true)
      × (e.remote.disabled && not o.peer.disabled ≡ false)
      × (e'.remote.disabled ≡ true)
      × (e'.account.peer.disabled ≡ true)
      × (e'.account.peer.disabled_reason ≡ some quota)
unfolding enforce_observation decide set_remote_quota_state set_row
enforce_observation_to_disabled now e e' o h = ground arith

-- A peer is enabled only if the quota had disabled it, and its period rolled over or its usage
-- is below the limit; afterwards the router's peer and the row are both enabled.
pub enforce_observation_reenabled :
    (now : ℕ) (e e' : Enforcing) (o : Observation)
    → enforce_observation now e o ≡ (e', some reenabled)
    → (disabled_by_quota o.peer ≡ true)
      × (o.rolled || not (is_reached o.used o.limit) ≡ true)
      × (e'.remote.disabled ≡ false)
      × (e'.account.peer.disabled ≡ false)
      × (e'.account.peer.disabled_reason ≡ none)
unfolding enforce_observation decide set_remote_quota_state set_row
enforce_observation_reenabled now e e' o h = ground arith

-- When the router refuses the first call of an enforcement, nothing is written.
pub enforce_observation_refused :
    (now : ℕ) (e : Enforcing) (o : Observation) (answers : List Bool)
    → e.answers ≡ false ∷ answers
    → (enforce_observation now e o).0 ≡ e
unfolding enforce_observation decide set_remote_quota_state set_row
enforce_observation_refused now e o answers h = ground arith
