-- ===== src/Bandwidth/Policy.antt =====
-- src/server/bandwidth-service.ts, lines 25 to 118 and 279 to 298: which policy holds for a peer.
use wireguard_panel.Base.{
  ℕ, Bool, true, false, ◌&&◌, List, Option, none, some, ◌==◌, if◌then◌else◌, find,
}
use wireguard_panel.Base.Int.{ℤ}
use wireguard_panel.Base.Text.{Text, codes}
use wireguard_panel.Bandwidth.Queues.{BandwidthSource, EffectiveBandwidthPolicy, coalesce}

pub data BandwidthMode : Type 0 where
  default unlimited custom profile : BandwidthMode

pub data RouterBandwidthMode : Type 0 where
  global unlimited custom : RouterBandwidthMode

-- The columns of `peers` on the bandwidth.
pub record BandwidthColumns : Type 0 where
  pub bandwidth_mode : BandwidthMode
  pub bandwidth_profile_id : Option ℕ
  pub profile_id : Option ℕ
  pub download_limit_bps : Option ℤ
  pub upload_limit_bps : Option ℤ
  pub burst_download_bps : Option ℤ
  pub burst_upload_bps : Option ℤ
  pub burst_threshold_download_bps : Option ℤ
  pub burst_threshold_upload_bps : Option ℤ
  pub burst_time_seconds : Option ℕ

pub record BandwidthProfile : Type 0 where
  pub id : ℕ
  pub name : Text
  pub enabled : Bool
  pub download_bps : Option ℤ
  pub upload_bps : Option ℤ
  pub burst_download_bps : Option ℤ
  pub burst_upload_bps : Option ℤ
  pub burst_threshold_download_bps : Option ℤ
  pub burst_threshold_upload_bps : Option ℤ
  pub burst_time_seconds : Option ℕ

pub record PeerProfile : Type 0 where
  pub id : ℕ
  pub bandwidth_profile_id : Option ℕ

-- The setting `bandwidth_defaults`; its rates are decimal texts.
pub record GlobalDefaults : Type 0 where
  pub is_custom : Bool
  pub download_bps : Option ℤ
  pub upload_bps : Option ℤ

-- What else the choice reads: the profiles, the columns of the router, and the setting.
pub record BandwidthTables : Type 0 where
  pub profiles : List BandwidthProfile
  pub peer_profiles : List PeerProfile
  pub router_mode : RouterBandwidthMode
  pub router_download_bps : Option ℤ
  pub router_upload_bps : Option ℤ
  pub defaults : Option GlobalDefaults

abbrev pub unlimited_policy : Text → EffectiveBandwidthPolicy
unlimited_policy source_name = record {
  source = BandwidthSource.unlimited;
  source_name = source_name;
  download_bps = none;
  upload_bps = none;
  burst_download_bps = none;
  burst_upload_bps = none;
  burst_threshold_download_bps = none;
  burst_threshold_upload_bps = none;
  burst_time_seconds = none;
}

-- `policyFromValues` on the columns of a peer, and on a profile.
abbrev pub policy_from_peer : BandwidthColumns → EffectiveBandwidthPolicy
policy_from_peer p = record {
  source = BandwidthSource.peer;
  source_name = codes "Peer override";
  download_bps = p.download_limit_bps;
  upload_bps = p.upload_limit_bps;
  burst_download_bps = p.burst_download_bps;
  burst_upload_bps = p.burst_upload_bps;
  burst_threshold_download_bps = p.burst_threshold_download_bps;
  burst_threshold_upload_bps = p.burst_threshold_upload_bps;
  burst_time_seconds = p.burst_time_seconds;
}

abbrev pub policy_from_profile : BandwidthProfile → EffectiveBandwidthPolicy
policy_from_profile p = record {
  source = BandwidthSource.profile;
  source_name = p.name;
  download_bps = p.download_bps;
  upload_bps = p.upload_bps;
  burst_download_bps = p.burst_download_bps;
  burst_upload_bps = p.burst_upload_bps;
  burst_threshold_download_bps = p.burst_threshold_download_bps;
  burst_threshold_upload_bps = p.burst_threshold_upload_bps;
  burst_time_seconds = p.burst_time_seconds;
}

-- A policy with two rates and no burst.
abbrev pub plain_policy : BandwidthSource → Text → Option ℤ → Option ℤ → EffectiveBandwidthPolicy
plain_policy source source_name download upload = record {
  source = source;
  source_name = source_name;
  download_bps = download;
  upload_bps = upload;
  burst_download_bps = none;
  burst_upload_bps = none;
  burst_threshold_download_bps = none;
  burst_threshold_upload_bps = none;
  burst_time_seconds = none;
}

-- `Boolean(text)` of a `bigint` column, which comes as a text that is not empty.
abbrev pub is_present {ℓ} : {A : Type ℓ} → Option A → Bool
is_present none = false
is_present (some a) = true

unfoldable pub from_profile : BandwidthProfile → EffectiveBandwidthPolicy
from_profile p =
    if is_present p.download_bps && is_present p.upload_bps
    then policy_from_profile p
    else unlimited_policy p.name

unfoldable pub from_defaults : Option GlobalDefaults → EffectiveBandwidthPolicy
from_defaults none = unlimited_policy (codes "Global default")
from_defaults (some d) =
    if d.is_custom && (is_present d.download_bps && is_present d.upload_bps)
    then plain_policy BandwidthSource.global (codes "Global default") d.download_bps d.upload_bps
    else unlimited_policy (codes "Global default")

unfoldable pub from_router : BandwidthTables → RouterBandwidthMode → EffectiveBandwidthPolicy
unfolding from_defaults
from_router t unlimited = unlimited_policy (codes "Router default")
from_router t custom =
    plain_policy BandwidthSource.router (codes "Router default") t.router_download_bps
      t.router_upload_bps
from_router t global = from_defaults t.defaults

-- `pp.bandwidth_profile_id` of the join with `peer_profiles`.
unfoldable pub peer_profile_bandwidth : List PeerProfile → Option ℕ → Option ℕ
peer_profile_bandwidth profiles none = none
peer_profile_bandwidth profiles (some id) = elim (find (λ (p : PeerProfile). p.id == id) profiles) [
  | none ↦ none
  | some p ↦ p.bandwidth_profile_id
]

-- `SELECT * FROM bandwidth_profiles WHERE id=$1 AND enabled=true`.
unfoldable pub enabled_profile : List BandwidthProfile → Option ℕ → Option BandwidthProfile
enabled_profile profiles none = none
enabled_profile profiles (some id) =
    find (λ (p : BandwidthProfile). p.id == id && p.enabled) profiles

unfoldable pub from_profile_or_router :
    BandwidthTables → Option BandwidthProfile → EffectiveBandwidthPolicy
unfolding from_profile from_router
from_profile_or_router t none = from_router t t.router_mode
from_profile_or_router t (some p) = from_profile p

unfoldable pub effective_by_mode :
    BandwidthTables → BandwidthColumns → BandwidthMode → EffectiveBandwidthPolicy
unfolding from_profile_or_router enabled_profile peer_profile_bandwidth
effective_by_mode t p unlimited = unlimited_policy (codes "Peer override")
effective_by_mode t p custom = policy_from_peer p
effective_by_mode t p profile =
    from_profile_or_router t (enabled_profile t.profiles p.bandwidth_profile_id)
effective_by_mode t p default = from_profile_or_router t (
    enabled_profile t.profiles
      (coalesce p.bandwidth_profile_id (peer_profile_bandwidth t.peer_profiles p.profile_id)))

unfoldable pub effective_bandwidth : BandwidthTables → BandwidthColumns → EffectiveBandwidthPolicy
unfolding effective_by_mode
effective_bandwidth t p = effective_by_mode t p p.bandwidth_mode
