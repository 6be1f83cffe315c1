-- ===== src/Bandwidth/Queues.antt =====
-- src/server/bandwidth.ts: the queue that a policy asks for, and its comparison with the router's.
-- The hash of a queue's state is an argument; it is one of node's crypto.
use wireguard_panel.Base.{
  ℕ, Bool, true, false, not, ◌&&◌, ◌||◌, [], ◌∷◌, ◌++◌, Option, none, some, leb, ◌==◌,
  if◌then◌else◌, any, take,
}
use wireguard_panel.Base.Int.{ℤ, pos, negsuc}
use wireguard_panel.Base.Text.{Text, codes, text_eq, trim}
use wireguard_panel.Base.Decimal.{decimal, nonempty, is_digit}
use wireguard_panel.Ip.Allowed.{allowed_address_owns_ip}
use wireguard_panel.Routeros.Types.{RemoteSimpleQueue}
use wireguard_panel.Bandwidth.Rates.{
  to_lower_case, target_parts, normalize_queue_target, normalize_rate_pair, normalize_time_pair,
  slashed, ros_rate,
}

pub data BandwidthSource : Type 0 where
  peer profile router global unlimited : BandwidthSource

pub record EffectiveBandwidthPolicy : Type 0 where
  pub source : BandwidthSource
  pub source_name : Text
  pub download_bps : Option ℤ
  pub upload_bps : Option ℤ
  pub burst_download_bps : Option ℤ
  pub burst_upload_bps : Option ℤ
  pub burst_threshold_download_bps : Option ℤ
  pub burst_threshold_upload_bps : Option ℤ
  pub burst_time_seconds : Option ℕ

-- The fields that a desired queue and its normal form have.
pub record SimpleQueue : Type 0 where
  pub name : Text
  pub target : Text
  pub max_limit : Text
  pub burst_limit : Text
  pub burst_threshold : Text
  pub burst_time : Text
  pub disabled : Bool
  pub comment : Text

pub record BandwidthPeer : Type 0 where
  pub id : ℕ
  pub name : Text
  pub client_ip : Text

-- For an identifier that is a number.
abbrev pub queue_ownership_comment : ℕ → Text
queue_ownership_comment peer_id = codes "wireguard-control:peer:" ++ decimal peer_id

abbrev pub is_safe : ℕ → Bool
is_safe c = is_digit c || (leb b'a' c && leb c b'z')

-- `s.replace(/[^a-z0-9]+/g, "-")`; the flag says that the character before was replaced.
unfoldable pub dashed : Bool → Text → Text
dashed after [] = []
dashed after (c ∷ s) =
    let rest = dashed (not (is_safe c)) s in
    if is_safe c then c ∷ rest else if after then rest else b'-' ∷ rest

-- `s.replace(/^-|-$/g, "")`.
unfoldable pub without_first_dash : Text → Text
without_first_dash [] = []
without_first_dash (c ∷ s) = if c == b'-' then s else c ∷ s

unfoldable pub without_last_dash : Text → Text
without_last_dash [] = []
without_last_dash (c ∷ []) = if c == b'-' then [] else c ∷ []
without_last_dash (c ∷ d ∷ s) = c ∷ without_last_dash (d ∷ s)

unfoldable pub safe_name : Text → Text
unfolding dashed without_first_dash without_last_dash to_lower_case
safe_name peer_name =
    take 30 (without_last_dash (without_first_dash (dashed false (to_lower_case peer_name))))

unfoldable pub queue_name : ℕ → Text → Text
unfolding safe_name
queue_name peer_id peer_name =
    let name = safe_name peer_name in
    codes "wgc-" ++ (take 8 (decimal peer_id) ++ (if nonempty name then b'-' ∷ name else []))

-- `Boolean(value)` of a `bigint | null`, and of a `number | null`.
abbrev pub is_nonzero : Option ℤ → Bool
is_nonzero none = false
is_nonzero (some (pos n)) = not (n == 0)
is_nonzero (some (negsuc n)) = true

abbrev pub is_nonzero_number : Option ℕ → Bool
is_nonzero_number none = false
is_nonzero_number (some n) = not (n == 0)

-- `value ?? fallback`.
abbrev pub coalesce {ℓ} : {A : Type ℓ} → Option A → Option A → Option A
coalesce none fallback = fallback
coalesce (some a) fallback = some a

abbrev pub seconds : Option ℕ → Text
seconds none = codes "nulls"
seconds (some n) = decimal n ++ codes "s"

abbrev pub burst_configured : EffectiveBandwidthPolicy → Bool
burst_configured policy =
    is_nonzero policy.burst_download_bps
    && is_nonzero policy.burst_upload_bps
    && is_nonzero_number policy.burst_time_seconds

unfoldable pub queue_of : BandwidthPeer → EffectiveBandwidthPolicy → SimpleQueue
unfolding queue_name ros_rate
queue_of p policy =
    let burst = burst_configured policy in
    record {
      name = queue_name p.id p.name;
      target = p.client_ip ++ codes "/32";
      max_limit = slashed (ros_rate policy.upload_bps) (ros_rate policy.download_bps);
      burst_limit =
          if burst
          then slashed (ros_rate policy.burst_upload_bps) (ros_rate policy.burst_download_bps)
          else codes "0/0";
      burst_threshold =
          if burst
          then slashed (ros_rate (coalesce policy.burst_threshold_upload_bps policy.upload_bps))
              (ros_rate (coalesce policy.burst_threshold_download_bps policy.download_bps))
          else codes "0/0";
      burst_time =
          if burst
          then slashed (seconds policy.burst_time_seconds) (seconds policy.burst_time_seconds)
          else codes "0s/0s";
      disabled = false;
      comment = queue_ownership_comment p.id;
    }

unfoldable pub desired_simple_queue : BandwidthPeer → EffectiveBandwidthPolicy → Option SimpleQueue
unfolding queue_of
desired_simple_queue p policy =
    if is_nonzero policy.download_bps && is_nonzero policy.upload_bps
    then some (queue_of p policy)
    else none

-- A remote queue read as a desired one.
abbrev pub as_simple : RemoteSimpleQueue → SimpleQueue
as_simple q = record {
  name = q.name;
  target = q.target;
  max_limit = q.max_limit;
  burst_limit = q.burst_limit;
  burst_threshold = q.burst_threshold;
  burst_time = q.burst_time;
  disabled = q.disabled;
  comment = q.comment;
}

unfoldable pub simple_queue_state : SimpleQueue → SimpleQueue
unfolding normalize_queue_target normalize_rate_pair normalize_time_pair
simple_queue_state q = record {
  name = trim q.name;
  target = normalize_queue_target q.target;
  max_limit = normalize_rate_pair q.max_limit;
  burst_limit = normalize_rate_pair q.burst_limit;
  burst_threshold = normalize_rate_pair q.burst_threshold;
  burst_time = normalize_time_pair q.burst_time;
  disabled = q.disabled;
  comment = trim q.comment;
}

module _ (digest : SimpleQueue → Text) where
  unfoldable pub simple_queue_fingerprint : SimpleQueue → Text
  simple_queue_fingerprint q = digest (simple_queue_state q)

  unfoldable pub queue_matches_desired : RemoteSimpleQueue → SimpleQueue → Bool
  unfolding simple_queue_fingerprint
  queue_matches_desired q desired =
      text_eq (simple_queue_fingerprint (as_simple q)) (simple_queue_fingerprint desired)

-- `target.split(" ")[0]`.
unfoldable pub first_word : Text → Text
first_word [] = []
first_word (c ∷ s) = let rest = first_word s in if c == b' ' then [] else c ∷ rest

-- The `catch` never runs: `allowedAddressOwnsIp` does not throw.
unfoldable pub queue_targets_ip : RemoteSimpleQueue → Text → Bool
unfolding first_word
queue_targets_ip q ip =
    any (λ target. allowed_address_owns_ip (first_word target) ip) (target_parts q.target)
