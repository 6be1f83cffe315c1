-- ===== src/Tests/Peers.antt =====
-- Runs on a database with one peer and a router with that peer and one queue of it.
use wireguard_panel.Base.{
  ℕ, ◌+◌, ◌≡◌, ◌≤◌, refl, true, false, [], ◌∷◌, Option, some, none, ok, length, find, ◌⊎◌,
}
use wireguard_panel.Base.Int.{pos}
use wireguard_panel.Base.Text.{Text, codes, text_eq}
use wireguard_panel.Traffic.Rows.{DisabledReason, Window}
use wireguard_panel.Routeros.Types.{CreateRemotePeer, RemoteWireGuardPeer, RemoteSimpleQueue}
use wireguard_panel.Operations.{OperationStatus, start_operation, fail_operation}
use wireguard_panel.Operations.Retries.{fail_operation_backoff}
use wireguard_panel.Bandwidth.Queues.{SimpleQueue}
use wireguard_panel.Bandwidth.Policy.{BandwidthMode, RouterBandwidthMode}
use wireguard_panel.Peers.World.{
  Answer, works, refused, LifecycleStatus, SyncState, BandwidthState, PeerRecord, World, Handler,
  is_record,
}
use wireguard_panel.Peers.Handlers.{delete_peer, set_peer_enabled}
use wireguard_panel.Peers.Logic.{Ends, SameRows}
use wireguard_panel.Peers.Deleted.{IsDeleted, IsNotDeleted, delete_peer-Ends}
use wireguard_panel.Peers.Succeeds.{IsPresent, delete_peer-Succeeds}
use wireguard_panel.Peers.Enabled.{IsSwitched, SameTables, set_peer_enabled-IsSwitched}
use wireguard_panel.Peers.Reconcile.{peer_delete, retried_as, attempt}
use wireguard_panel.Peers.Reconciled.{IsFinished, IsRescheduled, attempt-delete_Ends}
use wireguard_panel.Peers.Expiry.{due_peers, enforce_expirations}
use wireguard_panel.Peers.Unexpired.{enforce_expirations-refused}
use wireguard_panel.Quota.{QuotaPeriod}
use wireguard_panel.Peers.Limits.{quota_configuration}
use wireguard_panel.Peers.Configured.{IsConsistent, quota_configuration-IsConsistent}
use wireguard_panel.Peers.Resets.{reset_peer_quota_usage, temporarily_reenable_peer}
use wireguard_panel.Peers.Reenabled.{IsReenabled, temporarily_reenable_peer-IsReenabled}
use wireguard_panel.Peers.WasReset.{IsReset, reset_peer_quota_usage-IsReset}
use wireguard_panel.Pools.Rows.{InterfaceScope, WireGuardPool}
use wireguard_panel.Peers.Input.{CreatePeerInput, WireGuardKeys}
use wireguard_panel.Peers.Create.{create_peer}
use wireguard_panel.Peers.Keys.{regenerate_peer_keys}
use wireguard_panel.Peers.Rotated.{IsRotated, IsUnrotated, regenerate_peer_keys-IsRotated}
use wireguard_panel.Peers.Staged.{IsAbsent}
use wireguard_panel.Peers.Undone.{AwaitsCleanup}
use wireguard_panel.Peers.Created.{IsCreated, create_peer-Ends}

abbrev pub fingerprint : RemoteWireGuardPeer → Text
fingerprint p = p.public_key

abbrev pub laptop : PeerRecord
laptop = record {
  id = 7;
  public_key = codes "k7";
  remote_id = some (codes "*1");
  remote_fingerprint = some (codes "k7");
  disabled = false;
  expired = false;
  disabled_reason = none;
  quota_bypass_until = none;
  lifecycle_status = LifecycleStatus.active;
  sync_state = SyncState.synced;
  bandwidth_sync_state = BandwidthState.not_configured;
  expires_at = some 50;
  created_at = 5;
  lifetime_rx_bytes = pos 700;
  lifetime_tx_bytes = pos 400;
  private_key_encrypted = none;
  preshared_key_encrypted = none;
  client = record {
    description = none;
    allowed_address = codes "10.8.0.2/32";
    client_allowed_ips = codes "0.0.0.0/0";
    dns_server = codes "10.8.0.1";
    persistent_keepalive = 25;
    mtu = 1420;
    endpoint_override = none;
    endpoint_port_override = none;
  };
  quota = record {
    quota_limit_bytes = none;
    quota_period = none;
    quota_period_started_at = none;
    quota_period_ends_at = none;
    period_rx_bytes = pos 0;
    period_tx_bytes = pos 0;
    quota_reached_at = none;
    quota_usage_when_disabled = none;
  };
  bandwidth = record {
    bandwidth_mode = BandwidthMode.default;
    bandwidth_profile_id = none;
    profile_id = none;
    download_limit_bps = none;
    upload_limit_bps = none;
    burst_download_bps = none;
    burst_upload_bps = none;
    burst_threshold_download_bps = none;
    burst_threshold_upload_bps = none;
    burst_time_seconds = none;
  };
  bandwidth_source = none;
}

abbrev pub remote : RemoteWireGuardPeer
remote = record {
  id = codes "*1";
  interface_name = codes "wg";
  name = codes "laptop";
  comment = [];
  public_key = codes "k7";
  allowed_address = codes "10.8.0.2/32";
  endpoint_address = none;
  endpoint_port = none;
  persistent_keepalive = 25;
  disabled = false;
  last_handshake_at = none;
  last_handshake_raw = none;
  last_handshake_parse_valid = true;
  rx_bytes = pos 0;
  tx_bytes = pos 0;
}

abbrev pub remote_as : Text → CreateRemotePeer → RemoteWireGuardPeer
remote_as id p = record remote {
  id = id;
  interface_name = p.interface_name;
  comment = p.comment;
  public_key = p.public_key;
  allowed_address = p.allowed_address;
  persistent_keepalive = p.persistent_keepalive;
}

abbrev pub queue_as : Text → SimpleQueue → RemoteSimpleQueue
queue_as id q = record {
  id = id;
  name = q.name;
  target = q.target;
  max_limit = q.max_limit;
  burst_limit = q.burst_limit;
  burst_threshold = q.burst_threshold;
  burst_time = q.burst_time;
  disabled = q.disabled;
  comment = q.comment;
  dynamic = false;
  invalid = false;
}

abbrev pub world : (ℕ → Answer) → World
world answers = record {
  now = 100;
  tables = record {
    pools = [];
    addresses = [];
    peers =
        record {
          id = 7;
          router_id = 1;
          interface_id = 1;
          pool_id = none;
          name = codes "laptop";
          client_ip = some (codes "10.8.0.2");
        }
        ∷ [];
    interfaces = [];
  };
  records = laptop ∷ [];
  archives = [];
  managed_objects = [];
  drifts = [];
  bandwidth_tables = record {
    profiles = [];
    peer_profiles = [];
    router_mode = RouterBandwidthMode.custom;
    router_download_bps = some (pos 2000000);
    router_upload_bps = some (pos 1000000);
    defaults = none;
  };
  history = [];
  audits = [];
  operation = start_operation;
  router_peers = remote ∷ [];
  queues = [];
  queue_trees = [];
  mangle_rules = [];
  filter_rules = [];
  created_queue = λ n q. queue_as (codes "*A") q;
  created_peer = λ n p. remote_as (codes "*B") p;
  updated_queue = λ q old. queue_as old.id q;
  answers = answers;
  calls = 0;
  remote_deleted = false;
  staged = false;
  created_id = none;
}

abbrev pub up : World
up = world (λ n. works)

abbrev pub down : World
down = world (λ n. refused)

-- The peer at its limit of 100 bytes, which disabled it.
abbrev pub spent : PeerRecord
spent = record laptop {
  disabled = true;
  disabled_reason = some DisabledReason.quota;
  quota = record {
    quota_limit_bytes = some (pos 100);
    quota_period = some QuotaPeriod.monthly;
    quota_period_started_at = some 10;
    quota_period_ends_at = some 1000;
    period_rx_bytes = pos 70;
    period_tx_bytes = pos 40;
    quota_reached_at = some 60;
    quota_usage_when_disabled = some (pos 105);
  };
}

abbrev spent_world : World
spent_world = record up { records = spent ∷ [] }

abbrev thirty_days : ℕ → QuotaPeriod → Window
thirty_days now period = record { start = now; end = some (now + 2592000) }

quota_configuration-IsConsistent_example :
    IsConsistent spent
      (quota_configuration thirty_days 100 spent (some (some (pos 500))) (some QuotaPeriod.daily))
quota_configuration-IsConsistent_example =
    quota_configuration-IsConsistent thirty_days 100 spent (some (some (pos 500)))
      (some QuotaPeriod.daily)

temporarily_reenable_peer-IsReenabled_example :
    Ends
      (λ _ w'. IsReenabled fingerprint 60 spent spent_world w')
      (λ w'. SameRows spent_world w')
      (temporarily_reenable_peer fingerprint 7 60 spent_world)
temporarily_reenable_peer-IsReenabled_example =
    temporarily_reenable_peer-IsReenabled fingerprint 7 60 spent spent_world refl

reset_peer_quota_usage-IsReset_example :
    Ends
      (λ used w'. IsReset fingerprint thirty_days spent used spent_world w')
      (λ w'. SameRows spent_world w')
      (reset_peer_quota_usage fingerprint thirty_days 7 spent_world)
reset_peer_quota_usage-IsReset_example =
    reset_peer_quota_usage-IsReset fingerprint thirty_days 7 spent spent_world refl

laptop-found : find (is_record 7) up.records ≡ some laptop
laptop-found = refl

laptop-IsPresent : IsPresent fingerprint laptop up
unfolding text_eq
laptop-IsPresent = record { remote = remote; found = refl; is_current = refl; alone = refl }

delete_peer-Ends_example :
    Ends
      (λ _ w'. IsDeleted laptop up w')
      (λ w'. IsNotDeleted laptop up w')
      (delete_peer fingerprint 7 up)
delete_peer-Ends_example = delete_peer-Ends fingerprint 7 laptop up laptop-found

delete_peer-Succeeds_example : (w' : World) × (delete_peer fingerprint 7 up ≡ (ok tt, w'))
delete_peer-Succeeds_example =
    delete_peer-Succeeds fingerprint 7 laptop up laptop-found laptop-IsPresent (λ n. refl)

set_peer_enabled-IsSwitched_example :
    Ends
      (λ _ w'. IsSwitched fingerprint false DisabledReason.manual laptop up w')
      (λ w'. SameTables up w')
      (set_peer_enabled fingerprint 7 false DisabledReason.manual up)
set_peer_enabled-IsSwitched_example =
    set_peer_enabled-IsSwitched fingerprint 7 false DisabledReason.manual laptop up laptop-found

abbrev no_update : Option ℕ → Handler (Unit {0})
no_update peer_id w = (ok tt, w)

attempt-delete_Ends_example :
    Ends
      (λ _ w'. IsFinished laptop up w')
      (λ w'. IsRescheduled (retried_as OperationStatus.pending_cleanup) up w')
      (attempt no_update peer_delete (some 7) OperationStatus.pending_cleanup up)
attempt-delete_Ends_example =
    attempt-delete_Ends no_update 7 laptop OperationStatus.pending_cleanup up laptop-found

enforce_expirations-refused_example :
    let (totals, w') = enforce_expirations fingerprint down in
    (w'.router_peers ≡ down.router_peers)
    × (totals.disabled ≡ 0)
    × (totals.failed ≡ length (due_peers down.now down.records))
    × (due_peers w'.now w'.records ≡ [])
enforce_expirations-refused_example = enforce_expirations-refused fingerprint down (λ n. refl)

fail_operation_backoff_example :
    let first = fail_operation 100 OperationStatus.pending_cleanup start_operation in
    (d e : ℕ) × (first.next_retry_at ≡ some (100 + d))
    × ((fail_operation 200 OperationStatus.pending_cleanup first).next_retry_at ≡ some (200 + e))
    × (15 ≤ d)
    × (d ≤ e)
    × (e ≤ 3600)
fail_operation_backoff_example =
    fail_operation_backoff 100 200 OperationStatus.pending_cleanup start_operation refl

-- A new peer, its keys, and a world with a pool for it.
abbrev office : InterfaceScope
office = record { id = 1; router_id = 1; name = codes "wg"; addresses = [] }

abbrev pool : WireGuardPool
pool = record {
  id = 3;
  router_id = 1;
  interface_id = 1;
  network_cidr = codes "10.8.0.0/24";
  gateway_ip = 168296449;
  start_ip = 168296450;
  end_ip = 168296460;
  settings = record {
    name = codes "office";
    dns = codes "10.8.0.1";
    client_allowed_ips = codes "0.0.0.0/0";
    endpoint_host = none;
    endpoint_port = none;
    mtu = 1420;
    persistent_keepalive = 25;
    enabled = true;
  };
}

abbrev phone : CreatePeerInput
phone = record {
  router_id = 1;
  interface_id = 1;
  pool_id = 3;
  is_manual = false;
  name = codes "phone";
  description = none;
  requested_ip = none;
  client_allowed_ips = none;
  dns_server = none;
  persistent_keepalive = none;
  mtu = none;
  endpoint_override = none;
  endpoint_port_override = none;
  expires_at = none;
  quota_bytes = some (pos 1000);
  quota_period = some QuotaPeriod.monthly;
  bandwidth = laptop.bandwidth;
}

abbrev keys : WireGuardKeys
keys = record { private_key = codes "p8"; public_key = codes "k8"; preshared_key = none }

abbrev pool_world : World
pool_world = record up {
  tables = record (up.tables) { pools = pool ∷ []; interfaces = office ∷ [] };
}

abbrev inet : Text → Option ℕ
inet t = some 168296451

abbrev encrypted : Text → Text
encrypted t = t

abbrev digest : SimpleQueue → Text
digest q = q.max_limit

create_peer-Ends_example :
    Ends
      (λ _ w'. IsCreated 8 w')
      (λ w'. IsAbsent 8 w' ⊎ AwaitsCleanup 8 w')
      (create_peer inet encrypted thirty_days fingerprint digest keys 8 phone pool_world)
create_peer-Ends_example =
    create_peer-Ends inet encrypted thirty_days fingerprint digest keys 8 phone pool_world
      (record { no_record = refl; no_entry = refl })

abbrev no_images : ℕ → Handler (Unit {0})
no_images peer_id w = (ok tt, w)

regenerate_peer_keys-IsRotated_example :
    Ends
      (λ _ w'.
        IsRotated encrypted fingerprint no_images keys laptop up w'
        × (w'.operation.status ≡ OperationStatus.completed))
      (λ w'. IsUnrotated up w')
      (regenerate_peer_keys encrypted fingerprint no_images keys 7 up)
regenerate_peer_keys-IsRotated_example =
    regenerate_peer_keys-IsRotated encrypted fingerprint no_images keys 7 laptop up
      (λ n w. record { ends = (refl, refl) }) laptop-found
