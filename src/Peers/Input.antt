-- ===== src/Peers/Input.antt =====
-- src/server/peer-service.ts, lines 20 to 52 and 66 to 104: the input of a peer's creation, and what
-- its handler is made of: the defaults of the pool, the columns of the limit, the unique columns of
-- a row, and the router's call.
use wireguard_panel.Base.{
  ℕ, Bool, true, false, ◌&&◌, ◌||◌, [], ◌∷◌, ◌++◌, Option, none, some, Result, ok, err, ◌==◌,
  if◌then◌else◌, find, any,
}
use wireguard_panel.Base.Int.{ℤ, pos}
use wireguard_panel.Base.Text.{Text, text_eq}
use wireguard_panel.Base.Decimal.{nonempty}
use wireguard_panel.Quota.{QuotaPeriod}
use wireguard_panel.Traffic.Rows.{Window}
use wireguard_panel.Routeros.Types.{CreateRemotePeer}
use wireguard_panel.Pools.Rows.{PoolPeer, InterfaceScope, Tables, PoolError}
use wireguard_panel.Bandwidth.Queues.{is_nonzero, is_nonzero_number}
use wireguard_panel.Bandwidth.Policy.{BandwidthColumns}
use wireguard_panel.Peers.World.{
  LifecycleStatus, SyncState, QuotaColumns, PeerRecord, World, Handler, ◌>>=◌, call, pool_failed,
  interface_not_found,
}

pub record CreatePeerInput : Type 0 where
  pub router_id : ℕ
  pub interface_id : ℕ
  pub pool_id : ℕ
  pub is_manual : Bool
  pub name : Text
  pub description : Option Text
  pub requested_ip : Option Text
  pub client_allowed_ips : Option Text
  pub dns_server : Option Text
  pub persistent_keepalive : Option ℕ
  pub mtu : Option ℕ
  pub endpoint_override : Option Text
  pub endpoint_port_override : Option ℕ
  pub expires_at : Option ℕ
  pub quota_bytes : Option ℤ
  pub quota_period : Option QuotaPeriod
  pub bandwidth : BandwidthColumns

-- What `generateWireGuardKeys` answers.
pub record WireGuardKeys : Type 0 where
  pub private_key : Text
  pub public_key : Text
  pub preshared_key : Option Text

-- What the first transaction hands on.
pub record StagedPeer : Type 0 where
  pub client_ip : Text
  pub allowed_address : Text
  pub keepalive : ℕ

-- `a || b`, `a || null` on texts and numbers, and `a ?? b`.
abbrev pub text_or : Option Text → Text → Text
text_or none fallback = fallback
text_or (some t) fallback = if nonempty t then t else fallback

abbrev pub text_or_null : Option Text → Option Text
text_or_null none = none
text_or_null (some t) = if nonempty t then some t else none

abbrev pub number_or_null : Option ℕ → Option ℕ
number_or_null n = if is_nonzero_number n then n else none

abbrev pub number_or : Option ℕ → ℕ → ℕ
number_or none fallback = fallback
number_or (some n) fallback = n

-- A step of a transaction on the pools, whose error is thrown.
unfoldable pub of_pool : {A : Type 0} → Result PoolError A → Handler A
of_pool (ok a) w = (ok a, w)
of_pool (err e) w = (err (pool_failed e), w)

-- `SELECT * FROM wireguard_interfaces WHERE id=$1 AND router_id=$2`.
abbrev pub is_interface : ℕ → ℕ → InterfaceScope → Bool
is_interface id router_id i = i.id == id && i.router_id == router_id

unfoldable pub wireguard_interface : ℕ → ℕ → Handler InterfaceScope
wireguard_interface id router_id w = elim (find (is_interface id router_id) w.tables.interfaces) [
  | none ↦ (err interface_not_found, w)
  | some i ↦ (ok i, w)
]

-- `client.createPeer(input)`: its answer is the identifier.
abbrev pub with_peer : ℕ → CreateRemotePeer → World → World
with_peer number input w = record w {
  router_peers = w.router_peers ++ w.created_peer number input ∷ [];
}

unfoldable pub create_remote_peer : CreateRemotePeer → Handler Text
create_remote_peer input w =
    let number = w.calls in
    (call (with_peer number input) >>= λ _ w'. (ok (w'.created_peer number input).id, w')) w

-- `input.quotaBytes&&input.quotaPeriod ? quotaPeriodWindow(…) : null`, with the columns of the limit.
unfoldable pub initial_quota :
    (ℕ → QuotaPeriod → Window) → ℕ → Option ℤ → Option QuotaPeriod → QuotaColumns
initial_quota quota_period_window now bytes period =
    let empty : Option QuotaPeriod → Option ℕ → Option ℕ → QuotaColumns = λ p start end. record {
      quota_limit_bytes = bytes;
      quota_period = p;
      quota_period_started_at = start;
      quota_period_ends_at = end;
      period_rx_bytes = pos 0;
      period_tx_bytes = pos 0;
      quota_reached_at = none;
      quota_usage_when_disabled = none;
    } in
    if is_nonzero bytes
    then elim period [
      | none ↦ empty none none none
      | some p ↦
          let window = quota_period_window now p in empty (some p) (some window.start) window.end
    ]
    else empty none none none

-- The unique columns of `peers`, on one router: the key, and the address on the interface.
abbrev pub has_public_key : Text → PeerRecord → Bool
has_public_key key p = text_eq p.public_key key

abbrev pub has_client_ip : ℕ → Text → PoolPeer → Bool
has_client_ip interface_id ip p =
    p.interface_id == interface_id && elim p.client_ip [ none ↦ false | some own ↦ text_eq own ip ]

unfoldable pub is_duplicate : ℕ → Text → Text → World → Bool
is_duplicate interface_id ip key w =
    any (has_public_key key) w.records || any (has_client_ip interface_id ip) w.tables.peers

-- `UPDATE peers SET remote_id=$2, remote_fingerprint=$3, …`.
abbrev pub verified_row : Text → Text → PeerRecord → PeerRecord
verified_row remote_id fingerprint p = record p {
  remote_id = some remote_id;
  remote_fingerprint = some fingerprint;
}

-- `UPDATE peers SET lifecycle_status='active',sync_state='synced',…`.
abbrev pub created_row : PeerRecord → PeerRecord
created_row p = record p {
  lifecycle_status = LifecycleStatus.active;
  sync_state = SyncState.synced;
}

-- The row and the address's part of it, as the transaction inserts them.
abbrev pub inserted_peer : ℕ → CreatePeerInput → Text → PoolPeer
inserted_peer peer_id input client_ip = record {
  id = peer_id;
  router_id = input.router_id;
  interface_id = input.interface_id;
  pool_id = some input.pool_id;
  name = input.name;
  client_ip = some client_ip;
}

abbrev pub with_record : PeerRecord → Tables → World → World
with_record row db w = record w { tables = db; records = w.records ++ row ∷ []; staged = true }
