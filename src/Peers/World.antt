-- ===== src/Peers/World.antt =====
-- src/server/peer-service.ts and src/server/operation-reconciler.ts: the database and the router of
-- one peer's life, and the calls between them. A call of the router works, is refused, or is lost:
-- then it takes effect, and its answer does not come back.
use wireguard_panel.Base.{
  ℕ, ◌+◌, Bool, false, not, ◌||◌, List, [], ◌∷◌, map, Option, none, some, Result, ok, err, ◌==◌,
  if◌then◌else◌, keep, find, leb,
}
use wireguard_panel.Base.Text.{Text, text_eq}
use wireguard_panel.Routeros.Types.{RemoteWireGuardPeer, RemoteSimpleQueue, CreateRemotePeer}
use wireguard_panel.Base.Int.{ℤ}
use wireguard_panel.Quota.{QuotaPeriod}
use wireguard_panel.Traffic.Rows.{DisabledReason, Archive}
use wireguard_panel.Routeros.Exchange.{Row}
use wireguard_panel.Bandwidth.Queues.{SimpleQueue, BandwidthSource}
use wireguard_panel.Bandwidth.Conflicts.{ConflictSummary}
use wireguard_panel.Bandwidth.Policy.{BandwidthColumns, BandwidthTables}
use wireguard_panel.Operations.{Operation}
use wireguard_panel.Pools.Rows.{PoolError, PoolPeer, Tables}
use wireguard_panel.Pools.Choose.{release_peer_pool_address}

pub data LifecycleStatus : Type 0 where
  creating active pending_cleanup needs_reconciliation : LifecycleStatus

pub data SyncState : Type 0 where
  pending synced drifted error : SyncState

pub data BandwidthState : Type 0 where
  not_configured pending synced conflict error pending_cleanup : BandwidthState
  duplicate missing changed_externally router_unreachable : BandwidthState

-- The columns of `peers` on the traffic limit.
pub record QuotaColumns : Type 0 where
  pub quota_limit_bytes : Option ℤ
  pub quota_period : Option QuotaPeriod
  pub quota_period_started_at : Option ℕ
  pub quota_period_ends_at : Option ℕ
  pub period_rx_bytes : ℤ
  pub period_tx_bytes : ℤ
  pub quota_reached_at : Option ℕ
  pub quota_usage_when_disabled : Option ℤ

-- The columns of `peers` on the client's configuration.
pub record ClientColumns : Type 0 where
  pub description : Option Text
  pub allowed_address : Text
  pub client_allowed_ips : Text
  pub dns_server : Text
  pub persistent_keepalive : ℕ
  pub mtu : ℕ
  pub endpoint_override : Option Text
  pub endpoint_port_override : Option ℕ

-- The columns of `peers` that the handlers below read and write; those of its address stand in
-- `Tables`.
pub record PeerRecord : Type 0 where
  pub id : ℕ
  pub public_key : Text
  pub remote_id : Option Text
  pub remote_fingerprint : Option Text
  pub disabled : Bool
  pub expired : Bool
  pub disabled_reason : Option DisabledReason
  pub quota_bypass_until : Option ℕ
  pub lifecycle_status : LifecycleStatus
  pub sync_state : SyncState
  pub bandwidth_sync_state : BandwidthState
  pub expires_at : Option ℕ
  pub created_at : ℕ
  pub lifetime_rx_bytes : ℤ
  pub lifetime_tx_bytes : ℤ
  pub private_key_encrypted : Option Text
  pub preshared_key_encrypted : Option Text
  pub client : ClientColumns
  pub quota : QuotaColumns
  pub bandwidth : BandwidthColumns
  pub bandwidth_source : Option BandwidthSource

pub data Answer : Type 0 where
  works refused lost : Answer

pub data Failure : Type 0 where
  router_failed : Failure
  no_traffic_limit limit_not_reached is_expired disabled_manually : Failure
  peer_not_found deleted_outside changed_outside disabled_by_limit : Failure
  client_ip_required : Failure
  multiple_owned conflicting_queue advanced_conflict fast_track changed_on_router :
      List ConflictSummary → Failure
  queue_still_exists queue_not_applied : Failure
  pool_failed : PoolError → Failure
  interface_not_found duplicate_peer not_returned : Failure
  still_exists cleanup_not_verified queue_not_verified no_reconciler : Failure

-- A row of `peer_archives`, without its `deletion_details`. The columns of the peer's address, its
-- router, interface, pool, name and client address, come from the peer's row in `Tables`.
pub record ArchivedPeer : Type 0 where
  pub peer_id : ℕ
  pub address : Option PoolPeer
  pub description : Option Text
  pub created_at : ℕ
  pub lifetime_rx_bytes : ℤ
  pub lifetime_tx_bytes : ℤ
  pub quota_history : List Archive

-- A row of `managed_router_objects` for the queue of a peer, whose ownership comment goes by the
-- peer's identifier.
pub record ManagedObject : Type 0 where
  pub owner : ℕ
  pub remote_id : Option Text
  pub expected_state : SimpleQueue
  pub last_observed_state : Option SimpleQueue
  pub fingerprint : Option Text

-- What a drift has as the router's state.
pub data ObservedState : Type 0 where
  conflicts : List ConflictSummary → ObservedState
  queue : SimpleQueue → ObservedState
  nothing : ObservedState

-- A row of `configuration_drifts` on the bandwidth of a peer.
pub record Drift : Type 0 where
  pub peer_id : ℕ
  pub is_conflict : Bool
  pub application_state : Option SimpleQueue
  pub synchronized_state : Option SimpleQueue
  pub router_state : ObservedState
  pub resolved : Bool

-- A row of `audit_logs` that the expiry of a peer writes.
pub data PeerAudit : Type 0 where
  peer_expired peer_expiration_failed : ℕ → PeerAudit

pub record World : Type 0 where
  pub now : ℕ
  pub tables : Tables
  pub records : List PeerRecord
  -- the rows that `peer_archives` was given
  pub archives : List ArchivedPeer
  -- the queues in `managed_router_objects`
  pub managed_objects : List ManagedObject
  pub drifts : List Drift
  pub bandwidth_tables : BandwidthTables
  -- the rows of `quota_period_history`, each with its peer
  pub history : List (ℕ × Archive)
  pub audits : List PeerAudit
  pub operation : Operation
  pub router_peers : List RemoteWireGuardPeer
  pub queues : List RemoteSimpleQueue
  pub queue_trees : List Row
  pub mangle_rules : List Row
  pub filter_rules : List Row
  -- what the router makes of a queue and of a peer that it is asked for, by the number of the call,
  -- and of the changes to a queue that it has
  pub created_queue : ℕ → SimpleQueue → RemoteSimpleQueue
  pub created_peer : ℕ → CreateRemotePeer → RemoteWireGuardPeer
  pub updated_queue : SimpleQueue → RemoteSimpleQueue → RemoteSimpleQueue
  -- what the router answers to each call, and the calls so far
  pub answers : ℕ → Answer
  pub calls : ℕ
  -- the variable of `deletePeer` that its `catch` reads, and those of `createPeer`
  pub remote_deleted : Bool
  pub staged : Bool
  pub created_id : Option Text

abbrev pub Handler : Type 0 → Type 0
Handler A = World → Result Failure A × World

-- The rest of a handler, after what came before it.
unfoldable pub and_then {ℓ} :
    {A : Type ℓ} {B : Type 0}
    → (A → Handler B)
    → Result Failure A × World
    → Result Failure B × World
and_then f (ok a, w) = f a w
and_then f (err e, w) = (err e, w)

infixl 5 ◌>>=◌ ◌>>◌
abbrev pub ◌>>=◌ : {A B : Type 0} → Handler A → (A → Handler B) → Handler B
◌>>=◌ m f w = and_then f (m w)

abbrev pub ◌>>◌ : {B : Type 0} → Handler (Unit {0}) → Handler B → Handler B
m >> k = m >>= λ _. k

abbrev pub pure : {A : Type 0} → A → Handler A
pure a w = (ok a, w)

abbrev pub fail : {A : Type 0} → Failure → Handler A
fail e w = (err e, w)

-- A statement of the database.
abbrev pub modify : (World → World) → Handler (Unit {0})
modify f w = (ok tt, f w)

abbrev pub check : Bool → Failure → Handler (Unit {0})
check b e w = (if b then ok tt else err e, w)

-- `try m catch`, where the handler of the error runs and the error is thrown again.
unfoldable pub rethrown :
    {A : Type 0} → (World → World) → Result Failure A × World → Result Failure A × World
rethrown undo (ok a, w) = (ok a, w)
rethrown undo (err e, w) = (err e, undo w)

unfoldable pub answered : Answer → (World → World) → World → Result Failure (Unit {0}) × World
answered works effect w = (ok tt, effect w)
answered refused effect w = (err router_failed, w)
answered lost effect w = (err router_failed, effect w)

-- A call of the router that changes it.
abbrev pub call : (World → World) → Handler (Unit {0})
call effect w = answered (w.answers w.calls) effect (record w { calls = w.calls + 1 })

abbrev pub unchanged : World → World
unchanged w = w

-- `client.getPeers()` and `client.getSimpleQueues()`.
abbrev pub get_peers : Handler (List RemoteWireGuardPeer)
get_peers = call unchanged >>= λ _ w. (ok w.router_peers, w)

abbrev pub get_simple_queues : Handler (List RemoteSimpleQueue)
get_simple_queues = call unchanged >>= λ _ w. (ok w.queues, w)

abbrev pub has_remote_id : Text → RemoteWireGuardPeer → Bool
has_remote_id id peer = text_eq peer.id id

abbrev pub is_remote_id : Option Text → RemoteWireGuardPeer → Bool
is_remote_id none peer = false
is_remote_id (some id) peer = has_remote_id id peer

-- `peer.id === row.remote_id || peer.publicKey === row.public_key`.
abbrev pub is_remote : PeerRecord → RemoteWireGuardPeer → Bool
is_remote row peer = is_remote_id row.remote_id peer || text_eq peer.public_key row.public_key

-- `client.deletePeer(id)`, `client.updatePeer(id, {disabled})` and `client.deleteSimpleQueue(id)`, as
-- the router does them.
abbrev pub without_peer : Text → World → World
without_peer id w = record w { router_peers = keep (λ p. not (has_remote_id id p)) w.router_peers }

abbrev pub set_disabled : Text → Bool → RemoteWireGuardPeer → RemoteWireGuardPeer
set_disabled id b p = if has_remote_id id p then record p { disabled = b } else p

abbrev pub with_disabled : Text → Bool → World → World
with_disabled id b w = record w { router_peers = map (set_disabled id b) w.router_peers }

abbrev pub without_queue : Text → World → World
without_queue id w = record w {
  queues = keep (λ (q : RemoteSimpleQueue). not (text_eq q.id id)) w.queues;
}

abbrev pub is_record : ℕ → PeerRecord → Bool
is_record id p = p.id == id

-- `UPDATE peers SET … WHERE id=$1`.
abbrev pub on_record : ℕ → (PeerRecord → PeerRecord) → PeerRecord → PeerRecord
on_record id f p = if is_record id p then f p else p

abbrev pub update_record : ℕ → (PeerRecord → PeerRecord) → World → World
update_record id f w = record w { records = map (on_record id f) w.records }

abbrev pub set_operation : (Operation → Operation) → World → World
set_operation f w = record w { operation = f w.operation }

-- The row of the peer, from the address of the peer to the row itself, whose archived periods go
-- with it (`ON DELETE CASCADE`).
unfoldable pub delete_peer_row : ℕ → World → World
delete_peer_row id w = record w {
  tables = record (release_peer_pool_address id w.tables) {
    peers = keep (λ p. not (p.id == id)) w.tables.peers;
  };
  managed_objects = keep (λ (o : ManagedObject). not (o.owner == id)) w.managed_objects;
  drifts = keep (λ (d : Drift). not (d.peer_id == id)) w.drifts;
  history = keep (λ (entry : ℕ × Archive). not (entry.0 == id)) w.history;
  records = keep (λ p. not (is_record id p)) w.records;
}

-- `jsonb_agg(… ORDER BY q.period_started_at)`: a period takes its place among the sorted ones.
unfoldable pub insert_period : Archive → List Archive → List Archive
insert_period period [] = period ∷ []
insert_period period (first ∷ periods) =
    let rest = insert_period period periods in
    if leb period.started_at first.started_at then period ∷ first ∷ periods else first ∷ rest

-- `SELECT … FROM quota_period_history q WHERE q.peer_id=$1`.
unfoldable pub history_of : ℕ → List (ℕ × Archive) → List Archive
history_of id [] = []
history_of id ((owner, period) ∷ history) =
    let rest = history_of id history in if owner == id then insert_period period rest else rest

abbrev pub archived : PeerRecord → List PoolPeer → List (ℕ × Archive) → ArchivedPeer
archived row peers history = record {
  peer_id = row.id;
  address = find (λ (p : PoolPeer). p.id == row.id) peers;
  description = row.client.description;
  created_at = row.created_at;
  lifetime_rx_bytes = row.lifetime_rx_bytes;
  lifetime_tx_bytes = row.lifetime_tx_bytes;
  quota_history = history_of row.id history;
}

unfoldable pub archive_peer : PeerRecord → World → World
archive_peer row w = record w { archives = archived row w.tables.peers w.history ∷ w.archives }
