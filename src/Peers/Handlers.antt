-- ===== src/Peers/Handlers.antt =====
-- src/server/peer-service.ts, lines 187 to 256 and 460 to 473: enabling and deleting a peer, and
-- src/server/bandwidth-service.ts, lines 198 to 205: the removal of its queues. The row of the
-- router and the connection are at hand.
use wireguard_panel.Base.{
  ℕ, Bool, true, false, not, ◌&&◌, ◌||◌, List, [], ◌∷◌, Option, none, some, ok, err, if◌then◌else◌,
  any, find, keep,
}
use wireguard_panel.Base.Text.{Text, text_eq, trim, codes}
use wireguard_panel.Base.Decimal.{nonempty}
use wireguard_panel.Routeros.Types.{RemoteWireGuardPeer, RemoteSimpleQueue}
use wireguard_panel.Traffic.Rows.{DisabledReason}
use wireguard_panel.Operations.{
  start_operation, operation_step, finish_operation, fail_operation, OperationStatus, completed,
  failed,
}
use wireguard_panel.Bandwidth.Queues.{queue_ownership_comment}
use wireguard_panel.Peers.World.{
  LifecycleStatus, BandwidthState, active, error, PeerRecord, World, Handler, ◌>>=◌, ◌>>◌, pure,
  modify, check, rethrown, call, get_peers, get_simple_queues, has_remote_id, is_remote,
  without_peer, with_disabled, without_queue, is_record, update_record, set_operation,
  delete_peer_row, archive_peer, peer_not_found, deleted_outside, changed_outside,
  disabled_by_limit, still_exists, queue_not_verified,
}

abbrev pub is_owned : ℕ → RemoteSimpleQueue → Bool
is_owned peer_id queue = text_eq (trim queue.comment) (queue_ownership_comment peer_id)

unfoldable pub delete_queues : List RemoteSimpleQueue → Handler (Unit {0})
delete_queues [] = pure tt
delete_queues (queue ∷ queues) = call (without_queue queue.id) >> delete_queues queues

unfoldable pub delete_owned_peer_queue_remote : ℕ → Handler (Unit {0})
delete_owned_peer_queue_remote peer_id = do
  queues ← get_simple_queues
  delete_queues (keep (is_owned peer_id) queues)
  remaining ← get_simple_queues
  check (not (any (is_owned peer_id) remaining)) queue_not_verified

unfoldable pub mutable_peer : ℕ → Handler PeerRecord
mutable_peer peer_id w = elim (find (is_record peer_id) w.records) [
  | none ↦ (err peer_not_found, w)
  | some row ↦ (ok row, w)
]

-- `row.remote_fingerprint && fingerprint !== row.remote_fingerprint`.
abbrev pub has_changed : Option Text → Text → Bool
has_changed none fingerprint = false
has_changed (some old) fingerprint = nonempty old && not (text_eq fingerprint old)

abbrev pub or_deleted : Option RemoteWireGuardPeer → Handler RemoteWireGuardPeer
or_deleted none w = (err deleted_outside, w)
or_deleted (some remote) w = (ok remote, w)

abbrev pub is_quota_reason : Option DisabledReason → Bool
is_quota_reason (some DisabledReason.quota) = true
is_quota_reason _ = false

abbrev pub set_lifecycle : LifecycleStatus → PeerRecord → PeerRecord
set_lifecycle status p = record p { lifecycle_status = status }

abbrev pub cleanup_row : PeerRecord → PeerRecord
cleanup_row p = record p {
  lifecycle_status = LifecycleStatus.pending_cleanup;
  sync_state = error;
  bandwidth_sync_state = BandwidthState.pending_cleanup;
}

-- The transaction at the end of a deletion.
abbrev pub archive_and_delete : PeerRecord → World → World
archive_and_delete row w = delete_peer_row row.id (archive_peer row w)

-- The `catch` of `deletePeer`.
unfoldable pub undo_delete : ℕ → World → World
undo_delete peer_id w =
    if w.remote_deleted
    then set_operation (fail_operation w.now OperationStatus.pending_cleanup)
        (update_record peer_id cleanup_row w)
    else set_operation (fail_operation w.now failed)
        (update_record peer_id (set_lifecycle active) w)

abbrev pub is_this : PeerRecord → RemoteWireGuardPeer → RemoteWireGuardPeer → Bool
is_this row remote p = has_remote_id remote.id p || text_eq p.public_key row.public_key

-- The deletion on the router, and its verification.
unfoldable pub delete_on_router : PeerRecord → RemoteWireGuardPeer → Handler (Unit {0})
delete_on_router row remote = do
  modify (update_record row.id (set_lifecycle LifecycleStatus.pending_cleanup))
  call (without_peer remote.id)
  modify (λ w. record w { remote_deleted = true })
  peers ← get_peers
  check (not (any (is_this row remote) peers)) still_exists
  modify (set_operation (operation_step (codes "router_peer")))

abbrev pub enabled_row : Bool → DisabledReason → Option Text → PeerRecord → PeerRecord
enabled_row enabled reason remote_fingerprint p = record p {
  disabled = not enabled;
  expired = if enabled then false else p.expired;
  disabled_reason = if enabled then none else some reason;
  quota_bypass_until = if enabled then p.quota_bypass_until else none;
  remote_fingerprint = remote_fingerprint;
}

module _ (fingerprint : RemoteWireGuardPeer → Text) where
  unfoldable pub assert_current_remote : PeerRecord → Handler RemoteWireGuardPeer
  assert_current_remote row = do
    peers ← get_peers
    remote ← or_deleted (find (is_remote row) peers)
    check (not (has_changed row.remote_fingerprint (fingerprint remote))) changed_outside
    pure remote

  -- `updated ? remotePeerFingerprint(updated) : row.remote_fingerprint`.
  abbrev pub next_fingerprint : PeerRecord → Option RemoteWireGuardPeer → Option Text
  next_fingerprint row none = row.remote_fingerprint
  next_fingerprint row (some updated) = some (fingerprint updated)

  unfoldable pub set_peer_enabled : ℕ → Bool → DisabledReason → Handler (Unit {0})
  set_peer_enabled peer_id enabled reason = do
    row ← mutable_peer peer_id
    check (not (enabled && is_quota_reason row.disabled_reason)) disabled_by_limit
    remote ← assert_current_remote row
    call (with_disabled remote.id (not enabled))
    peers ← get_peers
    modify (
        update_record peer_id (
          enabled_row enabled reason (next_fingerprint row (find (has_remote_id remote.id) peers))))

  unfoldable pub delete_body : PeerRecord → Handler (Unit {0})
  delete_body row = do
    remote ← assert_current_remote row
    delete_on_router row remote
    delete_owned_peer_queue_remote row.id
    modify (set_operation (operation_step (codes "bandwidth_cleanup")))
    modify (archive_and_delete row)
    modify (λ w. set_operation (finish_operation w.now completed) w)

  unfoldable pub delete_peer : ℕ → Handler (Unit {0})
  delete_peer peer_id = do
    row ← mutable_peer peer_id
    modify (λ w. record w { operation = start_operation; remote_deleted = false })
    λ w. rethrown (undo_delete peer_id) (delete_body row w)
