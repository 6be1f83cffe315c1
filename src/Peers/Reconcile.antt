-- ===== src/Peers/Reconcile.antt =====
-- src/server/operation-reconciler.ts, lines 11 to 66 and 80 to 85: the second attempt at what an
-- operation on a peer has left on the router. The row of the operation and of the router are at
-- hand. The reconciliation of an update is an argument.
use wireguard_panel.Base.{
  ℕ, Bool, true, false, not, Option, none, some, ok, if◌then◌else◌, any, find,
}
use wireguard_panel.Base.Text.{codes}
use wireguard_panel.Routeros.Types.{RemoteWireGuardPeer}
use wireguard_panel.Operations.{
  OperationStatus, completed, operation_step, finish_operation, fail_operation,
  finish_reconciled_failure,
}
use wireguard_panel.Peers.World.{
  PeerRecord, World, Handler, ◌>>=◌, ◌>>◌, pure, fail, modify, check, rethrown, call, get_peers,
  is_remote, is_record, without_peer, set_operation, delete_peer_row, cleanup_not_verified,
  no_reconciler,
}
use wireguard_panel.Peers.Handlers.{delete_owned_peer_queue_remote, archive_and_delete}

-- `if (remote) await client.deletePeer(remote.id)`.
unfoldable pub delete_found : Option RemoteWireGuardPeer → Handler (Unit {0})
delete_found none = pure tt
delete_found (some remote) = call (without_peer remote.id)

unfoldable pub delete_remote_of : PeerRecord → Handler (Unit {0})
delete_remote_of row = do
  peers ← get_peers
  delete_found (find (is_remote row) peers)
  remaining ← get_peers
  check (not (any (is_remote row) remaining)) cleanup_not_verified

abbrev pub reconciliation_cleanup : World → World
reconciliation_cleanup = set_operation (operation_step (codes "reconciliation_cleanup"))

abbrev pub finish_failure : World → World
finish_failure w = set_operation (finish_reconciled_failure w.now) w

abbrev pub finish_completed : World → World
finish_completed w = set_operation (finish_operation w.now completed) w

unfoldable pub create_cleanup : PeerRecord → Handler (Unit {0})
create_cleanup row = do
  delete_owned_peer_queue_remote row.id
  delete_remote_of row
  modify (delete_peer_row row.id)
  modify reconciliation_cleanup
  modify finish_failure

unfoldable pub delete_cleanup : PeerRecord → Handler (Unit {0})
delete_cleanup row = do
  delete_remote_of row
  delete_owned_peer_queue_remote row.id
  modify (archive_and_delete row)
  modify reconciliation_cleanup
  modify finish_completed

-- With no peer, or no row of it, the operation is closed by `close`.
unfoldable pub with_row :
    (World → World) → (PeerRecord → Handler (Unit {0})) → Option ℕ → Handler (Unit {0})
with_row close body none w = (ok tt, close w)
with_row close body (some peer_id) w = elim (find (is_record peer_id) w.records) [
  | none ↦ (ok tt, close w)
  | some row ↦ body row w
]

unfoldable pub reconcile_create_cleanup : Option ℕ → Handler (Unit {0})
reconcile_create_cleanup = with_row finish_failure create_cleanup

unfoldable pub reconcile_delete_cleanup : Option ℕ → Handler (Unit {0})
reconcile_delete_cleanup = with_row finish_completed delete_cleanup

pub data OperationType : Type 0 where
  peer_create peer_delete peer_update other : OperationType

abbrev pub is_pending_cleanup : OperationStatus → Bool
is_pending_cleanup OperationStatus.pending_cleanup = true
is_pending_cleanup _ = false

-- `operation.status==="pending_cleanup"?"pending_cleanup":"needs_reconciliation"`.
abbrev pub retried_as : OperationStatus → OperationStatus
retried_as status =
    if is_pending_cleanup status
    then OperationStatus.pending_cleanup
    else OperationStatus.needs_reconciliation

module _ (reconcile_update : Option ℕ → Handler (Unit {0})) where
  unfoldable pub reconcile_by_type : OperationType → Option ℕ → Handler (Unit {0})
  reconcile_by_type peer_create peer_id = reconcile_create_cleanup peer_id
  reconcile_by_type peer_delete peer_id = reconcile_delete_cleanup peer_id
  reconcile_by_type peer_update peer_id = reconcile_update peer_id
  reconcile_by_type other peer_id = fail no_reconciler

  -- One round of the loop, for an operation that was read with its status. An error is written down,
  -- and the loop goes on.
  unfoldable pub attempt : OperationType → Option ℕ → OperationStatus → Handler (Unit {0})
  attempt kind peer_id status w =
      rethrown (λ w'. set_operation (fail_operation w'.now (retried_as status)) w')
        (reconcile_by_type kind peer_id w)
