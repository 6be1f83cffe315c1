-- ===== src/Peers/Undo.antt =====
-- src/server/peer-service.ts, lines 134 to 148: the clean-up after a creation that failed.
use wireguard_panel.Base.{
  ℕ, Bool, true, false, not, ◌&&◌, List, Option, none, some, Result, ok, err, ◌==◌, if◌then◌else◌,
  any, keep,
}
use wireguard_panel.Base.Text.{Text}
use wireguard_panel.Traffic.Rows.{Archive}
use wireguard_panel.Routeros.Types.{RemoteWireGuardPeer}
use wireguard_panel.Operations.{OperationStatus, fail_operation, failed}
use wireguard_panel.Pools.Rows.{PoolPeer}
use wireguard_panel.Pools.Choose.{release_peer_pool_address}
use wireguard_panel.Peers.World.{
  Drift, World, Failure, call, get_peers, has_remote_id, without_peer, is_record, update_record,
  set_operation,
}
use wireguard_panel.Peers.Handlers.{delete_owned_peer_queue_remote, cleanup_row}

-- `attempt.catch(…)`, which tells whether there was an error.
unfoldable pub was_clean : {A : Type 0} → Result Failure A × World → Bool × World
was_clean (ok a, w) = (true, w)
was_clean (err e, w) = (false, w)

-- `client.getPeers().then(…).catch(() => true)`, negated.
unfoldable pub is_gone : Text → Result Failure (List RemoteWireGuardPeer) × World → Bool × World
is_gone id (ok peers, w) = (not (any (has_remote_id id) peers), w)
is_gone id (err e, w) = (false, w)

-- The clean-up of the router, where the peer was created there; an identifier is never empty.
unfoldable pub cleanup_remote : ℕ → Option Text → World → Bool × World
cleanup_remote peer_id none w = (true, w)
cleanup_remote peer_id (some id) w =
    let queue = was_clean (delete_owned_peer_queue_remote peer_id w) in
    let peer = was_clean (call (without_peer id) queue.1) in
    let gone = is_gone id (get_peers peer.1) in (queue.0 && peer.0 && gone.0, gone.1)

-- `releasePeerPoolAddress` and `DELETE FROM peers`, whose rows of the history and of the drifts go
-- with it; the managed objects stay.
unfoldable pub remove_created : ℕ → World → World
remove_created peer_id w = record w {
  tables = record (release_peer_pool_address peer_id w.tables) {
    peers = keep (λ (p : PoolPeer). not (p.id == peer_id)) w.tables.peers;
  };
  drifts = keep (λ (d : Drift). not (d.peer_id == peer_id)) w.drifts;
  history = keep (λ (entry : ℕ × Archive). not (entry.0 == peer_id)) w.history;
  records = keep (λ p. not (is_record peer_id p)) w.records;
}

-- What is done about the row, by whether the clean-up had no error.
unfoldable pub cleanup_database : ℕ → Bool → World → World
cleanup_database peer_id clean w =
    if w.staged
    then (if clean then remove_created peer_id w else update_record peer_id cleanup_row w)
    else w

-- The `catch` of `createPeer`.
unfoldable pub undo_create : ℕ → World → World
undo_create peer_id w =
    let cleaned = cleanup_remote peer_id w.created_id w in
    let w' = cleanup_database peer_id cleaned.0 cleaned.1 in
    set_operation
      (fail_operation w'.now (if cleaned.0 then failed else OperationStatus.pending_cleanup)) w'
