-- ===== src/Peers/Keys.antt =====
-- src/server/peer-service.ts, lines 422 to 448: the rotation of a peer's keys, with the roll-back after
-- an error. The new keys, the ciphers and what the router makes of new keys are arguments; the renewal
-- of the images (`refreshPeerQr`) is a step that may fail.
use wireguard_panel.Base.{ℕ, Bool, ◌||◌, map, Option, none, some, if◌then◌else◌, find}
use wireguard_panel.Base.Text.{Text, text_eq, codes}
use wireguard_panel.Base.Decimal.{nonempty}
use wireguard_panel.Routeros.Types.{RemoteWireGuardPeer}
use wireguard_panel.Operations.{
  OperationStatus, start_operation, operation_step, finish_operation, fail_operation, completed,
  failed,
}
use wireguard_panel.Peers.World.{
  LifecycleStatus, error, PeerRecord, World, Handler, ◌>>=◌, ◌>>◌, pure, fail, modify, rethrown,
  call, get_peers, has_remote_id, update_record, set_operation, not_returned, is_remote_id,
}
use wireguard_panel.Peers.Handlers.{mutable_peer, assert_current_remote}
use wireguard_panel.Peers.Input.{WireGuardKeys}
use wireguard_panel.Peers.Undo.{was_clean}

-- `client.updatePeer(id, {publicKey, presharedKey})`; the router shows no preshared key.
abbrev pub set_public_key : Text → Text → RemoteWireGuardPeer → RemoteWireGuardPeer
set_public_key id key p = if has_remote_id id p then record p { public_key = key } else p

abbrev pub with_public_key : Text → Text → World → World
with_public_key id key w = record w { router_peers = map (set_public_key id key) w.router_peers }

-- `UPDATE peers SET public_key=$2,private_key_encrypted=$3,…`.
abbrev pub rotated_row : Text → Text → Option Text → Text → PeerRecord → PeerRecord
rotated_row public_key private_key preshared_key fingerprint p = record p {
  public_key = public_key;
  private_key_encrypted = some private_key;
  preshared_key_encrypted = preshared_key;
  remote_fingerprint = some fingerprint;
}

abbrev pub needs_reconciliation_row : PeerRecord → PeerRecord
needs_reconciliation_row p = record p {
  lifecycle_status = LifecycleStatus.needs_reconciliation;
  sync_state = error;
}

abbrev pub failed_as : OperationStatus → World → World
failed_as status w = set_operation (fail_operation w.now status) w

-- `if (current) await client.updatePeer(current.id, …)`.
abbrev pub restore_key : PeerRecord → Option RemoteWireGuardPeer → Handler (Unit {0})
restore_key row none = pure tt
restore_key row (some current) = call (with_public_key current.id row.public_key)

unfoldable pub restore_keys : PeerRecord → Handler (Unit {0})
restore_keys row = do peers ← get_peers; restore_key row (find (is_remote_id row.remote_id) peers)

-- The `catch` after the router has the new keys, and before the row has them.
unfoldable pub roll_back_keys : PeerRecord → World → World
roll_back_keys row w =
    let restored = was_clean (restore_keys row w) in
    if restored.0
    then failed_as failed restored.1
    else failed_as OperationStatus.needs_reconciliation
        (update_record row.id needs_reconciliation_row restored.1)

module _ (encrypt_secret : Text → Text) (fingerprint : RemoteWireGuardPeer → Text)
    (refresh_peer_qr : ℕ → Handler (Unit {0})) (keys : WireGuardKeys) where
  unfoldable pub send_keys : PeerRecord → Handler RemoteWireGuardPeer
  send_keys row = do
    remote ← assert_current_remote fingerprint row
    call (with_public_key remote.id keys.public_key)
    pure remote

  abbrev pub is_rotated : RemoteWireGuardPeer → RemoteWireGuardPeer → Bool
  is_rotated remote p = has_remote_id remote.id p || text_eq p.public_key keys.public_key

  abbrev pub or_not_regenerated : Option RemoteWireGuardPeer → Handler RemoteWireGuardPeer
  or_not_regenerated none = fail not_returned
  or_not_regenerated (some updated) = pure updated

  -- `keys.presharedKey ? encryptSecret(keys.presharedKey) : null`.
  abbrev pub encrypted_preshared : Option Text → Option Text
  encrypted_preshared none = none
  encrypted_preshared (some key) = if nonempty key then some (encrypt_secret key) else none

  unfoldable pub store_keys : PeerRecord → RemoteWireGuardPeer → Handler (Unit {0})
  store_keys row remote = do
    peers ← get_peers
    updated ← or_not_regenerated (find (is_rotated remote) peers)
    modify (
        update_record row.id (
          rotated_row keys.public_key (encrypt_secret keys.private_key)
            (encrypted_preshared keys.preshared_key) (fingerprint updated)))

  unfoldable pub finish_rotation : PeerRecord → Handler (Unit {0})
  finish_rotation row = do
    modify (set_operation (operation_step (codes "router_and_database_keys")))
    refresh_peer_qr row.id
    modify (set_operation (operation_step (codes "credential_material")))
    modify (λ w. set_operation (finish_operation w.now completed) w)

  -- The body in three parts, by what the `catch` finds done: nothing, the router's keys, the row's.
  unfoldable pub regenerate_peer_keys : ℕ → Handler (Unit {0})
  regenerate_peer_keys peer_id = do
    row ← mutable_peer peer_id
    modify (set_operation (λ o. start_operation))
    remote ← λ w. rethrown (failed_as failed) (send_keys row w)
    (λ w. rethrown (roll_back_keys row) (store_keys row remote w))
    λ w. rethrown (failed_as OperationStatus.needs_reconciliation) (finish_rotation row w)
