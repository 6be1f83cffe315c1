-- ===== src/Peers/Create.antt =====
-- src/server/peer-service.ts, lines 54 to 152: the creation of a peer. The new identifier, the keys,
-- the cipher, the window of a period and the database's reading of an address are arguments. The
-- images of the client's configuration are left out, and the row of the router is at hand.
use wireguard_panel.Base.{
  ℕ, Bool, false, not, ◌||◌, List, [], ◌∷◌, ◌++◌, Option, none, some, if◌then◌else◌, find,
}
use wireguard_panel.Base.Int.{pos}
use wireguard_panel.Base.Text.{Text, text_eq, codes}
use wireguard_panel.Base.Decimal.{nonempty}
use wireguard_panel.Quota.{QuotaPeriod}
use wireguard_panel.Traffic.Rows.{Window}
use wireguard_panel.Routeros.Types.{RemoteWireGuardPeer}
use wireguard_panel.Operations.{start_operation, operation_step, finish_operation, completed}
use wireguard_panel.Pools.Rows.{WireGuardPool, InterfaceScope}
use wireguard_panel.Pools.Choose.{choose_pool_address, claim_pool_address, lock_pool_for_peer}
use wireguard_panel.Bandwidth.Queues.{SimpleQueue}
use wireguard_panel.Bandwidth.Apply.{
  apply_peer_bandwidth_remote, persist_bandwidth_result, get_effective_peer_bandwidth,
}
use wireguard_panel.Peers.World.{
  LifecycleStatus, SyncState, BandwidthState, PeerRecord, Handler, ◌>>=◌, ◌>>◌, pure, fail, modify,
  check, rethrown, get_peers, has_remote_id, update_record, set_operation, duplicate_peer,
  not_returned,
}
use wireguard_panel.Peers.Input.{
  CreatePeerInput, WireGuardKeys, StagedPeer, text_or, text_or_null, number_or_null, number_or,
  of_pool, wireguard_interface, create_remote_peer, initial_quota, is_duplicate, verified_row,
  created_row, inserted_peer, with_record,
}
use wireguard_panel.Peers.Undo.{undo_create}

module _ (inet : Text → Option ℕ) (encrypt_secret : Text → Text)
    (quota_period_window : ℕ → QuotaPeriod → Window) (fingerprint : RemoteWireGuardPeer → Text)
    (digest : SimpleQueue → Text) (keys : WireGuardKeys) (peer_id : ℕ)
    (input : CreatePeerInput) where
  abbrev pub encrypted_or_null : Option Text → Option Text
  encrypted_or_null none = none
  encrypted_or_null (some t) = if nonempty t then some (encrypt_secret t) else none

  -- The values of the `INSERT INTO peers`.
  unfoldable pub inserted_record : ℕ → WireGuardPool → Text → PeerRecord
  inserted_record now pool client_ip = record {
    id = peer_id;
    public_key = keys.public_key;
    remote_id = none;
    remote_fingerprint = none;
    disabled = false;
    expired = false;
    disabled_reason = none;
    quota_bypass_until = none;
    lifecycle_status = LifecycleStatus.creating;
    sync_state = SyncState.pending;
    bandwidth_sync_state = BandwidthState.not_configured;
    expires_at = input.expires_at;
    created_at = now;
    lifetime_rx_bytes = pos 0;
    lifetime_tx_bytes = pos 0;
    private_key_encrypted = some (encrypt_secret keys.private_key);
    preshared_key_encrypted = encrypted_or_null keys.preshared_key;
    client = record {
      description = text_or_null input.description;
      allowed_address = client_ip ++ codes "/32";
      client_allowed_ips = text_or input.client_allowed_ips pool.settings.client_allowed_ips;
      dns_server = text_or input.dns_server pool.settings.dns;
      persistent_keepalive =
          number_or input.persistent_keepalive pool.settings.persistent_keepalive;
      mtu = number_or input.mtu pool.settings.mtu;
      endpoint_override = text_or_null input.endpoint_override;
      endpoint_port_override = number_or_null input.endpoint_port_override;
    };
    quota = initial_quota quota_period_window now input.quota_bytes input.quota_period;
    bandwidth = record (input.bandwidth) {
      burst_threshold_download_bps = none;
      burst_threshold_upload_bps = none;
    };
    bandwidth_source = none;
  }

  abbrev pub requested : Option Text
  requested = if input.is_manual then input.requested_ip else none

  -- The first transaction; nothing is written before its end, where it commits.
  unfoldable pub stage_peer : Handler StagedPeer
  stage_peer w =
      (do
        pool ←
            of_pool (lock_pool_for_peer w.tables input.pool_id input.router_id input.interface_id)
        remote_peers ← get_peers
        client_ip ← of_pool (choose_pool_address w.tables pool remote_peers requested none)
        check (not (is_duplicate input.interface_id client_ip keys.public_key w)) duplicate_peer
        db ← of_pool (
            claim_pool_address inet
              (record (w.tables) {
                peers = w.tables.peers ++ inserted_peer peer_id input client_ip ∷ [];
              })
              pool client_ip peer_id input.name)
        let row = inserted_record w.now pool client_ip
        modify (with_record row db)
        pure (record {
          client_ip = client_ip;
          allowed_address = row.client.allowed_address;
          keepalive = row.client.persistent_keepalive;
        }))
        w

  -- The second transaction, which only checks.
  unfoldable pub recheck_address : List RemoteWireGuardPeer → Text → Handler Text
  recheck_address remote_peers client_ip w =
      (do
        pool ←
            of_pool (lock_pool_for_peer w.tables input.pool_id input.router_id input.interface_id)
        of_pool (choose_pool_address w.tables pool remote_peers (some client_ip) (some peer_id)))
        w

  abbrev pub is_created : Text → RemoteWireGuardPeer → Bool
  is_created remote_id p = has_remote_id remote_id p || text_eq p.public_key keys.public_key

  abbrev pub or_not_returned : Option RemoteWireGuardPeer → Handler RemoteWireGuardPeer
  or_not_returned none = fail not_returned
  or_not_returned (some remote) = pure remote

  unfoldable pub create_on_router : InterfaceScope → StagedPeer → Handler RemoteWireGuardPeer
  create_on_router interface staged = do
    remote_id ← create_remote_peer (record {
      interface_name = interface.name;
      public_key = keys.public_key;
      allowed_address = staged.allowed_address;
      comment = text_or input.description [];
      persistent_keepalive = staged.keepalive;
      preshared_key = keys.preshared_key;
      disabled = none;
    })
    modify (λ w. record w { created_id = some remote_id })
    peers ← get_peers
    remote ← or_not_returned (find (is_created remote_id) peers)
    modify (update_record peer_id (verified_row remote.id (fingerprint remote)))
    modify (set_operation (operation_step (codes "router_peer")))
    pure remote

  unfoldable pub apply_bandwidth : Text → Handler (Unit {0})
  apply_bandwidth client_ip = do
    policy ← get_effective_peer_bandwidth peer_id
    result ←
        apply_peer_bandwidth_remote digest
          (record { id = peer_id; name = input.name; client_ip = client_ip }) policy false
    modify (persist_bandwidth_result digest peer_id policy result)
    modify (set_operation (operation_step (codes "bandwidth")))

  unfoldable pub create_body : InterfaceScope → Handler Text
  create_body interface = do
    staged ← stage_peer
    modify (set_operation (operation_step (codes "database_allocation")))
    latest ← get_peers
    confirmed ← recheck_address latest staged.client_ip
    remote ← create_on_router interface staged
    apply_bandwidth staged.client_ip
    modify (update_record peer_id created_row)
    modify (λ w. set_operation (finish_operation w.now completed) w)
    pure staged.client_ip

  unfoldable pub create_peer : Handler Text
  create_peer = do
    modify (λ w. record w { operation = start_operation; staged = false; created_id = none })
    interface ← wireguard_interface input.interface_id input.router_id
    λ w. rethrown (undo_create peer_id) (create_body interface w)
