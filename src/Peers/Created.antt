-- ===== src/Peers/Created.antt =====
-- src/server/peer-service.ts, lines 54 to 152: what a creation of a peer leaves in the database.
use wireguard_panel.Base.{
  ℕ, ◌≡◌, ◌∙◌, refl, sym, ap, subst, true, false, ◌⊎◌, inl, inr, Option, none, some, find, arith,
  Option-cases,
}
use wireguard_panel.Base.Text.{Text}
use wireguard_panel.Quota.{QuotaPeriod}
use wireguard_panel.Traffic.Rows.{Window}
use wireguard_panel.Routeros.Types.{RemoteWireGuardPeer}
use wireguard_panel.Operations.{start_operation, finish_operation, completed}
use wireguard_panel.Pools.Rows.{InterfaceScope}
use wireguard_panel.Bandwidth.Queues.{SimpleQueue}
use wireguard_panel.Peers.World.{LifecycleStatus, SyncState, PeerRecord, World, is_record}
use wireguard_panel.Peers.Logic.{
  Ends, and_then-Ends, and_then-ok, Ends-weaken, call-Ends, check-Ends, rethrown-Ends,
  get_peers-Ends, SameRows, SameRows-refl,
}
use wireguard_panel.Peers.Left.{find-on_record}
use wireguard_panel.Peers.Reenabled.{changed_peers}
use wireguard_panel.Peers.Input.{
  CreatePeerInput, WireGuardKeys, StagedPeer, create_remote_peer, wireguard_interface, is_interface,
  verified_row, created_row,
}
use wireguard_panel.Peers.Undo.{undo_create}
use wireguard_panel.Peers.Create.{
  stage_peer, inserted_record, recheck_address, or_not_returned, create_on_router, apply_bandwidth,
  create_body, create_peer,
}
use wireguard_panel.Peers.Deleted.{mutable_peer-found}
use wireguard_panel.Bandwidth.Apply.{state_row, persist_bandwidth_result}
use wireguard_panel.Bandwidth.Applied.{apply_peer_bandwidth_remote-HasQueue}
use wireguard_panel.Peers.Staged.{
  IsAbsent, IsStaged, IsUnderway, IsStaged-same, IsAbsent-same, IsStaged-update, find-append,
  of_pool-Ends,
}
use wireguard_panel.Peers.Undone.{AwaitsCleanup, undo_create-undone}

-- The row is active and marked as synchronised, and the operation is over.
pub record IsCreated (peer_id : ℕ) (w : World) : Type 0 where
  pub row : PeerRecord
  pub found : find (is_record peer_id) w.records ≡ some row
  pub lifecycle : row.lifecycle_status ≡ LifecycleStatus.active
  pub sync : row.sync_state ≡ SyncState.synced
  pub status : w.operation.status ≡ completed

restaged :
    {peer_id : ℕ} (w : World) {row : PeerRecord}
    → w.staged ≡ true
    → find (is_record peer_id) w.records ≡ some row
    → IsStaged peer_id w
restaged w {row = row} staged found = record { staged = staged; row = row; found = found }

wireguard_interface-Ends :
    (peer_id id router_id : ℕ) (w : World)
    → IsAbsent peer_id w
    → Ends
        (λ _ w'. w' ≡ w)
        (λ w'. IsAbsent peer_id w' ⊎ AwaitsCleanup peer_id w')
        (wireguard_interface id router_id w)
unfolding wireguard_interface
wireguard_interface-Ends peer_id id router_id w absent =
    elim (Option-cases (find (is_interface id router_id) w.tables.interfaces)) [
      | inl e ↦ rw (e, wireguard_interface) (record { ends = inl absent })
      | inr (i, e) ↦ rw (e, wireguard_interface) (record { ends = refl })
    ]

module _ (inet : Text → Option ℕ) (encrypt_secret : Text → Text)
    (quota_period_window : ℕ → QuotaPeriod → Window) (fingerprint : RemoteWireGuardPeer → Text)
    (digest : SimpleQueue → Text) (keys : WireGuardKeys) (peer_id : ℕ)
    (input : CreatePeerInput) where
  stage_peer-Ends :
      (w : World)
      → w.staged ≡ false
      → IsAbsent peer_id w
      → Ends
          (λ _ w'. IsStaged peer_id w')
          (λ w'. IsUnderway peer_id w')
          (stage_peer inet encrypt_secret quota_period_window fingerprint digest keys peer_id input
            w)
  unfolding stage_peer inserted_record
  stage_peer-Ends w before absent =
      let going : (w' : World) → SameRows w w' → IsUnderway peer_id w' =
        λ w' s. inl (s.staged ∙ before, IsAbsent-same s absent) in
      and_then-Ends _
        (of_pool-Ends {P = λ _ w'. SameRows w w'} {E = λ w'. IsUnderway peer_id w'} _ w
          (λ _ _. SameRows-refl w) (going _ (SameRows-refl w)))
        (λ pool w1 h1.
          and_then-Ends _
            (get_peers-Ends {P = λ _ w'. SameRows w w'} {E = λ w'. IsUnderway peer_id w'} w1
              (changed_peers _ _ h1) (going _ (changed_peers _ _ h1)))
            (λ remote_peers w2 h2.
              and_then-Ends _
                (of_pool-Ends {P = λ _ w'. SameRows w w'} {E = λ w'. IsUnderway peer_id w'} _ w2
                  (λ _ _. h2) (going _ h2))
                (λ client_ip w3 h3.
                  and_then-Ends _
                    (check-Ends {P = λ _ w'. SameRows w w'} {E = λ w'. IsUnderway peer_id w'} _ _ w3
                      (λ _. h3) (going _ h3))
                    (λ _ w4 h4.
                      and_then-Ends _
                        (of_pool-Ends {P = λ _ w'. SameRows w w'} {E = λ w'. IsUnderway peer_id w'}
                          _ w4 (λ _ _. h4) (going _ h4))
                        (λ db w5 h5. and_then-ok _ (record {
                          ends = record {
                            staged = refl;
                            row =
                                inserted_record inet encrypt_secret quota_period_window fingerprint
                                  digest keys peer_id input w.now pool client_ip;
                            found =
                                find-append (is_record peer_id) w5.records _
                                  (rw h5.records absent.no_record) (ground arith);
                          };
                        }))))))

  apply_bandwidth-Ends :
      (client_ip : Text) (w : World)
      → IsStaged peer_id w
      → Ends
          (λ _ w'. IsStaged peer_id w')
          (λ w'. IsUnderway peer_id w')
          (apply_bandwidth inet encrypt_secret quota_period_window fingerprint digest keys peer_id
            input client_ip w)
  unfolding apply_bandwidth persist_bandwidth_result
  apply_bandwidth-Ends client_ip w h =
      and_then-Ends _
        (rw (mutable_peer-found peer_id h.row w h.found) (
          and_then-ok {P = λ _ w'. IsStaged peer_id w'} {E = λ w'. IsUnderway peer_id w'} _
            (record { ends = h })))
        (λ policy w1 h1.
          and_then-Ends _
            (Ends-weaken {Q = λ _ w'. IsStaged peer_id w'} {F = λ w'. IsUnderway peer_id w'}
              (apply_peer_bandwidth_remote-HasQueue digest _ _ false w1)
              (λ _ w' s. IsStaged-same s.0.rows h1) (λ w' s. inr (IsStaged-same s.rows h1)))
            (λ result w2 h2.
              let stored = IsStaged-update (state_row policy result.state) (λ p. refl) h2 in
              and_then-ok _ (record {
                ends = record { staged = stored.staged; row = stored.row; found = stored.found };
              })))

  or_not_returned-Ends :
      (o : Option RemoteWireGuardPeer) (w : World)
      → IsStaged peer_id w
      → Ends
          (λ _ w'. IsStaged peer_id w')
          (λ w'. IsUnderway peer_id w')
          (or_not_returned inet encrypt_secret quota_period_window fingerprint digest keys peer_id
            input o w)
  or_not_returned-Ends none w h = record { ends = inr h }
  or_not_returned-Ends (some remote) w h = record { ends = h }

  create_on_router-Ends :
      (interface : InterfaceScope) (staged : StagedPeer) (w : World)
      → IsStaged peer_id w
      → Ends
          (λ _ w'. IsStaged peer_id w')
          (λ w'. IsUnderway peer_id w')
          (create_on_router inet encrypt_secret quota_period_window fingerprint digest keys peer_id
            input interface staged w)
  unfolding create_on_router create_remote_peer
  create_on_router-Ends interface staged w h =
      let kept : (w' : World) → SameRows w w' → IsStaged peer_id w' = λ w' s. IsStaged-same s h in
      and_then-Ends {Q = λ _ w'. IsStaged peer_id w'} _
        (and_then-Ends _
          (call-Ends {P = λ _ w'. IsStaged peer_id w'} {E = λ w'. IsUnderway peer_id w'} _ w
            (kept _ (changed_peers _ _ (SameRows-refl w)))
            (inr (kept _ (changed_peers _ _ (SameRows-refl w))))
            (inr (kept _ (changed_peers _ _ (SameRows-refl w)))))
          (λ _ w1 h1. record { ends = h1 }))
        (λ remote_id w2 h2. and_then-ok _ (
          and_then-Ends _
            (get_peers-Ends {P = λ _ w'. IsStaged peer_id w'} {E = λ w'. IsUnderway peer_id w'} _
              (record { staged = h2.staged; row = h2.row; found = h2.found })
              (inr (record { staged = h2.staged; row = h2.row; found = h2.found })))
            (λ peers w3 h3. and_then-Ends _ (or_not_returned-Ends _ w3 h3) (λ remote w4 h4.
              let verified =
                IsStaged-update (verified_row remote.id (fingerprint remote)) (λ p. refl) h4 in
              and_then-ok _ (
                and_then-ok _ (record {
                  ends = record {
                    staged = verified.staged;
                    row = verified.row;
                    found = verified.found;
                  };
                }))))))

  create_body-Ends :
      (interface : InterfaceScope) (w : World)
      → w.staged ≡ false
      → IsAbsent peer_id w
      → Ends
          (λ _ w'. IsCreated peer_id w')
          (λ w'. IsUnderway peer_id w')
          (create_body inet encrypt_secret quota_period_window fingerprint digest keys peer_id input
            interface w)
  unfolding create_body finish_operation recheck_address
  create_body-Ends interface w before absent =
      and_then-Ends _ (stage_peer-Ends w before absent) (λ staged w1 h1. and_then-ok _ (
        and_then-Ends _
          (get_peers-Ends {P = λ _ w'. IsStaged peer_id w'} {E = λ w'. IsUnderway peer_id w'} _
            (restaged _ h1.staged h1.found) (inr (restaged _ h1.staged h1.found)))
          (λ latest w2 h2.
            and_then-Ends {Q = λ _ w'. IsStaged peer_id w'} _
              (and_then-Ends _
                (of_pool-Ends {P = λ _ w'. IsStaged peer_id w'} {E = λ w'. IsUnderway peer_id w'} _
                  w2 (λ _ _. h2) (inr h2))
                (λ pool w3 h3. of_pool-Ends _ w3 (λ _ _. h3) (inr h3)))
              (λ confirmed w4 h4.
                and_then-Ends _ (create_on_router-Ends interface staged w4 h4) (λ remote w5 h5.
                  and_then-Ends _ (apply_bandwidth-Ends staged.client_ip w5 h5) (λ _ w6 h6.
                    and_then-ok _ (
                      and_then-ok _ (record {
                        ends = record {
                          row = created_row h6.row;
                          found =
                              find-on_record peer_id created_row w6.records h6.row (λ p. refl)
                                h6.found;
                          lifecycle = refl;
                          sync = refl;
                          status = refl;
                        };
                      }))))))))

  -- The creation of a peer under a new identifier, whatever the router answers. When it succeeds, the
  -- row is active and marked as synchronised, and the operation is completed. When it fails,
  -- either neither a row nor an address of the peer is left, or the row waits for its clean-up, with
  -- an operation that does.
  pub create_peer-Ends :
      (w : World)
      → IsAbsent peer_id w
      → Ends
          (λ _ w'. IsCreated peer_id w')
          (λ w'. IsAbsent peer_id w' ⊎ AwaitsCleanup peer_id w')
          (create_peer inet encrypt_secret quota_period_window fingerprint digest keys peer_id input
            w)
  unfolding create_peer
  create_peer-Ends w absent =
      let started = record w { operation = start_operation; staged = false; created_id = none } in
      let still : IsAbsent peer_id started = record {
        no_record = absent.no_record;
        no_entry = absent.no_entry;
      } in
      and_then-ok _ (
        and_then-Ends _
          (wireguard_interface-Ends peer_id input.interface_id input.router_id started still)
          (λ interface w1 h1.
            rethrown-Ends (undo_create peer_id) _
              (create_body-Ends interface w1 (ap (λ (u : World). u.staged) h1)
                (subst (IsAbsent peer_id) (sym h1) still))
              (λ w2 h2. undo_create-undone peer_id w2 h2)))
