-- ===== src/Peers/Deleted.antt =====
-- src/server/peer-service.ts, lines 207 to 256: what the deletion of a peer leaves in the database
-- and on the router.
use wireguard_panel.Base.{
  ℕ, ◌≡◌, refl, sym, ap, subst, ◌∙◌, ◌⊎◌, false, not, ◌∷◌, Option, none, some, ok, any, find, arith,
  Bool-cases, inl, inr,
}
use wireguard_panel.Base.Text.{Text}
use wireguard_panel.Routeros.Types.{RemoteWireGuardPeer}
use wireguard_panel.Operations.{
  OperationStatus, completed, failed, start_operation, finish_operation, fail_operation,
}
use wireguard_panel.Peers.World.{
  LifecycleStatus, active, PeerRecord, World, check, get_peers, is_remote, is_record, without_peer,
  delete_peer_row, ArchivedPeer, BandwidthState, error, archived, archive_peer, changed_outside,
  still_exists,
}
use wireguard_panel.Peers.Handlers.{
  is_owned, mutable_peer, or_deleted, has_changed, assert_current_remote, is_this, delete_on_router,
  set_lifecycle, cleanup_row, delete_body, undo_delete, delete_peer,
}
use wireguard_panel.Peers.Logic.{
  counted-OnlyQueues, Ends, and_then-Ends, and_then-ok, Ends-weaken, rethrown-Ends, call-Ends,
  check-Ends, get_peers-Ends, counted, SameRows, OnlyQueues, delete_owned_peer_queue_remote-Ends,
}
use wireguard_panel.Peers.Archived.{IsArchived, archived-IsArchived}
use wireguard_panel.Peers.Left.{
  find-on_record, find-id, IsGone, delete_peer_row-IsGone, IsLeft, SameRows-IsLeft, IsLeft-SameRows,
  IsLeft-mark, IsLeft-same,
}

delete_on_router-Ends :
    (row : PeerRecord) (remote : RemoteWireGuardPeer) (w w1 : World)
    → IsLeft row w w1
    → Ends
        (λ _ w'. IsLeft row w w' × (any (is_this row remote) w'.router_peers ≡ false))
        (λ w'. IsLeft row w w')
        (delete_on_router row remote w1)
unfolding delete_on_router
delete_on_router-Ends row remote w w1 l =
    let l2 = IsLeft-mark row LifecycleStatus.pending_cleanup w w1 l in
    and_then-ok _ (
      and_then-Ends _
        (call-Ends {P = λ _ w'. IsLeft row w w'} {E = λ w'. IsLeft row w w'}
          (without_peer remote.id) _ (IsLeft-same _ refl refl refl refl refl l2)
          (IsLeft-same _ refl refl refl refl refl l2) (IsLeft-same _ refl refl refl refl refl l2))
        (λ _ w3 l3. and_then-ok _ (
          and_then-Ends _
            (get_peers-Ends {P = λ peers w'. IsLeft row w w' × (peers ≡ w'.router_peers)}
              {E = λ w'. IsLeft row w w'} _ (IsLeft-same _ refl refl refl refl refl l3, refl)
              (IsLeft-same _ refl refl refl refl refl l3))
            (λ peers w4 l4.
              and_then-Ends _
                (check-Ends
                  {P = λ _ w'. IsLeft row w w' × (any (is_this row remote) w'.router_peers ≡ false)}
                  {E = λ w'. IsLeft row w w'} (not (any (is_this row remote) peers)) still_exists w4
                  (λ none_left. (l4.0, ground (arith, none_left, l4.1))) l4.0)
                (λ _ w5 l5. record {
                  ends = (IsLeft-same _ refl refl refl refl refl l5.0, l5.1);
                })))))

or_deleted-Ends :
    {E : World → Type 0} (o : Option RemoteWireGuardPeer) (w : World)
    → E w
    → Ends (λ remote w'. (w' ≡ w) × (o ≡ some remote)) E (or_deleted o w)
or_deleted-Ends none w e = record { ends = e }
or_deleted-Ends (some remote) w e = record { ends = (refl, refl) }

module _ (fingerprint : RemoteWireGuardPeer → Text) where
  pub assert_current_remote-Ends :
      (row : PeerRecord) (w : World)
      → Ends
          (λ remote w'. OnlyQueues w w' × (find (is_remote row) w.router_peers ≡ some remote))
          (λ w'. SameRows w w')
          (assert_current_remote fingerprint row w)
  unfolding assert_current_remote
  assert_current_remote-Ends row w =
      and_then-Ends (get_peers w)
        (get_peers-Ends {P = λ peers w'. (w' ≡ counted w) × (peers ≡ w.router_peers)} w (refl, refl)
          (counted-OnlyQueues w).rows)
        (λ peers w1 h1.
          and_then-Ends (or_deleted (find (is_remote row) peers) w1)
            (or_deleted-Ends {E = λ w'. SameRows w w'} (find (is_remote row) peers) w1
              (rw h1.0 (counted-OnlyQueues w).rows))
            (λ remote w2 h2.
              let here : w2 ≡ counted w = h2.0 ∙ h1.0 in
              and_then-Ends
                (check (not (has_changed row.remote_fingerprint (fingerprint remote)))
                  changed_outside w2)
                (check-Ends {P = λ _ w'. w' ≡ counted w} {E = λ w'. SameRows w w'} _ _ w2
                  (λ _. here) (rw here (counted-OnlyQueues w).rows))
                (λ _ w3 h3. record {
                  ends =
                      (rw h3 (counted-OnlyQueues w), ap (find (is_remote row)) (sym h1.1) ∙ h2.1);
                })))

-- What a deletion that succeeds leaves: the router's peer that was the row's is gone, with every
-- peer of the row's key and every queue of the peer; so are the row and its addresses; the archive
-- has an entry of the row and its periods, and the operation is completed.
pub record IsDeleted (row : PeerRecord) (w w' : World) : Type 0 where
  pub remote : RemoteWireGuardPeer
  pub was : find (is_remote row) w.router_peers ≡ some remote
  pub no_remote : any (is_this row remote) w'.router_peers ≡ false
  pub no_queue : any (is_owned row.id) w'.queues ≡ false
  pub gone : IsGone row.id w'
  pub entry : ArchivedPeer
  pub in_archive : w'.archives ≡ entry ∷ w.archives
  pub is_archived : IsArchived row w entry
  pub is_completed : w'.operation.status ≡ completed

abbrev pub IsKept : PeerRecord → World → Type 0
IsKept row w =
    (find (is_record row.id) w.records ≡ some (record row { lifecycle_status = active }))
    × (w.operation.status ≡ failed)

abbrev pub IsPending : PeerRecord → World → Type 0
IsPending row w =
    (find (is_record row.id) w.records
      ≡ some (record row {
        lifecycle_status = LifecycleStatus.pending_cleanup;
        sync_state = error;
        bandwidth_sync_state = BandwidthState.pending_cleanup;
      }))
    × (w.operation.status ≡ OperationStatus.pending_cleanup)
    × ((at : ℕ) × (w.operation.next_retry_at ≡ some at))

-- What a deletion that fails leaves: the tables of addresses, the archive and the managed objects
-- are as they were, and the row is there: active, with a failed operation, or to be cleaned up by
-- an operation that has its next attempt scheduled.
pub record IsNotDeleted (row : PeerRecord) (w w' : World) : Type 0 where
  pub tables : w'.tables ≡ w.tables
  pub archives : w'.archives ≡ w.archives
  pub history : w'.history ≡ w.history
  pub managed_objects : w'.managed_objects ≡ w.managed_objects
  pub state : IsKept row w' ⊎ IsPending row w'

pub mutable_peer-found :
    (id : ℕ) (row : PeerRecord) (w : World)
    → find (is_record id) w.records ≡ some row
    → mutable_peer id w ≡ (ok row, w)
unfolding mutable_peer
mutable_peer-found id row w h = rw (h, mutable_peer) refl

undo_delete-IsNotDeleted :
    (row : PeerRecord) (w w' : World) → IsLeft row w w' → IsNotDeleted row w (undo_delete row.id w')
unfolding undo_delete fail_operation
undo_delete-IsNotDeleted row w w' l =
    let before = record row { lifecycle_status = l.status } in
    elim (Bool-cases w'.remote_deleted) [
      | inl e ↦ rw e (record {
        tables = l.tables;
        archives = l.archives;
        history = l.history;
        managed_objects = l.managed_objects;
        state = inr (
          find-on_record row.id cleanup_row w'.records before (λ p. refl) l.found,
          refl,
          (_, refl),
        );
      })
      | inr e ↦ rw e (record {
        tables = l.tables;
        archives = l.archives;
        history = l.history;
        managed_objects = l.managed_objects;
        state = inl (
          find-on_record row.id (set_lifecycle active) w'.records before (λ p. refl) l.found,
          refl,
        );
      })
    ]

-- The tables and the periods are all that an entry of the archive depends on.
IsArchived-again :
    {row : PeerRecord} {w : World} {entry : ArchivedPeer}
    → IsArchived row (record w { operation = start_operation; remote_deleted = false }) entry
    → IsArchived row w entry
IsArchived-again a = record {
  peer_id = a.peer_id;
  address = a.address;
  description = a.description;
  created_at = a.created_at;
  lifetime_rx = a.lifetime_rx;
  lifetime_tx = a.lifetime_tx;
  periods = a.periods;
  in_order = a.in_order;
}

module _ (fingerprint : RemoteWireGuardPeer → Text) where
  delete_body-Ends :
      (row : PeerRecord) (w : World)
      → find (is_record row.id) w.records ≡ some row
      → Ends (λ _ w'. IsDeleted row w w') (λ w'. IsLeft row w w') (delete_body fingerprint row w)
  unfolding delete_body finish_operation delete_peer_row archive_peer
  delete_body-Ends row w h =
      and_then-Ends _
        (Ends-weaken
          {Q = λ remote w'. IsLeft row w w' × (find (is_remote row) w.router_peers ≡ some remote)}
          {F = λ w'. IsLeft row w w'} (assert_current_remote-Ends fingerprint row w)
          (λ remote w1 h1. (SameRows-IsLeft row w w1 h h1.0.rows, h1.1))
          (λ w1 s. SameRows-IsLeft row w w1 h s))
        (λ remote w1 h1. and_then-Ends _ (delete_on_router-Ends row remote w w1 h1.0) (λ _ w2 h2.
          and_then-Ends _
            (Ends-weaken
              {Q = λ _ w'.
                IsLeft row w w'
                × (any (is_this row remote) w'.router_peers ≡ false)
                × (any (is_owned row.id) w'.queues ≡ false)}
              {F = λ w'. IsLeft row w w'} (delete_owned_peer_queue_remote-Ends row.id w2)
              (λ _ w3 q. (IsLeft-SameRows row w w2 w3 h2.0 q.0.rows, rw q.0.router_peers h2.1, q.1))
              (λ w3 q. IsLeft-SameRows row w w2 w3 h2.0 q.rows))
            (λ _ w3 h3. and_then-ok _ (
              and_then-ok _ (record {
                ends = record {
                  remote = remote;
                  was = h1.1;
                  no_remote = h3.1;
                  no_queue = h3.2;
                  gone =
                      let gone = delete_peer_row-IsGone row.id (archive_peer row w3) in
                      record {
                        no_record = gone.no_record;
                        no_entry = gone.no_entry;
                        no_object = gone.no_object;
                      };
                  entry = archived row w.tables.peers w.history;
                  in_archive = rw (h3.0.tables, h3.0.history, h3.0.archives) refl;
                  is_archived = archived-IsArchived row w;
                  is_completed = refl;
                };
              })))))

  delete_row-Ends :
      (row : PeerRecord) (w : World)
      → find (is_record row.id) w.records ≡ some row
      → Ends
          (λ _ w'. IsDeleted row w w')
          (λ w'. IsNotDeleted row w w')
          (delete_peer fingerprint row.id w)
  unfolding delete_peer
  delete_row-Ends row w h =
      let started = record w { operation = start_operation; remote_deleted = false } in
      rw (mutable_peer-found row.id row w h) (
        Ends-weaken {P = λ _ w'. IsDeleted row started w'} {Q = λ _ w'. IsDeleted row w w'}
          {E = λ w'. IsNotDeleted row started w'} {F = λ w'. IsNotDeleted row w w'}
          (and_then-ok _ (
            and_then-ok _ (
              rethrown-Ends (undo_delete row.id) (delete_body fingerprint row started)
                (delete_body-Ends row started h)
                (λ w' l. undo_delete-IsNotDeleted row started w' l))))
          (λ _ w' d. record {
            remote = d.remote;
            was = d.was;
            no_remote = d.no_remote;
            no_queue = d.no_queue;
            gone = d.gone;
            entry = d.entry;
            in_archive = d.in_archive;
            is_archived = IsArchived-again d.is_archived;
            is_completed = d.is_completed;
          })
          (λ w' d. record {
            tables = d.tables;
            archives = d.archives;
            history = d.history;
            managed_objects = d.managed_objects;
            state = d.state;
          }))

  -- The deletion of a peer that has a row, whatever the router answers. When it succeeds, the
  -- router's peer that was the row's is gone, with every peer of the row's key and every queue of the
  -- peer, the row and its addresses are gone, the archive has an entry with the row's columns, those
  -- of its address, and its periods in the order they started, and the operation is completed. When
  -- it fails, the tables of addresses, the archive, the periods and the managed objects are as they
  -- were, and the row is there: active, with a failed operation, or waiting for its cleanup, with an
  -- operation whose next attempt is scheduled.
  pub delete_peer-Ends :
      (peer_id : ℕ) (row : PeerRecord) (w : World)
      → find (is_record peer_id) w.records ≡ some row
      → Ends
          (λ _ w'. IsDeleted row w w')
          (λ w'. IsNotDeleted row w w')
          (delete_peer fingerprint peer_id w)
  delete_peer-Ends peer_id row w h =
      let same = find-id peer_id w.records row h in
      subst
        (λ id.
          Ends (λ _ w'. IsDeleted row w w') (λ w'. IsNotDeleted row w w')
            (delete_peer fingerprint id w))
        same
        (delete_row-Ends row w
          (subst (λ id. find (is_record id) w.records ≡ some row) (sym same) h))
