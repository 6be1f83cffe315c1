-- ===== src/Peers/Reconciled.antt =====
-- src/server/operation-reconciler.ts, lines 30 to 66: what the second attempt at a cleanup leaves in
-- the database and on the router.
use wireguard_panel.Base.{
  ℕ, ◌+◌, ◌≡◌, refl, true, false, not, List, ◌∷◌, Option, none, some, any, find, arith,
}
use wireguard_panel.Routeros.Types.{RemoteWireGuardPeer}
use wireguard_panel.Operations.{
  OperationStatus, completed, failed, finish_operation, fail_operation, finish_reconciled_failure,
  is_retried,
}
use wireguard_panel.Peers.World.{
  PeerRecord, ArchivedPeer, archived, World, Handler, get_peers, is_remote, is_record, without_peer,
  delete_peer_row, archive_peer, set_operation, cleanup_not_verified,
}
use wireguard_panel.Peers.Handlers.{is_owned}
use wireguard_panel.Peers.Logic.{
  Ends, and_then-Ends, and_then-ok, Ends-weaken, rethrown-Ends, call-Ends, check-Ends,
  get_peers-Ends, SameRows, SameRows-refl, SameRows-trans, delete_owned_peer_queue_remote-Ends,
}
use wireguard_panel.Peers.Archived.{IsArchived, archived-IsArchived}
use wireguard_panel.Peers.Left.{IsGone, delete_peer_row-IsGone}
use wireguard_panel.Peers.Reconcile.{
  delete_found, delete_remote_of, create_cleanup, delete_cleanup, with_row,
  reconcile_create_cleanup, reconcile_delete_cleanup, peer_create, peer_delete, retried_as,
  reconcile_by_type, attempt,
}

-- Neither the rows nor the queues of the router change.
record OnlyPeers (w w' : World) : Type 0 where
  rows : SameRows w w'
  queues : w'.queues ≡ w.queues

changed_peers :
    {w w' : World} (peers : List RemoteWireGuardPeer) (calls : ℕ)
    → OnlyPeers w w'
    → OnlyPeers w (record w' { router_peers = peers; calls = calls })
changed_peers peers calls h = record {
  rows = record {
    now = h.rows.now;
    tables = h.rows.tables;
    records = h.rows.records;
    archives = h.rows.archives;
    history = h.rows.history;
    managed_objects = h.rows.managed_objects;
    operation = h.rows.operation;
    remote_deleted = h.rows.remote_deleted;
    staged = h.rows.staged;
    created_id = h.rows.created_id;
  };
  queues = h.queues;
}

OnlyPeers-refl : (w : World) → OnlyPeers w w
OnlyPeers-refl w = record { rows = SameRows-refl w; queues = refl }

delete_found-Ends :
    {w : World} (o : Option RemoteWireGuardPeer) (w1 : World)
    → OnlyPeers w w1
    → Ends (λ _ w'. OnlyPeers w w') (λ w'. OnlyPeers w w') (delete_found o w1)
unfolding delete_found
delete_found-Ends none w1 h = record { ends = h }
delete_found-Ends {w} (some remote) w1 h =
    call-Ends {P = λ _ w'. OnlyPeers w w'} {E = λ w'. OnlyPeers w w'} (without_peer remote.id) w1
      (changed_peers _ _ h) (changed_peers _ _ h) (changed_peers _ _ h)

delete_remote_of-Ends :
    (row : PeerRecord) (w : World)
    → Ends
        (λ _ w'. OnlyPeers w w' × (any (is_remote row) w'.router_peers ≡ false))
        (λ w'. OnlyPeers w w')
        (delete_remote_of row w)
unfolding delete_remote_of
delete_remote_of-Ends row w =
    and_then-Ends (get_peers w)
      (get_peers-Ends {P = λ _ w'. OnlyPeers w w'} {E = λ w'. OnlyPeers w w'} w
        (changed_peers _ _ (OnlyPeers-refl w)) (changed_peers _ _ (OnlyPeers-refl w)))
      (λ peers w1 h1.
        and_then-Ends _ (delete_found-Ends (find (is_remote row) peers) w1 h1) (λ _ w2 h2.
          and_then-Ends (get_peers w2)
            (get_peers-Ends {P = λ remaining w'. OnlyPeers w w' × (remaining ≡ w'.router_peers)}
              {E = λ w'. OnlyPeers w w'} w2 (changed_peers _ _ h2, refl) (changed_peers _ _ h2))
            (λ remaining w3 h3.
              check-Ends (not (any (is_remote row) remaining)) cleanup_not_verified w3
                (λ none_left. (h3.0, ground (arith, none_left, h3.1))) h3.0)))

-- Nothing is left of the peer: neither on the router, nor in the database.
pub record IsCleaned (row : PeerRecord) (w : World) : Type 0 where
  pub no_remote : any (is_remote row) w.router_peers ≡ false
  pub no_queue : any (is_owned row.id) w.queues ≡ false
  pub gone : IsGone row.id w

-- The rows are as they were, and the next attempt of the operation is scheduled.
pub record IsRescheduled (status : OperationStatus) (w w' : World) : Type 0 where
  pub tables : w'.tables ≡ w.tables
  pub records : w'.records ≡ w.records
  pub archives : w'.archives ≡ w.archives
  pub history : w'.history ≡ w.history
  pub managed_objects : w'.managed_objects ≡ w.managed_objects
  pub is_pending : w'.operation.status ≡ status
  pub attempts : w'.operation.retry_count ≡ w.operation.retry_count + 1
  pub at : ℕ
  pub next : w'.operation.next_retry_at ≡ some at

-- What the steps on the router have left before the rows are deleted.
record IsClear (row : PeerRecord) (w w' : World) : Type 0 where
  rows : SameRows w w'
  no_remote : any (is_remote row) w'.router_peers ≡ false
  no_queue : any (is_owned row.id) w'.queues ≡ false

IsClear-gone :
    {row : PeerRecord} {w w' : World} → IsClear row w w' → IsCleaned row (delete_peer_row row.id w')
unfolding delete_peer_row
IsClear-gone {row} {w} {w'} c = record {
  no_remote = c.no_remote;
  no_queue = c.no_queue;
  gone = delete_peer_row-IsGone row.id w';
}

-- Another world with the same rows and the same router.
moved :
    {row : PeerRecord} {w : World} (w' : World)
    → w'.router_peers ≡ w.router_peers
    → w'.queues ≡ w.queues
    → w'.records ≡ w.records
    → w'.tables ≡ w.tables
    → w'.managed_objects ≡ w.managed_objects
    → IsCleaned row w
    → IsCleaned row w'
moved w' p q r t m c = record {
  no_remote = rw p c.no_remote;
  no_queue = rw q c.no_queue;
  gone = record {
    no_record = rw r c.gone.no_record;
    no_entry = rw t c.gone.no_entry;
    no_object = rw m c.gone.no_object;
  };
}

abbrev pub IsFailedCleanly : PeerRecord → World → World → Type 0
IsFailedCleanly row w w' =
    IsCleaned row w'
    × (w'.archives ≡ w.archives)
    × (w'.operation.status ≡ failed)
    × (w'.operation.next_retry_at ≡ none)

abbrev pub IsFinished : PeerRecord → World → World → Type 0
IsFinished row w w' =
    IsCleaned row w'
    × ((entry : ArchivedPeer) × IsArchived row w entry × (w'.archives ≡ entry ∷ w.archives))
    × (w'.operation.status ≡ completed)

create_cleanup-Ends :
    (row : PeerRecord) (w : World)
    → Ends (λ _ w'. IsFailedCleanly row w w') (λ w'. SameRows w w') (create_cleanup row w)
unfolding create_cleanup delete_peer_row finish_reconciled_failure
create_cleanup-Ends row w =
    and_then-Ends _
      (Ends-weaken {Q = λ _ w'. SameRows w w' × (any (is_owned row.id) w'.queues ≡ false)}
        {F = λ w'. SameRows w w'} (delete_owned_peer_queue_remote-Ends row.id w)
        (λ _ w1 h. (h.0.rows, h.1)) (λ w1 h. h.rows))
      (λ _ w1 h1.
        and_then-Ends _
          (Ends-weaken {Q = λ _ w'. IsClear row w w'} {F = λ w'. SameRows w w'}
            (delete_remote_of-Ends row w1)
            (λ _ w2 h. record {
              rows = SameRows-trans h1.0 h.0.rows;
              no_remote = h.1;
              no_queue = rw h.0.queues h1.1;
            })
            (λ w2 h. SameRows-trans h1.0 h.rows))
          (λ _ w2 c. and_then-ok _ (
            and_then-ok _ (record {
              ends =
                  (moved _ refl refl refl refl refl (IsClear-gone c), c.rows.archives, refl, refl);
            }))))

delete_cleanup-Ends :
    (row : PeerRecord) (w : World)
    → Ends (λ _ w'. IsFinished row w w') (λ w'. SameRows w w') (delete_cleanup row w)
unfolding delete_cleanup delete_peer_row finish_operation archive_peer
delete_cleanup-Ends row w =
    and_then-Ends _
      (Ends-weaken {Q = λ _ w'. SameRows w w' × (any (is_remote row) w'.router_peers ≡ false)}
        {F = λ w'. SameRows w w'} (delete_remote_of-Ends row w) (λ _ w1 h. (h.0.rows, h.1))
        (λ w1 h. h.rows))
      (λ _ w1 h1.
        and_then-Ends _
          (Ends-weaken {Q = λ _ w'. IsClear row w w'} {F = λ w'. SameRows w w'}
            (delete_owned_peer_queue_remote-Ends row.id w1)
            (λ _ w2 h. record {
              rows = SameRows-trans h1.0 h.0.rows;
              no_remote = rw h.0.router_peers h1.1;
              no_queue = h.1;
            })
            (λ w2 h. SameRows-trans h1.0 h.rows))
          (λ _ w2 c. and_then-ok _ (
            and_then-ok _ (record {
              ends = (
                moved _ refl refl refl refl refl (IsClear-gone c),
                (
                  archived row w.tables.peers w.history,
                  archived-IsArchived row w,
                  rw (c.rows.tables, c.rows.history, c.rows.archives) refl,
                ),
                refl,
              );
            }))))

fail_operation-IsRescheduled :
    (as_status : OperationStatus) (w w' : World)
    → is_retried as_status ≡ true
    → SameRows w w'
    → IsRescheduled as_status w (set_operation (fail_operation w'.now as_status) w')
unfolding fail_operation
fail_operation-IsRescheduled as_status w w' h s = rw h (record {
  tables = s.tables;
  records = s.records;
  archives = s.archives;
  history = s.history;
  managed_objects = s.managed_objects;
  is_pending = refl;
  attempts = rw s.operation refl;
  at = _;
  next = refl;
})

retried_as-is_retried : (status : OperationStatus) → is_retried (retried_as status) ≡ true
retried_as-is_retried status = ground arith

with_row-found :
    (close : World → World) (body : PeerRecord → Handler (Unit {0})) (peer_id : ℕ)
    (row : PeerRecord) (w : World)
    → find (is_record peer_id) w.records ≡ some row
    → with_row close body (some peer_id) w ≡ body row w
unfolding with_row
with_row-found close body peer_id row w h = rw (h, with_row) refl

module _ (reconcile_update : Option ℕ → Handler (Unit {0})) where
  -- One round of the reconciler on the creation of a peer that has a row, whatever the router
  -- answers. When it succeeds, nothing is left of the peer: on the router no peer with its
  -- identifier or key and no queue of its, in the database neither its row nor an address nor an
  -- object; the archive is as it was, and the operation has failed for good. When it does not
  -- succeed, the rows are as they were, and the next attempt is counted and scheduled.
  pub attempt-create_Ends :
      (peer_id : ℕ) (row : PeerRecord) (status : OperationStatus) (w : World)
      → find (is_record peer_id) w.records ≡ some row
      → Ends
          (λ _ w'. IsFailedCleanly row w w')
          (λ w'. IsRescheduled (retried_as status) w w')
          (attempt reconcile_update peer_create (some peer_id) status w)
  unfolding attempt reconcile_by_type reconcile_create_cleanup
  attempt-create_Ends peer_id row status w h =
      rethrown-Ends _ _
        (rw (with_row-found _ create_cleanup peer_id row w h) (create_cleanup-Ends row w))
        (λ w' s.
          fail_operation-IsRescheduled (retried_as status) w w' (retried_as-is_retried status) s)

  -- One round of the reconciler on the deletion of a peer that has a row, whatever the router
  -- answers. When it succeeds, nothing is left of the peer: on the router no peer with its
  -- identifier or key and no queue of its, in the database neither its row nor an address nor an
  -- object; the archive has an entry with the row's columns, those of its address, and its periods
  -- in the order they started, and the operation is completed. When it does not succeed, the rows
  -- are as they were, and the next attempt is counted and scheduled.
  pub attempt-delete_Ends :
      (peer_id : ℕ) (row : PeerRecord) (status : OperationStatus) (w : World)
      → find (is_record peer_id) w.records ≡ some row
      → Ends
          (λ _ w'. IsFinished row w w')
          (λ w'. IsRescheduled (retried_as status) w w')
          (attempt reconcile_update peer_delete (some peer_id) status w)
  unfolding attempt reconcile_by_type reconcile_delete_cleanup
  attempt-delete_Ends peer_id row status w h =
      rethrown-Ends _ _
        (rw (with_row-found _ delete_cleanup peer_id row w h) (delete_cleanup-Ends row w))
        (λ w' s.
          fail_operation-IsRescheduled (retried_as status) w w' (retried_as-is_retried status) s)
