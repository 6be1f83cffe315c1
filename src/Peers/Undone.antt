-- ===== src/Peers/Undone.antt =====
-- src/server/peer-service.ts, lines 134 to 148: what the clean-up after a failed creation of a peer
-- leaves in the database.
use wireguard_panel.Base.{
  ℕ, ◌≡◌, refl, sym, subst, Bool, true, false, ◌⊎◌, inl, inr, some, find, if◌then◌else◌,
}
use wireguard_panel.Operations.{OperationStatus, fail_operation}
use wireguard_panel.Pools.Rows.{PoolAddress, is_id}
use wireguard_panel.Pools.Choose.{release_peer_pool_address}
use wireguard_panel.Peers.World.{LifecycleStatus, PeerRecord, World, is_record, update_record}
use wireguard_panel.Peers.Handlers.{cleanup_row}
use wireguard_panel.Peers.Left.{find-on_record, find-keep, any-keep-not}
use wireguard_panel.Peers.Undo.{cleanup_remote, remove_created, cleanup_database, undo_create}
use wireguard_panel.Peers.Staged.{
  IsAbsent, IsStaged, IsUnderway, IsUnderway-same, cleanup_remote-same,
}

-- The row is left for the reconciler, whose next attempt is scheduled.
pub record AwaitsCleanup (peer_id : ℕ) (w : World) : Type 0 where
  pub row : PeerRecord
  pub found : find (is_record peer_id) w.records ≡ some row
  pub lifecycle : row.lifecycle_status ≡ LifecycleStatus.pending_cleanup
  pub status : w.operation.status ≡ OperationStatus.pending_cleanup

remove_created-IsAbsent : (peer_id : ℕ) (w : World) → IsAbsent peer_id (remove_created peer_id w)
unfolding remove_created release_peer_pool_address
remove_created-IsAbsent peer_id w = record {
  no_record = find-keep (is_record peer_id) w.records;
  no_entry = any-keep-not (λ (a : PoolAddress). is_id peer_id a.peer_id) w.tables.addresses;
}

if_false : {A : Type 0} (b : Bool) (x y : A) → b ≡ false → (if b then x else y) ≡ y
if_false b x y e = rw e refl

if_true : {A : Type 0} (b : Bool) (x y : A) → b ≡ true → (if b then x else y) ≡ x
if_true b x y e = rw e refl

-- The clean-up by its outcome, and by whether there is a row.
undone :
    (peer_id : ℕ) (w : World) (clean : Bool)
    → IsUnderway peer_id w
    → let w' = cleanup_database peer_id clean w in
      IsAbsent peer_id w'
      ⊎ (IsStaged peer_id w × (clean ≡ false) × (w' ≡ update_record peer_id cleanup_row w))
unfolding cleanup_database
undone peer_id w clean (inl (before, absent)) =
    inl (subst (IsAbsent peer_id) (sym (if_false w.staged _ w before)) absent)
undone peer_id w true (inr h) = inl (
    subst (IsAbsent peer_id) (sym (if_true w.staged _ w h.staged))
      (remove_created-IsAbsent peer_id w))
undone peer_id w false (inr h) = inr (h, refl, if_true w.staged _ w h.staged)

pub undo_create-undone :
    (peer_id : ℕ) (w : World)
    → IsUnderway peer_id w
    → IsAbsent peer_id (undo_create peer_id w) ⊎ AwaitsCleanup peer_id (undo_create peer_id w)
unfolding undo_create fail_operation
undo_create-undone peer_id w h =
    let cleaned = cleanup_remote peer_id w.created_id w in
    let still = IsUnderway-same (cleanup_remote-same peer_id w.created_id w) h in
    elim (undone peer_id cleaned.1 cleaned.0 still) [
      | inl absent ↦ inl (record { no_record = absent.no_record; no_entry = absent.no_entry })
      | inr (staged, dirty, same) ↦ inr (record {
        row = cleanup_row staged.row;
        found = rw same (
            find-on_record peer_id cleanup_row cleaned.1.records staged.row (λ p. refl)
              staged.found);
        lifecycle = refl;
        status = rw dirty refl;
      })
    ]
