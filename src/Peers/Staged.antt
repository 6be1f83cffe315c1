-- ===== src/Peers/Staged.antt =====
-- src/server/peer-service.ts, lines 54 to 148: what the rows of a new peer are while it is created.
use wireguard_panel.Base.{
  ℕ, ◌≡◌, ◌∙◌, refl, sym, ap, subst, Bool, true, false, not, ◌⊎◌, inl, inr, List, [], ◌∷◌, ◌++◌,
  Option, none, some, Result, ok, err, any, find, arith, Bool-cases,
}
use wireguard_panel.Routeros.Types.{RemoteWireGuardPeer}
use wireguard_panel.Pools.Rows.{PoolAddress, PoolError, is_id}
use wireguard_panel.Peers.World.{
  PeerRecord, World, Failure, is_record, update_record, without_peer, call,
}
use wireguard_panel.Peers.Handlers.{delete_owned_peer_queue_remote}
use wireguard_panel.Peers.Logic.{
  Ends, Ends-weaken, call-Ends, get_peers-Ends, SameRows, SameRows-refl, SameRows-trans,
  delete_owned_peer_queue_remote-Ends,
}
use wireguard_panel.Peers.Left.{find-on_record}
use wireguard_panel.Peers.Reenabled.{changed_peers}
use wireguard_panel.Peers.Input.{of_pool}
use wireguard_panel.Peers.Undo.{was_clean, is_gone, cleanup_remote}

-- The database has nothing of the peer but what its other tables hold.
pub record IsAbsent (peer_id : ℕ) (w : World) : Type 0 where
  pub no_record : find (is_record peer_id) w.records ≡ none
  pub no_entry : any (λ (a : PoolAddress). is_id peer_id a.peer_id) w.tables.addresses ≡ false

-- The first transaction has run, and the row is there.
pub record IsStaged (peer_id : ℕ) (w : World) : Type 0 where
  pub staged : w.staged ≡ true
  pub row : PeerRecord
  pub found : find (is_record peer_id) w.records ≡ some row

-- Before the first transaction or after it.
abbrev pub IsUnderway : ℕ → World → Type 0
IsUnderway peer_id w = ((w.staged ≡ false) × IsAbsent peer_id w) ⊎ IsStaged peer_id w

pub IsStaged-same :
    {peer_id : ℕ} {w w' : World} → SameRows w w' → IsStaged peer_id w → IsStaged peer_id w'
IsStaged-same s h = record {
  staged = s.staged ∙ h.staged;
  row = h.row;
  found = rw s.records h.found;
}

pub IsAbsent-same :
    {peer_id : ℕ} {w w' : World} → SameRows w w' → IsAbsent peer_id w → IsAbsent peer_id w'
IsAbsent-same s h = record {
  no_record = rw s.records h.no_record;
  no_entry = rw s.tables h.no_entry;
}

pub IsUnderway-same :
    {peer_id : ℕ} {w w' : World} → SameRows w w' → IsUnderway peer_id w → IsUnderway peer_id w'
IsUnderway-same s (inl (before, absent)) = inl (s.staged ∙ before, IsAbsent-same s absent)
IsUnderway-same s (inr staged) = inr (IsStaged-same s staged)

pub IsStaged-update :
    {peer_id : ℕ} {w : World} (f : PeerRecord → PeerRecord)
    → ((p : PeerRecord) → (f p).id ≡ p.id)
    → IsStaged peer_id w
    → IsStaged peer_id (update_record peer_id f w)
IsStaged-update {peer_id = id} {w = w} f same h = record {
  staged = h.staged;
  row = f h.row;
  found = find-on_record id f w.records h.row same h.found;
}

pub find-append :
    {A : Type 0} (q : A → Bool) (xs : List A) (x : A)
    → find q xs ≡ none
    → q x ≡ true
    → find q (xs ++ x ∷ []) ≡ some x
find-append q [] x h e = rw e refl
find-append q (y ∷ xs) x h e = elim (Bool-cases (q y)) [
  | inl t ↦ cc
  | inr f ↦ rw f (find-append q xs x (rw f at h) e)
]

pub of_pool-Ends :
    {A : Type 0} {P : A → World → Type 0} {E : World → Type 0} (r : Result PoolError A) (w : World)
    → ((a : A) → r ≡ ok a → P a w)
    → E w
    → Ends P E (of_pool r w)
unfolding of_pool
of_pool-Ends (ok a) w p e = record { ends = p a refl }
of_pool-Ends (err x) w p e = record { ends = e }

pub was_clean-same :
    {A : Type 0} (w : World) (r : Result Failure A × World)
    → Ends (λ _ w'. SameRows w w') (λ w'. SameRows w w') r
    → SameRows w (was_clean r).1
unfolding was_clean
was_clean-same w (ok a, w') h = h.ends
was_clean-same w (err e, w') h = h.ends

is_gone-same :
    (id : wireguard_panel.Base.Text.Text) (w : World)
    (r : Result Failure (List RemoteWireGuardPeer) × World)
    → Ends (λ _ w'. SameRows w w') (λ w'. SameRows w w') r
    → SameRows w (is_gone id r).1
unfolding is_gone
is_gone-same id w (ok a, w') h = h.ends
is_gone-same id w (err e, w') h = h.ends

-- The clean-up of the router changes no row.
pub cleanup_remote-same :
    (peer_id : ℕ) (created : Option wireguard_panel.Base.Text.Text) (w : World)
    → SameRows w (cleanup_remote peer_id created w).1
unfolding cleanup_remote
cleanup_remote-same peer_id none w = SameRows-refl w
cleanup_remote-same peer_id (some id) w =
    let queue = was_clean (delete_owned_peer_queue_remote peer_id w) in
    let peer = was_clean (call (without_peer id) queue.1) in
    SameRows-trans
      (was_clean-same w _ (
        Ends-weaken {F = λ w'. SameRows w w'} (delete_owned_peer_queue_remote-Ends peer_id w)
          (λ _ w' h. h.0.rows) (λ w' h. h.rows)))
      (SameRows-trans
        (was_clean-same queue.1 _ (
          call-Ends (without_peer id) queue.1 (changed_peers _ _ (SameRows-refl queue.1))
            (changed_peers _ _ (SameRows-refl queue.1))
            (changed_peers _ _ (SameRows-refl queue.1))))
        (is_gone-same id peer.1 _ (
          get_peers-Ends peer.1 (changed_peers _ _ (SameRows-refl peer.1))
            (changed_peers _ _ (SameRows-refl peer.1)))))
