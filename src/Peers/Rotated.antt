-- ===== src/Peers/Rotated.antt =====
-- src/server/peer-service.ts, lines 422 to 450: what a rotation of keys leaves of the row of a peer.
use wireguard_panel.Base.{
  List, [], ◌∷◌, All, map, ◌||◌, true, ℕ, ◌≡◌, ◌∙◌, refl, sym, subst, ◌⊎◌, inl, inr, Option, none,
  some, find, Bool-cases,
}
use wireguard_panel.Base.Text.{Text, text_eq}
use wireguard_panel.Routeros.Types.{RemoteWireGuardPeer}
use wireguard_panel.Operations.{OperationStatus, finish_operation, fail_operation}
use wireguard_panel.Peers.World.{
  has_remote_id, is_remote, PeerRecord, World, Handler, is_record, is_remote_id,
}
use wireguard_panel.Peers.Logic.{
  Ends, and_then-Ends, and_then-ok, Ends-weaken, call-Ends, get_peers-Ends, rethrown-Ends, SameRows,
  SameRows-refl,
}
use wireguard_panel.Peers.Left.{find-on_record, find-id}
use wireguard_panel.Peers.Deleted.{mutable_peer-found, assert_current_remote-Ends}
use wireguard_panel.Peers.Reenabled.{changed_peers}
use wireguard_panel.Peers.Staged.{was_clean-same}
use wireguard_panel.Peers.Undo.{was_clean}
use wireguard_panel.Peers.Input.{WireGuardKeys}
use wireguard_panel.Peers.Keys.{
  set_public_key, rotated_row, restore_key, restore_keys, roll_back_keys, send_keys,
  or_not_regenerated, encrypted_preshared, store_keys, finish_rotation, regenerate_peer_keys,
}

-- The rows are as they were, or the operation waits for the reconciler.
abbrev pub IsUnrotated : World → World → Type 0
IsUnrotated w w' =
    (w'.records ≡ w.records) ⊎ (w'.operation.status ≡ OperationStatus.needs_reconciliation)

restore_key-same :
    (row : PeerRecord) (current : Option RemoteWireGuardPeer) (w w1 : World)
    → SameRows w w1
    → Ends (λ _ w'. SameRows w w') (λ w'. SameRows w w') (restore_key row current w1)
restore_key-same row none w w1 h = record { ends = h }
restore_key-same row (some current) w w1 h =
    call-Ends _ w1 (changed_peers _ _ h) (changed_peers _ _ h) (changed_peers _ _ h)

restore_keys-same :
    (row : PeerRecord) (w : World)
    → Ends (λ _ w'. SameRows w w') (λ w'. SameRows w w') (restore_keys row w)
unfolding restore_keys
restore_keys-same row w =
    and_then-Ends _
      (get_peers-Ends {P = λ _ w'. SameRows w w'} {E = λ w'. SameRows w w'} w
        (changed_peers _ _ (SameRows-refl w)) (changed_peers _ _ (SameRows-refl w)))
      (λ peers w1 h. restore_key-same row (find (is_remote_id row.remote_id) peers) w w1 h)

roll_back_keys-IsUnrotated :
    (row : PeerRecord) (w w1 : World)
    → w1.records ≡ w.records
    → IsUnrotated w (roll_back_keys row w1)
unfolding roll_back_keys fail_operation
roll_back_keys-IsUnrotated row w w1 h =
    let restored = was_clean (restore_keys row w1) in
    let same : SameRows w1 restored.1 = was_clean-same w1 _ (restore_keys-same row w1) in
    elim (Bool-cases restored.0) [ inl e ↦ inl (rw e (same.records ∙ h)) | inr e ↦ inr (rw e refl) ]

-- The router's peers of an identifier have a key.
abbrev pub HaveKey : Text → Text → List RemoteWireGuardPeer → Type 0
HaveKey id key peers = All (λ p. has_remote_id id p ≡ true → p.public_key ≡ key) peers

set_public_key-HaveKey :
    (id key : Text) (peers : List RemoteWireGuardPeer)
    → HaveKey id key (map (set_public_key id key) peers)
set_public_key-HaveKey id key [] = tt
set_public_key-HaveKey id key (p ∷ peers) = elim (Bool-cases (has_remote_id id p)) [
  | inl e ↦ rw e ((λ _. refl), set_public_key-HaveKey id key peers)
  | inr e ↦ rw e ((λ h. cc), set_public_key-HaveKey id key peers)
]

module _ (encrypt_secret : Text → Text) (fingerprint : RemoteWireGuardPeer → Text)
    (refresh_peer_qr : ℕ → Handler (Unit {0})) (keys : WireGuardKeys) where
  -- The row after it: the new keys, of which the secret ones are encrypted, and a fingerprint.
  pub record RowIsRotated (row after : PeerRecord) (seen : RemoteWireGuardPeer) : Type 0 where
    pub public_key : after.public_key ≡ keys.public_key
    pub private_key : after.private_key_encrypted ≡ some (encrypt_secret keys.private_key)
    pub preshared :
        (c : ℕ) (key : Text)
        → keys.preshared_key ≡ some (c ∷ key)
        → after.preshared_key_encrypted ≡ some (encrypt_secret (c ∷ key))
    pub no_preshared : keys.preshared_key ≡ none → after.preshared_key_encrypted ≡ none
    pub fingerprint_seen : after.remote_fingerprint ≡ some (fingerprint seen)
    pub others : after ≡ record row {
      public_key = after.public_key;
      private_key_encrypted = after.private_key_encrypted;
      preshared_key_encrypted = after.preshared_key_encrypted;
      remote_fingerprint = after.remote_fingerprint;
    }

  abbrev new_row : PeerRecord → RemoteWireGuardPeer → PeerRecord
  new_row row seen =
      rotated_row keys.public_key (encrypt_secret keys.private_key)
        (encrypted_preshared encrypt_secret fingerprint refresh_peer_qr keys keys.preshared_key)
        (fingerprint seen) row

  new_row-RowIsRotated :
      (row : PeerRecord) (seen : RemoteWireGuardPeer) → RowIsRotated row (new_row row seen) seen
  new_row-RowIsRotated row seen = record {
    public_key = refl;
    private_key = refl;
    preshared = λ c key e. rw e refl;
    no_preshared = λ e. rw e refl;
    fingerprint_seen = refl;
    others = refl;
  }

  -- The router's peer that was the row's has the new public key, and the row the new keys and the
  -- fingerprint of the router's peer that is found by that identifier or by the new key.
  pub record IsRotated (row : PeerRecord) (w w' : World) : Type 0 where
    pub remote : RemoteWireGuardPeer
    pub was : find (is_remote row) w.router_peers ≡ some remote
    pub on_router : HaveKey remote.id keys.public_key w'.router_peers
    pub seen : RemoteWireGuardPeer
    pub found :
        find
          (λ p. has_remote_id remote.id p || text_eq p.public_key keys.public_key)
          w'.router_peers
        ≡ some seen
    pub after : PeerRecord
    pub in_database : find (is_record row.id) w'.records ≡ some after
    pub row_rotated : RowIsRotated row after seen

  IsRotated-same :
      {row : PeerRecord} {w w1 : World} (w2 : World)
      → w2.records ≡ w1.records
      → w2.router_peers ≡ w1.router_peers
      → IsRotated row w w1
      → IsRotated row w w2
  IsRotated-same w2 r p h = record {
    remote = h.remote;
    was = h.was;
    on_router = rw p h.on_router;
    seen = h.seen;
    found = rw p h.found;
    after = h.after;
    in_database = rw r h.in_database;
    row_rotated = h.row_rotated;
  }

  send_keys-Ends :
      (row : PeerRecord) (w : World)
      → Ends
          (λ remote w'.
            SameRows w w'
            × (find (is_remote row) w.router_peers ≡ some remote)
            × HaveKey remote.id keys.public_key w'.router_peers)
          (λ w'. SameRows w w')
          (send_keys encrypt_secret fingerprint refresh_peer_qr keys row w)
  unfolding send_keys
  send_keys-Ends row w =
      and_then-Ends _
        (Ends-weaken
          {Q = λ remote w'. SameRows w w' × (find (is_remote row) w.router_peers ≡ some remote)}
          {F = λ w'. SameRows w w'} (assert_current_remote-Ends fingerprint row w)
          (λ _ w1 h. (h.0.rows, h.1)) (λ w1 h. h))
        (λ remote w1 h1.
          and_then-Ends _
            (call-Ends
              {P = λ _ w'. SameRows w w' × HaveKey remote.id keys.public_key w'.router_peers}
              {E = λ w'. SameRows w w'} _ w1
              (
                changed_peers _ _ h1.0,
                set_public_key-HaveKey remote.id keys.public_key w1.router_peers,
              )
              (changed_peers _ _ h1.0) (changed_peers _ _ h1.0))
            (λ _ w2 h2. record { ends = (h2.0, h1.1, h2.1) }))

  returned-Ends :
      {P : RemoteWireGuardPeer → World → Type 0} (o : Option RemoteWireGuardPeer) (w w1 : World)
      → SameRows w w1
      → ((updated : RemoteWireGuardPeer) → o ≡ some updated → P updated w1)
      → Ends P
          (λ w'. SameRows w w')
          (or_not_regenerated encrypt_secret fingerprint refresh_peer_qr keys o w1)
  returned-Ends none w w1 h k = record { ends = h }
  returned-Ends (some p) w w1 h k = record { ends = k p refl }

  store_keys-Ends :
      (row : PeerRecord) (remote : RemoteWireGuardPeer) (w0 w : World)
      → find (is_record row.id) w.records ≡ some row
      → find (is_remote row) w0.router_peers ≡ some remote
      → HaveKey remote.id keys.public_key w.router_peers
      → Ends
          (λ _ w'. IsRotated row w0 w')
          (λ w'. SameRows w w')
          (store_keys encrypt_secret fingerprint refresh_peer_qr keys row remote w)
  unfolding store_keys
  store_keys-Ends row remote w0 w found was have =
      and_then-Ends _
        (get_peers-Ends
          {P = λ peers w'.
            SameRows w w' × (w'.router_peers ≡ w.router_peers) × (peers ≡ w.router_peers)}
          {E = λ w'. SameRows w w'} w (changed_peers _ _ (SameRows-refl w), refl, refl)
          (changed_peers _ _ (SameRows-refl w)))
        (λ peers w1 h1.
          and_then-Ends _
            (returned-Ends
              {P = λ updated w'.
                (w' ≡ w1)
                × (find (λ p. has_remote_id remote.id p || text_eq p.public_key keys.public_key)
                      peers
                    ≡ some updated)}
              _ w w1 h1.0 (λ updated e. (refl, e)))
            (λ updated w2 h2. record {
              ends = record {
                remote = remote;
                was = was;
                on_router = rw (h2.0, h1.1) have;
                seen = updated;
                found = rw (h2.0, h1.1, ← h1.2) h2.1;
                after = new_row row updated;
                in_database =
                    find-on_record row.id _ w2.records row (λ p. refl)
                      (rw (h2.0, h1.0.records) found);
                row_rotated = new_row-RowIsRotated row updated;
              };
            }))

  -- The renewal of the images leaves the rows and the router as they are, when it succeeds.
  abbrev pub KeepsRows : Type 0
  KeepsRows =
      (n : ℕ) (w : World)
      → Ends (λ _ w'. (w'.records ≡ w.records) × (w'.router_peers ≡ w.router_peers)) (λ _. Unit {0})
          (refresh_peer_qr n w)

  finish_rotation-Ends :
      (row : PeerRecord) (w0 w : World)
      → KeepsRows
      → IsRotated row w0 w
      → Ends
          (λ _ w'. IsRotated row w0 w' × (w'.operation.status ≡ OperationStatus.completed))
          (λ _. Unit {0})
          (finish_rotation encrypt_secret fingerprint refresh_peer_qr keys row w)
  unfolding finish_rotation finish_operation
  finish_rotation-Ends row w0 w keeps h = and_then-ok _ (
      and_then-Ends _ (keeps row.id _)
        (λ _ w1 same. and_then-ok _ (record { ends = (IsRotated-same _ same.0 same.1 h, refl) })))

  rotated :
      (row : PeerRecord) (w : World)
      → KeepsRows
      → find (is_record row.id) w.records ≡ some row
      → Ends
          (λ _ w'. IsRotated row w w' × (w'.operation.status ≡ OperationStatus.completed))
          (λ w'. IsUnrotated w w')
          (regenerate_peer_keys encrypt_secret fingerprint refresh_peer_qr keys row.id w)
  unfolding regenerate_peer_keys fail_operation
  rotated row w keeps found = rw (mutable_peer-found row.id row w found) (
      and_then-ok _ (
        and_then-ok _ (
          and_then-Ends _
            (rethrown-Ends
              {P = λ remote w'.
                (w'.records ≡ w.records)
                × (find (is_remote row) w.router_peers ≡ some remote)
                × HaveKey remote.id keys.public_key w'.router_peers}
              {F = λ w'. IsUnrotated w w'} _ _
              (Ends-weaken
                {Q = λ remote w'.
                  (w'.records ≡ w.records)
                  × (find (is_remote row) w.router_peers ≡ some remote)
                  × HaveKey remote.id keys.public_key w'.router_peers}
                {F = λ w'. w'.records ≡ w.records} (send_keys-Ends row _)
                (λ _ w1 h. (h.0.records, h.1, h.2)) (λ w1 h. h.records))
              (λ w1 h. inl h))
            (λ remote w1 h1.
              and_then-Ends _
                (rethrown-Ends {F = λ w'. IsUnrotated w w'} (roll_back_keys row) _
                  (store_keys-Ends row remote w w1 (rw h1.0 found) h1.1 h1.2)
                  (λ w2 h2. roll_back_keys-IsUnrotated row w w2 (h2.records ∙ h1.0)))
                (λ _ w2 h2.
                  rethrown-Ends {F = λ w'. IsUnrotated w w'} _ _
                    (finish_rotation-Ends row w w2 keeps h2) (λ w3 _. inr refl))))))

  -- A rotation of the keys of a peer, whatever the router answers, where the renewal of the images
  -- leaves the rows and the router as they are. When it succeeds, the router's peers with the
  -- identifier of the row's peer have the new public key; the row has the new keys, encrypted where
  -- they are secret, and the fingerprint of the router's peer that is found by that identifier or by
  -- the new key; and the operation is completed. When it fails, the rows are as they were, or the
  -- operation waits for the reconciler.
  pub regenerate_peer_keys-IsRotated :
      (peer_id : ℕ) (row : PeerRecord) (w : World)
      → KeepsRows
      → find (is_record peer_id) w.records ≡ some row
      → Ends
          (λ _ w'. IsRotated row w w' × (w'.operation.status ≡ OperationStatus.completed))
          (λ w'. IsUnrotated w w')
          (regenerate_peer_keys encrypt_secret fingerprint refresh_peer_qr keys peer_id w)
  regenerate_peer_keys-IsRotated peer_id row w keeps h =
      let same = find-id peer_id w.records row h in
      subst
        (λ id.
          Ends (λ _ w'. IsRotated row w w' × (w'.operation.status ≡ OperationStatus.completed))
            (λ w'. IsUnrotated w w')
            (regenerate_peer_keys encrypt_secret fingerprint refresh_peer_qr keys id w))
        same
        (rotated row w keeps (subst (λ id. find (is_record id) w.records ≡ some row) (sym same) h))
