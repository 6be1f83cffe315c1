-- ===== src/Peers/Left.antt =====
-- src/server/peer-service.ts, lines 207 to 256: what a deletion of a peer does to the rows of the
-- database, statement by statement.
use wireguard_panel.Base.{
  ℕ, ◌≡◌, refl, ap, ◌∙◌, Bool, true, false, not, List, [], ◌∷◌, none, some, any, keep, find, map,
  arith, Bool-cases, inl, inr, ◌==◌,
}
use wireguard_panel.Pools.Rows.{PoolAddress, is_id}
use wireguard_panel.Pools.Choose.{release_peer_pool_address}
use wireguard_panel.Peers.World.{
  ManagedObject, LifecycleStatus, PeerRecord, World, is_record, on_record, update_record,
  delete_peer_row,
}
use wireguard_panel.Peers.Handlers.{set_lifecycle}
use wireguard_panel.Peers.Logic.{SameRows}

pub find-on_record :
    (id : ℕ) (f : PeerRecord → PeerRecord) (records : List PeerRecord) (row : PeerRecord)
    → ((p : PeerRecord) → (f p).id ≡ p.id)
    → find (is_record id) records ≡ some row
    → find (is_record id) (map (on_record id f) records) ≡ some (f row)
find-on_record id f [] row same h = cc
find-on_record id f (p ∷ records) row same h = elim (Bool-cases (is_record id p)) [
  | inl e ↦
      let at : p ≡ row = ground (arith, h, e) in
      let still : is_record id (f p) ≡ true = rw (same p) e in
      rw e (rw still (ap (λ q. some (f q)) at))
  | inr e ↦ rw e (rw e (find-on_record id f records row same (rw e at h)))
]

pub find-id :
    (id : ℕ) (records : List PeerRecord) (row : PeerRecord)
    → find (is_record id) records ≡ some row
    → row.id ≡ id
find-id id [] row h = cc
find-id id (p ∷ records) row h = ground (arith, h, find-id id records row)

pub find-keep : {A : Type 0} (q : A → Bool) (xs : List A) → find q (keep (λ x. not (q x)) xs) ≡ none
find-keep q [] = refl
find-keep q (x ∷ xs) = ground (arith, find-keep q xs)

pub any-keep-not :
    {A : Type 0} (q : A → Bool) (xs : List A) → any q (keep (λ x. not (q x)) xs) ≡ false
any-keep-not q [] = refl
any-keep-not q (x ∷ xs) = ground (arith, any-keep-not q xs)

-- Nothing is left of the peer in the database, but its row in the archive.
pub record IsGone (id : ℕ) (w : World) : Type 0 where
  pub no_record : find (is_record id) w.records ≡ none
  pub no_entry : any (λ (a : PoolAddress). is_id id a.peer_id) w.tables.addresses ≡ false
  pub no_object : any (λ (o : ManagedObject). o.owner == id) w.managed_objects ≡ false

pub delete_peer_row-IsGone : (id : ℕ) (w : World) → IsGone id (delete_peer_row id w)
unfolding delete_peer_row release_peer_pool_address
delete_peer_row-IsGone id w = record {
  no_record = find-keep (is_record id) w.records;
  no_entry = any-keep-not (λ (a : PoolAddress). is_id id a.peer_id) w.tables.addresses;
  no_object = any-keep-not (λ (o : ManagedObject). o.owner == id) w.managed_objects;
}

-- The row is still there, with some state of its life, and all else of the database is as it was.
pub record IsLeft (row : PeerRecord) (w w' : World) : Type 0 where
  pub tables : w'.tables ≡ w.tables
  pub archives : w'.archives ≡ w.archives
  pub history : w'.history ≡ w.history
  pub managed_objects : w'.managed_objects ≡ w.managed_objects
  pub status : LifecycleStatus
  pub found : find (is_record row.id) w'.records ≡ some (record row { lifecycle_status = status })

-- The same rows but for the operation, and for the state of the peer.
pub SameRows-IsLeft :
    (row : PeerRecord) (w w' : World)
    → find (is_record row.id) w.records ≡ some row
    → SameRows w w'
    → IsLeft row w w'
SameRows-IsLeft row w w' h s = record {
  tables = s.tables;
  archives = s.archives;
  history = s.history;
  managed_objects = s.managed_objects;
  status = row.lifecycle_status;
  found = rw s.records h;
}

pub IsLeft-SameRows :
    (row : PeerRecord) (w w1 w2 : World) → IsLeft row w w1 → SameRows w1 w2 → IsLeft row w w2
IsLeft-SameRows row w w1 w2 l s = record {
  tables = s.tables ∙ l.tables;
  archives = s.archives ∙ l.archives;
  history = s.history ∙ l.history;
  managed_objects = s.managed_objects ∙ l.managed_objects;
  status = l.status;
  found = rw s.records l.found;
}

pub IsLeft-mark :
    (row : PeerRecord) (status : LifecycleStatus) (w w' : World)
    → IsLeft row w w'
    → IsLeft row w (update_record row.id (set_lifecycle status) w')
IsLeft-mark row status w w' l = record {
  tables = l.tables;
  archives = l.archives;
  history = l.history;
  managed_objects = l.managed_objects;
  status = status;
  found =
      find-on_record row.id (set_lifecycle status) w'.records
        (record row { lifecycle_status = l.status }) (λ p. refl) l.found;
}

-- Another world with the same rows.
pub IsLeft-same :
    {row : PeerRecord} {w w1 : World} (w2 : World)
    → w2.tables ≡ w1.tables
    → w2.archives ≡ w1.archives
    → w2.history ≡ w1.history
    → w2.managed_objects ≡ w1.managed_objects
    → w2.records ≡ w1.records
    → IsLeft row w w1
    → IsLeft row w w2
IsLeft-same w2 t a q m r l = record {
  tables = t ∙ l.tables;
  archives = a ∙ l.archives;
  history = q ∙ l.history;
  managed_objects = m ∙ l.managed_objects;
  status = l.status;
  found = rw r l.found;
}
