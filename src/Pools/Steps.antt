-- ===== src/Pools/Steps.antt =====
-- src/server/pool-service.ts: the operations as steps of the tables, and every run of them.
use wireguard_panel.Base.{
  ℕ, ◌≡◌, refl, subst, inl, inr, false, not, ◌&&◌, List, [], ◌∷◌, Option, ok, >>=-eq-ok, ok_inj,
  guard, arith, Bool-cases, ◌==◌, any, keep, All, All-keep,
}
use wireguard_panel.Base.Text.{Text}
use wireguard_panel.Routeros.Types.{RemoteWireGuardPeer}
use wireguard_panel.Pools.Rows.{
  WireGuardPool, PoolAddress, Tables, is_id, is_reserved, peers_assigned, reserved_left,
}
use wireguard_panel.Pools.Choose.{
  lock_pool, choose_pool_address, claim_pool_address, release_peer_pool_address,
}
use wireguard_panel.Pools.Manage.{
  PoolInput, create_pool, update_pool, delete_pool, reserve_pool_address, unreserve_pool_address,
}
use wireguard_panel.Pools.Invariant.{Unique-keep, Disjoint-keep, covers, IsPlaced, keep-AreKept}
use wireguard_panel.Pools.Ranges.{IsPool}
use wireguard_panel.Pools.Chosen.{choose_pool_address-Granted}
use wireguard_panel.Pools.Sound.{
  IsSound, Agrees, kept, with_addresses, lock_pool-find, find-IsPool, claim_pool_address-IsSound,
  reserve_pool_address-IsSound, unreserve_pool_address-IsSound, create_pool-IsSound,
  update_pool-IsSound,
}

any-covers-keep :
    (id : ℕ) (pools : List WireGuardPool) (a : PoolAddress)
    → (a.pool_id == id) ≡ false
    → any (covers a) (keep (λ p. not (p.id == id)) pools) ≡ any (covers a) pools
any-covers-keep id [] a h = refl
any-covers-keep id (p ∷ pools) a h = ground (arith, any-covers-keep id pools a h)

-- The entries that stay when a pool goes are those of other pools.
IsPlaced-keep :
    (id : ℕ) (pools : List WireGuardPool) (addresses : List PoolAddress)
    → All (IsPlaced pools) addresses
    → All
        (IsPlaced (keep (λ p. not (p.id == id)) pools))
        (keep (λ a. not (a.pool_id == id)) addresses)
IsPlaced-keep id pools [] h = tt
IsPlaced-keep id pools (a ∷ addresses) (h, hs) = elim (Bool-cases (a.pool_id == id)) [
  | inl e ↦ rw e (IsPlaced-keep id pools addresses hs)
  | inr e ↦ rw e (rw (any-covers-keep id pools a e) h, IsPlaced-keep id pools addresses hs)
]

delete_pool-IsSound :
    (db db' : Tables) (id : ℕ) → IsSound db → delete_pool id db ≡ ok db' → IsSound db'
unfolding delete_pool
delete_pool-IsSound db db' id h e =
    let (pool, _, e1) = >>=-eq-ok (lock_pool db id) _ e in
    let (_, _, e2) =
      >>=-eq-ok (guard (not (any (λ p. is_id id p.pool_id) db.peers)) peers_assigned) _ e1 in
    let (_, _, e3) =
      >>=-eq-ok
        (guard
          (not (any (λ (a : PoolAddress). a.pool_id == id && is_reserved a.state) db.addresses))
          reserved_left)
        _ e2 in
    subst IsSound (ok_inj e3) (record {
      consistent = record {
        unique = Unique-keep (λ a. not (a.pool_id == pool.id)) db.addresses h.consistent.unique;
        disjoint = Disjoint-keep (λ p. not (p.id == pool.id)) db.pools h.consistent.disjoint;
        placed = IsPlaced-keep pool.id db.pools db.addresses h.consistent.placed;
      };
      ranges = All-keep IsPool (λ p. not (p.id == pool.id)) db.pools h.ranges;
    })

release_peer_pool_address-IsSound :
    (db : Tables) (peer_id : ℕ) → IsSound db → IsSound (release_peer_pool_address peer_id db)
unfolding release_peer_pool_address
release_peer_pool_address-IsSound db peer_id h =
    with_addresses db _ h
      (keep-AreKept db.pools (λ a. not (is_id peer_id a.peer_id)) db.addresses (kept h))

-- One transaction that succeeds: an operation on a pool, the choice and claim of an address for a
-- peer, or the release of the addresses of a peer.
pub data PoolStep (inet : Text → Option ℕ) (db db' : Tables) : Type 0 where
  created :
      (id : ℕ) (input : PoolInput) → create_pool inet id input db ≡ ok db' → PoolStep inet db db'
  updated :
      (id : ℕ) (input : PoolInput) → update_pool inet id input db ≡ ok db' → PoolStep inet db db'
  deleted : (id : ℕ) → delete_pool id db ≡ ok db' → PoolStep inet db db'
  reserved :
      (id : ℕ) (ip comment : Text)
      → reserve_pool_address inet id ip comment db ≡ ok db'
      → PoolStep inet db db'
  unreserved :
      (id : ℕ) (ip : Text) → unreserve_pool_address inet id ip db ≡ ok db' → PoolStep inet db db'
  assigned :
      (id : ℕ) (pool : WireGuardPool) (remote_peers : List RemoteWireGuardPeer)
      (requested : Option Text) (exclude : Option ℕ) (ip : Text) (peer_id : ℕ) (name : Text)
      → lock_pool db id ≡ ok pool
      → choose_pool_address db pool remote_peers requested exclude ≡ ok ip
      → claim_pool_address inet db pool ip peer_id name ≡ ok db'
      → PoolStep inet db db'
  released : (peer_id : ℕ) → db' ≡ release_peer_pool_address peer_id db → PoolStep inet db db'

pub data PoolRun (inet : Text → Option ℕ) (db : Tables) : Tables → Type 0 where
  here : PoolRun inet db db
  next : {a b : Tables} → PoolRun inet db a → PoolStep inet a b → PoolRun inet db b

PoolStep-IsSound :
    (inet : Text → Option ℕ) (db db' : Tables)
    → Agrees inet
    → IsSound db
    → PoolStep inet db db'
    → IsSound db'
PoolStep-IsSound inet db db' g h (created id input e) =
    create_pool-IsSound inet g db db' id input h e
PoolStep-IsSound inet db db' g h (updated id input e) =
    update_pool-IsSound inet g db db' id input h e
PoolStep-IsSound inet db db' g h (deleted id e) = delete_pool-IsSound db db' id h e
PoolStep-IsSound inet db db' g h (reserved id ip comment e) =
    reserve_pool_address-IsSound inet g db db' id ip comment h e
PoolStep-IsSound inet db db' g h (unreserved id ip e) =
    unreserve_pool_address-IsSound inet g db db' id ip h e
PoolStep-IsSound inet db db' g h
      (assigned id pool remote_peers requested exclude ip peer_id name l c e) =
    let valid = find-IsPool id db.pools pool (lock_pool-find db id pool l) h.ranges in
    claim_pool_address-IsSound inet g db db' id pool ip peer_id name h l
      (choose_pool_address-Granted db pool remote_peers requested exclude ip valid c).0 e
PoolStep-IsSound inet db db' g h (released peer_id e) =
    rw e (release_peer_pool_address-IsSound db peer_id h)

-- Every run of creations, updates and deletions of pools, reservations, assignments and releases,
-- from tables where the following holds, and with a database that reads no text as another address
-- than the program does, keeps it: the entries of a router have different addresses, the ranges of
-- its pools are disjoint, reserved and allocated addresses lie in the range of their pool, and each
-- pool has a range in order, of at most 65536 addresses, that leaves out its gateway.
pub PoolRun-IsSound :
    (inet : Text → Option ℕ) {db db' : Tables}
    → Agrees inet
    → IsSound db
    → PoolRun inet db db'
    → IsSound db'
PoolRun-IsSound inet g h here = h
PoolRun-IsSound inet g h (next run step) =
    PoolStep-IsSound inet _ _ g (PoolRun-IsSound inet g h run) step
