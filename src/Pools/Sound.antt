-- ===== src/Pools/Sound.antt =====
-- src/server/pool-service.ts: the operations on pools, each against the invariant of the tables.
use wireguard_panel.Base.{
  ℕ, ◌≤◌, ◌≡◌, refl, sym, ap, subst, inl, inr, Bool, true, false, not, ◌&&◌, List, [], ◌∷◌, map,
  Option, none, some, ok, >>=-eq-ok, ok_inj, guard, arith, Bool-cases, Option-cases, ◌==◌, any,
  find, All, any-keep,
}
use wireguard_panel.Base.Text.{Text}
use wireguard_panel.Ip.Address.{ipv4_to_number, normalize_client_ip}
use wireguard_panel.Pools.Rows.{
  WireGuardPool, PoolAddress, Tables, PoolError, as_inet, is_router, insert_address,
  insert_address_or_skip, moved_router, moved_interface, duplicate_key, not_a_reservation,
}
use wireguard_panel.Pools.Choose.{
  allocated_entry, lock_pool, validate_address_in_pool, is_available_at, claim_pool_address,
}
use wireguard_panel.Pools.Manage.{
  reserved_entry, router_entry, attach_existing_peers, PoolInput, normalize_pool_input,
  interface_scope, validate_scope, is_in_the_way, assert_no_overlap, assert_can_shrink,
  is_occupied_outside, enter_pool, pool_of, create_pool, replace_pool, update_pool,
  assert_database_address_free, reserve_pool_address, is_reservation, unreserve_pool_address,
}
use wireguard_panel.Pools.Invariant.{
  clash, Disjoint, IsConsistent, AreKept, keep-AreKept, insert_address-AreKept,
}
use wireguard_panel.Pools.Kept.{
  Covered, enter_pool-IsConsistent, IsPlaced-cons, find-eq-none, Disjoint-replace_pool,
  Covered-replace_pool, IsPlaced-replace_pool,
}
use wireguard_panel.Pools.Ranges.{IsPool, normalize_pool_input-IsPool}
use wireguard_panel.Pools.Chosen.{InPool, validate_address_in_pool-InPool}

-- The entries of a router have different addresses; the ranges of the pools of a router are
-- disjoint; reserved and allocated addresses lie in the range of their pool; and each pool has a
-- range in order, of at most 65536 addresses, which leaves its gateway out.
pub record IsSound (db : Tables) : Type 0 where
  pub consistent : IsConsistent db
  pub ranges : All IsPool db.pools

-- The database reads no text as another address than the program does.
abbrev pub Agrees : (Text → Option ℕ) → Type 0
Agrees inet = (t : Text) (v w : ℕ) → inet t ≡ some v → ipv4_to_number t ≡ ok w → v ≡ w

pub kept : {db : Tables} → IsSound db → AreKept db.pools db.addresses
kept h = record { unique = h.consistent.unique; placed = h.consistent.placed }

-- The same pools, with other entries.
pub with_addresses :
    (db : Tables) (addresses : List PoolAddress)
    → IsSound db
    → AreKept db.pools addresses
    → IsSound (record db { addresses = addresses })
with_addresses db addresses h k = record {
  consistent = record { unique = k.unique; disjoint = h.consistent.disjoint; placed = k.placed };
  ranges = h.ranges;
}

find-Covered :
    (id : ℕ) (pools : List WireGuardPool) (pool : WireGuardPool)
    → find (λ p. p.id == id) pools ≡ some pool
    → Covered pools pool
find-Covered id [] pool h a e lo hi = cc
find-Covered id (p ∷ pools) pool h a e lo hi = elim (Bool-cases (p.id == id)) [
  | inl s ↦ let same : p ≡ pool = ground arith in rw same (ground arith)
  | inr s ↦ let rest = find-Covered id pools pool (rw s at h) a e lo hi in ground arith
]

pub find-IsPool :
    (id : ℕ) (pools : List WireGuardPool) (pool : WireGuardPool)
    → find (λ p. p.id == id) pools ≡ some pool
    → All IsPool pools
    → IsPool pool
find-IsPool id [] pool h k = cc
find-IsPool id (p ∷ pools) pool h (k, ks) = elim (Bool-cases (p.id == id)) [
  | inl s ↦ let same : p ≡ pool = ground arith in subst IsPool same k
  | inr s ↦ find-IsPool id pools pool (rw s at h) ks
]

pub lock_pool-find :
    (db : Tables) (id : ℕ) (pool : WireGuardPool)
    → lock_pool db id ≡ ok pool
    → find (λ p. p.id == id) db.pools ≡ some pool
unfolding lock_pool
lock_pool-find db id pool h = ground arith

as_inet-number :
    (inet : Text → Option ℕ) (pool : WireGuardPool) (ip : Text) (v : ℕ)
    → Agrees inet
    → as_inet inet ip ≡ ok v
    → InPool pool ip
    → (pool.start_ip ≤ v) × (v ≤ pool.end_ip)
as_inet-number inet pool ip v agrees h i = elim (Option-cases (inet ip)) [
  | inl e ↦ absurd (ground arith)
  | inr (w, e) ↦
      let same : w ≡ i.number = agrees ip w i.number e i.reads in
      let given : w ≡ v = ground arith in (omega (arith, i.from_start), omega (arith, i.to_end))
]

enter_pool-pools :
    (inet : Text → Option ℕ) (pool : WireGuardPool) (db db' : Tables)
    → enter_pool inet pool db ≡ ok db'
    → db'.pools ≡ db.pools
unfolding enter_pool
enter_pool-pools inet pool db db' e =
    let (addresses, _, e1) =
      >>=-eq-ok (insert_address_or_skip (router_entry pool) db.addresses) _ e in
    let (attached, _, made) = >>=-eq-ok (attach_existing_peers inet pool db.peers addresses) _ e1 in
    sym (ap (λ (t : Tables). t.pools) (ok_inj made))

module _ (inet : Text → Option ℕ) (agrees : Agrees inet) where
  pub claim_pool_address-IsSound :
      (db db' : Tables) (pool_id : ℕ) (pool : WireGuardPool) (ip : Text) (peer_id : ℕ) (name : Text)
      → IsSound db
      → lock_pool db pool_id ≡ ok pool
      → InPool pool ip
      → claim_pool_address inet db pool ip peer_id name ≡ ok db'
      → IsSound db'
  unfolding claim_pool_address
  claim_pool_address-IsSound db db' pool_id pool ip peer_id name h l i e =
      let (v, read, e1) = >>=-eq-ok (as_inet inet ip) _ e in
      let (addresses, inserted, made) =
        >>=-eq-ok (insert_address (allocated_entry pool v peer_id name) _) _ e1 in
      let (lo, hi) = as_inet-number inet pool ip v agrees read i in
      subst IsSound (ok_inj made) (
        with_addresses db addresses h (
          insert_address-AreKept db.pools (allocated_entry pool v peer_id name) _ addresses
            (keep-AreKept db.pools (λ a. not (is_available_at pool.id v a)) db.addresses (kept h))
            (find-Covered pool_id db.pools pool (lock_pool-find db pool_id pool l)
              (allocated_entry pool v peer_id name) refl lo hi)
            inserted))

  pub reserve_pool_address-IsSound :
      (db db' : Tables) (pool_id : ℕ) (ip comment : Text)
      → IsSound db
      → reserve_pool_address inet pool_id ip comment db ≡ ok db'
      → IsSound db'
  unfolding reserve_pool_address
  reserve_pool_address-IsSound db db' pool_id ip comment h e =
      let (pool, l, e1) = >>=-eq-ok (lock_pool db pool_id) _ e in
      let found = lock_pool-find db pool_id pool l in
      let (text, valid, e2) = >>=-eq-ok (validate_address_in_pool pool ip) _ e1 in
      let (v, read, e3) = >>=-eq-ok (as_inet inet text) _ e2 in
      let (_, free, e4) = >>=-eq-ok (assert_database_address_free db pool text v) _ e3 in
      let (addresses, inserted, made) =
        >>=-eq-ok (insert_address (reserved_entry pool v comment) db.addresses) _ e4 in
      let inside =
        validate_address_in_pool-InPool pool ip text
          (find-IsPool pool_id db.pools pool found h.ranges) valid in
      let (lo, hi) = as_inet-number inet pool text v agrees read inside in
      subst IsSound (ok_inj made) (
        with_addresses db addresses h (
          insert_address-AreKept db.pools (reserved_entry pool v comment) db.addresses addresses
            (kept h)
            (find-Covered pool_id db.pools pool found (reserved_entry pool v comment) refl lo hi)
            inserted))

  pub unreserve_pool_address-IsSound :
      (db db' : Tables) (pool_id : ℕ) (ip : Text)
      → IsSound db
      → unreserve_pool_address inet pool_id ip db ≡ ok db'
      → IsSound db'
  unfolding unreserve_pool_address
  unreserve_pool_address-IsSound db db' pool_id ip h e =
      let (v, read, e1) = >>=-eq-ok (as_inet inet (normalize_client_ip ip)) _ e in
      let (_, there, made) =
        >>=-eq-ok (guard (any (is_reservation pool_id v) db.addresses) not_a_reservation) _ e1 in
      subst IsSound (ok_inj made) (
        with_addresses db _ h
          (keep-AreKept db.pools (λ a. not (is_reservation pool_id v a)) db.addresses (kept h)))

  assert_no_overlap-any :
      (db : Tables) (router_id start end : ℕ) (exclude : Option ℕ)
      → assert_no_overlap db router_id start end exclude ≡ ok tt
      → any (is_in_the_way router_id start end exclude) db.pools ≡ false
  unfolding assert_no_overlap
  assert_no_overlap-any db router_id start end exclude h =
      find-eq-none (is_in_the_way router_id start end exclude) db.pools (ground arith)

  -- A new identifier and a range that is in nobody's way clash with no pool.
  clash_free :
      (p : WireGuardPool) (pools : List WireGuardPool)
      → any (λ q. q.id == p.id) pools ≡ false
      → any (is_in_the_way p.router_id p.start_ip p.end_ip none) pools ≡ false
      → any (clash p) pools ≡ false
  clash_free p [] h k = refl
  clash_free p (q ∷ pools) h k = ground (arith, clash_free p pools)

  guard-eq-ok : (b : Bool) (x : PoolError) → guard b x ≡ ok tt → b ≡ true
  guard-eq-ok true x h = refl
  guard-eq-ok false x h = cc

  enter_pool-IsSound :
      (db db' : Tables) (pool : WireGuardPool)
      → Covered db.pools pool
      → Disjoint db.pools
      → AreKept db.pools db.addresses
      → All IsPool db.pools
      → enter_pool inet pool db ≡ ok db'
      → IsSound db'
  enter_pool-IsSound db db' pool c d k r e = record {
    consistent = enter_pool-IsConsistent inet db.pools pool c db db' refl d k e;
    ranges = rw (enter_pool-pools inet pool db db' e) r;
  }

  pub create_pool-IsSound :
      (db db' : Tables) (id : ℕ) (input : PoolInput)
      → IsSound db
      → create_pool inet id input db ≡ ok db'
      → IsSound db'
  unfolding create_pool
  create_pool-IsSound db db' id input h e =
      let (n, normal, e1) = >>=-eq-ok (normalize_pool_input input) _ e in
      let (scope, _, e2) = >>=-eq-ok (interface_scope db input.router_id input.interface_id) _ e1 in
      let (_, _, e3) = >>=-eq-ok (validate_scope scope n) _ e2 in
      let (_, apart, e4) =
        >>=-eq-ok (assert_no_overlap db input.router_id n.start_ip n.end_ip none) _ e3 in
      let (_, fresh, e5) =
        >>=-eq-ok (guard (not (any (λ (p : WireGuardPool). p.id == id) db.pools)) duplicate_key) _
          e4 in
      let pool = pool_of id input.router_id input.interface_id n in
      let new =
        guard-eq-ok (not (any (λ (p : WireGuardPool). p.id == id) db.pools)) duplicate_key fresh in
      let free =
        clash_free pool db.pools (ground arith)
          (assert_no_overlap-any db input.router_id n.start_ip n.end_ip none apart) in
      enter_pool-IsSound (record db { pools = pool ∷ db.pools }) db' pool
        (λ a same lo hi. ground arith) (free, h.consistent.disjoint)
        (record {
          unique = h.consistent.unique;
          placed = IsPlaced-cons pool db.pools db.addresses h.consistent.placed;
        })
        (normalize_pool_input-IsPool input n id input.router_id input.interface_id normal, h.ranges)
        e5

  find-any_id :
      (id : ℕ) (pools : List WireGuardPool) (pool : WireGuardPool)
      → find (λ p. p.id == id) pools ≡ some pool
      → any (λ (p : WireGuardPool). p.id == id) pools ≡ true
  find-any_id id [] pool h = cc
  find-any_id id (p ∷ pools) pool h = ground (arith, find-any_id id pools pool)

  All-replace_pool :
      (pool : WireGuardPool) (pools : List WireGuardPool)
      → IsPool pool
      → All IsPool pools
      → All IsPool (map (replace_pool pool) pools)
  All-replace_pool pool [] p h = tt
  All-replace_pool pool (q ∷ pools) p (h, hs) = elim (Bool-cases (q.id == pool.id)) [
    | inl e ↦ rw e (p, All-replace_pool pool pools p hs)
    | inr e ↦ rw e (h, All-replace_pool pool pools p hs)
  ]

  pub update_pool-IsSound :
      (db db' : Tables) (id : ℕ) (input : PoolInput)
      → IsSound db
      → update_pool inet id input db ≡ ok db'
      → IsSound db'
  unfolding update_pool assert_can_shrink
  update_pool-IsSound db db' id input h e =
      let (n, normal, e1) = >>=-eq-ok (normalize_pool_input input) _ e in
      let (current, locked, e2) = >>=-eq-ok (lock_pool db id) _ e1 in
      let (_, _, e3) = >>=-eq-ok (guard (current.router_id == input.router_id) moved_router) _ e2 in
      let (_, _, e4) =
        >>=-eq-ok (guard (current.interface_id == input.interface_id) moved_interface) _ e3 in
      let (scope, _, e5) = >>=-eq-ok (interface_scope db input.router_id input.interface_id) _ e4 in
      let (_, _, e6) = >>=-eq-ok (validate_scope scope n) _ e5 in
      let (_, apart, e7) =
        >>=-eq-ok (assert_no_overlap db input.router_id n.start_ip n.end_ip (some id)) _ e6 in
      let (_, shrinks, e8) = >>=-eq-ok (assert_can_shrink db id n.start_ip n.end_ip) _ e7 in
      let pool = pool_of id input.router_id input.interface_id n in
      let there = find-any_id id db.pools current (lock_pool-find db id current locked) in
      let inside =
        find-eq-none (is_occupied_outside id n.start_ip n.end_ip) db.addresses (ground arith) in
      let left =
        keep-AreKept db.pools (λ a. not (a.pool_id == id && is_router a.state)) db.addresses
          (kept h) in
      enter_pool-IsSound _ db' pool (Covered-replace_pool pool db.pools there)
        (Disjoint-replace_pool pool db.pools
          (assert_no_overlap-any db input.router_id n.start_ip n.end_ip (some id) apart)
          h.consistent.disjoint)
        (record {
          unique = left.unique;
          placed =
              IsPlaced-replace_pool pool db.pools _ there
                (any-keep (is_occupied_outside id n.start_ip n.end_ip) _ db.addresses inside)
                left.placed;
        })
        (All-replace_pool pool db.pools
          (normalize_pool_input-IsPool input n id input.router_id input.interface_id normal)
          h.ranges)
        e8
