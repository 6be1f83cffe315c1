-- ===== src/Pools/Invariant.antt =====
-- src/server/pool-service.ts: what stays true of the pools and their entries.
use wireguard_panel.Base.{
  ◌≡◌, inl, inr, Bool, true, false, not, ◌&&◌, ◌||◌, List, [], ◌∷◌, ok, arith, Bool-cases, ltb, leb,
  ◌==◌, any, keep, All, any-keep, All-keep,
}
use wireguard_panel.Pools.Rows.{
  WireGuardPool, PoolAddress, Tables, is_held, same_address, insert_address, insert_address_or_skip,
}

-- No two entries of a router have one address.
abbrev pub Unique : List PoolAddress → Type 0
Unique [] = Unit {0}
Unique (a ∷ addresses) = (any (same_address a) addresses ≡ false) × Unique addresses

-- Two pools are one row, or overlap on a router.
abbrev pub clash : WireGuardPool → WireGuardPool → Bool
clash p q =
    p.id == q.id
    || (p.router_id == q.router_id && not (ltb p.end_ip q.start_ip || ltb q.end_ip p.start_ip))

abbrev pub Disjoint : List WireGuardPool → Type 0
Disjoint [] = Unit {0}
Disjoint (p ∷ pools) = (any (clash p) pools ≡ false) × Disjoint pools

abbrev pub covers : PoolAddress → WireGuardPool → Bool
covers a p = p.id == a.pool_id && (leb p.start_ip a.ip_address && leb a.ip_address p.end_ip)

-- A reserved or allocated address lies in the range of its pool.
abbrev pub IsPlaced : List WireGuardPool → PoolAddress → Type 0
IsPlaced pools a = not (is_held a.state) || any (covers a) pools ≡ true

pub record IsConsistent (db : Tables) : Type 0 where
  pub unique : Unique db.addresses
  pub disjoint : Disjoint db.pools
  pub placed : All (IsPlaced db.pools) db.addresses

-- The entries, against the pools that they belong to.
pub record AreKept (pools : List WireGuardPool) (addresses : List PoolAddress) : Type 0 where
  pub unique : Unique addresses
  pub placed : All (IsPlaced pools) addresses

pub Unique-keep : (q : PoolAddress → Bool) (xs : List PoolAddress) → Unique xs → Unique (keep q xs)
Unique-keep q [] h = tt
Unique-keep q (x ∷ xs) (p, h) = elim (Bool-cases (q x)) [
  | inl e ↦ rw e (any-keep (same_address x) q xs p, Unique-keep q xs h)
  | inr e ↦ rw e (Unique-keep q xs h)
]

pub keep-AreKept :
    (pools : List WireGuardPool) (q : PoolAddress → Bool) (xs : List PoolAddress)
    → AreKept pools xs
    → AreKept pools (keep q xs)
keep-AreKept pools q xs h = record {
  unique = Unique-keep q xs h.unique;
  placed = All-keep (IsPlaced pools) q xs h.placed;
}

pub insert_address-AreKept :
    (pools : List WireGuardPool) (a : PoolAddress) (xs ys : List PoolAddress)
    → AreKept pools xs
    → IsPlaced pools a
    → insert_address a xs ≡ ok ys
    → AreKept pools ys
unfolding insert_address
insert_address-AreKept pools a xs ys h p e = elim (Bool-cases (any (same_address a) xs)) [
  | inl taken ↦ absurd (ground arith)
  | inr free ↦
      let same : ys ≡ a ∷ xs = ground arith in
      rw same (record { unique = (free, h.unique); placed = (p, h.placed) })
]

pub insert_address_or_skip-AreKept :
    (pools : List WireGuardPool) (a : PoolAddress) (xs ys : List PoolAddress)
    → AreKept pools xs
    → IsPlaced pools a
    → insert_address_or_skip a xs ≡ ok ys
    → AreKept pools ys
unfolding insert_address_or_skip
insert_address_or_skip-AreKept pools a xs ys h p e = elim (Bool-cases (any (same_address a) xs)) [
  | inl taken ↦ let same : ys ≡ xs = ground arith in rw same h
  | inr free ↦ insert_address-AreKept pools a xs ys h p (ground arith)
]

clash_sym : (p q : WireGuardPool) → clash p q ≡ clash q p
clash_sym p q = ground arith

-- After a filter, and after one row was replaced.
pub Disjoint-keep :
    (q : WireGuardPool → Bool) (xs : List WireGuardPool) → Disjoint xs → Disjoint (keep q xs)
Disjoint-keep q [] h = tt
Disjoint-keep q (x ∷ xs) (p, h) = elim (Bool-cases (q x)) [
  | inl e ↦ rw e (any-keep (clash x) q xs p, Disjoint-keep q xs h)
  | inr e ↦ rw e (Disjoint-keep q xs h)
]
