-- ===== src/Pools/Manage.antt =====
-- src/server/pool-service.ts, lines 27 to 97 and 163 to 177: creation, update and deletion of a
-- pool, and reservations. An error rolls the transaction back.
use wireguard_panel.Base.{
  ℕ, Bool, false, not, ◌&&◌, ◌||◌, List, [], ◌∷◌, map, Option, none, some, Result, ok, err, ◌>>=◌,
  ◌>>◌, guard, ltb, leb, ◌==◌, if◌then◌else◌, any, find, keep,
}
use wireguard_panel.Base.Text.{Text, text_eq, trim, codes}
use wireguard_panel.Base.Decimal.{nonempty}
use wireguard_panel.Ip.Address.{dotted, ipv4_to_number, normalize_client_ip}
use wireguard_panel.Ip.Cidr.{Ipv4Network, parse_ipv4_cidr}
use wireguard_panel.Ip.Range.{validate_pool_range}
use wireguard_panel.Pools.Rows.{
  reserved, router, PoolSettings, WireGuardPool, PoolAddress, PoolPeer, InterfaceScope, Tables,
  PoolError, assigned_to_peer, address_is, interface_not_found, range_overlaps, moved_router,
  moved_interface, cannot_shrink, gateway_not_assigned, too_many_addresses, peers_assigned,
  reserved_left, not_a_reservation, duplicate_key, or_pool_error, as_inet, is_reserved, is_held,
  is_router, is_id, insert_address, insert_address_or_skip,
}
use wireguard_panel.Pools.Choose.{allocated_entry, lock_pool, validate_address_in_pool}

abbrev pub max_pool_addresses : ℕ
max_pool_addresses = 65_536

pub record PoolInput : Type 0 where
  pub router_id : ℕ
  pub interface_id : ℕ
  pub network_cidr : Text
  pub gateway_ip : Text
  pub start_ip : Text
  pub end_ip : Text
  pub settings : PoolSettings

-- The result of `normalizePoolInput`, with the addresses as the numbers that they stand for.
pub record NormalizedPool : Type 0 where
  pub network_cidr : Text
  pub gateway_ip : ℕ
  pub start_ip : ℕ
  pub end_ip : ℕ
  pub settings : PoolSettings

-- `input.endpointHost?.trim()||null`.
unfoldable pub trim_or_null : Option Text → Option Text
trim_or_null none = none
trim_or_null (some s) = if nonempty (trim s) then some (trim s) else none

unfoldable pub trim_settings : PoolSettings → PoolSettings
trim_settings s = record s {
  name = trim s.name;
  dns = trim s.dns;
  client_allowed_ips = trim s.client_allowed_ips;
  endpoint_host = trim_or_null s.endpoint_host;
}

unfoldable pub normalize_pool_input : PoolInput → Result PoolError NormalizedPool
normalize_pool_input input = do
  valid ←
      or_pool_error
        (validate_pool_range input.network_cidr input.gateway_ip input.start_ip input.end_ip)
  guard (not (ltb max_pool_addresses valid.range.total)) too_many_addresses
  gateway ← or_pool_error (ipv4_to_number valid.gateway)
  ok (record {
    network_cidr = valid.network.cidr;
    gateway_ip = gateway;
    start_ip = valid.range.start;
    end_ip = valid.range.end;
    settings = trim_settings input.settings;
  })

abbrev pub has_cidr : Text → Option Ipv4Network → Bool
has_cidr cidr none = false
has_cidr cidr (some n) = text_eq n.cidr cidr

abbrev pub ok_or_none {ℓ κ} : {E : Type ℓ} {A : Type κ} → Result E A → Option A
ok_or_none (ok a) = some a
ok_or_none (err e) = none

-- The addresses of an interface that stand for the gateway in the network.
abbrev pub is_gateway : NormalizedPool → Text → Bool
is_gateway pool address =
    text_eq (normalize_client_ip address) (dotted pool.gateway_ip)
    && has_cidr pool.network_cidr (ok_or_none (parse_ipv4_cidr address))

abbrev pub is_none_of : (Text → Bool) → List Text → Bool
is_none_of p [] = false
is_none_of p (a ∷ as') = not (any p (a ∷ as'))

unfoldable pub validate_scope : InterfaceScope → NormalizedPool → Result PoolError (Unit {0})
validate_scope scope pool =
    guard (not (is_none_of (is_gateway pool) scope.addresses)) gateway_not_assigned

unfoldable pub interface_scope : Tables → ℕ → ℕ → Result PoolError InterfaceScope
interface_scope db router_id interface_id =
    elim (find (λ i. i.id == interface_id && i.router_id == router_id) db.interfaces) [
      | none ↦ err interface_not_found
      | some scope ↦ ok scope
    ]

-- `router_id=$1 AND (... id<>$4) AND NOT (end_ip<$2 OR start_ip>$3)`.
abbrev pub is_in_the_way : ℕ → ℕ → ℕ → Option ℕ → WireGuardPool → Bool
is_in_the_way router_id start end exclude p =
    p.router_id == router_id
    && not (is_id p.id exclude)
    && not (ltb p.end_ip start || ltb end p.start_ip)

unfoldable pub assert_no_overlap : Tables → ℕ → ℕ → ℕ → Option ℕ → Result PoolError (Unit {0})
assert_no_overlap db router_id start end exclude =
    elim (find (is_in_the_way router_id start end exclude) db.pools) [
      | none ↦ ok tt
      | some p ↦ err (range_overlaps p.settings.name)
    ]

-- The database's reading of `client_ip::inet BETWEEN`; a text that it cannot read fails the query.
abbrev pub client_number : (Text → Option ℕ) → Option Text → Result PoolError (Option ℕ)
client_number inet none = ok none
client_number inet (some ip) = as_inet inet ip >>= λ v. ok (some v)

abbrev pub is_between : ℕ → ℕ → Option ℕ → Bool
is_between start end none = false
is_between start end (some v) = leb start v && leb v end

abbrev pub or_zero : Option ℕ → ℕ
or_zero none = 0
or_zero (some v) = v

-- `UPDATE peers SET pool_id=COALESCE(pool_id,$2)`.
abbrev pub or_pool : Option ℕ → ℕ → Option ℕ
or_pool none id = some id
or_pool (some old) id = some old

pub record Attached : Type 0 where
  pub peers : List PoolPeer
  pub addresses : List PoolAddress

abbrev pub peer_entry : WireGuardPool → PoolPeer → Option ℕ → PoolAddress
peer_entry pool peer number = allocated_entry pool (or_zero number) peer.id peer.name

-- The body of the loop, for a peer that the query selects.
unfoldable pub attach_selected :
    WireGuardPool
    → PoolPeer
    → Option ℕ
    → List PoolAddress
    → Result PoolError (PoolPeer × List PoolAddress)
attach_selected pool peer number addresses =
    insert_address_or_skip (peer_entry pool peer number) addresses >>= λ more.
    ok (record peer { pool_id = or_pool peer.pool_id pool.id }, more)

-- A peer of the interface with an address in the range is selected.
unfoldable pub attach_peer :
    (Text → Option ℕ)
    → WireGuardPool
    → PoolPeer
    → List PoolAddress
    → Result PoolError (PoolPeer × List PoolAddress)
attach_peer inet pool peer addresses =
    if peer.router_id == pool.router_id && peer.interface_id == pool.interface_id
    then (client_number inet peer.client_ip >>= λ number.
        if is_between pool.start_ip pool.end_ip number
        then attach_selected pool peer number addresses
        else ok (peer, addresses))
    else ok (peer, addresses)

-- `attachExistingPeers`, over the peers that are left.
unfoldable pub attach_existing_peers :
    (Text → Option ℕ) → WireGuardPool → List PoolPeer → List PoolAddress → Result PoolError Attached
attach_existing_peers inet pool [] addresses = ok (record { peers = []; addresses = addresses })
attach_existing_peers inet pool (peer ∷ peers) addresses =
    attach_peer inet pool peer addresses >>= λ one.
    attach_existing_peers inet pool peers one.1 >>= λ rest.
    ok (record rest { peers = one.0 ∷ rest.peers })

abbrev pub router_entry : WireGuardPool → PoolAddress
router_entry pool = record {
  pool_id = pool.id;
  router_id = pool.router_id;
  interface_id = pool.interface_id;
  ip_address = pool.gateway_ip;
  state = router;
  peer_id = none;
  comment = some (codes "WireGuard interface address");
}

-- The last two steps of `createPool` and of `updatePool`.
unfoldable pub enter_pool : (Text → Option ℕ) → WireGuardPool → Tables → Result PoolError Tables
enter_pool inet pool db = do
  addresses ← insert_address_or_skip (router_entry pool) db.addresses
  attached ← attach_existing_peers inet pool db.peers addresses
  ok (record db { peers = attached.peers; addresses = attached.addresses })

abbrev pub pool_of : ℕ → ℕ → ℕ → NormalizedPool → WireGuardPool
pool_of id router_id interface_id n = record {
  id = id;
  router_id = router_id;
  interface_id = interface_id;
  network_cidr = n.network_cidr;
  gateway_ip = n.gateway_ip;
  start_ip = n.start_ip;
  end_ip = n.end_ip;
  settings = n.settings;
}

-- `createPool`, for the identifier that the database draws, after the router's networks were
-- checked. The primary key refuses an identifier that is taken.
unfoldable pub create_pool : (Text → Option ℕ) → ℕ → PoolInput → Tables → Result PoolError Tables
create_pool inet id input db = do
  normalized ← normalize_pool_input input
  scope ← interface_scope db input.router_id input.interface_id
  validate_scope scope normalized
  assert_no_overlap db input.router_id normalized.start_ip normalized.end_ip none
  guard (not (any (λ p. p.id == id) db.pools)) duplicate_key
  let pool = pool_of id input.router_id input.interface_id normalized
  enter_pool inet pool (record db { pools = pool ∷ db.pools })

-- The entries that keep the pool from shrinking.
abbrev pub is_occupied_outside : ℕ → ℕ → ℕ → PoolAddress → Bool
is_occupied_outside id start end a =
    a.pool_id == id && is_held a.state && (ltb a.ip_address start || ltb end a.ip_address)

abbrev pub replace_pool : WireGuardPool → WireGuardPool → WireGuardPool
replace_pool pool p = if p.id == pool.id then pool else p

unfoldable pub assert_can_shrink : Tables → ℕ → ℕ → ℕ → Result PoolError (Unit {0})
assert_can_shrink db id start end = elim (find (is_occupied_outside id start end) db.addresses) [
  | none ↦ ok tt
  | some a ↦ err (cannot_shrink a.ip_address a.state)
]

unfoldable pub update_pool : (Text → Option ℕ) → ℕ → PoolInput → Tables → Result PoolError Tables
update_pool inet id input db = do
  normalized ← normalize_pool_input input
  current ← lock_pool db id
  guard (current.router_id == input.router_id) moved_router
  guard (current.interface_id == input.interface_id) moved_interface
  scope ← interface_scope db input.router_id input.interface_id
  validate_scope scope normalized
  assert_no_overlap db input.router_id normalized.start_ip normalized.end_ip (some id)
  assert_can_shrink db id normalized.start_ip normalized.end_ip
  let pool = pool_of id input.router_id input.interface_id normalized
  let left = keep (λ a. not (a.pool_id == id && is_router a.state)) db.addresses
  enter_pool inet pool (record db { pools = map (replace_pool pool) db.pools; addresses = left })

-- `deletePool`; the foreign key takes the pool's entries along.
unfoldable pub delete_pool : ℕ → Tables → Result PoolError Tables
delete_pool id db = do
  pool ← lock_pool db id
  guard (not (any (λ p. is_id id p.pool_id) db.peers)) peers_assigned
  guard (not (any (λ a. a.pool_id == id && is_reserved a.state) db.addresses)) reserved_left
  ok (record db {
    pools = keep (λ p. not (p.id == pool.id)) db.pools;
    addresses = keep (λ a. not (a.pool_id == pool.id)) db.addresses;
  })

abbrev pub is_client : ℕ → Text → PoolPeer → Bool
is_client router_id ip p =
    p.router_id == router_id && (elim p.client_ip [ none ↦ false | some c ↦ text_eq c ip ])

-- The first two statements: a peer with the address as its text, then an entry with its number.
unfoldable pub assert_database_address_free :
    Tables → WireGuardPool → Text → ℕ → Result PoolError (Unit {0})
assert_database_address_free db pool ip number =
    elim (find (is_client pool.router_id ip) db.peers) [
      | some peer ↦ err (assigned_to_peer ip peer.name)
      | none ↦
          elim (find (λ a. a.router_id == pool.router_id && a.ip_address == number) db.addresses) [
            | some a ↦ err (address_is ip a.state)
            | none ↦ ok tt
          ]
    ]

abbrev pub reserved_entry : WireGuardPool → ℕ → Text → PoolAddress
reserved_entry pool number comment = record {
  pool_id = pool.id;
  router_id = pool.router_id;
  interface_id = pool.interface_id;
  ip_address = number;
  state = reserved;
  peer_id = none;
  comment = some comment;
}

unfoldable pub reserve_pool_address :
    (Text → Option ℕ) → ℕ → Text → Text → Tables → Result PoolError Tables
reserve_pool_address inet pool_id ip_address comment db = do
  pool ← lock_pool db pool_id
  ip ← validate_address_in_pool pool ip_address
  number ← as_inet inet ip
  assert_database_address_free db pool ip number
  addresses ← insert_address (reserved_entry pool number comment) db.addresses
  ok (record db { addresses = addresses })

abbrev pub is_reservation : ℕ → ℕ → PoolAddress → Bool
is_reservation pool_id ip a = a.pool_id == pool_id && a.ip_address == ip && is_reserved a.state

unfoldable pub unreserve_pool_address :
    (Text → Option ℕ) → ℕ → Text → Tables → Result PoolError Tables
unreserve_pool_address inet pool_id ip_address db = do
  number ← as_inet inet (normalize_client_ip ip_address)
  guard (any (is_reservation pool_id number) db.addresses) not_a_reservation
  ok (record db { addresses = keep (λ a. not (is_reservation pool_id number a)) db.addresses })
