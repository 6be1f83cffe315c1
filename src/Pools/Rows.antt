-- ===== src/Pools/Rows.antt =====
-- src/server/pool-service.ts, lines 10 to 25: the rows of the pools and of their addresses, with
-- the statements on them. The identifiers of rows are numbers. An `inet` column is a number, which
-- `host` prints as a dotted address.
use wireguard_panel.Base.{
  ℕ, Bool, true, false, ◌&&◌, ◌||◌, List, ◌∷◌, Option, none, some, Result, ok, err, ◌==◌,
  if◌then◌else◌, any,
}
use wireguard_panel.Base.Text.{Text}
use wireguard_panel.Ip.Address.{IpError}

pub record PoolSettings : Type 0 where
  pub name : Text
  pub dns : Text
  pub client_allowed_ips : Text
  pub endpoint_host : Option Text
  pub endpoint_port : Option ℕ
  pub mtu : ℕ
  pub persistent_keepalive : ℕ
  pub enabled : Bool

pub record WireGuardPool : Type 0 where
  pub id : ℕ
  pub router_id : ℕ
  pub interface_id : ℕ
  pub network_cidr : Text
  pub gateway_ip : ℕ
  pub start_ip : ℕ
  pub end_ip : ℕ
  pub settings : PoolSettings

pub data EntryState : Type 0 where
  available reserved allocated router : EntryState

-- A row of `wireguard_pool_addresses`.
pub record PoolAddress : Type 0 where
  pub pool_id : ℕ
  pub router_id : ℕ
  pub interface_id : ℕ
  pub ip_address : ℕ
  pub state : EntryState
  pub peer_id : Option ℕ
  pub comment : Option Text

-- The columns of `peers` that the pools read and write.
pub record PoolPeer : Type 0 where
  pub id : ℕ
  pub router_id : ℕ
  pub interface_id : ℕ
  pub pool_id : Option ℕ
  pub name : Text
  pub client_ip : Option Text

pub record InterfaceScope : Type 0 where
  pub id : ℕ
  pub router_id : ℕ
  pub name : Text
  pub addresses : List Text

-- `UNIQUE(interface_id, name)` of `wireguard_pools` is not modelled.
pub record Tables : Type 0 where
  pub pools : List WireGuardPool
  pub addresses : List PoolAddress
  pub peers : List PoolPeer
  pub interfaces : List InterfaceScope

-- The errors, one for each message; the last two are the database's.
pub data PoolError : Type 0 where
  ip_error : IpError → PoolError
  assigned_to_peer : Text → Text → PoolError
  address_is : Text → EntryState → PoolError
  assigned_on_router : Text → PoolError
  outside_pool : Text → PoolError
  is_router_address : Text → PoolError
  no_addresses : Text → PoolError
  pool_not_found pool_disabled wrong_scope interface_not_found : PoolError
  range_overlaps : Text → PoolError
  moved_router moved_interface : PoolError
  cannot_shrink : ℕ → EntryState → PoolError
  gateway_not_assigned : PoolError
  too_many_addresses : PoolError
  peers_assigned reserved_left not_a_reservation : PoolError
  overlaps_router_address : Text → PoolError
  overlaps_router_route : Text → PoolError
  router_not_verified : PoolError
  invalid_inet : Text → PoolError
  duplicate_key : PoolError

abbrev pub or_pool_error {ℓ} : {A : Type ℓ} → Result IpError A → Result PoolError A
or_pool_error (ok a) = ok a
or_pool_error (err e) = err (ip_error e)

-- `ip::inet`, by the database's reading of a text.
abbrev pub as_inet : (Text → Option ℕ) → Text → Result PoolError ℕ
as_inet inet ip = elim (inet ip) [ none ↦ err (invalid_inet ip) | some v ↦ ok v ]

abbrev pub is_reserved : EntryState → Bool
is_reserved reserved = true
is_reserved _ = false

-- `state IN ('reserved','allocated')`.
abbrev pub is_held : EntryState → Bool
is_held reserved = true
is_held allocated = true
is_held _ = false

-- `state IN ('reserved','allocated','router')`.
abbrev pub is_blocking : EntryState → Bool
is_blocking available = false
is_blocking _ = true

abbrev pub is_router : EntryState → Bool
is_router router = true
is_router _ = false

abbrev pub is_id : ℕ → Option ℕ → Bool
is_id id none = false
is_id id (some other) = other == id

-- `UNIQUE(router_id, ip_address)`.
abbrev pub same_address : PoolAddress → PoolAddress → Bool
same_address a b = a.router_id == b.router_id && a.ip_address == b.ip_address

-- `UNIQUE(peer_id)`, where no value is equal to a missing one.
abbrev pub same_holder : PoolAddress → PoolAddress → Bool
same_holder a b = elim a.peer_id [ none ↦ false | some id ↦ is_id id b.peer_id ]

-- An `INSERT`, which the two constraints may refuse.
unfoldable pub insert_address : PoolAddress → List PoolAddress → Result PoolError (List PoolAddress)
insert_address a addresses =
    if any (same_address a) addresses || any (same_holder a) addresses
    then err duplicate_key
    else ok (a ∷ addresses)

-- `ON CONFLICT(router_id,ip_address) DO NOTHING`: the other constraint still fails.
unfoldable pub insert_address_or_skip :
    PoolAddress → List PoolAddress → Result PoolError (List PoolAddress)
insert_address_or_skip a addresses =
    if any (same_address a) addresses then ok addresses else insert_address a addresses
