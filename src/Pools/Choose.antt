-- ===== src/Pools/Choose.antt =====
-- src/server/pool-service.ts, lines 133 to 161 and 177: the choice of an address for a peer, its claim
-- and its release.
use wireguard_panel.Base.{
  ℕ, zero, suc, ◌+◌, ◌-◌, Bool, true, false, not, ◌&&◌, ◌||◌, List, Option, none, some, Result, ok,
  err, ◌>>=◌, ◌>>◌, guard, ltb, ◌==◌, if◌then◌else◌, find, keep,
}
use wireguard_panel.Base.Text.{Text, text_eq}
use wireguard_panel.Base.Decimal.{nonempty}
use wireguard_panel.Ip.Address.{ipv4_to_number, number_to_ipv4, dotted, normalize_client_ip}
use wireguard_panel.Ip.Range.{ipv4_range}
use wireguard_panel.Ip.Allowed.{allowed_address_owns_ip}
use wireguard_panel.Routeros.Types.{RemoteWireGuardPeer}
use wireguard_panel.Pools.Rows.{
  allocated, WireGuardPool, PoolAddress, PoolPeer, Tables, PoolError, assigned_to_peer, address_is,
  assigned_on_router, outside_pool, is_router_address, no_addresses, pool_not_found, pool_disabled,
  wrong_scope, or_pool_error, as_inet, is_blocking, is_id, insert_address,
}

-- `lockPool`: the row, under a lock for the rest of the transaction.
unfoldable pub lock_pool : Tables → ℕ → Result PoolError WireGuardPool
lock_pool db id = elim (find (λ p. p.id == id) db.pools) [
  | none ↦ err pool_not_found
  | some pool ↦ ok pool
]

unfoldable pub lock_pool_for_peer : Tables → ℕ → ℕ → ℕ → Result PoolError WireGuardPool
lock_pool_for_peer db pool_id router_id interface_id = do
  pool ← lock_pool db pool_id
  guard (pool.router_id == router_id && pool.interface_id == interface_id) wrong_scope
  guard pool.settings.enabled pool_disabled
  ok pool

abbrev pub owns_ip : Text → Option Text → Bool
owns_ip ip none = false
owns_ip ip (some client_ip) = text_eq (normalize_client_ip client_ip) ip

-- The peers of the router but the one that is left out.
abbrev pub is_owner : ℕ → Option ℕ → Text → PoolPeer → Bool
is_owner router_id exclude ip p =
    p.router_id == router_id && not (is_id p.id exclude) && owns_ip ip p.client_ip

-- `$2 IS NULL OR peer_id IS DISTINCT FROM $2`.
abbrev pub is_distinct : Option ℕ → Option ℕ → Bool
is_distinct none peer_id = true
is_distinct (some excluded) peer_id = not (is_id excluded peer_id)

-- The entries of the router that hold the address, but those of the peer that is left out.
abbrev pub is_blocked_by : ℕ → Option ℕ → Text → PoolAddress → Bool
is_blocked_by router_id exclude ip a =
    a.router_id == router_id
    && is_blocking a.state
    && is_distinct exclude a.peer_id
    && text_eq (dotted a.ip_address) ip

abbrev pub is_remote_owner : Text → RemoteWireGuardPeer → Bool
is_remote_owner ip peer = allowed_address_owns_ip peer.allowed_address ip

-- `explain(ip)`: the first conflict, in the order database peer, entry, router's peer.
unfoldable pub explain : Tables → ℕ → List RemoteWireGuardPeer → Option ℕ → Text → Option PoolError
explain db router_id remote_peers exclude ip =
    elim (find (is_owner router_id exclude ip) db.peers) [
      | some owner ↦ some (assigned_to_peer ip owner.name)
      | none ↦ elim (find (is_blocked_by router_id exclude ip) db.addresses) [
        | some reservation ↦ some (address_is ip reservation.state)
        | none ↦ elim (find (is_remote_owner ip) remote_peers) [
          | some remote ↦ some (assigned_on_router ip)
          | none ↦ none
        ]
      ]
    ]

unfoldable pub validate_address_in_pool : WireGuardPool → Text → Result PoolError Text
validate_address_in_pool pool value = do
  let ip = normalize_client_ip value
  number ← or_pool_error (ipv4_to_number ip)
  range ← or_pool_error (ipv4_range (dotted pool.start_ip) (dotted pool.end_ip))
  guard (not (ltb number range.start || ltb range.end number)) (outside_pool ip)
  guard (not (text_eq ip (normalize_client_ip (dotted pool.gateway_ip)))) (is_router_address ip)
  ok ip

abbrev pub or_conflict : Text → Option PoolError → Result PoolError Text
or_conflict ip none = ok ip
or_conflict ip (some e) = err e

-- The loop of line 151, with the rounds left.
unfoldable pub first_unexplained :
    ℕ → ℕ → (Text → Option PoolError) → PoolError → Result PoolError Text
first_unexplained zero value explained exhausted = err exhausted
first_unexplained (suc rounds) value explained exhausted =
    let rest = first_unexplained rounds (value + 1) explained exhausted in
    or_pool_error (number_to_ipv4 value) >>= λ ip. elim (explained ip) [
      | none ↦ ok ip
      | some e ↦ rest
    ]

unfoldable pub choose_automatic : WireGuardPool → (Text → Option PoolError) → Result PoolError Text
choose_automatic pool explained = do
  range ← or_pool_error (ipv4_range (dotted pool.start_ip) (dotted pool.end_ip))
  first_unexplained (range.end + 1 - range.start) range.start explained
      (no_addresses pool.settings.name)

unfoldable pub choose_requested :
    WireGuardPool → (Text → Option PoolError) → Text → Result PoolError Text
choose_requested pool explained requested =
    validate_address_in_pool pool requested >>= λ ip. or_conflict ip (explained ip)

-- An absent request and an empty one are both falsy.
unfoldable pub choose_pool_address :
    Tables
    → WireGuardPool
    → List RemoteWireGuardPeer
    → Option Text
    → Option ℕ
    → Result PoolError Text
choose_pool_address db pool remote_peers none exclude =
    choose_automatic pool (explain db pool.router_id remote_peers exclude)
choose_pool_address db pool remote_peers (some requested) exclude =
    if nonempty requested
    then choose_requested pool (explain db pool.router_id remote_peers exclude) requested
    else choose_automatic pool (explain db pool.router_id remote_peers exclude)

-- `DELETE ... WHERE pool_id=$1 AND ip_address=$2 AND state='available'`.
abbrev pub is_available_at : ℕ → ℕ → PoolAddress → Bool
is_available_at pool_id ip a =
    a.pool_id == pool_id && a.ip_address == ip && not (is_blocking a.state)

abbrev pub allocated_entry : WireGuardPool → ℕ → ℕ → Text → PoolAddress
allocated_entry pool number peer_id peer_name = record {
  pool_id = pool.id;
  router_id = pool.router_id;
  interface_id = pool.interface_id;
  ip_address = number;
  state = allocated;
  peer_id = some peer_id;
  comment = some peer_name;
}

unfoldable pub claim_pool_address :
    (Text → Option ℕ) → Tables → WireGuardPool → Text → ℕ → Text → Result PoolError Tables
claim_pool_address inet db pool ip peer_id peer_name = do
  number ← as_inet inet ip
  let left = keep (λ a. not (is_available_at pool.id number a)) db.addresses
  addresses ← insert_address (allocated_entry pool number peer_id peer_name) left
  ok (record db { addresses = addresses })

unfoldable pub release_peer_pool_address : ℕ → Tables → Tables
release_peer_pool_address peer_id db = record db {
  addresses = keep (λ a. not (is_id peer_id a.peer_id)) db.addresses;
}
