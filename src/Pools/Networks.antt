-- ===== src/Pools/Networks.antt =====
-- src/server/pool-service.ts, lines 181 to 201: the check of a pool's network against the addresses
-- and the routes that the router has. The router's lists are arguments; where they cannot be read
-- the check fails.
use wireguard_panel.Base.{
  ap, subst, Bool-cases, ◌≢◌, ◌⊎◌, inl, inr, arith, ℕ, ◌≡◌, refl, Bool, true, false, not, ◌&&◌,
  ◌||◌, List, [], ◌∷◌, Option, none, some, Result, ok, err, ◌>>=◌, ◌>>◌, guard, All, >>=-eq-ok,
}
use wireguard_panel.Base.Text.{Text, text_eq, text_eq→eq, codes}
use wireguard_panel.Base.Decimal.{nonempty}
use wireguard_panel.Ip.Address.{IpError, dotted, normalize_client_ip}
use wireguard_panel.Ip.Cidr.{Ipv4Network, parse_ipv4_cidr, cidrs_overlap, or_false}
use wireguard_panel.Routeros.Types.{RemoteAddress}
use wireguard_panel.Routeros.Exchange.{Row, get, contains_text}
use wireguard_panel.Pools.Rows.{
  Tables, PoolError, overlaps_router_address, overlaps_router_route, router_not_verified,
}
use wireguard_panel.Pools.Manage.{
  PoolInput, normalize_pool_input, interface_scope, create_pool, update_pool, has_cidr, ok_or_none,
}

&&-true : (a b : Bool) → a && b ≡ true → (a ≡ true) × (b ≡ true)
&&-true a b h = ground (arith, h)

||-true : (a b : Bool) → a || b ≡ true → (a ≡ true) ⊎ (b ≡ true)
||-true true b h = inl refl
||-true false b h = inr h

last_of_three : (a b c : Bool) → a || (not b || c) ≡ true → a ≡ false → b ≡ true → c ≡ true
last_of_three a b c h e f = ground (arith, h, e, f)

module _ (interface_name network_cidr gateway_ip : Text) where
  -- `parseIpv4Cidr(x).cidr === parseIpv4Cidr(networkCidr).cidr`, for an accepted `x`.
  abbrev pub is_same_network : Text → Bool
  is_same_network cidr = elim (ok_or_none (parse_ipv4_cidr network_cidr)) [
    | none ↦ false
    | some n ↦ has_cidr n.cidr (ok_or_none (parse_ipv4_cidr cidr))
  ]

  -- The interface's own address, as the pool names it.
  unfoldable pub is_expected : RemoteAddress → Bool
  is_expected address =
      text_eq address.interface_name interface_name
      && is_same_network address.address
      && text_eq (normalize_client_ip address.address) (normalize_client_ip gateway_ip)

  -- `cidrsOverlap(networkCidr, observed.cidr)`; an address that is no network is skipped.
  unfoldable pub overlaps_pool : Text → Bool
  overlaps_pool text = elim (ok_or_none (parse_ipv4_cidr text)) [
    | none ↦ false
    | some observed ↦ or_false (cidrs_overlap network_cidr observed.cidr)
  ]

  unfoldable pub check_addresses : List RemoteAddress → Result PoolError (Unit {0})
  check_addresses [] = ok tt
  check_addresses (address ∷ addresses) =
      guard (address.disabled || (not (overlaps_pool address.address) || is_expected address))
        (overlaps_router_address address.address)
      >> check_addresses addresses

  abbrev pub or_text : Option Text → Option Text → Option Text
  or_text none other = other
  or_text (some s) other = some s

  -- `route["dst-address"] ?? route.dstAddress`, and `route.gateway ?? route.interface ?? …`.
  abbrev pub destination_of : Row → Option Text
  destination_of route = or_text (get (codes "dst-address") route) (get (codes "dstAddress") route)

  abbrev pub gateway_of : Row → Option Text
  gateway_of route = or_text (get (codes "gateway") route) (get (codes "interface") route)

  abbrev pub is_text_of : Text → Option Text → Bool
  is_text_of s none = false
  is_text_of s (some t) = text_eq t s

  -- `route["immediate-gw"]?.includes(name)`.
  abbrev pub mentions : Text → Option Text → Bool
  mentions name none = false
  mentions name (some s) = contains_text name s

  unfoldable pub is_connected : Row → Text → Bool
  is_connected route destination =
      is_same_network destination
      && (is_text_of interface_name (or_text (gateway_of route) (some (codes "unknown gateway")))
          || mentions interface_name (get (codes "immediate-gw") route))

  -- A route with no destination, and the default route, are skipped.
  unfoldable pub route_is_safe : Row → Option Text → Bool
  route_is_safe route none = true
  route_is_safe route (some destination) =
      not (nonempty destination)
      || text_eq destination (codes "0.0.0.0/0")
      || not (or_false (cidrs_overlap network_cidr destination))
      || is_connected route destination

  unfoldable pub check_routes : List Row → Result PoolError (Unit {0})
  check_routes [] = ok tt
  check_routes (route ∷ routes) =
      guard (route_is_safe route (destination_of route)) (overlaps_router_route network_cidr)
      >> check_routes routes

  unfoldable pub assert_no_router_network_overlap :
      Option (List RemoteAddress × List Row) → Result PoolError (Unit {0})
  assert_no_router_network_overlap none = err router_not_verified
  assert_no_router_network_overlap (some (addresses, routes)) =
      check_addresses addresses >> check_routes routes

  -- Two texts of the same network, of which the first is the pool's.
  pub record SameNetwork (cidr : Text) : Type 0 where
    pub own : Ipv4Network
    pub other : Ipv4Network
    pub reads_own : parse_ipv4_cidr network_cidr ≡ ok own
    pub reads_other : parse_ipv4_cidr cidr ≡ ok other
    pub same : other.cidr ≡ own.cidr

  -- The interface's own address: the pool's gateway, in the pool's network.
  pub record IsOwnAddress (address : RemoteAddress) : Type 0 where
    pub on_interface : address.interface_name ≡ interface_name
    pub in_network : SameNetwork address.address
    pub is_gateway : normalize_client_ip address.address ≡ normalize_client_ip gateway_ip

  -- An enabled address of a network that overlaps the pool's is the interface's own.
  abbrev pub IsClear : RemoteAddress → Type 0
  IsClear address =
      (observed : Ipv4Network)
      → address.disabled ≡ false
      → parse_ipv4_cidr address.address ≡ ok observed
      → cidrs_overlap network_cidr observed.cidr ≡ ok true
      → IsOwnAddress address

  -- The route goes through the interface: its gateway is the interface, or its next hop names it.
  abbrev pub GoesThrough : Row → Type 0
  GoesThrough route =
      (or_text (gateway_of route) (some (codes "unknown gateway")) ≡ some interface_name)
      ⊎ ((hop : Text) × (get (codes "immediate-gw") route ≡ some hop)
          × (contains_text interface_name hop ≡ true))

  -- A route whose destination overlaps the pool's network, but the default route, is that network
  -- connected to the interface.
  abbrev pub IsSafe : Row → Type 0
  IsSafe route =
      (destination : Text)
      → destination_of route ≡ some destination
      → destination ≢ []
      → destination ≢ codes "0.0.0.0/0"
      → cidrs_overlap network_cidr destination ≡ ok true
      → SameNetwork destination × GoesThrough route

  read_network :
      (cidr : Text) (own other : Result IpError Ipv4Network)
      → parse_ipv4_cidr network_cidr ≡ own
      → parse_ipv4_cidr cidr ≡ other
      → (elim (ok_or_none own) [ none ↦ false | some n ↦ has_cidr n.cidr (ok_or_none other) ])
        ≡ true
      → SameNetwork cidr
  read_network cidr (ok own) (ok other) e f h = record {
    own = own;
    other = other;
    reads_own = e;
    reads_other = f;
    same = text_eq→eq other.cidr own.cidr h;
  }
  read_network cidr (ok own) (err x) e f h = cc
  read_network cidr (err x) other e f h = cc

  same_network : (cidr : Text) → is_same_network cidr ≡ true → SameNetwork cidr
  same_network cidr h = read_network cidr _ _ refl refl h

  is_expected-IsOwnAddress :
      (address : RemoteAddress) → is_expected address ≡ true → IsOwnAddress address
  unfolding is_expected
  is_expected-IsOwnAddress address h =
      let (ab, c) =
        &&-true (text_eq address.interface_name interface_name && is_same_network address.address) _
          h in
      let (a, b) = &&-true _ _ ab in
      record {
        on_interface = text_eq→eq _ _ a;
        in_network = same_network address.address b;
        is_gateway = text_eq→eq _ _ c;
      }

  overlaps_read :
      (r : Result IpError Ipv4Network) (observed : Ipv4Network)
      → r ≡ ok observed
      → cidrs_overlap network_cidr observed.cidr ≡ ok true
      → (elim (ok_or_none r) [
        | none ↦ false
        | some n ↦ or_false (cidrs_overlap network_cidr n.cidr)
      ])
        ≡ true
  overlaps_read r observed e f = rw e (rw f refl)

  IsClear-by_guard :
      (address : RemoteAddress)
      → address.disabled || (not (overlaps_pool address.address) || is_expected address) ≡ true
      → IsClear address
  unfolding overlaps_pool
  IsClear-by_guard address h observed enabled reads overlap = is_expected-IsOwnAddress address (
      last_of_three address.disabled (overlaps_pool address.address) (is_expected address) h enabled
        (overlaps_read _ observed reads overlap))

  is_text_of-eq : (s : Text) (o : Option Text) → is_text_of s o ≡ true → o ≡ some s
  is_text_of-eq s none h = cc
  is_text_of-eq s (some t) h = ap some (text_eq→eq t s h)

  mentions-hop :
      (o : Option Text)
      → mentions interface_name o ≡ true
      → (hop : Text) × (o ≡ some hop) × (contains_text interface_name hop ≡ true)
  mentions-hop none h = cc
  mentions-hop (some hop) h = (hop, refl, h)

  is_connected-GoesThrough :
      (route : Row) (destination : Text)
      → is_connected route destination ≡ true
      → SameNetwork destination × GoesThrough route
  unfolding is_connected
  is_connected-GoesThrough route destination h =
      let (a, b) = &&-true _ _ h in
      (
        same_network destination a,
        elim (||-true _ _ b) [
          | inl e ↦ inl (is_text_of-eq interface_name _ e)
          | inr e ↦ inr (mentions-hop _ e)
        ],
      )

  connected :
      (full default overlap through : Bool)
      → not full || default || not overlap || through ≡ true
      → full ≡ true
      → default ≡ false
      → overlap ≡ true
      → through ≡ true
  connected full default overlap through h e f g = ground (arith, h, e, f, g)

  filled : (t : Text) → t ≢ [] → nonempty t ≡ true
  filled [] h = absurd (h refl)
  filled (c ∷ t) h = refl

  different : (s t : Text) → s ≢ t → text_eq s t ≡ false
  different s t h = elim (Bool-cases (text_eq s t)) [
    | inl e ↦ absurd (h (text_eq→eq s t e))
    | inr e ↦ e
  ]

  safe_destination :
      (route : Row) (o : Option Text) (destination : Text)
      → route_is_safe route o ≡ true
      → o ≡ some destination
      → destination ≢ []
      → destination ≢ codes "0.0.0.0/0"
      → cidrs_overlap network_cidr destination ≡ ok true
      → is_connected route destination ≡ true
  unfolding route_is_safe
  safe_destination route none destination h e full off overlap = cc
  safe_destination route (some d) destination h e full off overlap =
      let same : d ≡ destination = cc e in
      connected (nonempty destination) (text_eq destination (codes "0.0.0.0/0"))
        (or_false (cidrs_overlap network_cidr destination)) _
        (subst (λ x. route_is_safe route (some x) ≡ true) same h) (filled destination full)
        (different _ _ off) (rw overlap refl)

  IsSafe-by_guard : (route : Row) → route_is_safe route (destination_of route) ≡ true → IsSafe route
  IsSafe-by_guard route h destination e full off overlap =
      is_connected-GoesThrough route destination
        (safe_destination route _ destination h e full off overlap)

  guarded :
      (b : Bool) (x : PoolError) (rest : Result PoolError (Unit {0}))
      → (guard b x >> rest ≡ ok tt)
      → (b ≡ true) × (rest ≡ ok tt)
  guarded true x rest h = (refl, h)
  guarded false x rest h = cc

  check_addresses-IsClear :
      (addresses : List RemoteAddress) → check_addresses addresses ≡ ok tt → All IsClear addresses
  unfolding check_addresses
  check_addresses-IsClear [] h = tt
  check_addresses-IsClear (a ∷ addresses) h =
      let (here, later) = guarded _ _ _ h in
      (IsClear-by_guard a here, check_addresses-IsClear addresses later)

  check_routes-IsSafe : (routes : List Row) → check_routes routes ≡ ok tt → All IsSafe routes
  unfolding check_routes
  check_routes-IsSafe [] h = tt
  check_routes-IsSafe (r ∷ routes) h =
      let (here, later) = guarded _ _ _ h in
      (IsSafe-by_guard r here, check_routes-IsSafe routes later)

  -- The router's lists were read, and nothing on them stands in the way.
  pub record IsVerified (lists : Option (List RemoteAddress × List Row)) : Type 0 where
    pub addresses : List RemoteAddress
    pub routes : List Row
    pub read : lists ≡ some (addresses, routes)
    pub addresses_clear : All IsClear addresses
    pub routes_safe : All IsSafe routes

  -- When the check of a network passes, the router's lists were read; every enabled address of the
  -- router whose network overlaps the pool's is the interface's own: on that interface, in that very
  -- network, and the pool's gateway; and every route whose destination overlaps it, but the default
  -- route, is to that network, and its gateway is the interface or its next hop names it.
  pub assert_no_router_network_overlap-IsVerified :
      (lists : Option (List RemoteAddress × List Row))
      → assert_no_router_network_overlap lists ≡ ok tt
      → IsVerified lists
  unfolding assert_no_router_network_overlap
  assert_no_router_network_overlap-IsVerified none h = cc
  assert_no_router_network_overlap-IsVerified (some (addresses, routes)) h =
      let (_, cleared, safe) = >>=-eq-ok (check_addresses addresses) _ h in
      record {
        addresses = addresses;
        routes = routes;
        read = refl;
        addresses_clear = check_addresses-IsClear addresses cleared;
        routes_safe = check_routes-IsSafe routes safe;
      }

-- `createPool` and `updatePool` from their first line on: the input, the interface, the router's
-- networks, and then the transaction.
unfoldable pub create_pool_checked :
    (Text → Option ℕ)
    → ℕ
    → PoolInput
    → Option (List RemoteAddress × List Row)
    → Tables
    → Result PoolError Tables
create_pool_checked inet id input lists db = do
  normalized ← normalize_pool_input input
  row ← interface_scope db input.router_id input.interface_id
  assert_no_router_network_overlap row.name normalized.network_cidr (dotted normalized.gateway_ip)
      lists
  create_pool inet id input db

unfoldable pub update_pool_checked :
    (Text → Option ℕ)
    → ℕ
    → PoolInput
    → Option (List RemoteAddress × List Row)
    → Tables
    → Result PoolError Tables
update_pool_checked inet id input lists db = do
  normalized ← normalize_pool_input input
  row ← interface_scope db input.router_id input.interface_id
  assert_no_router_network_overlap row.name normalized.network_cidr (dotted normalized.gateway_ip)
      lists
  update_pool inet id input db
