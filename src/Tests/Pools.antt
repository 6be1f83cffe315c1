-- ===== src/Tests/Pools.antt =====
-- Runs of the pools: a pool 10.8.0.2 to 10.8.0.4 in the network 10.8.0.0/29 of one interface.
use wireguard_panel.Base.{ℕ, ◌≡◌, refl, true, false, List, [], ◌∷◌, Option, some, none, ok, arith}
use wireguard_panel.Base.Text.{Text, codes, trim, trim_start, split, join, is_space, text_eq}
use wireguard_panel.Base.Decimal.{parse_digits, value_from, decimal}
use wireguard_panel.Ip.Address.{
  octet, octets, combine, ipv4_to_number, dotted, number_to_ipv4, normalize_client_ip,
}
use wireguard_panel.Ip.Cidr.{prefix_of, cidr_parts, network_of, parse_ipv4_cidr, cidrs_overlap}
use wireguard_panel.Ip.Range.{ipv4_range}
use wireguard_panel.Routeros.Types.{RemoteAddress}
use wireguard_panel.Routeros.Exchange.{Row, get}
use wireguard_panel.Pools.Rows.{
  allocated, PoolSettings, WireGuardPool, Tables, insert_address, no_addresses,
}
use wireguard_panel.Pools.Choose.{
  lock_pool, explain, validate_address_in_pool, choose_pool_address, choose_automatic,
  choose_requested, first_unexplained, claim_pool_address,
}
use wireguard_panel.Pools.Manage.{
  ok_or_none, reserve_pool_address, assert_database_address_free, reserved_entry,
}
use wireguard_panel.Pools.Ranges.{IsPool}
use wireguard_panel.Pools.Chosen.{Lowest, choose_pool_address-Lowest}
use wireguard_panel.Pools.Sound.{IsSound, Agrees}
use wireguard_panel.Pools.Steps.{PoolStep, PoolRun, PoolRun-IsSound}
use wireguard_panel.Pools.Networks.{
  check_addresses, check_routes, route_is_safe, is_expected, overlaps_pool,
  assert_no_router_network_overlap, is_connected, IsVerified,
  assert_no_router_network_overlap-IsVerified,
}

abbrev office_settings : PoolSettings
office_settings = record {
  name = codes "office";
  dns = codes "1.1.1.1";
  client_allowed_ips = codes "0.0.0.0/0";
  endpoint_host = none;
  endpoint_port = none;
  mtu = 1420;
  persistent_keepalive = 25;
  enabled = true;
}

abbrev office : WireGuardPool
office = record {
  id = 1;
  router_id = 1;
  interface_id = 1;
  network_cidr = codes "10.8.0.0/29";
  gateway_ip = 168296449;
  start_ip = 168296450;
  end_ip = 168296452;
  settings = office_settings;
}

office-IsPool : IsPool office
office-IsPool = record {
  ordered = omega arith;
  bounded = omega arith;
  small = omega arith;
  off_gateway = refl;
}

abbrev empty_tables : Tables
empty_tables = record { pools = office ∷ []; addresses = []; peers = []; interfaces = [] }

empty_tables-IsSound : IsSound empty_tables
empty_tables-IsSound = record {
  consistent = record { unique = tt; disjoint = (refl, tt); placed = tt };
  ranges = (office-IsPool, tt);
}

abbrev read_inet : Text → Option ℕ
read_inet t = ok_or_none (ipv4_to_number t)

read_inet-Agrees : Agrees read_inet
read_inet-Agrees t v w h k = ground (arith, h, k)

abbrev reserved_tables : Tables
reserved_tables = record empty_tables {
  addresses = reserved_entry office 168296450 (codes "printer") ∷ [];
}

reserve_run :
    reserve_pool_address read_inet 1 (codes " 10.8.0.2") (codes "printer") empty_tables
    ≡ ok reserved_tables
unfolding reserve_pool_address lock_pool validate_address_in_pool assert_database_address_free
    insert_address ipv4_range number_to_ipv4 dotted join decimal normalize_client_ip ipv4_to_number
    octets octet combine parse_digits value_from split trim trim_start is_space text_eq
reserve_run = refl

choose_run : choose_pool_address reserved_tables office [] none none ≡ ok (codes "10.8.0.3")
unfolding choose_pool_address choose_automatic first_unexplained explain ipv4_range number_to_ipv4
    dotted join decimal normalize_client_ip ipv4_to_number octets octet combine parse_digits
    value_from split trim trim_start is_space text_eq
choose_run = refl

choose_pool_address-Lowest_example :
    Lowest
      (explain reserved_tables 1 [] none)
      (no_addresses (codes "office"))
      168296450
      168296453
      (choose_pool_address reserved_tables office [] none none)
choose_pool_address-Lowest_example =
    choose_pool_address-Lowest reserved_tables office [] none office-IsPool

-- An entry holds 10.8.0.2, and a request that spells it 10.8.0.02 is granted.
alias_run :
    choose_pool_address reserved_tables office [] (some (codes "10.8.0.02")) none
    ≡ ok (codes "10.8.0.02")
unfolding choose_pool_address choose_requested validate_address_in_pool explain ipv4_range
    number_to_ipv4 dotted join decimal normalize_client_ip ipv4_to_number octets octet combine
    parse_digits value_from split trim trim_start is_space text_eq
alias_run = refl

abbrev assigned_tables : Tables
assigned_tables = record reserved_tables {
  addresses =
      record {
        pool_id = 1;
        router_id = 1;
        interface_id = 1;
        ip_address = 168296451;
        state = allocated;
        peer_id = some 7;
        comment = some (codes "laptop");
      }
      ∷ reserved_tables.addresses;
}

claim_run :
    claim_pool_address read_inet reserved_tables office (codes "10.8.0.3") 7 (codes "laptop")
    ≡ ok assigned_tables
unfolding claim_pool_address insert_address ipv4_to_number octets octet combine parse_digits
    value_from split trim trim_start is_space text_eq
claim_run = refl

lock_run : lock_pool reserved_tables 1 ≡ ok office
unfolding lock_pool
lock_run = refl

pool_run : PoolRun read_inet empty_tables assigned_tables
pool_run =
    PoolRun.next
      (PoolRun.next PoolRun.here
        (PoolStep.reserved 1 (codes " 10.8.0.2") (codes "printer") reserve_run))
      (PoolStep.assigned 1 office [] none none (codes "10.8.0.3") 7 (codes "laptop") lock_run
        choose_run claim_run)

PoolRun-IsSound_example : IsSound assigned_tables
PoolRun-IsSound_example = PoolRun-IsSound read_inet read_inet-Agrees empty_tables-IsSound pool_run

abbrev router_addresses : List RemoteAddress
router_addresses =
    record {
      id = codes "*1";
      interface_name = codes "wg1";
      address = codes "10.8.0.1/29";
      disabled = false;
    }
    ∷ record {
      id = codes "*2";
      interface_name = codes "ether1";
      address = codes "10.9.0.1/24";
      disabled = false;
    }
    ∷ []

abbrev router_routes : List Row
router_routes =
    ((codes "dst-address", codes "0.0.0.0/0") ∷ [])
    ∷ ((codes "dst-address", codes "10.8.0.0/29") ∷ (codes "gateway", codes "wg1") ∷ [])
    ∷ []

networks_run :
    assert_no_router_network_overlap
      (codes "wg1")
      (codes "10.8.0.0/29")
      (codes "10.8.0.1")
      (some (router_addresses, router_routes))
    ≡ ok tt
unfolding assert_no_router_network_overlap check_addresses check_routes route_is_safe is_expected
    overlaps_pool cidrs_overlap parse_ipv4_cidr cidr_parts prefix_of network_of number_to_ipv4
    dotted join decimal normalize_client_ip ipv4_to_number octets octet combine parse_digits
    value_from split trim trim_start is_space text_eq get is_connected
networks_run = refl

assert_no_router_network_overlap-IsVerified_example :
    IsVerified
      (codes "wg1")
      (codes "10.8.0.0/29")
      (codes "10.8.0.1")
      (some (router_addresses, router_routes))
assert_no_router_network_overlap-IsVerified_example =
    assert_no_router_network_overlap-IsVerified (codes "wg1") (codes "10.8.0.0/29")
      (codes "10.8.0.1") (some (router_addresses, router_routes)) networks_run
