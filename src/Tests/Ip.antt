-- ===== src/Tests/Ip.antt =====
-- Runs of the address code: a network 10.8.0.0/29 with its router at 10.8.0.1.
use wireguard_panel.Base.{
  ℕ, ◌≡◌, ◌≤◌, refl, ◌↔◌, ◌≢◌, true, false, List, [], ◌∷◌, map, some, none, ok, err, arith,
}
use wireguard_panel.Base.Text.{Text, codes, trim, trim_start, split, join, is_space}
use wireguard_panel.Base.Decimal.{parse_digits, value_from, decimal}
use wireguard_panel.Ip.Address.{
  octet, octets, combine, ipv4_to_number, dotted, number_to_ipv4, normalize_client_ip,
}
use wireguard_panel.Ip.Cidr.{
  Ipv4Network, prefix_of, cidr_parts, network_of, parse_ipv4_cidr, cidrs_overlap,
}
use wireguard_panel.Ip.Cidr.{cidr_contains_ip}
use wireguard_panel.Ip.Cidr.Overlap.{Contains, Member, cidrs_overlap_iff, cidr_contains_ip_iff}
use wireguard_panel.Ip.Range.{
  IpRange, PoolRange, Suggestion, ipv4_range, check_range, validate_pool_range, suggest_in,
  suggest_pool_from_interface_address,
}
use wireguard_panel.Ip.Range.Validation.{IsHost, validate_pool_range-IsHost}
use wireguard_panel.Ip.Range.Suggested.{validate_pool_range-suggest_pool}
use wireguard_panel.Ip.Address.{gateway_in_range}
use wireguard_panel.Ip.Allocation.{has, allocate_client_ip}
use wireguard_panel.Ip.Allocation.Laws.{
  Bounds, Search, allocate_client_ip-Search, allocate_requested_iff, allocate_requested_alias,
}
use wireguard_panel.Ip.Cidr.Laws.{parse_ipv4_cidr-IsNetwork, parse_ipv4_cidr-cidr, IsNetwork}

router_number : ipv4_to_number (codes " 10.8.0.1 ") ≡ ok 168296449
unfolding ipv4_to_number octets octet combine parse_digits value_from split trim trim_start is_space
router_number = refl

abbrev small : Ipv4Network
small = record {
  cidr = codes "10.8.0.0/29";
  prefix = 29;
  network = codes "10.8.0.0";
  broadcast = codes "10.8.0.7";
  network_number = 168296448;
  broadcast_number = 168296455;
  size = 8;
}

small_parsed : parse_ipv4_cidr (codes "10.8.0.1/29") ≡ ok small
unfolding parse_ipv4_cidr cidr_parts prefix_of network_of number_to_ipv4 dotted join decimal
    ipv4_to_number octets octet combine parse_digits value_from split trim trim_start is_space
small_parsed = refl

parse_ipv4_cidr-IsNetwork_example : IsNetwork small
parse_ipv4_cidr-IsNetwork_example =
    parse_ipv4_cidr-IsNetwork (codes "10.8.0.1/29") small small_parsed

parse_ipv4_cidr-cidr_example : parse_ipv4_cidr (codes "10.8.0.0/29") ≡ ok small
parse_ipv4_cidr-cidr_example = parse_ipv4_cidr-cidr (codes "10.8.0.1/29") small small_parsed

abbrev half : Ipv4Network
half = record {
  cidr = codes "10.8.0.4/30";
  prefix = 30;
  network = codes "10.8.0.4";
  broadcast = codes "10.8.0.7";
  network_number = 168296452;
  broadcast_number = 168296455;
  size = 4;
}

half_parsed : parse_ipv4_cidr (codes "10.8.0.6/30") ≡ ok half
unfolding parse_ipv4_cidr cidr_parts prefix_of network_of number_to_ipv4 dotted join decimal
    ipv4_to_number octets octet combine parse_digits value_from split trim trim_start is_space
half_parsed = refl

both_overlap : cidrs_overlap (codes "10.8.0.1/29") (codes "10.8.0.6/30") ≡ ok true
unfolding cidrs_overlap parse_ipv4_cidr cidr_parts prefix_of network_of number_to_ipv4 dotted join
    decimal ipv4_to_number octets octet combine parse_digits value_from split trim trim_start
    is_space
both_overlap = refl

cidrs_overlap_iff_example :
    (cidrs_overlap (codes "10.8.0.1/29") (codes "10.8.0.6/30") ≡ ok true)
    ↔ ((v : ℕ) × Contains small v × Contains half v)
cidrs_overlap_iff_example =
    cidrs_overlap_iff (codes "10.8.0.1/29") (codes "10.8.0.6/30") small half
      (small_parsed, half_parsed)

cidr_contains_ip_iff_example :
    (cidr_contains_ip (codes "10.8.0.0/29") (codes "10.8.0.5/32") ≡ true)
    ↔ Member (codes "10.8.0.0/29") (codes "10.8.0.5/32")
cidr_contains_ip_iff_example = cidr_contains_ip_iff (codes "10.8.0.0/29") (codes "10.8.0.5/32")

abbrev hosts : IpRange
hosts = record { start = 168296450; end = 168296454; total = 5 }

hosts_read : ipv4_range (codes "10.8.0.2") (codes "10.8.0.6") ≡ ok hosts
unfolding ipv4_range normalize_client_ip ipv4_to_number octets octet combine parse_digits value_from
    split trim trim_start is_space
hosts_read = refl

abbrev tail : IpRange
tail = record { start = 168296453; end = 168296460; total = 8 }

tail_read : ipv4_range (codes "10.8.0.5") (codes "10.8.0.12") ≡ ok tail
unfolding ipv4_range normalize_client_ip ipv4_to_number octets octet combine parse_digits value_from
    split trim trim_start is_space
tail_read = refl

abbrev accepted : PoolRange
accepted = record { network = small; range = hosts; gateway = codes "10.8.0.1" }

hosts_accepted :
    validate_pool_range
      (codes "10.8.0.0/29")
      (codes "10.8.0.1")
      (codes "10.8.0.2")
      (codes "10.8.0.6")
    ≡ ok accepted
unfolding validate_pool_range check_range ipv4_range normalize_client_ip parse_ipv4_cidr cidr_parts
    prefix_of network_of number_to_ipv4 dotted join decimal ipv4_to_number octets octet combine
    parse_digits value_from split trim trim_start is_space
hosts_accepted = refl

validate_pool_range-IsHost_example :
    (29 ≤ 30)
    × (168296450 ≤ 168296454)
    × ((g : ℕ) × (ipv4_to_number (codes "10.8.0.1") ≡ ok g)
        × (codes "10.8.0.1" ≡ dotted g)
        × ((v : ℕ) → 168296450 ≤ v → v ≤ 168296454 → IsHost small g v))
validate_pool_range-IsHost_example =
    validate_pool_range-IsHost (codes "10.8.0.0/29") (codes "10.8.0.1") (codes "10.8.0.2")
      (codes "10.8.0.6") accepted hosts_accepted

-- A router in the middle of its network.
abbrev middle : Suggestion
middle = record {
  network = codes "10.8.0.0/29";
  gateway = codes "10.8.0.4";
  start_ip = codes "10.8.0.1";
  end_ip = codes "10.8.0.6";
}

middle_suggested : suggest_pool_from_interface_address (codes "10.8.0.4/29") ≡ ok (some middle)
unfolding suggest_pool_from_interface_address suggest_in normalize_client_ip parse_ipv4_cidr
    cidr_parts prefix_of network_of number_to_ipv4 dotted join decimal ipv4_to_number octets octet
    combine parse_digits value_from split trim trim_start is_space
middle_suggested = refl

middle_parsed : parse_ipv4_cidr (codes "10.8.0.4/29") ≡ ok small
unfolding parse_ipv4_cidr cidr_parts prefix_of network_of number_to_ipv4 dotted join decimal
    ipv4_to_number octets octet combine parse_digits value_from split trim trim_start is_space
middle_parsed = refl

middle_number : ipv4_to_number (normalize_client_ip (codes "10.8.0.4/29")) ≡ ok 168296452
unfolding normalize_client_ip ipv4_to_number octets octet combine parse_digits value_from split trim
    trim_start is_space
middle_number = refl

validate_pool_range-suggest_pool_example :
    validate_pool_range
      (codes "10.8.0.0/29")
      (codes "10.8.0.4")
      (codes "10.8.0.1")
      (codes "10.8.0.6")
    ≡ err gateway_in_range
validate_pool_range-suggest_pool_example =
    validate_pool_range-suggest_pool (codes "10.8.0.4/29") middle small 168296452 middle_suggested
      middle_parsed middle_number

abbrev first_in_use : List Text
first_in_use = codes "10.8.0.2/32" ∷ codes "10.8.0.4" ∷ []

hosts_start : ipv4_to_number (normalize_client_ip (codes "10.8.0.2")) ≡ ok 168296450
unfolding normalize_client_ip ipv4_to_number octets octet combine parse_digits value_from split trim
    trim_start is_space
hosts_start = refl

hosts_end : ipv4_to_number (normalize_client_ip (codes "10.8.0.6")) ≡ ok 168296454
unfolding normalize_client_ip ipv4_to_number octets octet combine parse_digits value_from split trim
    trim_start is_space
hosts_end = refl

bounds : Bounds (codes "10.8.0.2") (codes "10.8.0.6") 168296450 168296454
bounds = record { start_eq = hosts_start; end_eq = hosts_end; ordered = omega arith }

allocate_client_ip-Search_example :
    Search
      (map normalize_client_ip first_in_use)
      168296450
      168296455
      (allocate_client_ip (codes "10.8.0.2") (codes "10.8.0.6") first_in_use none)
allocate_client_ip-Search_example =
    allocate_client_ip-Search (codes "10.8.0.2") (codes "10.8.0.6") first_in_use 168296450 168296454
      bounds

allocate_requested_iff_example :
    (allocate_client_ip
        (codes "10.8.0.2")
        (codes "10.8.0.6")
        first_in_use
        (some (codes "10.8.0.3/32"))
      ≡ ok (codes "10.8.0.3"))
    ↔ ((codes "10.8.0.3" ≡ normalize_client_ip (codes "10.8.0.3/32"))
        × ((v : ℕ) × (ipv4_to_number (codes "10.8.0.3") ≡ ok v) × (168296450 ≤ v) × (v ≤ 168296454))
        × (has (map normalize_client_ip first_in_use) (codes "10.8.0.3") ≡ false))
allocate_requested_iff_example =
    allocate_requested_iff (codes "10.8.0.2") (codes "10.8.0.6") first_in_use 49
      (codes "0.8.0.3/32") (codes "10.8.0.3") 168296450 168296454 bounds

zeros_number : ipv4_to_number (normalize_client_ip (codes "10.8.0.03")) ≡ ok 168296451
unfolding normalize_client_ip ipv4_to_number octets octet combine parse_digits value_from split trim
    trim_start is_space
zeros_number = refl

zeros_differ : normalize_client_ip (codes "10.8.0.03") ≢ dotted 168296451
unfolding normalize_client_ip dotted join decimal ipv4_to_number octets octet combine parse_digits
    value_from split trim trim_start is_space
zeros_differ h = ground arith

allocate_requested_alias_example :
    allocate_client_ip
      (codes "10.8.0.2")
      (codes "10.8.0.6")
      (dotted 168296451 ∷ [])
      (some (codes "10.8.0.03"))
    ≡ ok (normalize_client_ip (codes "10.8.0.03"))
allocate_requested_alias_example =
    allocate_requested_alias (codes "10.8.0.2") (codes "10.8.0.6") 49 (codes "0.8.0.03") 168296451
      168296450 168296454 bounds zeros_number (omega arith) (omega arith) zeros_differ
