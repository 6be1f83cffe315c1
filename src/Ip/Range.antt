-- ===== src/Ip/Range.antt =====
-- src/lib/ip-cidr.ts, lines 33 to 65: address ranges, the check of a pool's range, and the range
-- that is suggested for an interface address.
pub mod Validation
pub mod Suggested
use wireguard_panel.Base.{
  ℕ, ◌+◌, ◌-◌, Bool, not, ◌&&◌, ◌||◌, List, [], ◌∷◌, Option, none, some, Result, ok, err, ◌>>=◌,
  ◌>>◌, guard, ltb, leb, ◌==◌, if◌then◌else◌,
}
use wireguard_panel.Base.Text.{Text, codes}
use wireguard_panel.Ip.Address.{
  IpError, pool_start_after_end, outside_network, network_in_range, broadcast_in_range,
  gateway_in_range, ipv4_to_number, number_to_ipv4, normalize_client_ip,
}
use wireguard_panel.Ip.Cidr.{Ipv4Network, parse_ipv4_cidr, in_network}

pub record IpRange : Type 0 where
  pub start : ℕ
  pub end : ℕ
  pub total : ℕ

unfoldable pub ipv4_range : Text → Text → Result IpError IpRange
ipv4_range start end = do
  first ← ipv4_to_number (normalize_client_ip start)
  last ← ipv4_to_number (normalize_client_ip end)
  guard (not (ltb last first)) pool_start_after_end
  ok (record { start = first; end = last; total = last - first + 1 })

unfoldable pub ranges_overlap : Text → Text → Text → Text → Result IpError Bool
ranges_overlap a_start a_end b_start b_end = do
  a ← ipv4_range a_start a_end
  b ← ipv4_range b_start b_end
  ok (leb a.start b.end && leb b.start a.end)

pub record PoolRange : Type 0 where
  pub network : Ipv4Network
  pub range : IpRange
  pub gateway : Text

abbrev pub inside : Text → ℕ → Ipv4Network → Result IpError (Unit {0})
inside label value network = guard (in_network value network) (outside_network label network.cidr)

-- Lines 45 to 48, on the numbers.
unfoldable pub check_range : Ipv4Network → ℕ → IpRange → Result IpError (Unit {0})
check_range network gateway_number range = do
  inside (codes "Gateway/router") gateway_number network
  inside (codes "Start IP") range.start network
  inside (codes "End IP") range.end network
  guard (not (range.start == network.network_number || range.end == network.network_number))
      network_in_range
  guard
      (not (
        ltb network.prefix 32
        && (range.start == network.broadcast_number || range.end == network.broadcast_number)))
      broadcast_in_range
  guard (not (leb range.start gateway_number && leb gateway_number range.end)) gateway_in_range

unfoldable pub validate_pool_range : Text → Text → Text → Text → Result IpError PoolRange
validate_pool_range cidr gateway start end = do
  network ← parse_ipv4_cidr cidr
  gateway_number ← ipv4_to_number gateway
  range ← ipv4_range start end
  check_range network gateway_number range
  gateway_text ← number_to_ipv4 gateway_number
  ok (record { network = network; range = range; gateway = gateway_text })

pub record Suggestion : Type 0 where
  pub network : Text
  pub gateway : Text
  pub start_ip : Text
  pub end_ip : Text

-- The first and the last address of the suggestion, stepping off the gateway.
abbrev pub first_host : Ipv4Network → ℕ → ℕ
first_host network gateway =
    if network.network_number + 1 == gateway
    then network.network_number + 1 + 1
    else network.network_number + 1

abbrev pub last_host : Ipv4Network → ℕ → ℕ
last_host network gateway =
    if network.broadcast_number - 1 == gateway
    then network.broadcast_number - 1 - 1
    else network.broadcast_number - 1

unfoldable pub suggest_in : Text → Ipv4Network → ℕ → Result IpError (Option Suggestion)
suggest_in gateway network gateway_number =
    let start = first_host network gateway_number in
    let end = last_host network gateway_number in
    if ltb end start then ok none else do
      start_ip ← number_to_ipv4 start
      end_ip ← number_to_ipv4 end
      ok (
          some (record {
            network = network.cidr;
            gateway = gateway;
            start_ip = start_ip;
            end_ip = end_ip;
          }))

unfoldable pub suggest_pool_from_interface_address : Text → Result IpError (Option Suggestion)
suggest_pool_from_interface_address address = do
  network ← parse_ipv4_cidr address
  if ltb 30 network.prefix then ok none else do
    gateway_number ← ipv4_to_number (normalize_client_ip address)
    suggest_in (normalize_client_ip address) network gateway_number
