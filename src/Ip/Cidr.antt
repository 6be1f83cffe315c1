-- ===== src/Ip/Cidr.antt =====
-- src/lib/ip-cidr.ts, lines 18 to 31: CIDR networks, membership and overlap.
pub mod Blocks
pub mod Laws
pub mod Overlap
use mathlib.Core.Option
use wireguard_panel.Base.{
  ℕ, ◌+◌, ◌-◌, ◌*◌, ◌/◌, ◌^◌, Bool, true, false, ◌&&◌, ◌||◌, List, [], ◌∷◌, ◌++◌, Option, none,
  some, Result, ok, err, ◌>>=◌, leb, ◌==◌, if◌then◌else◌,
}
use wireguard_panel.Base.Text.{Text, split, trim}
use wireguard_panel.Base.Decimal.{decimal, is_digit}
use wireguard_panel.Ip.Address.{
  IpError, invalid_cidr, ipv4_to_number, number_to_ipv4, normalize_client_ip,
}

pub record Ipv4Network : Type 0 where
  pub cidr : Text
  pub prefix : ℕ
  pub network : Text
  pub broadcast : Text
  pub network_number : ℕ
  pub broadcast_number : ℕ
  pub size : ℕ

-- `/^(?:\d|[12]\d|3[0-2])$/.test(raw)`, and then `Number(raw)`.
unfoldable pub prefix_of : Text → Option ℕ
prefix_of (a ∷ []) = if is_digit a then some (a - 48) else none
prefix_of (a ∷ b ∷ []) =
    if (a == b'1' || a == b'2') && is_digit b || a == b'3' && (leb b'0' b && leb b b'2')
    then some ((a - 48) * 10 + (b - 48))
    else none
prefix_of _ = none

unfoldable pub cidr_parts : List Text → Option (Text × ℕ)
cidr_parts (address ∷ prefix_raw ∷ []) =
    Option.map (λ prefix. (address, prefix)) (prefix_of prefix_raw)
cidr_parts _ = none

unfoldable pub network_of : Text → ℕ → Result IpError Ipv4Network
network_of address prefix = do
  ip ← ipv4_to_number address
  let size = 2 ^ (32 - prefix)
  let network_number = ip / size * size
  let broadcast_number = network_number + size - 1
  network ← number_to_ipv4 network_number
  broadcast ← number_to_ipv4 broadcast_number
  ok (record {
    cidr = network ++ b'/' ∷ decimal prefix;
    prefix = prefix;
    network = network;
    broadcast = broadcast;
    network_number = network_number;
    broadcast_number = broadcast_number;
    size = size;
  })

unfoldable pub parse_ipv4_cidr : Text → Result IpError Ipv4Network
parse_ipv4_cidr value = elim (cidr_parts (split b'/' (trim value))) [
  | none ↦ err (invalid_cidr value)
  | some (address, prefix) ↦ network_of address prefix
]

-- `value >= network.networkNumber && value <= network.broadcastNumber`.
abbrev pub in_network : ℕ → Ipv4Network → Bool
in_network value network = leb network.network_number value && leb value network.broadcast_number

unfoldable pub ipv4_in_cidr : Text → Text → Result IpError Bool
ipv4_in_cidr ip cidr = do
  value ← ipv4_to_number (normalize_client_ip ip)
  network ← parse_ipv4_cidr cidr
  ok (in_network value network)

-- `try { return …; } catch { return false; }`.
abbrev pub or_false : Result IpError Bool → Bool
or_false (ok b) = b
or_false (err e) = false

unfoldable pub cidr_contains_ip : Text → Text → Bool
cidr_contains_ip cidr ip = or_false (ipv4_in_cidr ip cidr)

-- `a.networkNumber <= b.broadcastNumber && b.networkNumber <= a.broadcastNumber`.
abbrev pub overlap : Ipv4Network → Ipv4Network → Bool
overlap a b = leb a.network_number b.broadcast_number && leb b.network_number a.broadcast_number

unfoldable pub cidrs_overlap : Text → Text → Result IpError Bool
cidrs_overlap left right = do a ← parse_ipv4_cidr left; b ← parse_ipv4_cidr right; ok (overlap a b)
