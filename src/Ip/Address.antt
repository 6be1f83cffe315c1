-- ===== src/Ip/Address.antt =====
-- src/lib/ip-cidr.ts, lines 1 to 16: dotted addresses and the numbers that they stand for.
pub mod Laws
use mathlib.Core.Option
use wireguard_panel.Base.{
  ℕ, ◌+◌, ◌*◌, ◌/◌, ◌%◌, ◌^◌, Bool, not, List, [], ◌∷◌, map, Option, none, some, Result, ok, err,
  ltb, ◌==◌, if◌then◌else◌, length,
}
use wireguard_panel.Base.Text.{Text, split, join, trim, codes}
use wireguard_panel.Base.Decimal.{parse_digits, decimal}

-- The errors of the module, one for each message that it throws.
pub data IpError : Type 0 where
  invalid_ipv4 : Text → IpError
  value_out_of_range : IpError
  invalid_cidr : Text → IpError
  pool_start_after_end : IpError
  outside_network : Text → Text → IpError
  network_in_range broadcast_in_range gateway_in_range : IpError
  client_pool_start_after_end : IpError
  outside_client_pool : Text → IpError
  already_assigned : Text → IpError
  no_addresses_available : IpError

-- A part of the address, as the test of line 7 accepts it.
unfoldable pub octet : Text → Option ℕ
octet part = elim (parse_digits part) [ none ↦ none | some n ↦ if ltb 255 n then none else some n ]

unfoldable pub octets : List Text → Option (List ℕ)
octets [] = some []
octets (part ∷ parts) = elim (octet part) [
  | none ↦ none
  | some n ↦ Option.map (◌∷◌ n) (octets parts)
]

unfoldable pub combine : ℕ → List ℕ → ℕ
combine value [] = value
combine value (n ∷ ns) = combine (value * 256 + n) ns

abbrev pub or_invalid : Text → Option (List ℕ) → Result IpError ℕ
or_invalid ip none = err (invalid_ipv4 ip)
or_invalid ip (some ns) = ok (combine 0 ns)

unfoldable pub ipv4_to_number : Text → Result IpError ℕ
ipv4_to_number ip =
    let parts = split b'.' (trim ip) in
    if length parts == 4 then or_invalid ip (octets parts) else err (invalid_ipv4 ip)

abbrev pub max_ipv4 : ℕ
max_ipv4 = 0xffff_ffff

-- `[24,16,8,0].map(shift => Math.floor(value / 2 ** shift) & 255).join(".")`.
unfoldable pub dotted : ℕ → Text
dotted value =
    join (b'.' ∷ []) (map (λ shift. decimal (value / 2 ^ shift % 256)) (24 ∷ 16 ∷ 8 ∷ 0 ∷ []))

unfoldable pub number_to_ipv4 : ℕ → Result IpError Text
number_to_ipv4 value = if ltb max_ipv4 value then err value_out_of_range else ok (dotted value)

-- `value.trim().split("/")[0]`.
abbrev pub first_part : List Text → Text
first_part [] = []
first_part (part ∷ parts) = part

unfoldable pub normalize_client_ip : Text → Text
normalize_client_ip value = first_part (split b'/' (trim value))
