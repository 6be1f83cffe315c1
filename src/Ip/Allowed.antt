-- ===== src/Ip/Allowed.antt =====
-- src/lib/ip-cidr.ts, lines 52 to 58: the comma-separated allowed addresses of a peer.
use wireguard_panel.Base.{
  ℕ, Bool, false, ◌==◌, List, [], ◌∷◌, ◌++◌, map, Result, ok, ◌>>=◌, any, keep, if◌then◌else◌,
}
use wireguard_panel.Base.Text.{Text, text_eq, split, trim, codes}
use wireguard_panel.Base.Decimal.{nonempty}
use wireguard_panel.Ip.Address.{IpError, normalize_client_ip}
use wireguard_panel.Ip.Cidr.{Ipv4Network, parse_ipv4_cidr, cidr_contains_ip}

-- `value.includes(c)`.
abbrev pub includes : ℕ → Text → Bool
includes c = any (λ d. d == c)

unfoldable pub entry_owns_ip : Text → Text → Bool
entry_owns_ip ip value =
    let trimmed = trim value in
    if nonempty trimmed
    then (if includes b'/' trimmed
        then cidr_contains_ip trimmed ip
        else text_eq (normalize_client_ip trimmed) (normalize_client_ip ip))
    else false

unfoldable pub allowed_address_owns_ip : Text → Text → Bool
allowed_address_owns_ip allowed_addresses ip = any (entry_owns_ip ip) (split b',' allowed_addresses)

-- `items.map(parse)`, which throws what the first failing item throws.
unfoldable pub parse_items : List Text → Result IpError (List Ipv4Network)
parse_items [] = ok []
parse_items (item ∷ items) = do
  network ← parse_ipv4_cidr (if includes b'/' item then item else item ++ codes "/32")
  networks ← parse_items items
  ok (network ∷ networks)

unfoldable pub parse_allowed_addresses : Text → Result IpError (List Ipv4Network)
parse_allowed_addresses value = parse_items (keep nonempty (map trim (split b',' value)))
