-- ===== src/Peers/Config.antt =====
-- src/server/wireguard.ts, lines 4 to 50, and src/server/peer-service.ts, lines 154 to 184: the text of
-- a client's configuration. The decryption is an argument, and so is the row that the query finds.
use wireguard_panel.Base.{
  ℕ, Bool, false, not, ◌&&◌, List, [], ◌∷◌, ◌++◌, Option, none, some, Result, ok, err, ◌==◌,
  if◌then◌else◌, any,
}
use wireguard_panel.Base.Text.{Text, codes, join}
use wireguard_panel.Base.Decimal.{nonempty, decimal}
use wireguard_panel.Peers.Input.{text_or}

pub record WireGuardConfigInput : Type 0 where
  pub private_key : Text
  pub client_ip : Text
  pub dns : Text
  pub server_public_key : Text
  pub preshared_key : Option Text
  pub allowed_ips : Text
  pub endpoint_host : Text
  pub endpoint_port : ℕ
  pub persistent_keepalive : ℕ
  pub mtu : Option ℕ

-- `text.includes(c)` and `text.startsWith("[")`.
abbrev pub includes : ℕ → Text → Bool
includes c text = any (λ d. d == c) text

abbrev pub starts_with_bracket : Text → Bool
starts_with_bracket [] = false
starts_with_bracket (c ∷ text) = c == b'['

unfoldable pub bracketed_host : Text → Text
bracketed_host host =
    if includes b':' host && not (starts_with_bracket host)
    then codes "[" ++ host ++ codes "]"
    else host

abbrev pub with_prefix : Text → Text
with_prefix client_ip = if includes b'/' client_ip then client_ip else client_ip ++ codes "/32"

-- `if (input.mtu) lines.push(…)` and `if (input.presharedKey) lines.push(…)`.
abbrev pub mtu_line : Option ℕ → List Text
mtu_line none = []
mtu_line (some mtu) = if mtu == 0 then [] else (codes "MTU = " ++ decimal mtu) ∷ []

abbrev pub preshared_key_line : Option Text → List Text
preshared_key_line none = []
preshared_key_line (some key) = if nonempty key then (codes "PresharedKey = " ++ key) ∷ [] else []

unfoldable pub config_lines : WireGuardConfigInput → List Text
unfolding bracketed_host
config_lines input =
    codes "[Interface]"
    ∷ (codes "PrivateKey = " ++ input.private_key)
    ∷ (codes "Address = " ++ with_prefix input.client_ip)
    ∷ (codes "DNS = " ++ input.dns)
    ∷ (mtu_line input.mtu
        ++ []
          ∷ codes "[Peer]"
          ∷ (codes "PublicKey = " ++ input.server_public_key)
          ∷ (preshared_key_line input.preshared_key
              ++ (codes "AllowedIPs = " ++ input.allowed_ips)
                ∷ (codes "Endpoint = "
                    ++ bracketed_host input.endpoint_host
                    ++ codes ":"
                    ++ decimal input.endpoint_port)
                ∷ (codes "PersistentKeepalive = " ++ decimal input.persistent_keepalive)
                ∷ []
                ∷ []))

unfoldable pub generate_client_config : WireGuardConfigInput → Text
unfolding config_lines
generate_client_config input = join (codes "\n") (config_lines input)

-- The row of the join of `peers`, `wireguard_interfaces` and `routers`.
pub record ConfigRow : Type 0 where
  pub name : Text
  pub private_key_encrypted : Option Text
  pub preshared_key_encrypted : Option Text
  pub client_ip : Option Text
  pub dns_server : Text
  pub client_allowed_ips : Text
  pub persistent_keepalive : ℕ
  pub mtu : ℕ
  pub endpoint_override : Option Text
  pub endpoint_port_override : Option ℕ
  pub interface_public_key : Text
  pub listen_port : ℕ
  pub endpoint_hostname : Option Text
  pub endpoint_ip : Option Text
  pub management_ip : Text

pub data ConfigError : Type 0 where
  config_peer_not_found no_private_key : ConfigError

-- `a || b` on a port.
abbrev pub port_or : Option ℕ → ℕ → ℕ
port_or none fallback = fallback
port_or (some port) fallback = if port == 0 then fallback else port

abbrev pub decrypted : (Text → Text) → Option Text → Option Text
decrypted decrypt_secret none = none
decrypted decrypt_secret (some secret) =
    if nonempty secret then some (decrypt_secret secret) else none

abbrev pub config_input : (Text → Text) → ConfigRow → Text → Text → WireGuardConfigInput
config_input decrypt_secret peer key client_ip = record {
  private_key = decrypt_secret key;
  client_ip = client_ip;
  dns = peer.dns_server;
  server_public_key = peer.interface_public_key;
  preshared_key = decrypted decrypt_secret peer.preshared_key_encrypted;
  allowed_ips = peer.client_allowed_ips;
  endpoint_host =
      text_or peer.endpoint_override
        (text_or peer.endpoint_hostname (text_or peer.endpoint_ip peer.management_ip));
  endpoint_port = port_or peer.endpoint_port_override peer.listen_port;
  persistent_keepalive = peer.persistent_keepalive;
  mtu = some peer.mtu;
}

unfoldable pub config_of :
    (Text → Text) → ConfigRow → Option Text → Option Text → Result ConfigError (Text × Text)
unfolding generate_client_config
config_of decrypt_secret peer (some key) (some client_ip) =
    if nonempty key && nonempty client_ip
    then ok (peer.name, generate_client_config (config_input decrypt_secret peer key client_ip))
    else err no_private_key
config_of decrypt_secret peer _ _ = err no_private_key

unfoldable pub get_peer_config : (Text → Text) → Option ConfigRow → Result ConfigError (Text × Text)
unfolding config_of
get_peer_config decrypt_secret none = err config_peer_not_found
get_peer_config decrypt_secret (some peer) =
    config_of decrypt_secret peer peer.private_key_encrypted peer.client_ip
