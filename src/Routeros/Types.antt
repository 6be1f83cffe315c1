-- ===== src/Routeros/Types.antt =====
-- src/server/routeros/types.ts: what the clients say of a router's peers, addresses and queues.
-- Identifiers that the router gives are texts, times are milliseconds.
use wireguard_panel.Base.{ℕ, Bool, Option}
use wireguard_panel.Base.Int.{ℤ}
use wireguard_panel.Base.Text.{Text}

pub record RemoteWireGuardPeer : Type 0 where
  pub id : Text
  pub interface_name : Text
  pub name : Text
  pub comment : Text
  pub public_key : Text
  pub allowed_address : Text
  pub endpoint_address : Option Text
  pub endpoint_port : Option ℕ
  pub persistent_keepalive : ℕ
  pub disabled : Bool
  pub last_handshake_at : Option ℕ
  pub last_handshake_raw : Option Text
  pub last_handshake_parse_valid : Bool
  pub rx_bytes : ℤ
  pub tx_bytes : ℤ

pub record RemoteAddress : Type 0 where
  pub id : Text
  pub interface_name : Text
  pub address : Text
  pub disabled : Bool

pub record RemoteSimpleQueue : Type 0 where
  pub id : Text
  pub name : Text
  pub target : Text
  pub max_limit : Text
  pub burst_limit : Text
  pub burst_threshold : Text
  pub burst_time : Text
  pub disabled : Bool
  pub comment : Text
  pub dynamic : Bool
  pub invalid : Bool

pub record CreateRemotePeer : Type 0 where
  pub interface_name : Text
  pub public_key : Text
  pub allowed_address : Text
  pub comment : Text
  pub persistent_keepalive : ℕ
  pub preshared_key : Option Text
  pub disabled : Option Bool
