-- ===== src/Routeros.antt =====
-- src/server/routeros: the clients of the router's management interface.
pub mod Protocol
pub mod Exchange
pub mod Types
