-- ===== src/Ip.antt =====
-- src/lib/ip-cidr.ts: IPv4 addresses, CIDR networks and ranges.
pub mod Address
pub mod Cidr
pub mod Range
pub mod Allowed
pub mod Allocation
