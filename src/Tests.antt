-- ===== src/Tests.antt =====
-- Concrete runs of the code at which the theorems apply.
mod Ip
mod Routeros
mod Quota
mod Traffic
mod Access
mod Status
mod Pools
mod Peers
mod Bandwidth
mod Users
