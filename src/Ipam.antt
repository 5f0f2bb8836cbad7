-- ===== src/Ipam.antt =====
-- Allocation of IPv4 addresses: console/app/lib/ipam.
pub mod Cidr
pub mod Config
pub mod Status
pub mod Claims
pub mod Releases
pub mod Pools
pub mod Usage
mod UsageTests
pub mod Netplan
pub mod VlanPools
