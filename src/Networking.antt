-- ===== src/Networking.antt =====
-- The networking resources of the console: VPCs, routers, floating addresses and port forwards.
pub mod Objects
pub mod Api
pub mod Routers
pub mod Vpcs
pub mod Associations
pub mod FloatingIps
pub mod PortForwards
pub mod Statuses
mod Tests
