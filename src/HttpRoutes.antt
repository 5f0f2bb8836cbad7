-- ===== src/HttpRoutes.antt =====
-- HTTP routes: console/app/httproutes.
pub mod Objects
pub mod Mappings
pub mod Gateways
pub mod Summaries
pub mod Manifests
pub mod Lifecycle
pub mod Deletion
pub mod Atomicity
pub mod Survival
pub mod Updates
pub mod RoundTrip
mod Tests
pub mod Backing
