-- ===== src/Backends.antt =====
-- Backends, in console/app/backends: their members, and the label of a group.
pub mod Membership
pub mod Services
pub mod Stamp
