-- ===== src/Format.antt =====
-- console/app/lib/format.ts: labels of DNS, the names of a launch, labels as text, and the tests of
-- a machine's status.
pub mod Names
