-- ===== src/Fleet.antt =====
-- keck-fleet: the service over all clusters.
pub mod Registry
pub mod Policy
pub mod Reporting
