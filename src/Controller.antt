-- ===== src/Controller.antt =====
-- keck-controller: the cluster controller.
pub mod Classification
pub mod Aggregator
pub mod Scheduler
pub mod Api
pub mod Carbon
pub mod Kepler
