-- ===== src/Agent/Attribution.antt =====
-- keck-agent/src/attribution.
pub mod Types
pub mod Energy
pub mod Model
pub mod Observation
pub mod Split
pub mod Engine
pub mod Tuner
