-- ===== src/Tests.antt =====
-- Runs of the theorems at concrete inputs.
pub mod Fixed
pub mod Agent
pub mod Engine
pub mod Controller
pub mod Kernel
pub mod Api
pub mod Fleet
pub mod Pods
pub mod Kepler
pub mod Tuner
pub mod Processes
pub mod Selection
