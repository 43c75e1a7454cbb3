-- ===== src/Agent.antt =====
-- keck-agent: the node agent.
pub mod Attribution
pub mod Store
pub mod Collector
pub mod Ebpf
pub mod Procfs
pub mod Pods
pub mod Processes
pub mod Weighted
pub mod Selection
pub mod Gpu
