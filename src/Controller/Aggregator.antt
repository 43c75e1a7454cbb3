-- ===== src/Controller/Aggregator.antt =====
-- keck-controller/src/aggregator/mod.rs: the state and its types, the operations that write it, the
-- views that read it, and pods grouped for the API.
pub mod Types
pub mod Ingest
pub mod Views
pub mod Grouping
