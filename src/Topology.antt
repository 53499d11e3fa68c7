-- ===== src/Topology.antt =====
-- The topology layer (src/topology): timestamps and clock, events, the event log and its indexes,
-- time-travel queries, the event-sourced hypergraph and the coalition manager.
pub mod Timestamp
pub mod Events
pub mod EventLog
pub mod Queries
pub mod Errors
pub mod Hypergraph
pub mod Jobs
pub mod Temporal
pub mod Coalitions
