-- ===== src/Ingest.antt =====
-- src/ingest: the monitors of sample streams. The sources, their pacing and the synthetic samples are
-- not modelled.
pub mod Monitor
