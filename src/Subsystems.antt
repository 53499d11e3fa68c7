-- ===== src/Subsystems.antt =====
-- The tasks of src/subsystems: the fan-out of records, the outcomes of tasks, the coalition service
-- and the forwarder to the durable bus.
pub mod Fanout
pub mod Outcome
pub mod Service
