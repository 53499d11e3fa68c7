-- ===== src/Remote.antt =====
-- The remote gateway's parts that are this repository's own code (src/subsystems/remote.rs): the
-- bounded buffer of published decisions and the answers to a consumer's polls. The swarm, the
-- discovery and the tasks are third-party code and its glue, and are not modelled.
pub mod Buffer
