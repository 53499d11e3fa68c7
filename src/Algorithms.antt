-- ===== src/Algorithms.antt =====
-- The algorithms (src/algorithms): the integer partitions of the partition search, the distribution
-- of the work over the agents, the values of coalitions, and the feedback on their outcomes.
pub mod Agents
pub mod Partitions
pub mod Workload
pub mod Values
pub mod Feedback
