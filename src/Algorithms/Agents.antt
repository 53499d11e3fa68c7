-- ===== src/Algorithms/Agents.antt =====
-- src/algorithms/mod.rs: what the algorithms and the decision policies see of an agent. The values
-- of the three methods of the trait `AgentCapabilities` are the fields of a record.
use koalisi.Common.{ℕ}

pub record AgentCapabilities : Type 0 where
  pub agent_id : ℕ
  -- a 32-bit mask
  pub capabilities : ℕ
  pub trust_level : ℕ
