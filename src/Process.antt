-- ===== src/Process.antt =====
-- src/process: the steps of a workflow, what it demands, the price of a step, and the policy that
-- charges for the demand that a coalition cannot cover. The workflow's diagrams (catgraph) are not
-- modelled: a workflow is the list of the labels of its content's hyperedges.
pub mod Demand
pub mod Cost
pub mod Residual
use koalisi.Common.{ℕ, ◌+◌, ◌*◌, ◌^◌, Option, none, some, ltb, if◌then◌else◌}

-- `Step` of signature.rs; a bit and a role's index are bytes
pub record Step : Type 0 where
  pub bit : ℕ
  pub role : ℕ

-- `capability_mask`: `1 << bit`, below the 32 bits of a mask
unfoldable pub capability_mask : Step → Option ℕ
capability_mask step = if ltb step.bit 32 then some (2 ^ step.bit) else none

-- A generator: a step, or one of the four spiders, each of one role.
pub data WorkflowGen : Type 0 where
  user : Step → WorkflowGen
  mu eta delta epsilon : ℕ → WorkflowGen

-- The number of a step in the order of steps, by bit and then by role.
abbrev pub step_key : Step → ℕ
step_key step = step.bit * 256 + step.role
