-- ===== src/Process/Residual.antt =====
-- src/process/residual.rs: the magnitude policy, corrected by the price of the demand that a coalition
-- cannot cover. The counter of declines, which policies can share, is a field of the policy. Role
-- numbers (`RoleId`) and their equality are catgraph's, and parameters. Log output is not modelled.
pub mod Correction
pub mod Covering
use Prim.Native.Nat.{bit_and, min}
use koalisi.Common.{
  ℕ, zero, suc, ◌+◌, ◌-◌, ◌^◌, Bool, true, false, not, ◌&&◌, ◌||◌, Option, none, some, List, [],
  ◌∷◌, ◌++◌, map, ◌==◌, if◌then◌else◌,
}
use koalisi.Common.HashMap
use koalisi.Common.HashMap.{HashMap}
use koalisi.Common.Floats.{Floats}
use koalisi.Topology.Errors.{Attempt, done, failed}
use koalisi.Topology.Coalitions.{Decision}
use koalisi.Algorithms.Agents.{AgentCapabilities}
use koalisi.Decision.Magnitude.{Engine, relevant_masks, magnitude_or_zero}
use koalisi.Decision.Magnitude.Policy.{MagnitudePolicy, should_join, should_leave, others, declined}
use koalisi.Process.{Step, WorkflowGen, user, capability_mask}
use koalisi.Process.Demand.{Demand, distinct}

pub data ResidualBasis : Type 0 where
  occurrences distinct_steps : ResidualBasis

pub record Residual : Type 0 where
  pub priced : List (Step × ℕ)
  pub basis : ResidualBasis

abbrev pub steps_on : ResidualBasis → Demand → List Step
steps_on occurrences d = d.occurrences
steps_on distinct_steps d = distinct d

unfoldable pub price_steps : Demand → ResidualBasis → (WorkflowGen → ℕ) → Residual
price_steps d basis per_gen = record {
  priced = map (λ step. (step, per_gen (user step))) (steps_on basis d);
  basis = basis;
}

-- `saturating_add`, in 64 bits
abbrev pub saturating_add : ℕ → ℕ → ℕ
saturating_add a b = min (a + b) 18446744073709551615

unfoldable pub total_from : ℕ → List (Step × ℕ) → ℕ
total_from acc [] = acc
total_from acc ((step, price) ∷ rest) = total_from (saturating_add acc price) rest

unfoldable pub total_price : Residual → ℕ
unfolding total_from
total_price r = total_from 0 r.priced

module _ (floats : Floats) (engine : Engine floats) where
  open engine use {RoleId}

  module _ (role_id : ℕ → RoleId) (same_role : RoleId → RoleId → Bool) where
    open floats use {F64, of_nat, add, mul, lt, le, is_finite}

    abbrev pub Staff : Type 0
    Staff = List (RoleId × ℕ)

    -- `staff.iter().any(…)`
    unfoldable pub any_can : RoleId → ℕ → Staff → Bool
    any_can wanted mask [] = false
    any_can wanted mask ((role, caps) ∷ staff) =
        same_role role wanted && not (bit_and caps mask == 0) || any_can wanted mask staff

    unfoldable pub step_staffed : Staff → Step → Bool
    unfolding any_can
    step_staffed staff step = elim (capability_mask step) [
      | none ↦ false
      | some mask ↦ any_can (role_id step.role) mask staff
    ]

    unfoldable pub uncovered_from : Staff → ℕ → List (Step × ℕ) → ℕ
    unfolding step_staffed
    uncovered_from staff acc [] = acc
    uncovered_from staff acc ((step, price) ∷ rest) =
        uncovered_from staff (if step_staffed staff step then acc else saturating_add acc price)
          rest

    unfoldable pub uncovered : Staff → Residual → ℕ
    unfolding uncovered_from
    uncovered staff r = uncovered_from staff 0 r.priced

    pub record ResidualPolicy : Type 0 where
      pub inner : MagnitudePolicy floats engine
      pub roles : HashMap RoleId
      pub lambda : F64
      pub residual : Residual
      pub declines : ℕ

    unfoldable pub new_policy :
        MagnitudePolicy floats engine → HashMap RoleId → F64 → Residual → ResidualPolicy
    new_policy inner roles lambda residual = record {
      inner = inner;
      roles = roles;
      lambda = if is_finite lambda && le (of_nat 0) lambda then lambda else of_nat 0;
      residual = residual;
      declines = 0;
    }

    unfoldable pub full_term : ResidualPolicy → F64
    unfolding total_price
    full_term p = mul p.lambda (of_nat (total_price p.residual))

    unfoldable pub staff_of : HashMap RoleId → AgentCapabilities → Option (RoleId × ℕ)
    staff_of roles agent = elim (HashMap.get agent.agent_id roles) [
      | none ↦ none
      | some role ↦ some (role, agent.capabilities)
    ]

    -- `map(…).collect()`, none where a member has no role
    unfoldable pub staff_each : HashMap RoleId → List AgentCapabilities → Option Staff
    unfolding staff_of
    staff_each roles [] = some []
    staff_each roles (agent ∷ rest) = elim (staff_of roles agent) [
      | none ↦ none
      | some one ↦ elim (staff_each roles rest) [ none ↦ none | some more ↦ some (one ∷ more) ]
    ]

    abbrev pub is_err : {E A : Type 0} → Attempt E A → Bool
    is_err (done a) = false
    is_err (failed e) = true

    unfoldable pub evaluation_failed : List AgentCapabilities → List AgentCapabilities → ℕ → Bool
    evaluation_failed left right required =
        is_err (magnitude_or_zero floats engine (relevant_masks left required) required)
        || is_err (magnitude_or_zero floats engine (relevant_masks right required) required)

    unfoldable pub fold : Decision F64 → F64 → (F64 → Bool) → Decision F64
    fold base correction act =
        let score = add base.score correction in
        if is_finite base.score then record { act = act score; score = score } else base

    -- `λ · price_as_f64(more.saturating_sub(less))`
    unfoldable pub correction : ResidualPolicy → Staff → Staff → F64
    unfolding uncovered
    correction p more less =
        mul p.lambda (of_nat (uncovered more p.residual - uncovered less p.residual))

    -- the wrapper with the inner policy that a decision leaves
    abbrev pub keep_inner :
        ResidualPolicy
        → MagnitudePolicy floats engine × Decision F64
        → (Decision F64 → Decision F64)
        → ResidualPolicy × Decision F64
    keep_inner p (inner, decision) change = (record p { inner = inner }, change decision)

    abbrev pub decline : ResidualPolicy → ResidualPolicy × Decision F64
    decline p = (record p { declines = p.declines + 1 }, declined floats)

    unfoldable pub residual_join :
        ResidualPolicy
        → AgentCapabilities
        → List AgentCapabilities
        → ℕ
        → ResidualPolicy × Decision F64
    unfolding fold correction
    residual_join p agent coalition required =
        let base = should_join floats engine p.inner agent coalition required in
        elim (staff_each p.roles coalition) [
          | none ↦ keep_inner p base (λ d. d)
          | some without ↦ elim (staff_of p.roles agent) [
            | none ↦ keep_inner p base (λ d. d)
            | some joined ↦
                if evaluation_failed coalition (coalition ++ agent ∷ []) required
                then decline p
                else keep_inner p base (λ d.
                  fold d (correction p without (without ++ joined ∷ []))
                    (λ score. lt p.inner.join_margin score))
          ]
        ]

    unfoldable pub residual_leave :
        ResidualPolicy
        → AgentCapabilities
        → List AgentCapabilities
        → ℕ
        → ResidualPolicy × Decision F64
    unfolding fold correction
    residual_leave p agent coalition required =
        let remaining = others agent coalition in
        let base = should_leave floats engine p.inner agent coalition required in
        elim (staff_each p.roles coalition) [
          | none ↦ keep_inner p base (λ d. d)
          | some inside ↦ elim (staff_each p.roles remaining) [
            | none ↦ keep_inner p base (λ d. d)
            | some outside ↦
                if evaluation_failed coalition remaining required
                then decline p
                else keep_inner p base
                    (λ d. fold d (correction p outside inside) (λ score. le score (of_nat 0)))
          ]
        ]
