-- ===== src/Decision/Magnitude/Typed.antt =====
-- The typed arm of src/decision/magnitude_policy.rs: couplings modulated by the members' roles,
-- evaluated anew for every decision.
use koalisi.Common.{
  ℕ, not, ◌&&◌, Option, none, some, List, [], ◌∷◌, ◌++◌, length, contains, filter, range_of, ◌==◌,
  if◌then◌else◌,
}
use koalisi.Common.HashMap
use koalisi.Common.HashMap.{HashMap}
use koalisi.Common.Floats.{Floats}
use koalisi.Topology.Errors.{Attempt, done, failed}
use koalisi.Algorithms.Agents.{AgentCapabilities}
use koalisi.Decision.Magnitude.{Engine, is_relevant, member_couplings}

module _ (floats : Floats) (engine : Engine floats) where
  open floats use {F64, of_nat}
  open engine use {CatgraphError, RoleId, RoleModulation, coalition_value, modulate}

  pub record TypedConfig : Type 0 where
    pub roles : HashMap RoleId
    pub rho : RoleModulation

  pub record TypedSide : Type 0 where
    pub masks : List ℕ
    pub roles : List RoleId

  -- `push` of a mask and its role
  abbrev pub with_member : ℕ → RoleId → TypedSide → TypedSide
  with_member caps role side = record {
    masks = side.masks ++ caps ∷ [];
    roles = side.roles ++ role ∷ [];
  }

  -- The loop over the agents; none for a member without a role.
  unfoldable pub typed_from :
      ℕ → HashMap RoleId → List ℕ → TypedSide → List AgentCapabilities → Option TypedSide
  typed_from required roles seen side [] = some side
  typed_from required roles seen side (a ∷ rest) =
      let skipped = typed_from required roles seen side rest in
      let id = a.agent_id in
      let kept : Option TypedSide = elim (HashMap.get id roles) [
        | none ↦ none
        | some role ↦
            typed_from required roles (id ∷ seen) (with_member a.capabilities role side) rest
      ] in
      if is_relevant a.capabilities required && not (contains seen id) then kept else skipped

  unfoldable pub typed_relevant_masks :
      List AgentCapabilities → ℕ → HashMap RoleId → Option TypedSide
  unfolding typed_from
  typed_relevant_masks agents required roles =
      typed_from required roles [] (record { masks = []; roles = [] }) agents

  unfoldable pub typed_magnitude_of_masks :
      TypedSide → ℕ → RoleModulation → Attempt CatgraphError F64
  typed_magnitude_of_masks side required rho =
      let agents = range_of 0 (length side.masks) in
      elim (modulate (member_couplings floats required side.masks) side.roles rho) [
        | failed e ↦ failed e
        | done modulated ↦ coalition_value agents modulated agents
      ]

  unfoldable pub typed_magnitude_or_zero :
      TypedSide → ℕ → RoleModulation → Attempt CatgraphError F64
  unfolding typed_magnitude_of_masks
  typed_magnitude_or_zero side required rho =
      if length side.masks == 0 then done (of_nat 0) else typed_magnitude_of_masks side required rho

  -- both sides of a decision, none where a member of either has no role
  abbrev pub sides : Option TypedSide → Option TypedSide → Option (TypedSide × TypedSide)
  sides (some a) (some b) = some (a, b)
  sides _ _ = none

  -- with and without the agent
  unfoldable pub typed_join_sides :
      TypedConfig → AgentCapabilities → List AgentCapabilities → ℕ → Option (TypedSide × TypedSide)
  unfolding typed_relevant_masks
  typed_join_sides cfg agent coalition required =
      sides (typed_relevant_masks (coalition ++ agent ∷ []) required cfg.roles)
        (typed_relevant_masks coalition required cfg.roles)

  unfoldable pub typed_leave_sides :
      TypedConfig → AgentCapabilities → List AgentCapabilities → ℕ → Option (TypedSide × TypedSide)
  unfolding typed_relevant_masks
  typed_leave_sides cfg agent coalition required =
      sides (typed_relevant_masks coalition required cfg.roles) (
        typed_relevant_masks (filter (λ a. not (a.agent_id == agent.agent_id)) coalition) required
          cfg.roles)
