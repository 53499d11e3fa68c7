-- ===== src/Decision/Magnitude/Policy.antt =====
-- `MagnitudePolicy` of src/decision/magnitude_policy.rs: a join or a leave from two magnitudes. The
-- policy holds the cache behind a lock; a decision gives the cache that it leaves. The asynchronous
-- variants make the same decisions on another thread.
use koalisi.Common.{
  ℕ, Bool, false, not, Option, none, some, List, [], ◌∷◌, ◌++◌, length, filter, ◌==◌, if◌then◌else◌,
}
use koalisi.Common.Floats.{Floats}
use koalisi.Topology.Errors.{Attempt, done, failed}
use koalisi.Topology.Coalitions.{Decision}
use koalisi.Algorithms.Agents.{AgentCapabilities}
use koalisi.Decision.Magnitude.{Engine, relevant_masks, magnitude_of_masks, magnitude_or_zero}
use koalisi.Decision.Magnitude.Cache.{Guard, CandidateEval, cached_base, cached_base_and_with}
use koalisi.Decision.Magnitude.Typed.{
  TypedConfig, TypedSide, typed_magnitude_or_zero, typed_join_sides, typed_leave_sides,
}

pub data LeaveVariant : Type 0 where
  fresh evaluator : LeaveVariant

-- `coalition.iter().filter(|a| a.agent_id() != agent_id)`
abbrev pub others : AgentCapabilities → List AgentCapabilities → List AgentCapabilities
others agent = filter (λ a. not (a.agent_id == agent.agent_id))

module _ (floats : Floats) where
  open floats use {F64, of_nat, sub, mul, div, abs, max, lt, le, is_finite}

  -- 1e-6
  abbrev pub knife_edge_rel_band : F64
  knife_edge_rel_band = div (of_nat 1) (of_nat 1000000)

  unfoldable pub is_knife_edge : F64 → F64 → F64 → Bool
  is_knife_edge joined base threshold =
      le (abs (sub (sub joined base) threshold))
        (mul knife_edge_rel_band (max (max (abs joined) (abs base)) (of_nat 1)))

  abbrev pub declined : Decision F64
  declined = record { act = false; score = of_nat 0 }

  -- the rule of a join, with the magnitudes with and without the agent
  unfoldable pub join_rule : F64 → F64 → F64 → Decision F64
  join_rule joined without join_margin =
      let margin = sub joined without in
      if is_finite margin then record { act = lt join_margin margin; score = margin } else declined

  unfoldable pub join_decision_from_values :
      {E : Type 0} → Attempt E F64 → Attempt E F64 → F64 → Decision F64
  unfolding join_rule
  join_decision_from_values (done joined) (done without) join_margin =
      join_rule joined without join_margin
  join_decision_from_values _ _ join_margin = declined

  unfoldable pub leave_rule : F64 → F64 → Decision F64
  leave_rule mag_in mag_out =
      let delta = sub mag_in mag_out in
      if is_finite delta then record { act = le delta (of_nat 0); score = delta } else declined

  unfoldable pub leave_decision_from_values :
      {E : Type 0} → Attempt E F64 → Attempt E F64 → Decision F64
  unfolding leave_rule
  leave_decision_from_values (done mag_in) (done mag_out) = leave_rule mag_in mag_out
  leave_decision_from_values _ _ = declined

  module _ (engine : Engine floats) where
    open engine use {CatgraphError}

    -- `join_masks` and `leave_masks`: with and without the agent
    unfoldable pub join_masks : AgentCapabilities → List AgentCapabilities → ℕ → List ℕ × List ℕ
    join_masks agent coalition required =
        (relevant_masks (coalition ++ agent ∷ []) required, relevant_masks coalition required)

    unfoldable pub leave_masks : AgentCapabilities → List AgentCapabilities → ℕ → List ℕ × List ℕ
    leave_masks agent coalition required =
        (relevant_masks coalition required, relevant_masks (others agent coalition) required)

    -- the magnitude with the candidate, again from scratch where the comparison is too close
    unfoldable pub settled :
        List ℕ → ℕ → F64 → CandidateEval floats engine → Attempt CatgraphError F64
    unfolding is_knife_edge
    settled masks required threshold eval = elim eval.joined [
      | failed e ↦ failed e
      | done w ↦
          if is_knife_edge w eval.base threshold
          then magnitude_of_masks floats engine masks required
          else done w
    ]

    abbrev pub base_only : Attempt CatgraphError F64 → (F64 → Decision F64) → Decision F64
    base_only (failed e) rule = declined
    base_only (done base) rule = rule base

    unfoldable pub join_dispatch :
        ℕ → List ℕ → List ℕ → ℕ → F64 → Guard floats engine → Guard floats engine × Decision F64
    unfolding settled join_decision_from_values
    join_dispatch required masks_with [] candidate_caps join_margin guard = (
      guard,
      join_decision_from_values (magnitude_or_zero floats engine masks_with required)
          (magnitude_or_zero floats engine [] required) join_margin,
    )
    join_dispatch required masks_with (mask ∷ masks) candidate_caps join_margin guard =
        let without = mask ∷ masks in
        if length masks_with == length without
        then (let (guard', base) = cached_base floats engine required without guard in
            (guard', base_only base (λ b. join_rule b b join_margin)))
        else (let (guard', out) =
              cached_base_and_with floats engine required without candidate_caps guard in
            (
              guard',
              elim out [
                | failed e ↦ declined
                | done eval ↦
                    join_decision_from_values (settled masks_with required join_margin eval)
                      (done eval.base) join_margin
              ],
            ))

    unfoldable pub leave_dispatch_evaluator :
        ℕ → List ℕ → List ℕ → ℕ → Guard floats engine → Guard floats engine × Decision F64
    unfolding settled leave_decision_from_values
    leave_dispatch_evaluator required masks_in [] leaver_caps guard = (
      guard,
      leave_decision_from_values (magnitude_or_zero floats engine masks_in required)
          (magnitude_or_zero floats engine [] required),
    )
    leave_dispatch_evaluator required masks_in (mask ∷ masks) leaver_caps guard =
        let masks_out = mask ∷ masks in
        if length masks_in == length masks_out
        then (let (guard', base) = cached_base floats engine required masks_out guard in
            (guard', base_only base (λ b. leave_rule b b)))
        else (let (guard', out) =
              cached_base_and_with floats engine required masks_out leaver_caps guard in
            (
              guard',
              elim out [
                | failed e ↦ declined
                | done eval ↦
                    leave_decision_from_values (settled masks_in required (of_nat 0) eval)
                      (done eval.base)
              ],
            ))

    pub record MagnitudePolicy : Type 0 where
      pub join_margin : F64
      pub leave_variant : LeaveVariant
      pub cache : Guard floats engine
      pub typed : Option (TypedConfig floats engine)

    unfoldable pub typed_join :
        MagnitudePolicy
        → TypedConfig floats engine
        → ℕ
        → Option (TypedSide floats engine × TypedSide floats engine)
        → Decision F64
    unfolding join_decision_from_values
    typed_join p cfg required none = declined
    typed_join p cfg required (some (joined, without)) =
        join_decision_from_values (typed_magnitude_or_zero floats engine joined required cfg.rho)
          (typed_magnitude_or_zero floats engine without required cfg.rho) p.join_margin

    unfoldable pub typed_leave :
        TypedConfig floats engine
        → ℕ
        → Option (TypedSide floats engine × TypedSide floats engine)
        → Decision F64
    unfolding leave_decision_from_values
    typed_leave cfg required none = declined
    typed_leave cfg required (some (side_in, side_out)) =
        leave_decision_from_values (typed_magnitude_or_zero floats engine side_in required cfg.rho)
          (typed_magnitude_or_zero floats engine side_out required cfg.rho)

    -- the policy with the cache that a decision leaves
    abbrev pub keep :
        MagnitudePolicy → Guard floats engine × Decision F64 → MagnitudePolicy × Decision F64
    keep p (guard, decision) = (record p { cache = guard }, decision)

    unfoldable pub should_join :
        MagnitudePolicy
        → AgentCapabilities
        → List AgentCapabilities
        → ℕ
        → MagnitudePolicy × Decision F64
    unfolding typed_join join_dispatch join_masks
    should_join p agent coalition required = elim p.typed [
      | some cfg ↦ (
        p,
        typed_join p cfg required (typed_join_sides floats engine cfg agent coalition required),
      )
      | none ↦
          let (masks_with, masks_without) = join_masks agent coalition required in
          keep p (
            join_dispatch required masks_with masks_without agent.capabilities p.join_margin
              p.cache)
    ]

    unfoldable pub untyped_leave :
        LeaveVariant
        → MagnitudePolicy
        → AgentCapabilities
        → List AgentCapabilities
        → ℕ
        → MagnitudePolicy × Decision F64
    unfolding leave_dispatch_evaluator leave_decision_from_values leave_masks
    untyped_leave fresh p agent coalition required =
        let (masks_in, masks_out) = leave_masks agent coalition required in
        (
          p,
          leave_decision_from_values (magnitude_or_zero floats engine masks_in required)
              (magnitude_or_zero floats engine masks_out required),
        )
    untyped_leave evaluator p agent coalition required =
        let (masks_in, masks_out) = leave_masks agent coalition required in
        keep p (leave_dispatch_evaluator required masks_in masks_out agent.capabilities p.cache)

    unfoldable pub should_leave :
        MagnitudePolicy
        → AgentCapabilities
        → List AgentCapabilities
        → ℕ
        → MagnitudePolicy × Decision F64
    unfolding typed_leave untyped_leave
    should_leave p agent coalition required = elim p.typed [
      | some cfg ↦ (
        p,
        typed_leave cfg required (typed_leave_sides floats engine cfg agent coalition required),
      )
      | none ↦ untyped_leave p.leave_variant p agent coalition required
    ]
