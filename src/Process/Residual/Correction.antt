-- ===== src/Process/Residual/Correction.antt =====
-- What the correction of src/process/residual.rs can change in a decision.

use koalisi.Common.{
  ℕ, ◌-◌, ◌≡◌, Bool, true, false, Bool-cases, inl, inr, Option, none, some, Option-cases, List, [],
  ◌∷◌, ◌++◌, ◌&&◌, length, ◌==◌, arith,
}
use koalisi.Common.HashMap.{HashMap}
use koalisi.Common.Floats.{Floats}
use koalisi.Topology.Errors.{Attempt, done, failed}
use koalisi.Topology.Coalitions.{Decision}
use koalisi.Algorithms.Agents.{AgentCapabilities}
use koalisi.Decision.Magnitude.{Engine}
use koalisi.Decision.Magnitude.Cache.{Guard, CandidateEval, cached_base, cached_base_and_with}
use koalisi.Decision.Magnitude.Typed.{TypedConfig, TypedSide, typed_join_sides}
use koalisi.Decision.Magnitude.Policy.{
  MagnitudePolicy, should_join, join_rule, join_decision_from_values, join_masks, join_dispatch,
  typed_join, settled, base_only, declined,
}
use koalisi.Process.Residual.{
  Residual, ResidualPolicy, new_policy, staff_of, staff_each, evaluation_failed, fold, correction,
  residual_join, uncovered,
}

module _ (floats : Floats) where
  open floats use {F64, of_nat, add, mul, lt, le, is_finite}

  -- Adding a non-negative multiple of a number does not go below a margin.
  pub record IsRising : Type 0 where
    pub zero_finite : is_finite (of_nat 0) ≡ true
    pub zero_le_zero : le (of_nat 0) (of_nat 0) ≡ true
    pub stays_above :
        (margin score lambda : F64) (n : ℕ)
        → is_finite lambda ≡ true
        → le (of_nat 0) lambda ≡ true
        → is_finite score ≡ true
        → lt margin score ≡ true
        → lt margin (add score (mul lambda (of_nat n))) ≡ true

  -- a decision that acts only above the margin
  abbrev pub IsAbove : F64 → Decision F64 → Type 0
  IsAbove margin d = d.act ≡ true → lt margin d.score ≡ true

  join_rule-IsAbove :
      (joined without margin : F64) → IsAbove margin (join_rule floats joined without margin)
  unfolding join_rule
  join_rule-IsAbove joined without margin acts = ground arith

  join_decision_from_values-IsAbove :
      {E : Type 0} (r q : Attempt E F64) (margin : F64)
      → IsAbove margin (join_decision_from_values floats r q margin)
  unfolding join_decision_from_values
  join_decision_from_values-IsAbove (done joined) (done without) margin acts =
      join_rule-IsAbove joined without margin acts
  join_decision_from_values-IsAbove (done joined) (failed e) margin acts = absurd (ground arith)
  join_decision_from_values-IsAbove (failed e) q margin acts = absurd (ground arith)

  module _ (engine : Engine floats) where
    open engine use {RoleId}

    base_only-IsAbove :
        (r : Attempt engine.CatgraphError F64) (margin : F64)
        → IsAbove margin (base_only floats engine r (λ b. join_rule floats b b margin))
    base_only-IsAbove (done b) margin = join_rule-IsAbove b b margin
    base_only-IsAbove (failed e) margin = λ acts. absurd (ground arith)

    eval-IsAbove :
        (required : ℕ) (masks_with : List ℕ) (margin : F64)
        (out : Attempt engine.CatgraphError (CandidateEval floats engine))
        → IsAbove margin (elim out [
          | failed e ↦ declined floats
          | done eval ↦
              join_decision_from_values floats
                (settled floats engine masks_with required margin eval)
                (done eval.base)
                margin
        ])
    eval-IsAbove required masks_with margin (done eval) =
        join_decision_from_values-IsAbove _ _ margin
    eval-IsAbove required masks_with margin (failed e) = λ acts. absurd (ground arith)

    join_dispatch-IsAbove :
        (required : ℕ) (masks_with masks : List ℕ) (candidate : ℕ) (margin : F64)
        (guard : Guard floats engine)
        → IsAbove margin
            (join_dispatch floats engine required masks_with masks candidate margin guard).1
    unfolding join_dispatch
    join_dispatch-IsAbove required masks_with [] candidate margin guard =
        join_decision_from_values-IsAbove _ _ margin
    join_dispatch-IsAbove required masks_with (m ∷ ms) candidate margin guard =
        elim (Bool-cases (length masks_with == length (m ∷ ms))) [
          | inl same ↦
              rw same
                (base_only-IsAbove (cached_base floats engine required (m ∷ ms) guard).1 margin)
          | inr other ↦ rw other (
              eval-IsAbove required masks_with margin
                (cached_base_and_with floats engine required (m ∷ ms) candidate guard).1)
        ]

    typed_join-IsAbove :
        (p : MagnitudePolicy floats engine) (cfg : TypedConfig floats engine) (required : ℕ)
        (sides : Option (TypedSide floats engine × TypedSide floats engine))
        → IsAbove p.join_margin (typed_join floats engine p cfg required sides)
    unfolding typed_join
    typed_join-IsAbove p cfg required none acts = absurd (ground arith)
    typed_join-IsAbove p cfg required (some (joined, without)) acts =
        join_decision_from_values-IsAbove _ _ p.join_margin acts

    should_join-IsAbove :
        (p : MagnitudePolicy floats engine) (a : AgentCapabilities)
        (coalition : List AgentCapabilities) (required : ℕ)
        → IsAbove p.join_margin (should_join floats engine p a coalition required).1
    unfolding should_join
    should_join-IsAbove p a coalition required = elim (Option-cases p.typed) [
      | inl untyped ↦
          rw (should_join, untyped)
            (join_dispatch-IsAbove required (join_masks floats engine a coalition required).0
              (join_masks floats engine a coalition required).1 a.capabilities p.join_margin
              p.cache)
      | inr (cfg, typed) ↦
          rw (should_join, typed)
            (typed_join-IsAbove p cfg required
              (typed_join_sides floats engine cfg a coalition required))
    ]

    module _ (role_id : ℕ → RoleId) (same_role : RoleId → RoleId → Bool) where
      -- a coefficient as `new` clamps it
      abbrev pub IsClamped : ResidualPolicy floats engine role_id same_role → Type 0
      IsClamped p = (is_finite p.lambda ≡ true) × (le (of_nat 0) p.lambda ≡ true)

      pub new_policy-IsClamped :
          (inner : MagnitudePolicy floats engine) (roles : HashMap RoleId) (lambda : F64)
          (residual : Residual)
          → IsRising
          → IsClamped (new_policy floats engine role_id same_role inner roles lambda residual)
      unfolding new_policy
      new_policy-IsClamped inner roles lambda residual law =
          elim (Bool-cases (is_finite lambda && le (of_nat 0) lambda)) [
            | inl sane ↦ rw (new_policy, sane) (ground arith, ground arith)
            | inr insane ↦ rw (new_policy, insane) (law.zero_finite, law.zero_le_zero)
          ]

      fold-acts :
          (margin score lambda : F64) (act : Bool) (n : ℕ)
          → IsRising
          → is_finite lambda ≡ true
          → le (of_nat 0) lambda ≡ true
          → IsAbove margin (record { act = act; score = score })
          → act ≡ true
          → (fold floats engine role_id same_role
              (record { act = act; score = score })
              (mul lambda (of_nat n))
              (λ s. lt margin s)).act
            ≡ true
      unfolding fold
      fold-acts margin score lambda act n law finite positive above acts =
          elim (Bool-cases (is_finite score)) [
            | inl sane ↦
                rw sane (law.stays_above margin score lambda n finite positive sane (above acts))
            | inr insane ↦ rw insane acts
          ]

      -- The correction never turns a join away: where neither of the two coalitions fails to be
      -- evaluated, the coefficient is one that `new` leaves (finite and not negative), and adding a
      -- multiple of it keeps a finite score above the margin in float arithmetic, an agent that the
      -- inner policy lets join may also join under the corrected score, whatever the prices and the
      -- roles are.
      pub residual_join-act :
          (p : ResidualPolicy floats engine role_id same_role) (a : AgentCapabilities)
          (coalition : List AgentCapabilities) (required : ℕ)
          → IsRising
          → IsClamped p
          → evaluation_failed floats engine role_id same_role coalition
              (coalition ++ a ∷ [])
              required
            ≡ false
          → (should_join floats engine p.inner a coalition required).1.act ≡ true
          → (residual_join floats engine role_id same_role p a coalition required).1.act ≡ true
      unfolding residual_join correction
      residual_join-act p a coalition required law (finite, positive) evaluated acts =
          let d = (should_join floats engine p.inner a coalition required).1 in
          elim (Option-cases (staff_each floats engine role_id same_role p.roles coalition)) [
            | inl nobody ↦ rw (residual_join, nobody) acts
            | inr (without, staffed) ↦
                elim (Option-cases (staff_of floats engine role_id same_role p.roles a)) [
                  | inl nobody ↦ rw (residual_join, staffed, nobody) acts
                  | inr (joined, known) ↦
                      rw (residual_join, staffed, known, evaluated)
                        (fold-acts p.inner.join_margin d.score p.lambda d.act
                          (uncovered floats engine role_id same_role without p.residual
                            - uncovered floats engine role_id same_role (without ++ joined ∷ [])
                                p.residual)
                          law finite positive (should_join-IsAbove p.inner a coalition required)
                          acts)
                ]
          ]
