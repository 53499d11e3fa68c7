-- ===== src/Decision/Magnitude/Queries.antt =====
-- The cache of a `MagnitudePolicy` (src/decision/magnitude_policy.rs) over a sequence of decisions.
use koalisi.Common.{ℕ, Bool-cases, Option-cases, inl, inr, List, [], ◌∷◌, length, ◌==◌}
use koalisi.Common.Floats.{Floats}
use koalisi.Algorithms.Agents.{AgentCapabilities}
use koalisi.Decision.Magnitude.{Engine}
use koalisi.Decision.Magnitude.Cache.{Guard}
use koalisi.Decision.Magnitude.Policy.{
  LeaveVariant, fresh, evaluator, join_masks, leave_masks, join_dispatch, leave_dispatch_evaluator,
  MagnitudePolicy, should_join, untyped_leave, should_leave,
}
use koalisi.Decision.Magnitude.Coherence.{
  IsCoherent, cached_base-IsCoherent, cached_base_and_with-IsCoherent,
}

-- what a policy is asked
pub data Query : Type 0 where
  join leave : AgentCapabilities → List AgentCapabilities → ℕ → Query

module _ (floats : Floats) (engine : Engine floats) where
  open floats use {F64}

  join_dispatch-IsCoherent :
      (required : ℕ) (masks_with masks : List ℕ) (candidate : ℕ) (margin : F64)
      (guard : Guard floats engine)
      → IsCoherent floats engine guard
      → IsCoherent floats engine
          (join_dispatch floats engine required masks_with masks candidate margin guard).0
  unfolding join_dispatch
  join_dispatch-IsCoherent required masks_with [] candidate margin guard ok = ok
  join_dispatch-IsCoherent required masks_with (m ∷ ms) candidate margin guard ok =
      elim (Bool-cases (length masks_with == length (m ∷ ms))) [
        | inl same ↦ rw same (cached_base-IsCoherent floats engine required (m ∷ ms) guard ok)
        | inr other ↦
            rw other
              (cached_base_and_with-IsCoherent floats engine required (m ∷ ms) candidate guard ok)
      ]

  leave_dispatch_evaluator-IsCoherent :
      (required : ℕ) (masks_in masks : List ℕ) (leaver : ℕ) (guard : Guard floats engine)
      → IsCoherent floats engine guard
      → IsCoherent floats engine
          (leave_dispatch_evaluator floats engine required masks_in masks leaver guard).0
  unfolding leave_dispatch_evaluator
  leave_dispatch_evaluator-IsCoherent required masks_in [] leaver guard ok = ok
  leave_dispatch_evaluator-IsCoherent required masks_in (m ∷ ms) leaver guard ok =
      elim (Bool-cases (length masks_in == length (m ∷ ms))) [
        | inl same ↦ rw same (cached_base-IsCoherent floats engine required (m ∷ ms) guard ok)
        | inr other ↦
            rw other
              (cached_base_and_with-IsCoherent floats engine required (m ∷ ms) leaver guard ok)
      ]

  pub should_join-IsCoherent :
      (p : MagnitudePolicy floats engine) (a : AgentCapabilities)
      (coalition : List AgentCapabilities) (required : ℕ)
      → IsCoherent floats engine p.cache
      → IsCoherent floats engine (should_join floats engine p a coalition required).0.cache
  unfolding should_join
  should_join-IsCoherent p a coalition required ok = elim (Option-cases p.typed) [
    | inl untyped ↦ rw untyped (
        join_dispatch-IsCoherent required (join_masks floats engine a coalition required).0
          (join_masks floats engine a coalition required).1 a.capabilities p.join_margin p.cache ok)
    | inr (cfg, typed) ↦ rw typed ok
  ]

  untyped_leave-IsCoherent :
      (v : LeaveVariant) (p : MagnitudePolicy floats engine) (a : AgentCapabilities)
      (coalition : List AgentCapabilities) (required : ℕ)
      → IsCoherent floats engine p.cache
      → IsCoherent floats engine (untyped_leave floats engine v p a coalition required).0.cache
  unfolding untyped_leave
  untyped_leave-IsCoherent fresh p a coalition required ok = ok
  untyped_leave-IsCoherent evaluator p a coalition required ok =
      leave_dispatch_evaluator-IsCoherent required
        (leave_masks floats engine a coalition required).0
        (leave_masks floats engine a coalition required).1 a.capabilities p.cache ok

  pub should_leave-IsCoherent :
      (p : MagnitudePolicy floats engine) (a : AgentCapabilities)
      (coalition : List AgentCapabilities) (required : ℕ)
      → IsCoherent floats engine p.cache
      → IsCoherent floats engine (should_leave floats engine p a coalition required).0.cache
  unfolding should_leave
  should_leave-IsCoherent p a coalition required ok = elim (Option-cases p.typed) [
    | inl untyped ↦
        rw (should_leave, untyped)
          (untyped_leave-IsCoherent p.leave_variant p a coalition required ok)
    | inr (cfg, typed) ↦ rw (should_leave, typed) ok
  ]

  -- the policy after a sequence of queries
  unfoldable pub after : MagnitudePolicy floats engine → List Query → MagnitudePolicy floats engine
  after p [] = p
  after p (join a coalition required ∷ rest) =
      after (should_join floats engine p a coalition required).0 rest
  after p (leave a coalition required ∷ rest) =
      after (should_leave floats engine p a coalition required).0 rest

  -- Over any sequence of joins and leaves, of any coalitions and any requirements, a policy whose
  -- cache is coherent keeps it so: the evaluator that the cache holds was built from the members and
  -- the requirement it is filed under and from its registry of candidates, and the registry has at
  -- most `registry_cap` of them.
  pub after-IsCoherent :
      (p : MagnitudePolicy floats engine) (queries : List Query)
      → IsCoherent floats engine p.cache
      → IsCoherent floats engine (after p queries).cache
  unfolding after
  after-IsCoherent p [] ok = ok
  after-IsCoherent p (join a coalition required ∷ rest) ok =
      after-IsCoherent (should_join floats engine p a coalition required).0 rest
        (should_join-IsCoherent p a coalition required ok)
  after-IsCoherent p (leave a coalition required ∷ rest) ok =
      after-IsCoherent (should_leave floats engine p a coalition required).0 rest
        (should_leave-IsCoherent p a coalition required ok)
