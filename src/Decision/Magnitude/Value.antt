-- ===== src/Decision/Magnitude/Value.antt =====
-- `MagnitudeValueCalculator` of src/decision/magnitude_policy.rs: the value of a coalition for a task,
-- over a cache of its own.
use koalisi.Common.{ℕ, ◌≡◌, refl, none, some, Option, List, [], ◌∷◌, inl, inr}
use koalisi.Common.Floats.{Floats}
use koalisi.Topology.Errors.{Attempt, done, failed}
use koalisi.Algorithms.Agents.{AgentCapabilities}
use koalisi.Decision.Magnitude.{Engine, relevant_masks, magnitude_or_zero}
use koalisi.Decision.Magnitude.Cache.{Guard, cached_base}
use koalisi.Decision.Magnitude.Typed.{
  TypedConfig, TypedSide, typed_relevant_masks, typed_magnitude_or_zero,
}
use koalisi.Decision.Magnitude.Coherence.{IsCoherent}
use koalisi.Decision.Magnitude.Contract.{IsIncremental, cached_base-exact}

module _ (floats : Floats) (engine : Engine floats) where
  open floats use {F64, of_nat, sub, div}
  open engine use {CatgraphError}

  -- `f64::NEG_INFINITY`, as 0 - 1 / 0
  abbrev pub worst : F64
  worst = sub (of_nat 0) (div (of_nat 1) (of_nat 0))

  pub record MagnitudeValueCalculator : Type 0 where
    pub required_capabilities : ℕ
    pub cache : Guard floats engine
    pub typed : Option (TypedConfig floats engine)

  abbrev pub or_worst : Attempt CatgraphError F64 → F64
  or_worst (done m) = m
  or_worst (failed e) = worst

  -- the typed arm, which has no cache
  unfoldable pub typed_value :
      TypedConfig floats engine → ℕ → Option (TypedSide floats engine) → F64
  typed_value cfg required none = worst
  typed_value cfg required (some side) =
      or_worst (typed_magnitude_or_zero floats engine side required cfg.rho)

  -- the cached arm, on the masks that matter
  unfoldable pub cached_value : ℕ → List ℕ → Guard floats engine → Guard floats engine × F64
  cached_value required [] guard = (guard, of_nat 0)
  cached_value required (mask ∷ masks) guard =
      let (guard', base) = cached_base floats engine required (mask ∷ masks) guard in
      (guard', or_worst base)

  unfoldable pub magnitude_value :
      MagnitudeValueCalculator → List AgentCapabilities → MagnitudeValueCalculator × F64
  unfolding typed_value cached_value
  magnitude_value c agents = elim c.typed [
    | some cfg ↦ (
      c,
      typed_value cfg c.required_capabilities
          (typed_relevant_masks floats engine agents c.required_capabilities cfg.roles),
    )
    | none ↦
        let (guard, value) =
          cached_value c.required_capabilities (relevant_masks agents c.required_capabilities)
            c.cache in
        (record c { cache = guard }, value)
  ]

  -- A coherent cache does not show in a value: it is the magnitude evaluated from scratch, or the
  -- least value where that evaluation fails.
  pub cached_value-fresh :
      (required : ℕ) (masks : List ℕ) (guard : Guard floats engine)
      → IsIncremental floats engine
      → IsCoherent floats engine guard
      → (cached_value required masks guard).1
        ≡ or_worst (magnitude_or_zero floats engine masks required)
  unfolding cached_value magnitude_or_zero
  cached_value-fresh required [] guard contract ok = refl
  cached_value-fresh required (m ∷ ms) guard contract ok =
      elim (cached_base-exact floats engine contract required (m ∷ ms) guard ok) [
        | inl ((e, h), (e', exact)) ↦ rw (h, exact) refl
        | inr (b, h, exact) ↦ rw (h, exact) refl
      ]
