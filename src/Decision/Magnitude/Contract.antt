-- ===== src/Decision/Magnitude/Contract.antt =====
-- What the incremental evaluator promises, and what a query of the cache of
-- src/decision/magnitude_policy.rs gives by it, beside the magnitudes evaluated from scratch.
use koalisi.Common.{
  ℕ, ◌+◌, ◌≡◌, refl, ap₂, subst, Bool, true, false, Bool-cases, ◌⊎◌, inl, inr, none, some,
  Option-cases, List, [], ◌∷◌, ◌++◌, length, get_elem?, leb, if◌then◌else◌, arith,
}
use koalisi.Common.Floats.{Floats}
use koalisi.Topology.Errors.{Attempt, done, failed, Attempt-cases}
use koalisi.Decision.Magnitude.{Engine, build_evaluator, magnitude_of_masks}
use koalisi.Decision.Magnitude.Cache.{
  registry_cap, EvaluatorCache, Guard, take_registry, registered, rebuild, is_hit, entry_for,
  cached_base, extend, with_candidate, position, ensure_cached_candidate, CandidateEval,
  cached_base_and_with,
}
use koalisi.Decision.Magnitude.Policy.{is_knife_edge}
use koalisi.Decision.Magnitude.Coherence.{
  IsCoherent, registered-le, take_registry-lt, entry_for-IsEntry, ensure_cached_candidate-IsSlot,
}

module _ (floats : Floats) where
  open floats use {F64, of_nat, sub, mul, div, abs, max, lt, le, is_finite}

  -- `INCREMENTAL_REL_TOL` of `catgraph_magnitude`, 1e-9
  abbrev pub incremental_rel_tol : F64
  incremental_rel_tol = div (of_nat 1) (of_nat 1000000000)

  abbrev pub is_close : F64 → F64 → Bool
  is_close value exact = le (abs (sub value exact)) (mul incremental_rel_tol (abs exact))

  -- the scale of a comparison: `joined.abs().max(base.abs()).max(1.0)`
  abbrev scale : F64 → F64 → F64
  scale value base = max (max (abs value) (abs base)) (of_nat 1)

  -- 1e-8: the tolerance, with room for the rounding of two subtractions
  abbrev rounded_tol : F64
  rounded_tol = div (of_nat 1) (of_nat 100000000)

  -- Laws of the comparison and the rounding of floats.
  pub record IsRounded : Type 0 where
    pub le_trans : (a b c : F64) → le a b ≡ true → le b c ≡ true → le a c ≡ true
    -- a threshold between two numbers is as near to the first as the second is
    pub between :
        (a b t : F64)
        → is_finite a ≡ true
        → is_finite b ≡ true
        → (lt t a ≡ lt t b) ⊎ (le (abs (sub a t)) (abs (sub a b)) ≡ true)
    -- a common subtrahend moves two close values apart by no more than the rounding
    pub cancelled :
        (value exact base : F64)
        → is_close value exact ≡ true
        → is_finite (sub value base) ≡ true
        → is_finite (sub exact base) ≡ true
        → le (abs (sub (sub value base) (sub exact base))) (mul rounded_tol (scale value base))
          ≡ true
    -- multiplication with a number that is at least one, and finite
    pub mul_mono :
        (a b value base : F64)
        → is_finite (sub value base) ≡ true
        → le a b ≡ true
        → le (mul a (scale value base)) (mul b (scale value base)) ≡ true
    -- 1e-8 is at most 1e-6
    pub small : le rounded_tol (div (of_nat 1) (of_nat 1000000)) ≡ true

  -- Two values within the tolerance fall on the same side of a threshold off the knife edge.
  pub same_side :
      (rounded : IsRounded) (threshold value exact base : F64)
      → is_close value exact ≡ true
      → is_finite (sub exact base) ≡ true
      → is_finite (sub value base) ≡ true
      → is_knife_edge floats value base threshold ≡ false
      → lt threshold (sub value base) ≡ lt threshold (sub exact base)
  unfolding is_knife_edge
  same_side rounded threshold value exact base close finite finite' off =
      elim (rounded.between (sub value base) (sub exact base) threshold finite' finite) [
        | inl same ↦ same
        | inr near ↦
            let apart = rounded.cancelled value exact base close finite' finite in
            let wider = rounded.mul_mono _ _ value base finite' rounded.small in
            let edge = rounded.le_trans _ _ _ near (rounded.le_trans _ _ _ apart wider) in
            absurd (ground (arith, edge, off))
      ]

  module _ (engine : Engine floats) where
    open engine use {CatgraphError, CoalitionEvaluator, base_value, value_with}

    abbrev pub Failed : {A : Type 0} → Attempt CatgraphError A → Type 0
    Failed r = (e : CatgraphError) × (r ≡ failed e)

    -- an incremental value beside the one from scratch
    abbrev pub Tracks : F64 → Attempt CatgraphError F64 → Attempt CatgraphError F64 → Type 0
    Tracks base (failed e) exact = Failed exact
    Tracks base (done value) exact =
        (f : F64) × (exact ≡ done f)
        × (is_close value f ≡ true)
        × (is_finite (sub value base) ≡ is_finite (sub f base))

    -- What the documentation of `CoalitionEvaluator` promises of its values.
    pub record IsIncremental : Type 0 where
      pub base_is_exact :
          (required : ℕ) (masks registry : List ℕ) (ev : CoalitionEvaluator)
          → build_evaluator floats engine required masks registry ≡ done ev
          → magnitude_of_masks floats engine masks required ≡ done (base_value ev)
      pub fails_alike :
          (required : ℕ) (masks registry : List ℕ)
          → Failed (build_evaluator floats engine required masks registry)
          → Failed (magnitude_of_masks floats engine masks required)
      pub candidate_is_close :
          (required : ℕ) (masks registry : List ℕ) (ev : CoalitionEvaluator) (p candidate : ℕ)
          → build_evaluator floats engine required masks registry ≡ done ev
          → get_elem? registry p ≡ some candidate
          → Tracks
              (base_value ev)
              (value_with ev (length masks + p))
              (magnitude_of_masks floats engine (masks ++ candidate ∷ []) required)

    module _ (contract : IsIncremental) where
      rebuild-fails :
          (required : ℕ) (masks registry : List ℕ)
          → Failed (rebuild floats engine required masks registry)
          → Failed (magnitude_of_masks floats engine masks required)
      unfolding rebuild
      rebuild-fails required masks registry (e, h) =
          elim (Attempt-cases (build_evaluator floats engine required masks registry)) [
            | inl (ev, b) ↦ absurd (ground arith)
            | inr bad ↦ contract.fails_alike required masks registry bad
          ]

      entry_for-fails :
          (required : ℕ) (masks registry : List ℕ) (guard : Guard floats engine)
          → Failed (entry_for floats engine required masks registry guard)
          → Failed (magnitude_of_masks floats engine masks required)
      unfolding entry_for
      entry_for-fails required masks registry none bad = rebuild-fails required masks registry bad
      entry_for-fails required masks registry (some c) (e, h) =
          elim (Bool-cases (is_hit floats engine required masks c)) [
            | inl hit ↦ absurd (ground arith)
            | inr miss ↦ rebuild-fails required masks registry (e, rw (miss, entry_for) at h)
          ]

      extend-fails :
          (candidate : ℕ) (c : EvaluatorCache floats engine)
          → Failed (extend floats engine candidate c)
          → Failed (magnitude_of_masks floats engine c.member_masks c.required)
      unfolding extend
      extend-fails candidate c (e, h) =
          let kept =
            if leb registry_cap (length c.candidate_masks) then [] else c.candidate_masks in
          let slots = kept ++ candidate ∷ [] in
          elim (Attempt-cases (rebuild floats engine c.required c.member_masks slots)) [
            | inl (c', b) ↦ absurd (ground arith)
            | inr bad ↦ rebuild-fails c.required c.member_masks slots bad
          ]

      with_candidate-fails :
          (candidate : ℕ) (c : EvaluatorCache floats engine)
          → Failed (with_candidate floats engine candidate c)
          → Failed (magnitude_of_masks floats engine c.member_masks c.required)
      unfolding with_candidate
      with_candidate-fails candidate c (e, h) =
          elim (Option-cases (position candidate c.candidate_masks)) [
            | inl absent ↦ extend-fails candidate c (e, rw (absent, with_candidate) at h)
            | inr (p, at) ↦ absurd (ground arith)
          ]

      ensure_cached_candidate-fails :
          (required : ℕ) (masks : List ℕ) (candidate : ℕ) (guard : Guard floats engine)
          → IsCoherent floats engine guard
          → Failed (ensure_cached_candidate floats engine required masks candidate guard)
          → Failed (magnitude_of_masks floats engine masks required)
      unfolding ensure_cached_candidate
      ensure_cached_candidate-fails required masks candidate guard ok (e, h) =
          let taken = take_registry floats engine guard in
          let registry = registered floats engine candidate taken in
          elim (Attempt-cases (entry_for floats engine required masks registry guard)) [
            | inl (c, b) ↦
                let (built, key, members) =
                  entry_for-IsEntry floats engine required masks registry guard c ok
                    (registered-le floats engine candidate taken
                      (take_registry-lt floats engine guard))
                    b in
                let bad =
                  with_candidate-fails candidate c (e, rw (b, ensure_cached_candidate) at h) in
                rw (key, members) at bad
            | inr bad ↦ entry_for-fails required masks registry guard bad
          ]

      -- a query of the base, beside the magnitude from scratch
      pub cached_base-exact :
          (required : ℕ) (masks : List ℕ) (guard : Guard floats engine)
          → IsCoherent floats engine guard
          → (Failed (cached_base floats engine required masks guard).1
              × Failed (magnitude_of_masks floats engine masks required))
            ⊎ ((b : F64) × ((cached_base floats engine required masks guard).1 ≡ done b)
                × (magnitude_of_masks floats engine masks required ≡ done b))
      unfolding cached_base
      cached_base-exact required masks guard ok =
          let registry = take_registry floats engine guard in
          elim (Attempt-cases (entry_for floats engine required masks registry guard)) [
            | inl (c, b) ↦
                let (built, key, members) =
                  entry_for-IsEntry floats engine required masks registry guard c ok
                    (omega (arith, take_registry-lt floats engine guard)) b in
                let exact =
                  contract.base_is_exact c.required c.member_masks c.candidate_masks c.evaluator
                    built.built in
                inr (base_value c.evaluator, rw (b, cached_base) refl, rw (key, members) at exact)
            | inr (e, b) ↦ inl (
              (e, rw (b, cached_base) refl),
              entry_for-fails required masks registry guard (e, b),
            )
          ]

      -- a query of a candidate, beside the two magnitudes from scratch
      pub cached_base_and_with-Tracks :
          (required : ℕ) (masks : List ℕ) (candidate : ℕ) (guard : Guard floats engine)
          → IsCoherent floats engine guard
          → (Failed (cached_base_and_with floats engine required masks candidate guard).1
              × Failed (magnitude_of_masks floats engine masks required))
            ⊎ ((eval : CandidateEval floats engine) × ((cached_base_and_with floats engine required
                    masks candidate guard).1
                  ≡ done eval)
                × (magnitude_of_masks floats engine masks required ≡ done eval.base)
                × Tracks eval.base eval.joined
                    (magnitude_of_masks floats engine (masks ++ candidate ∷ []) required))
      unfolding cached_base_and_with
      cached_base_and_with-Tracks required masks candidate guard ok =
          elim (Attempt-cases
            (ensure_cached_candidate floats engine required masks candidate guard)) [
              | inl ((c, p), b) ↦
                  let ((built, key, members), at) =
                    ensure_cached_candidate-IsSlot floats engine required masks candidate guard
                      (c, p) ok b in
                  let exact =
                    contract.base_is_exact c.required c.member_masks c.candidate_masks c.evaluator
                      built.built in
                  let close =
                    contract.candidate_is_close c.required c.member_masks c.candidate_masks
                      c.evaluator p candidate built.built at in
                  inr (
                    record {
                      base = base_value c.evaluator;
                      joined = value_with c.evaluator (length c.member_masks + p);
                    },
                    rw (b, cached_base_and_with) refl,
                    rw (key, members) at exact,
                    subst {A = ℕ × List ℕ}
                        (λ x.
                          Tracks (base_value c.evaluator)
                            (value_with c.evaluator (length c.member_masks + p))
                            (magnitude_of_masks floats engine (x.1 ++ candidate ∷ []) x.0))
                        (ap₂ (λ r ms. (r, ms)) key members) close,
                  )
              | inr bad ↦ inl (
                (bad.0, rw (bad.1, cached_base_and_with) refl),
                ensure_cached_candidate-fails required masks candidate guard ok bad,
              )
            ]
