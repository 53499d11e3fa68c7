-- ===== src/Decision/Magnitude/Cache.antt =====
-- The cache of src/decision/magnitude_policy.rs: an incremental evaluator for one coalition and one
-- requirement, with the registry of the candidates that can be asked about. The lock of the cache is
-- held for each query, so that a query is a function of the cache. The buffers that the evaluator
-- reuses (`EvalScratch`) carry no state and are left out.
use koalisi.Common.{
  ℕ, suc, ◌+◌, ◌-◌, Bool, true, false, ◌&&◌, Option, none, some, List, [], ◌∷◌, ◌++◌, length,
  contains, leb, ◌==◌, if◌then◌else◌,
}
use koalisi.Common.Floats.{Floats}
use koalisi.Topology.Errors.{Attempt, done, failed}
use koalisi.Decision.Magnitude.{Engine, build_evaluator}

abbrev pub registry_cap : ℕ
registry_cap = 256

-- `==` on slices of masks
abbrev pub same_masks : List ℕ → List ℕ → Bool
same_masks [] [] = true
same_masks (x ∷ xs) (y ∷ ys) = x == y && same_masks xs ys
same_masks _ _ = false

-- `iter().position(|&c| c == candidate_caps)`
abbrev pub position : ℕ → List ℕ → Option ℕ
position c [] = none
position c (x ∷ xs) =
    if x == c then some 0 else elim (position c xs) [ none ↦ none | some i ↦ some (suc i) ]

module _ (floats : Floats) (engine : Engine floats) where
  open floats use {F64}
  open engine use {CatgraphError, CoalitionEvaluator, base_value, value_with}

  pub record EvaluatorCache : Type 0 where
    pub required : ℕ
    pub member_masks : List ℕ
    pub candidate_masks : List ℕ
    pub evaluator : CoalitionEvaluator

  abbrev pub Guard : Type 0
  Guard = Option EvaluatorCache

  unfoldable pub is_hit : ℕ → List ℕ → EvaluatorCache → Bool
  is_hit required masks c = c.required == required && same_masks c.member_masks masks

  -- `take_registry_and_scratch`
  unfoldable pub take_registry : Guard → List ℕ
  take_registry none = []
  take_registry (some c) =
      if leb registry_cap (length c.candidate_masks) then [] else c.candidate_masks

  -- `if !registry.contains(&candidate_caps) { registry.push(candidate_caps); }`
  unfoldable pub registered : ℕ → List ℕ → List ℕ
  registered candidate registry =
      if contains registry candidate then registry else registry ++ candidate ∷ []

  -- A rebuild for a key; where it fails, the guard has been emptied.
  unfoldable pub rebuild : ℕ → List ℕ → List ℕ → Attempt CatgraphError EvaluatorCache
  rebuild required masks registry = elim (build_evaluator floats engine required masks registry) [
    | failed e ↦ failed e
    | done evaluator ↦ done (record {
      required = required;
      member_masks = masks;
      candidate_masks = registry;
      evaluator = evaluator;
    })
  ]

  -- The entry for a key: the one there is, or a new one with the given registry.
  unfoldable pub entry_for : ℕ → List ℕ → List ℕ → Guard → Attempt CatgraphError EvaluatorCache
  unfolding rebuild is_hit
  entry_for required masks registry none = rebuild required masks registry
  entry_for required masks registry (some c) =
      if is_hit required masks c then done c else rebuild required masks registry

  -- the guard after an entry was looked for
  abbrev pub guard_of : Attempt CatgraphError EvaluatorCache → Guard
  guard_of (done c) = some c
  guard_of (failed e) = none

  unfoldable pub cached_base : ℕ → List ℕ → Guard → Guard × Attempt CatgraphError F64
  unfolding entry_for take_registry
  cached_base required masks guard =
      let entry = entry_for required masks (take_registry guard) guard in
      (guard_of entry, elim entry [ failed e ↦ failed e | done c ↦ done (base_value c.evaluator) ])

  -- The registration of a candidate that the entry does not have: the guard is empty while the
  -- evaluator is built again.
  unfoldable pub extend : ℕ → EvaluatorCache → Attempt CatgraphError (EvaluatorCache × ℕ)
  unfolding rebuild
  extend candidate c =
      let kept = if leb registry_cap (length c.candidate_masks) then [] else c.candidate_masks in
      let masks = kept ++ candidate ∷ [] in
      elim (rebuild c.required c.member_masks masks) [
        | failed e ↦ failed e
        | done c' ↦ done (c', length masks - 1)
      ]

  unfoldable pub with_candidate : ℕ → EvaluatorCache → Attempt CatgraphError (EvaluatorCache × ℕ)
  unfolding extend
  with_candidate candidate c = elim (position candidate c.candidate_masks) [
    | some p ↦ done (c, p)
    | none ↦ extend candidate c
  ]

  -- `ensure_cached_candidate`: the entry, with the slot of the candidate
  unfoldable pub ensure_cached_candidate :
      ℕ → List ℕ → ℕ → Guard → Attempt CatgraphError (EvaluatorCache × ℕ)
  unfolding entry_for take_registry registered with_candidate
  ensure_cached_candidate required masks candidate guard =
      elim (entry_for required masks (registered candidate (take_registry guard)) guard) [
        | failed e ↦ failed e
        | done c ↦ with_candidate candidate c
      ]

  pub record CandidateEval : Type 0 where
    pub base : F64
    pub joined : Attempt CatgraphError F64

  unfoldable pub cached_base_and_with :
      ℕ → List ℕ → ℕ → Guard → Guard × Attempt CatgraphError CandidateEval
  unfolding ensure_cached_candidate
  cached_base_and_with required masks candidate guard =
      elim (ensure_cached_candidate required masks candidate guard) [
        | failed e ↦ (none, failed e)
        | done x ↦ (
          some x.0,
          done (record {
            base = base_value x.0.evaluator;
            joined = value_with x.0.evaluator (length x.0.member_masks + x.1);
          }),
        )
      ]
