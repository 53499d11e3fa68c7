-- ===== src/Decision/Magnitude/Fresh.antt =====
-- The cached decision on a join against the one that evaluates both coalitions from scratch
-- (src/decision/magnitude_policy.rs, "Decision-freeze guarantee").
use koalisi.Common.{
  ℕ, ◌≡◌, refl, ap, sym, ◌∙◌, subst, true, false, Bool-cases, ◌⊎◌, inl, inr, none, List, [], ◌∷◌,
  ◌++◌, length, length-append, ◌==◌, ==_refl, arith,
}
use koalisi.Common.Floats.{Floats}
use koalisi.Topology.Errors.{Attempt, done, failed, Attempt-cases}
use koalisi.Topology.Coalitions.{Decision}
use koalisi.Algorithms.Agents.{AgentCapabilities}
use koalisi.Decision.Magnitude.{Engine, relevant_masks, magnitude_of_masks, magnitude_or_zero}
use koalisi.Decision.Magnitude.Cache.{Guard, CandidateEval}
use koalisi.Decision.Magnitude.Policy.{
  declined, is_knife_edge, join_rule, join_decision_from_values, settled, join_masks, join_dispatch,
  MagnitudePolicy, should_join,
}
use koalisi.Decision.Magnitude.Masks.{relevant_masks-append}
use koalisi.Decision.Magnitude.Coherence.{IsCoherent}
use koalisi.Decision.Magnitude.Contract.{
  IsRounded, same_side, is_close, Tracks, IsIncremental, cached_base-exact,
  cached_base_and_with-Tracks,
}

module _ (floats : Floats) (engine : Engine floats) where
  open floats use {F64, sub, is_finite}
  open engine use {CatgraphError}

  module _ (contract : IsIncremental floats engine) where
    -- the decision on the pair of magnitudes from scratch
    abbrev pub fresh_join : ℕ → List ℕ → List ℕ → F64 → Decision F64
    fresh_join required masks_with masks_without margin =
        join_decision_from_values floats (magnitude_or_zero floats engine masks_with required)
          (magnitude_or_zero floats engine masks_without required) margin

    off_edge-act :
        (margin base value exact : F64)
        → IsRounded floats
        → is_close floats value exact ≡ true
        → is_finite (sub value base) ≡ is_finite (sub exact base)
        → is_knife_edge floats value base margin ≡ false
        → (join_rule floats value base margin).act ≡ (join_rule floats exact base margin).act
    unfolding join_rule
    off_edge-act margin base value exact rounded close alike off =
        elim (Bool-cases (is_finite (sub exact base))) [
          | inl finite ↦
              rw (alike, finite)
                (same_side floats rounded margin value exact base close finite (alike ∙ finite) off)
          | inr infinite ↦ rw (alike, infinite) refl
        ]

    settled-act :
        (required : ℕ) (masks_with : List ℕ) (margin : F64) (eval : CandidateEval floats engine)
        → IsRounded floats
        → Tracks floats engine eval.base eval.joined
            (magnitude_of_masks floats engine masks_with required)
        → (join_decision_from_values floats
            (settled floats engine masks_with required margin eval)
            (done eval.base)
            margin).act
          ≡ (join_decision_from_values floats
              (magnitude_of_masks floats engine masks_with required)
              (done eval.base)
              margin).act
    unfolding settled join_decision_from_values
    settled-act required masks_with margin eval rounded tracks = elim (Attempt-cases eval.joined) [
      | inl (w, h) ↦
          let (f, exact, close, alike) = rw h at tracks in
          elim (Bool-cases (is_knife_edge floats w eval.base margin)) [
            | inl near ↦ rw (h, settled, near) refl
            | inr off ↦
                rw (h, settled, off, exact)
                  (off_edge-act margin eval.base w f rounded close alike off)
          ]
      | inr (e, h) ↦ let (e', exact) = rw h at tracks in rw (h, settled, exact) refl
    ]

    same-act :
        (required : ℕ) (m : ℕ) (ms : List ℕ) (margin : F64) (guard : Guard floats engine)
        (candidate : ℕ)
        → IsCoherent floats engine guard
        → (join_dispatch floats engine required (m ∷ ms) (m ∷ ms) candidate margin guard).1.act
          ≡ (fresh_join required (m ∷ ms) (m ∷ ms) margin).act
    unfolding join_dispatch join_decision_from_values magnitude_or_zero
    same-act required m ms margin guard candidate ok =
        let equal : (length (m ∷ ms) == length (m ∷ ms)) ≡ true = ==_refl (length (m ∷ ms)) in
        elim (cached_base-exact floats engine contract required (m ∷ ms) guard ok) [
          | inl ((e, h), (e', exact)) ↦ rw (equal, h, exact) refl
          | inr (b, h, exact) ↦ rw (equal, h, exact) refl
        ]

    declined-without :
        (r : Attempt CatgraphError F64) (e : CatgraphError) (margin : F64)
        → join_decision_from_values floats r (failed e) margin ≡ declined floats
    unfolding join_decision_from_values
    declined-without (done value) e margin = refl
    declined-without (failed e') e margin = refl

    appended-act :
        (required : ℕ) (m : ℕ) (ms : List ℕ) (margin : F64) (guard : Guard floats engine)
        (candidate : ℕ)
        → IsRounded floats
        → IsCoherent floats engine guard
        → (join_dispatch floats engine required
            ((m ∷ ms) ++ candidate ∷ [])
            (m ∷ ms)
            candidate
            margin
            guard).1.act
          ≡ (fresh_join required ((m ∷ ms) ++ candidate ∷ []) (m ∷ ms) margin).act
    unfolding join_dispatch magnitude_or_zero
    appended-act required m ms margin guard candidate rounded ok =
        let longer : (length ((m ∷ ms) ++ candidate ∷ []) == length (m ∷ ms)) ≡ false =
          ground (arith, length-append ms (candidate ∷ [])) in
        elim (cached_base_and_with-Tracks floats engine contract required (m ∷ ms) candidate guard
          ok) [
            | inl ((e, h), (e', exact)) ↦
                rw (longer, h, exact)
                  (sym (
                    ap (λ d. d.act)
                      (declined-without
                        (magnitude_of_masks floats engine ((m ∷ ms) ++ candidate ∷ []) required) e'
                        margin)))
            | inr (eval, h, exact, tracks) ↦
                rw (longer, h, exact)
                  (settled-act required ((m ∷ ms) ++ candidate ∷ []) margin eval rounded tracks)
          ]

    join_dispatch-act :
        (required : ℕ) (masks_with masks : List ℕ) (candidate : ℕ) (margin : F64)
        (guard : Guard floats engine)
        → (masks_with ≡ masks) ⊎ (masks_with ≡ masks ++ candidate ∷ [])
        → IsRounded floats
        → IsCoherent floats engine guard
        → (join_dispatch floats engine required masks_with masks candidate margin guard).1.act
          ≡ (fresh_join required masks_with masks margin).act
    unfolding join_dispatch
    join_dispatch-act required masks_with [] candidate margin guard shape rounded ok = refl
    join_dispatch-act required masks_with (m ∷ ms) candidate margin guard (inl same) rounded ok =
        subst
          (λ ws.
            (join_dispatch floats engine required ws (m ∷ ms) candidate margin guard).1.act
            ≡ (fresh_join required ws (m ∷ ms) margin).act)
          (sym same) (same-act required m ms margin guard candidate ok)
    join_dispatch-act required masks_with (m ∷ ms) candidate margin guard (inr more) rounded ok =
        subst
          (λ ws.
            (join_dispatch floats engine required ws (m ∷ ms) candidate margin guard).1.act
            ≡ (fresh_join required ws (m ∷ ms) margin).act)
          (sym more) (appended-act required m ms margin guard candidate rounded ok)

    -- Take a policy without types, with a coherent cache, an engine that keeps what its
    -- documentation promises of the incremental values, and floats that keep the named laws of
    -- comparison and rounding. Whatever the cache holds, the policy joins exactly when the decision
    -- on the two magnitudes evaluated from scratch joins, also where an evaluation fails.
    pub should_join-act :
        (p : MagnitudePolicy floats engine) (a : AgentCapabilities)
        (coalition : List AgentCapabilities) (required : ℕ)
        → p.typed ≡ none
        → IsRounded floats
        → IsCoherent floats engine p.cache
        → (should_join floats engine p a coalition required).1.act
          ≡ (fresh_join required
              (relevant_masks (coalition ++ a ∷ []) required)
              (relevant_masks coalition required)
              p.join_margin).act
    unfolding should_join join_masks
    should_join-act p a coalition required untyped rounded ok =
        rw (should_join, untyped)
          (join_dispatch-act required (relevant_masks (coalition ++ a ∷ []) required)
            (relevant_masks coalition required) a.capabilities p.join_margin p.cache
            (relevant_masks-append coalition a required) rounded ok)
