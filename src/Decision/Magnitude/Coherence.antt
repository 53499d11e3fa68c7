-- ===== src/Decision/Magnitude/Coherence.antt =====
-- The invariant of the cache (src/decision/magnitude_policy.rs): its evaluator was built for its key
-- and its registry, and the registry is within its cap.
use koalisi.Common.{
  ℕ, suc, ◌-◌, ◌≤◌, ◌<◌, ◌≡◌, refl, ap, ap₂, ◌∙◌, subst, true, inl, inr, none, some, List, [], ◌∷◌,
  ◌++◌, length, length-append, get_elem?, get_elem?-append_length, leb, ◌==◌, ==_iff, Bool-cases,
  Option-cases, if◌then◌else◌, arith,
}
use koalisi.Common.Floats.{Floats}
use koalisi.Topology.Errors.{done, Attempt-cases}
use koalisi.Decision.Magnitude.{Engine, build_evaluator}
use koalisi.Decision.Magnitude.Cache.{
  registry_cap, same_masks, position, EvaluatorCache, Guard, is_hit, take_registry, registered,
  rebuild, entry_for, cached_base, extend, with_candidate, ensure_cached_candidate,
  cached_base_and_with,
}

same_masks-eq : (xs ys : List ℕ) → same_masks xs ys ≡ true → xs ≡ ys
same_masks-eq [] [] h = refl
same_masks-eq [] (y ∷ ys) h = absurd (ground arith)
same_masks-eq (x ∷ xs) [] h = absurd (ground arith)
same_masks-eq (x ∷ xs) (y ∷ ys) h =
    ap₂ (λ a l. a ∷ l) (ground arith) (same_masks-eq xs ys (ground arith))

position-get_elem? :
    (c : ℕ) (xs : List ℕ) (i : ℕ) → position c xs ≡ some i → get_elem? xs i ≡ some c
position-get_elem? c [] i h = absurd (ground arith)
position-get_elem? c (x ∷ xs) i h = elim (Bool-cases (x == c)) [
  | inl same ↦ let e : i ≡ 0 = ground arith in rw e (ap (λ a. some a) ((==_iff x c).0 same))
  | inr other ↦ elim (Option-cases (position c xs)) [
    | inl absent ↦ absurd (ground arith)
    | inr (j, at) ↦ let e : i ≡ suc j = ground arith in rw e (position-get_elem? c xs j at)
  ]
]

last_slot : (xs : List ℕ) (y : ℕ) → get_elem? (xs ++ y ∷ []) (length (xs ++ y ∷ []) - 1) ≡ some y
last_slot xs y =
    ap (get_elem? (xs ++ y ∷ [])) (omega (arith, length-append xs (y ∷ [])))
    ∙ get_elem?-append_length xs y []

module _ (floats : Floats) (engine : Engine floats) where
  -- an entry whose evaluator was built for its key and its registry
  pub record IsBuilt (c : EvaluatorCache floats engine) : Type 0 where
    pub built :
        build_evaluator floats engine c.required c.member_masks c.candidate_masks ≡ done c.evaluator
    pub capped : length c.candidate_masks ≤ registry_cap

  abbrev pub IsCoherent : Guard floats engine → Type 0
  IsCoherent none = Unit
  IsCoherent (some c) = IsBuilt c

  -- an entry for a key
  abbrev pub IsEntry : ℕ → List ℕ → EvaluatorCache floats engine → Type 0
  IsEntry required masks c = IsBuilt c × (c.required ≡ required) × (c.member_masks ≡ masks)

  pub take_registry-lt :
      (guard : Guard floats engine) → length (take_registry floats engine guard) < registry_cap
  unfolding take_registry
  take_registry-lt none = omega arith
  take_registry-lt (some c) = ground arith

  pub registered-le :
      (candidate : ℕ) (registry : List ℕ)
      → length registry < registry_cap
      → length (registered floats engine candidate registry) ≤ registry_cap
  unfolding registered
  registered-le candidate registry h = ground (arith, length-append registry (candidate ∷ []))

  is_hit-eq :
      (required : ℕ) (masks : List ℕ) (c : EvaluatorCache floats engine)
      → is_hit floats engine required masks c ≡ true
      → (c.required ≡ required) × (c.member_masks ≡ masks)
  unfolding is_hit
  is_hit-eq required masks c h = (ground arith, same_masks-eq c.member_masks masks (ground arith))

  rebuild-IsEntry :
      (required : ℕ) (masks registry : List ℕ) (c : EvaluatorCache floats engine)
      → length registry ≤ registry_cap
      → rebuild floats engine required masks registry ≡ done c
      → IsEntry required masks c × (c.candidate_masks ≡ registry)
  unfolding rebuild
  rebuild-IsEntry required masks registry c h e =
      elim (Attempt-cases (build_evaluator floats engine required masks registry)) [
        | inl (ev, b) ↦
            let e' = rw (b, rebuild) at e in
            let same : record {
              required = required;
              member_masks = masks;
              candidate_masks = registry;
              evaluator = ev;
            }
                ≡ c =
              cc in
            subst (λ d. IsEntry required masks d × (d.candidate_masks ≡ registry)) same
              ((record { built = b; capped = h }, refl, refl), refl)
        | inr (x, f) ↦ absurd (ground arith)
      ]

  pub entry_for-IsEntry :
      (required : ℕ) (masks registry : List ℕ) (guard : Guard floats engine)
      (c : EvaluatorCache floats engine)
      → IsCoherent guard
      → length registry ≤ registry_cap
      → entry_for floats engine required masks registry guard ≡ done c
      → IsEntry required masks c
  unfolding entry_for
  entry_for-IsEntry required masks registry none c ok h e =
      (rebuild-IsEntry required masks registry c h e).0
  entry_for-IsEntry required masks registry (some d) c ok h e =
      elim (Bool-cases (is_hit floats engine required masks d)) [
        | inl hit ↦
            let e' = rw (hit, entry_for) at e in
            let same : d ≡ c = cc in
            let (key, members) = is_hit-eq required masks d hit in
            subst (IsEntry required masks) same (ok, key, members)
        | inr miss ↦ (rebuild-IsEntry required masks registry c h (rw (miss, entry_for) at e)).0
      ]

  -- an entry with a candidate in a slot of its registry
  abbrev pub IsSlot : ℕ → List ℕ → ℕ → EvaluatorCache floats engine × ℕ → Type 0
  IsSlot required masks candidate (c, p) =
      IsEntry required masks c × (get_elem? c.candidate_masks p ≡ some candidate)

  extend-IsSlot :
      (required : ℕ) (masks : List ℕ) (candidate : ℕ) (c : EvaluatorCache floats engine)
      (x : EvaluatorCache floats engine × ℕ)
      → IsEntry required masks c
      → extend floats engine candidate c ≡ done x
      → IsSlot required masks candidate x
  unfolding extend
  extend-IsSlot required masks candidate c x entry e =
      let kept = if leb registry_cap (length c.candidate_masks) then [] else c.candidate_masks in
      let slots = kept ++ candidate ∷ [] in
      let fits : length slots ≤ registry_cap =
        ground (arith, length-append kept (candidate ∷ [])) in
      elim (Attempt-cases (rebuild floats engine c.required c.member_masks slots)) [
        | inl (c', b) ↦
            let e' = rw (b, extend) at e in
            let same : (c', length slots - 1) ≡ x = cc in
            let ((built, key, members), registry) =
              rebuild-IsEntry c.required c.member_masks slots c' fits b in
            subst (IsSlot required masks candidate) same (
              (built, key ∙ entry.1, members ∙ entry.2),
              ap (λ l. get_elem? l (length slots - 1)) registry ∙ last_slot kept candidate,
            )
        | inr (f, b) ↦ absurd (ground arith)
      ]

  with_candidate-IsSlot :
      (required : ℕ) (masks : List ℕ) (candidate : ℕ) (c : EvaluatorCache floats engine)
      (x : EvaluatorCache floats engine × ℕ)
      → IsEntry required masks c
      → with_candidate floats engine candidate c ≡ done x
      → IsSlot required masks candidate x
  unfolding with_candidate
  with_candidate-IsSlot required masks candidate c x entry e =
      elim (Option-cases (position candidate c.candidate_masks)) [
        | inl absent ↦
            extend-IsSlot required masks candidate c x entry (rw (absent, with_candidate) at e)
        | inr (p, at) ↦
            let e' = rw (at, with_candidate) at e in
            let same : (c, p) ≡ x = cc in
            subst (IsSlot required masks candidate) same
              (entry, position-get_elem? candidate c.candidate_masks p at)
      ]

  pub ensure_cached_candidate-IsSlot :
      (required : ℕ) (masks : List ℕ) (candidate : ℕ) (guard : Guard floats engine)
      (x : EvaluatorCache floats engine × ℕ)
      → IsCoherent guard
      → ensure_cached_candidate floats engine required masks candidate guard ≡ done x
      → IsSlot required masks candidate x
  unfolding ensure_cached_candidate
  ensure_cached_candidate-IsSlot required masks candidate guard x ok e =
      let registry = registered floats engine candidate (take_registry floats engine guard) in
      elim (Attempt-cases (entry_for floats engine required masks registry guard)) [
        | inl (c, b) ↦
            with_candidate-IsSlot required masks candidate c x
              (entry_for-IsEntry required masks registry guard c ok
                (registered-le candidate (take_registry floats engine guard)
                  (take_registry-lt guard))
                b)
              (rw (b, ensure_cached_candidate) at e)
        | inr (f, b) ↦ absurd (ground arith)
      ]

  -- Every query leaves a coherent cache.
  pub cached_base-IsCoherent :
      (required : ℕ) (masks : List ℕ) (guard : Guard floats engine)
      → IsCoherent guard
      → IsCoherent (cached_base floats engine required masks guard).0
  unfolding cached_base
  cached_base-IsCoherent required masks guard ok =
      let registry = take_registry floats engine guard in
      elim (Attempt-cases (entry_for floats engine required masks registry guard)) [
        | inl (c, b) ↦ rw b (
            (entry_for-IsEntry required masks registry guard c ok
              (omega (arith, take_registry-lt guard)) b).0)
        | inr (f, b) ↦ rw b tt
      ]

  pub cached_base_and_with-IsCoherent :
      (required : ℕ) (masks : List ℕ) (candidate : ℕ) (guard : Guard floats engine)
      → IsCoherent guard
      → IsCoherent (cached_base_and_with floats engine required masks candidate guard).0
  unfolding cached_base_and_with
  cached_base_and_with-IsCoherent required masks candidate guard ok =
      elim (Attempt-cases (ensure_cached_candidate floats engine required masks candidate guard)) [
        | inl (x, b) ↦
            rw (b, cached_base_and_with)
              ((ensure_cached_candidate-IsSlot required masks candidate guard x ok b).0.0)
        | inr (f, b) ↦ rw (b, cached_base_and_with) tt
      ]
