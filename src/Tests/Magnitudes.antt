-- ===== src/Tests/Magnitudes.antt =====
-- A policy over an engine that counts members.
use koalisi.Common.{
  ℕ, zero, suc, ◌+◌, ◌*◌, ◌≡◌, ◌≤◌, ◌⊎◌, leb, ◌/◌, ltb, refl, ap, sym, ◌-◌, ◌∙◌, true, none, List,
  [], ◌∷◌, ◌++◌, length, length-append, range_of, arith,
}
use native.Mathlib.Nat.{mul-le-mul_right}
use koalisi.Topology.Errors.{done}
use koalisi.Algorithms.Agents.{AgentCapabilities}
use koalisi.Decision.Magnitude.{Engine, relevant_masks, build_evaluator, magnitude_of_masks}
use koalisi.Decision.Magnitude.Policy.{evaluator, MagnitudePolicy, should_join}
use koalisi.Decision.Magnitude.Coherence.{IsCoherent}
use koalisi.Decision.Magnitude.Queries.{join, leave, after, after-IsCoherent}
use koalisi.Decision.Magnitude.Contract.{IsRounded, IsIncremental, Failed, is_close}
use koalisi.Decision.Magnitude.Fresh.{fresh_join, should_join-act}
use koalisi.Tests.Numbers.{thousandths}
use koalisi.Tests.Shares.{two_agents}

-- One for each member.
abbrev pub counting : Engine thousandths
counting = record {
  CatgraphError = Unit;
  CoalitionEvaluator = ℕ;
  RoleId = ℕ;
  RoleModulation = ℕ;
  coalition_value = λ agents couplings members. done (length members * 1000);
  new_evaluator = λ agents couplings members. done (length members);
  base_value = λ n. n * 1000;
  value_with = λ n slot. done (n * 1000 + 1000);
  modulate = λ couplings roles modulation. done couplings;
}

length-range_of : (start n : ℕ) → length (range_of start n) ≡ n
length-range_of start zero = refl
length-range_of start (suc n) = ap suc (length-range_of (suc start) n)

evaluator_counts :
    (required : ℕ) (masks registry : List ℕ) (ev : ℕ)
    → build_evaluator thousandths counting required masks registry ≡ done ev
    → ev ≡ length masks
unfolding build_evaluator
evaluator_counts required masks registry ev b =
    let e : length (range_of 0 (length masks)) ≡ ev = cc in
    omega (arith, e, length-range_of 0 (length masks))

magnitude_counts :
    (required : ℕ) (masks : List ℕ)
    → magnitude_of_masks thousandths counting masks required ≡ done (length masks * 1000)
unfolding magnitude_of_masks
magnitude_counts required masks = ap (λ n. done (n * 1000)) (length-range_of 0 (length masks))

never_fails :
    (required : ℕ) (masks registry : List ℕ)
    → Failed thousandths counting (build_evaluator thousandths counting required masks registry)
    → Failed thousandths counting (magnitude_of_masks thousandths counting masks required)
unfolding build_evaluator
never_fails required masks registry (e, b) = absurd (ground arith)

one_more :
    (required : ℕ) (masks : List ℕ) (candidate ev : ℕ)
    → ev ≡ length masks
    → magnitude_of_masks thousandths counting (masks ++ candidate ∷ []) required
      ≡ done (ev * 1000 + 1000)
one_more required masks candidate ev e =
    magnitude_counts required (masks ++ candidate ∷ [])
    ∙ ap done (omega (arith, e, length-append masks (candidate ∷ [])))

close_to_itself : (n : ℕ) → is_close thousandths n n ≡ true
close_to_itself n = ground arith

counting-IsIncremental : IsIncremental thousandths counting
counting-IsIncremental = record {
  base_is_exact = λ required masks registry ev b.
      magnitude_counts required masks
      ∙ ap (λ n. done (n * 1000)) (sym (evaluator_counts required masks registry ev b));
  fails_alike = never_fails;
  candidate_is_close = λ required masks registry ev p candidate b at. (
    ev * 1000 + 1000,
    one_more required masks candidate ev (evaluator_counts required masks registry ev b),
    close_to_itself (ev * 1000 + 1000),
    refl,
  );
}

between : (a b t : ℕ) → (ltb t a ≡ ltb t b) ⊎ (leb (a - t) (a - b) ≡ true)
between a b t = ground arith

cancelled :
    (value exact base bound : ℕ)
    → is_close thousandths value exact ≡ true
    → leb ((value - base) - (exact - base)) bound ≡ true
cancelled value exact base bound close = ground arith

scaled : (a b m : ℕ) → leb a b ≡ true → leb (a * m / 1000) (b * m / 1000) ≡ true
scaled a b m h =
    let times : a * m ≤ b * m = mul-le-mul_right m (ground arith) in
    let over : a * m / 1000 ≤ b * m / 1000 = omega (arith, times) in ground (arith, over)

thousandths-IsRounded : IsRounded thousandths
thousandths-IsRounded = record {
  le_trans = λ a b c h k. ground arith;
  between = λ a b t f g. between a b t;
  cancelled = λ value exact base close f g. cancelled value exact base _ close;
  mul_mono = λ a b value base f h. scaled a b _ h;
  small = refl;
}

abbrev pub asked_policy : MagnitudePolicy thousandths counting
asked_policy = record { join_margin = 500; leave_variant = evaluator; cache = none; typed = none }

abbrev pub newcomer : AgentCapabilities
newcomer = record { agent_id = 11; capabilities = 5; trust_level = 2 }

should_join-act_example :
    (should_join thousandths counting asked_policy newcomer two_agents 1).1.act
    ≡ (fresh_join thousandths counting counting-IsIncremental 1
        (relevant_masks (two_agents ++ newcomer ∷ []) 1)
        (relevant_masks two_agents 1)
        500).act
should_join-act_example =
    should_join-act thousandths counting counting-IsIncremental asked_policy newcomer two_agents 1
      refl thousandths-IsRounded tt

after-IsCoherent_example :
    IsCoherent thousandths counting
      (after thousandths counting asked_policy
        (join newcomer two_agents 1 ∷ leave newcomer two_agents 3 ∷ [])).cache
after-IsCoherent_example =
    after-IsCoherent thousandths counting asked_policy
      (join newcomer two_agents 1 ∷ leave newcomer two_agents 3 ∷ []) tt
