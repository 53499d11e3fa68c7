-- ===== src/Tests/Processes.antt =====
-- Prices in a pool of three, and a wrapped policy.
use koalisi.Common.{ℕ, ◌+◌, ◌≡◌, refl, true, false, ltb, List, [], ◌∷◌, ◌++◌, ◌==◌, ◌*◌, ◌/◌, arith}
use koalisi.Decision.Magnitude.{
  build_evaluator, relevant_masks, relevant_from, magnitude_or_zero, magnitude_of_masks,
}
use koalisi.Decision.Magnitude.Policy.{
  should_join, join_dispatch, join_masks, settled, join_decision_from_values, join_rule,
  is_knife_edge,
}
use koalisi.Decision.Magnitude.Cache.{
  cached_base_and_with, ensure_cached_candidate, entry_for, rebuild, registered, take_registry,
  with_candidate,
}
use koalisi.Process.{Step, user, delta}
use koalisi.Process.Demand.{demand}
use koalisi.Process.Cost.{from_pool, price, staffing_price}
use koalisi.Process.Cost.Scarcity.{lacking, price-from_pool}
use koalisi.Process.Residual.{
  Residual, occurrences, price_steps, ResidualPolicy, new_policy, residual_join, evaluation_failed,
}
use koalisi.Process.Residual.Correction.{IsRising, new_policy-IsClamped, residual_join-act}
use koalisi.Tests.Numbers.{thousandths}
use koalisi.Tests.Shares.{two_agents}
use koalisi.Tests.Magnitudes.{counting, asked_policy, newcomer}

abbrev step_0 : Step
step_0 = record { bit = 0; role = 1 }

abbrev step_2 : Step
step_2 = record { bit = 2; role = 1 }

abbrev pool_of_3 : List (ℕ × ℕ)
pool_of_3 = (1, 1) ∷ (5, 1) ∷ (4, 2) ∷ []

price-from_pool_example : price (from_pool pool_of_3) step_2 ≡ 1 + lacking step_2 pool_of_3
price-from_pool_example =
    price-from_pool pool_of_3 step_2 (omega arith) (omega arith, (omega arith, (omega arith, tt)))
      (omega arith) (omega arith)

abbrev sample_residual : Residual
sample_residual =
    price_steps (demand (user step_0 ∷ delta 1 ∷ user step_2 ∷ user step_2 ∷ [])) occurrences
      (staffing_price (from_pool pool_of_3))

rises :
    (margin score lambda n : ℕ)
    → ltb margin score ≡ true
    → ltb margin (score + lambda * (n * 1000) / 1000) ≡ true
rises margin score lambda n h = ground arith

thousandths-IsRising : IsRising thousandths
thousandths-IsRising = record {
  zero_finite = refl;
  zero_le_zero = refl;
  stays_above = λ margin score lambda n finite positive finite' h. rises margin score lambda n h;
}

abbrev wrapped : ResidualPolicy thousandths counting (λ n. n) (λ a b. a == b)
wrapped =
    new_policy thousandths counting (λ n. n) (λ a b. a == b) asked_policy
      ((7, 1) ∷ (9, 1) ∷ (11, 2) ∷ []) 250 sample_residual

evaluated :
    evaluation_failed thousandths counting
      (λ n. n)
      (λ a b. a == b)
      two_agents
      (two_agents ++ newcomer ∷ [])
      1
    ≡ false
unfolding evaluation_failed relevant_masks relevant_from magnitude_or_zero magnitude_of_masks
evaluated = refl

joins : (should_join thousandths counting wrapped.inner newcomer two_agents 1).1.act ≡ true
unfolding should_join join_dispatch join_masks relevant_masks relevant_from cached_base_and_with
    ensure_cached_candidate entry_for rebuild registered take_registry with_candidate settled
    join_decision_from_values join_rule is_knife_edge new_policy build_evaluator
joins = refl

residual_join-act_example :
    (residual_join thousandths counting
      (λ n. n)
      (λ a b. a == b)
      wrapped
      newcomer
      two_agents
      1).1.act
    ≡ true
residual_join-act_example =
    residual_join-act thousandths counting (λ n. n) (λ a b. a == b) wrapped newcomer two_agents 1
      thousandths-IsRising
      (new_policy-IsClamped thousandths counting (λ n. n) (λ a b. a == b) asked_policy
        ((7, 1) ∷ (9, 1) ∷ (11, 2) ∷ []) 250 sample_residual thousandths-IsRising)
      evaluated joins
