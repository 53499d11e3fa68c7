-- ===== src/Algorithms/Values.antt =====
-- src/algorithms/value_calculation.rs: the values of coalitions, over the floats of the source.
use Prim.Native.Nat.{bit_or}
use koalisi.Common.{ℕ, zero, suc, ◌+◌, ◌/◌, ◌%◌, List, [], ◌∷◌, map, length, leb, if◌then◌else◌}
use koalisi.Common.Floats.{Floats}
use koalisi.Algorithms.Agents.{AgentCapabilities}

-- `count_ones` of the lowest `width` bits
unfoldable pub ones_below : ℕ → ℕ → ℕ
ones_below zero mask = 0
ones_below (suc width) mask = mask % 2 + ones_below width (mask / 2)

unfoldable pub count_ones : ℕ → ℕ
unfolding ones_below
count_ones mask = ones_below 32 mask

abbrev pub team_threshold : ℕ
team_threshold = 3

module _ (floats : Floats) where
  open floats use {F64, of_nat, add, mul, div, total, product}

  -- The literals of the source: whole numbers, and halves, which floats have exactly.
  abbrev pub size_unit : F64
  size_unit = of_nat 50

  abbrev pub cap_unit : F64
  cap_unit = of_nat 10

  abbrev pub synergy_unit : F64
  synergy_unit = of_nat 25

  abbrev pub team_unit : F64
  team_unit = of_nat 30

  abbrev pub halves : ℕ → F64
  halves n = div (of_nat n) (of_nat 2)

  unfoldable pub size_bonus : List AgentCapabilities → F64
  size_bonus agents = mul (of_nat (length agents)) size_unit

  unfoldable pub capability_bonus : List AgentCapabilities → F64
  capability_bonus agents =
      total (map (λ a. mul (of_nat (count_ones a.capabilities)) cap_unit) agents)

  unfoldable pub trust_sum : List AgentCapabilities → F64
  trust_sum agents = total (map (λ a. of_nat a.trust_level) agents)

  unfoldable pub combined_capabilities : ℕ → List AgentCapabilities → ℕ
  combined_capabilities acc [] = acc
  combined_capabilities acc (a ∷ rest) = combined_capabilities (bit_or acc a.capabilities) rest

  -- `AdditiveCalculator`
  unfoldable pub additive : List AgentCapabilities → F64
  additive [] = of_nat 0
  additive (a ∷ rest) =
      let agents = a ∷ rest in
      add (add (size_bonus agents) (capability_bonus agents)) (trust_sum agents)

  -- `SynergisticCalculator`
  unfoldable pub synergistic : List AgentCapabilities → F64
  synergistic [] = of_nat 0
  synergistic (a ∷ rest) =
      let agents = a ∷ rest in
      let avg_trust = div (trust_sum agents) (of_nat (length agents)) in
      let synergy_bonus = mul (of_nat (count_ones (combined_capabilities 0 agents))) synergy_unit in
      let team_bonus =
        if leb team_threshold (length agents)
        then mul (of_nat (length agents)) team_unit
        else of_nat 0 in
      add (add (add (add (size_bonus agents) (capability_bonus agents)) avg_trust) synergy_bonus)
        team_bonus

  -- the product's factor of an agent
  unfoldable pub factor : AgentCapabilities → F64
  factor a =
      mul (add (of_nat (count_ones a.capabilities)) (of_nat 1))
        (div (of_nat a.trust_level) (of_nat 100))

  -- `MultiplicativeCalculator`
  unfoldable pub multiplicative : F64 → List AgentCapabilities → F64
  multiplicative base_multiplier [] = of_nat 0
  multiplicative base_multiplier (a ∷ rest) =
      let agents = a ∷ rest in
      mul (mul (product (map factor agents)) base_multiplier) (of_nat (length agents))

  pub record WeightedCalculator : Type 0 where
    pub size_weight : F64
    pub capability_weight : F64
    pub trust_weight : F64
    pub synergy_weight : F64

  unfoldable pub balanced : WeightedCalculator
  balanced = record {
    size_weight = of_nat 1;
    capability_weight = of_nat 1;
    trust_weight = of_nat 1;
    synergy_weight = of_nat 1;
  }

  unfoldable pub capability_focused : WeightedCalculator
  capability_focused = record {
    size_weight = halves 1;
    capability_weight = of_nat 2;
    trust_weight = halves 1;
    synergy_weight = halves 3;
  }

  unfoldable pub trust_focused : WeightedCalculator
  trust_focused = record {
    size_weight = halves 1;
    capability_weight = halves 1;
    trust_weight = of_nat 2;
    synergy_weight = halves 1;
  }

  unfoldable pub weighted : WeightedCalculator → List AgentCapabilities → F64
  weighted w [] = of_nat 0
  weighted w (a ∷ rest) =
      let agents = a ∷ rest in
      let synergy = mul (of_nat (count_ones (combined_capabilities 0 agents))) synergy_unit in
      add
        (add
          (add (mul (size_bonus agents) w.size_weight)
            (mul (capability_bonus agents) w.capability_weight))
          (mul (trust_sum agents) w.trust_weight))
        (mul synergy w.synergy_weight)
