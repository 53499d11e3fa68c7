-- ===== src/Process/Demand.antt =====
-- src/process/demand.rs: the steps that a workflow demands, with their multiplicities.
use koalisi.Common.{
  ℕ, ◌+◌, ◌/◌, ◌%◌, Bool, true, false, Option, none, some, List, [], ◌∷◌, map, length,
}
use koalisi.Common.SortedMap
use koalisi.Common.SortedMap.{SortedMap}
use koalisi.Process.{Step, WorkflowGen, user, step_key}

pub record Demand : Type 0 where
  pub occurrences : List Step
  pub counts : SortedMap ℕ

abbrev pub or_zero : Option ℕ → ℕ
or_zero none = 0
or_zero (some n) = n

-- `*entry(step).or_insert(0) += 1`
abbrev pub one_more : Option ℕ → ℕ
one_more o = or_zero o + 1

unfoldable pub tally : List Step → SortedMap ℕ → SortedMap ℕ
tally [] counts = counts
tally (step ∷ rest) counts = tally rest (SortedMap.update (step_key step) one_more counts)

unfoldable pub from_steps : List Step → Demand
unfolding tally
from_steps steps = record { occurrences = steps; counts = tally steps [] }

-- the labels that are steps
unfoldable pub steps_of : List WorkflowGen → List Step
steps_of [] = []
steps_of (user step ∷ rest) = step ∷ steps_of rest
steps_of (_ ∷ rest) = steps_of rest

-- `demand`, of the labels of the content's hyperedges
unfoldable pub demand : List WorkflowGen → Demand
unfolding from_steps steps_of
demand labels = from_steps (steps_of labels)

unfoldable pub distinct : Demand → List Step
distinct d = map (λ k. record { bit = k / 256; role = k % 256 }) (SortedMap.keys d.counts)

unfoldable pub distinct_len : Demand → ℕ
distinct_len d = length d.counts

unfoldable pub total : Demand → ℕ
total d = length d.occurrences

unfoldable pub multiplicity : Step → Demand → ℕ
multiplicity step d = or_zero (SortedMap.get (step_key step) d.counts)

unfoldable pub is_empty : Demand → Bool
is_empty d = elim d.occurrences [ [] ↦ true | ◌∷◌ s (rest → h) ↦ false ]
