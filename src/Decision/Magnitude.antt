-- ===== src/Decision/Magnitude.antt =====
-- src/decision/magnitude_policy.rs, in the build without the feature `magnitude-fast`: the masks of the
-- members that matter to a task, their couplings, and the magnitude of a coalition. The magnitude
-- engine (`catgraph_magnitude`) is a parameter: the fresh evaluation, the incremental evaluator, and
-- the modulation of couplings by roles. Log output is not modelled.
pub mod Cache
pub mod Typed
pub mod Policy
pub mod Masks
pub mod Coherence
pub mod Contract
pub mod Fresh
pub mod Queries
pub mod Value
use Prim.Native.Nat.{bit_and}
use koalisi.Common.{
  ℕ, zero, suc, ◌+◌, Bool, not, ◌&&◌, List, [], ◌∷◌, ◌++◌, length, contains, range_of, ◌==◌,
  if◌then◌else◌,
}
use koalisi.Common.Floats.{Floats}
use koalisi.Topology.Errors.{Attempt, done}
use koalisi.Algorithms.Agents.{AgentCapabilities}
use koalisi.Algorithms.Values.{count_ones}

-- `caps & required != 0`
abbrev pub is_relevant : ℕ → ℕ → Bool
is_relevant caps required = not (bit_and caps required == 0)

-- The loop over the agents, with the numbers of those it has kept.
unfoldable pub relevant_from : ℕ → List ℕ → List AgentCapabilities → List ℕ
relevant_from required seen [] = []
relevant_from required seen (a ∷ rest) =
    let kept = a.capabilities ∷ relevant_from required (a.agent_id ∷ seen) rest in
    let skipped = relevant_from required seen rest in
    if is_relevant a.capabilities required && not (contains seen a.agent_id) then kept else skipped

unfoldable pub relevant_masks : List AgentCapabilities → ℕ → List ℕ
unfolding relevant_from
relevant_masks agents required = relevant_from required [] agents

module _ (floats : Floats) where
  open floats use {F64, of_nat, div, lt}

  -- from, to, and how far the second can stand in for the first
  abbrev pub Coupling : Type 0
  Coupling = ℕ × ℕ × F64

  -- `catgraph_magnitude`, at the scale 1
  pub record Engine : Type 1 where
    pub CatgraphError : Type 0
    pub CoalitionEvaluator : Type 0
    pub RoleId : Type 0
    pub RoleModulation : Type 0
    -- agents, couplings, members
    pub coalition_value : List ℕ → List Coupling → List ℕ → Attempt CatgraphError F64
    pub new_evaluator : List ℕ → List Coupling → List ℕ → Attempt CatgraphError CoalitionEvaluator
    pub base_value : CoalitionEvaluator → F64
    pub value_with : CoalitionEvaluator → ℕ → Attempt CatgraphError F64
    pub modulate :
        List Coupling → List RoleId → RoleModulation → Attempt CatgraphError (List Coupling)

  unfoldable pub coupling : ℕ → ℕ → ℕ → F64
  coupling from_caps to_caps required =
      let rel_from = bit_and from_caps required in
      let rel_to = bit_and to_caps required in
      if rel_from == 0
      then of_nat 0
      else div (of_nat (count_ones (bit_and rel_from rel_to))) (of_nat (count_ones rel_from))

  -- `if p > 0.0 { couplings.push((i, j, p)); }`
  unfoldable pub push_positive : ℕ → ℕ → F64 → List Coupling
  push_positive i j p = if lt (of_nat 0) p then (i, j, p) ∷ [] else []

  -- the inner and the outer loop over the ordered pairs of members
  unfoldable pub couple_row : ℕ → ℕ → ℕ → ℕ → List ℕ → List Coupling
  couple_row required i from j [] = []
  couple_row required i from j (to ∷ rest) =
      (if i == j then [] else push_positive i j (coupling from to required))
      ++ couple_row required i from (suc j) rest

  unfoldable pub couple_rows : ℕ → ℕ → List ℕ → List ℕ → List Coupling
  couple_rows required i [] masks = []
  couple_rows required i (from ∷ rest) masks =
      couple_row required i from 0 masks ++ couple_rows required (suc i) rest masks

  unfoldable pub member_couplings : ℕ → List ℕ → List Coupling
  unfolding couple_rows
  member_couplings required masks = couple_rows required 0 masks masks

  module _ (engine : Engine) where
    open engine use {CatgraphError, CoalitionEvaluator, coalition_value, new_evaluator}

    unfoldable pub magnitude_of_masks : List ℕ → ℕ → Attempt CatgraphError F64
    magnitude_of_masks masks required =
        let agents = range_of 0 (length masks) in
        coalition_value agents (member_couplings required masks) agents

    unfoldable pub magnitude_or_zero : List ℕ → ℕ → Attempt CatgraphError F64
    unfolding magnitude_of_masks
    magnitude_or_zero [] required = done (of_nat 0)
    magnitude_or_zero (mask ∷ masks) required = magnitude_of_masks (mask ∷ masks) required

    -- the couplings of one candidate with the members, in both directions
    unfoldable pub couple_candidate : ℕ → ℕ → ℕ → ℕ → List ℕ → List Coupling
    couple_candidate required cand slot i [] = []
    couple_candidate required cand slot i (mem ∷ rest) =
        push_positive i slot (coupling mem cand required)
        ++ (push_positive slot i (coupling cand mem required)
            ++ couple_candidate required cand slot (suc i) rest)

    -- the loop over the candidates, whose slots start at `slot`
    unfoldable pub couple_candidates : ℕ → List ℕ → ℕ → List ℕ → List Coupling
    unfolding couple_candidate
    couple_candidates required members slot [] = []
    couple_candidates required members slot (cand ∷ rest) =
        (if bit_and cand required == 0 then [] else couple_candidate required cand slot 0 members)
        ++ couple_candidates required members (suc slot) rest

    unfoldable pub build_evaluator : ℕ → List ℕ → List ℕ → Attempt CatgraphError CoalitionEvaluator
    unfolding couple_candidates
    build_evaluator required member_masks candidate_masks =
        let m = length member_masks in
        new_evaluator (range_of 0 (m + length candidate_masks))
          (member_couplings required member_masks
            ++ couple_candidates required member_masks m candidate_masks)
          (range_of 0 m)
