-- ===== src/Algorithms/Workload.antt =====
-- src/algorithms/dcvc.rs: the distribution of the work on coalition values over the agents, by their
-- trust. The floats that say how large a share is are a parameter. Coalitions are numbers below
-- `total_coalitions`. The order in which a `HashMap` is iterated is not specified; here it is that of
-- first insertion.
pub mod Cover
pub mod Assignment
use Prim.Native.Nat.{min, max}
use koalisi.Common.{
  range_of, ℕ, zero, suc, ◌+◌, ◌-◌, ◌*◌, ◌%◌, Bool, true, false, ◌||◌, Option, none, some, List, [],
  ◌∷◌, ◌++◌, map, length, get_elem?, replicate, leb, if◌then◌else◌,
}
use koalisi.Common.HashMap
use koalisi.Common.HashMap.{HashMap}
use koalisi.Common.Floats.{Floats}
use koalisi.Algorithms.Agents.{AgentCapabilities}

pub record WorkloadShare : Type 0 where
  pub agent_id : ℕ
  pub coalition_indices : List ℕ
  pub share_size : ℕ

-- `sort_by_key` with `Reverse(trust_level)`: a stable sort, the greatest trust first
unfoldable pub insert_by_trust : AgentCapabilities → List AgentCapabilities → List AgentCapabilities
insert_by_trust a [] = a ∷ []
insert_by_trust a (b ∷ bs) =
    if leb b.trust_level a.trust_level then a ∷ b ∷ bs else b ∷ insert_by_trust a bs

unfoldable pub sort_by_trust : List AgentCapabilities → List AgentCapabilities
sort_by_trust [] = []
sort_by_trust (a ∷ rest) = insert_by_trust a (sort_by_trust rest)

abbrev pub Shares : Type 0
Shares = HashMap WorkloadShare

-- the share of the indices from `start` to `end`
abbrev pub share_of : ℕ → ℕ → ℕ → WorkloadShare
share_of agent start end = record {
  agent_id = agent;
  coalition_indices = range_of start (end - start);
  share_size = end - start;
}

-- `push` of a remaining coalition to a share
abbrev pub pushed : ℕ → WorkloadShare → WorkloadShare
pushed index share = record share {
  coalition_indices = share.coalition_indices ++ index ∷ [];
  share_size = share.share_size + 1;
}

-- `get_mut`, of the agent at a position of the sorted ones
unfoldable pub hand_over : ℕ → Option AgentCapabilities → Shares → Shares
hand_over index none shares = shares
hand_over index (some agent) shares = elim (HashMap.get agent.agent_id shares) [
  | none ↦ shares
  | some share ↦ HashMap.insert agent.agent_id (pushed index share) shares
]

-- `remaining_indices.iter().enumerate()`, from the number `i` on
unfoldable pub hand_out : List AgentCapabilities → ℕ → List ℕ → Shares → Shares
hand_out sorted i [] shares = shares
hand_out sorted i (index ∷ rest) shares =
    hand_out sorted (suc i) rest (hand_over index (get_elem? sorted (i % length sorted)) shares)

module _ (floats : Floats) where
  open floats use {F64, of_nat, mul, div, total, floor}

  unfoldable pub share_size : ℕ → F64 → AgentCapabilities → ℕ
  share_size total_coalitions total_speed agent =
      floor (mul (of_nat total_coalitions) (div (of_nat agent.trust_level) total_speed))

  -- the loop over the agents, from `start_idx` on
  unfoldable pub assign : ℕ → F64 → List AgentCapabilities → ℕ → Shares → Shares × ℕ
  assign total_coalitions total_speed [] start shares = (shares, start)
  assign total_coalitions total_speed (agent ∷ agents) start shares =
      let end = min (start + share_size total_coalitions total_speed agent) total_coalitions in
      assign total_coalitions total_speed agents end
        (HashMap.insert agent.agent_id (share_of agent.agent_id start end) shares)

  -- the agents' shares, and then what remains for the agents with the most trust
  unfoldable pub distribute_workload : List AgentCapabilities → ℕ → Shares
  unfolding assign hand_out
  distribute_workload [] total_coalitions = []
  distribute_workload (agent ∷ agents) zero = []
  distribute_workload (agent ∷ agents) (suc n) =
      let total_speed = total (map (λ a. of_nat a.trust_level) (agent ∷ agents)) in
      let (shares, start) = assign (suc n) total_speed (agent ∷ agents) 0 [] in
      hand_out (sort_by_trust (agent ∷ agents)) 0 (range_of start (suc n - start)) shares

-- `covered[idx]` and `covered[idx] = true`
abbrev pub flag_at : List Bool → ℕ → Bool
flag_at [] i = false
flag_at (b ∷ bs) zero = b
flag_at (b ∷ bs) (suc i) = flag_at bs i

abbrev pub set_flag : ℕ → List Bool → List Bool
set_flag i [] = []
set_flag zero (b ∷ bs) = true ∷ bs
set_flag (suc i) (b ∷ bs) = b ∷ set_flag i bs

abbrev pub all_set : List Bool → Bool
all_set [] = true
all_set (b ∷ bs) = if b then all_set bs else false

-- the inner loop; none is the early `return false`
unfoldable pub cover_indices : ℕ → List ℕ → List Bool → Option (List Bool)
cover_indices total_coalitions [] covered = some covered
cover_indices total_coalitions (index ∷ rest) covered =
    let after = cover_indices total_coalitions rest (set_flag index covered) in
    if leb total_coalitions index || flag_at covered index then none else after

unfoldable pub cover_shares : ℕ → Shares → List Bool → Option (List Bool)
cover_shares total_coalitions [] covered = some covered
cover_shares total_coalitions ((k, share) ∷ shares) covered =
    elim (cover_indices total_coalitions share.coalition_indices covered) [
      | none ↦ none
      | some covered' ↦ cover_shares total_coalitions shares covered'
    ]

unfoldable pub verify_distribution : Shares → ℕ → Bool
unfolding cover_shares
verify_distribution shares total_coalitions =
    elim (cover_shares total_coalitions shares (replicate total_coalitions false)) [
      | none ↦ false
      | some covered ↦ all_set covered
    ]

-- `DistributionStats` without the average, a float: min, max, total, and the count of the shares
abbrev pub Sizes : Type 0
Sizes = ℕ × ℕ × ℕ × ℕ

unfoldable pub fold_sizes : Shares → Sizes → Sizes
fold_sizes [] sizes = sizes
fold_sizes ((k, share) ∷ shares) (least, greatest, sum, count) =
    fold_sizes shares
      (min least share.share_size, max greatest share.share_size, sum + share.share_size, count + 1)

-- `calculate_statistics`; the fold starts at `usize::MAX`
unfoldable pub calculate_sizes : ℕ → Shares → Sizes
calculate_sizes usize_max [] = (0, 0, 0, 0)
calculate_sizes usize_max (entry ∷ shares) = fold_sizes (entry ∷ shares) (usize_max, 0, 0, 0)
