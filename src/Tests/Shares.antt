-- ===== src/Tests/Shares.antt =====
-- The work on five coalitions, for two agents.
use koalisi.Common.{ℕ, ◌≡◌, ◌↔◌, refl, true, List, [], ◌∷◌, ltb, if◌then◌else◌, arith}
use koalisi.Common.HashMap
use koalisi.Algorithms.Agents.{AgentCapabilities}
use koalisi.Algorithms.Workload.{
  Shares, distribute_workload, assign, hand_out, hand_over, share_size, insert_by_trust,
  sort_by_trust, share_of, verify_distribution,
}
use koalisi.Algorithms.Workload.Cover.{times_given, verify_distribution_iff}
use koalisi.Algorithms.Workload.Assignment.{verify_distribution-distribute_workload}
use koalisi.Tests.Numbers.{thousandths}

abbrev pub two_agents : List AgentCapabilities
two_agents =
    record { agent_id = 7; capabilities = 1; trust_level = 1 }
    ∷ record { agent_id = 9; capabilities = 3; trust_level = 3 }
    ∷ []

-- Agent 9 is given three by its trust, and the one that remains.
shares_of_5 :
    distribute_workload thousandths two_agents 5
    ≡ (7, share_of 7 0 1)
      ∷ (9, record { agent_id = 9; coalition_indices = 1 ∷ 2 ∷ 3 ∷ 4 ∷ []; share_size = 4 })
      ∷ []
unfolding distribute_workload assign hand_out hand_over share_size sort_by_trust insert_by_trust
    HashMap.update
shares_of_5 = refl

verify_distribution-distribute_workload_example :
    verify_distribution (distribute_workload thousandths two_agents 5) 5 ≡ true
verify_distribution-distribute_workload_example =
    verify_distribution-distribute_workload thousandths two_agents 5 (ground arith)
      (refl, (refl, tt))

-- The coalition 0 is given twice.
abbrev overlapping : Shares
overlapping = (7, share_of 7 0 2) ∷ (9, share_of 9 0 1) ∷ []

verify_distribution_iff_example :
    (verify_distribution overlapping 2 ≡ true)
    ↔ ((i : ℕ) → times_given i overlapping ≡ (if ltb i 2 then 1 else 0))
verify_distribution_iff_example = verify_distribution_iff overlapping 2
