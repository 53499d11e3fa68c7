-- ===== src/Algorithms/Feedback/Counters.antt =====
-- The counters of the feedback store (src/algorithms/feedback.rs).
use koalisi.Common.{ℕ, ◌+◌, ◌≡◌, Bool, List, [], ◌∷◌, count, if◌then◌else◌, arith}
use koalisi.Common.HashMap
use koalisi.Algorithms.Feedback.{Records, or_default, bumped, bump_each}

-- An agent's counters after a loop over members: one more for each time it stands among them.
pub bump_each-counts :
    (id : ℕ) (is_failure : Bool) (members : List ℕ) (records : Records)
    → let before = or_default (HashMap.get id records) in
      let after = or_default (HashMap.get id (bump_each is_failure members records)) in
      (after.history ≡ before.history + count id members)
      × (after.failures ≡ before.failures + (if is_failure then count id members else 0))
unfolding bump_each bumped
bump_each-counts id is_failure [] records = (omega arith, ground arith)
bump_each-counts id is_failure (m ∷ members) records =
    let ih =
      bump_each-counts id is_failure members (HashMap.update m (bumped is_failure) records) in
    ground (arith, ih, HashMap.get-update m id (bumped is_failure) records)
