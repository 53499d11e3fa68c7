-- ===== src/Tests/Clocks.antt =====
-- Timestamps and clocks on small inputs.
use koalisi.Common.{◌≤◌, ◌≡◌, ◌+◌, ◌⊎◌, refl, true, false, [], ◌∷◌}
use koalisi.Topology.Timestamp.{Clock, u64_mod, between, contains, current, advance_to}
use koalisi.Topology.Timestamp.Ticks.{advance_to_reaches, added}

abbrev early : Clock
early = record { counter = 2 }

contains_start : contains (between 10 20) 10 ≡ true
unfolding contains
contains_start = refl

contains_end : contains (between 10 20) 20 ≡ false
unfolding contains
contains_end = refl

advance_past_interference : advance_to (3 ∷ []) early 10 ≡ (10, record { counter = 10 })
unfolding advance_to
advance_past_interference = refl

advance_to_reaches_example :
    (9 ≤ current (advance_to (3 ∷ []) early 9).1)
    × ((current early ≤ current (advance_to (3 ∷ []) early 9).1)
        ⊎ (u64_mod ≤ current early + added (3 ∷ [])))
    × ((advance_to (3 ∷ []) early 9).0 ≡ current (advance_to (3 ∷ []) early 9).1)
advance_to_reaches_example = advance_to_reaches (3 ∷ []) early 9
