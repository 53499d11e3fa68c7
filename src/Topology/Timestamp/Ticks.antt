-- ===== src/Topology/Timestamp/Ticks.antt =====
-- The clock's order (src/topology/timestamp.rs).
use koalisi.Common.{ℕ, ◌+◌, ◌≤◌, ◌<◌, ◌≡◌, ◌⊎◌, ◌%◌, List, [], ◌∷◌, arith}
use koalisi.Topology.Timestamp.{Timestamp, Clock, u64_mod, tick, current, advance_to}

-- Below the wrap, a tick hands out the current time and moves the clock past it.
pub tick_advances :
    (c : Clock)
    → current c + 1 < u64_mod
    → ((tick c).0 ≡ current c) × (current (tick c).1 ≡ current c + 1)
unfolding tick current
tick_advances c h = ground arith

-- how far other threads move the counter in all
abbrev pub added : List ℕ → ℕ
added [] = 0
added (d ∷ others) = d + added others

-- Whatever other threads add to the clock between its rounds, `advance_to` leaves the clock at or
-- past the target, and it returns the time at which it left the clock. It never moves the clock
-- back, unless the others' additions carry the counter to 2 ^ 64, where it wraps around.
pub advance_to_reaches :
    (others : List ℕ) (c : Clock) (t : Timestamp)
    → (t ≤ current (advance_to others c t).1)
      × ((current c ≤ current (advance_to others c t).1) ⊎ (u64_mod ≤ current c + added others))
      × ((advance_to others c t).0 ≡ current (advance_to others c t).1)
unfolding advance_to current
advance_to_reaches [] c t = ground arith
advance_to_reaches (d ∷ others) c t =
    ground (arith, advance_to_reaches others (record { counter = (c.counter + d) % u64_mod }) t)
