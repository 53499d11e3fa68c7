-- ===== src/Topology/Events/Totals.antt =====
-- Every event is counted once (src/topology/events.rs).
use koalisi.Common.{◌+◌, ◌≡◌, arith}
use koalisi.Topology.Events.{TemporalEvent, EventStats, vertex_added, count_event, total}

pub total-count_event :
    {V HE : Type 0} (s : EventStats) (e : TemporalEvent V HE)
    → total (count_event s e) ≡ total s + 1
unfolding total count_event
total-count_event s (vertex_added t i w) = omega arith
total-count_event s _ = omega arith
