-- ===== src/Tests/Samples.antt =====
-- Sample data: a log, and a small graph library that keeps its weights in functions.
use koalisi.Common.{ℕ, List, [], ◌∷◌}
use koalisi.Topology.Events.{
  TemporalEvent, vertex_added, vertex_removed, vertex_weight_updated, hyperedge_added,
  hyperedge_vertices_updated, hyperedges_joined, snapshot_marker,
}
use koalisi.Topology.EventLog.{EventLog, append_all, new}

abbrev pub Event : Type 0
Event = TemporalEvent ℕ ℕ

-- Two agents, two coalitions, a join, a merge, a snapshot, and a removed agent.
abbrev pub sample_events : List Event
sample_events =
    vertex_added 0 0 10
    ∷ vertex_added 1 1 11
    ∷ hyperedge_added 2 0 (0 ∷ []) 7
    ∷ hyperedge_added 3 1 (1 ∷ []) 8
    ∷ hyperedge_vertices_updated 4 0 (0 ∷ []) (0 ∷ 1 ∷ [])
    ∷ snapshot_marker 5 0
    ∷ hyperedges_joined 6 0 (1 ∷ []) (0 ∷ 1 ∷ [])
    ∷ vertex_weight_updated 7 0 10 12
    ∷ vertex_removed 8 1 11
    ∷ []

abbrev pub sample_log : EventLog ℕ ℕ
sample_log = append_all sample_events new
