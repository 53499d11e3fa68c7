-- ===== src/Tests/Moments.antt =====
-- The time-travel queries on the sample log.
use koalisi.Common.{◌≡◌, refl, true, false, arith, All, ◌≤◌}
use koalisi.Common.HashMap
use koalisi.Topology.Events.{timestamp, graph_cleared, vertex_index, hyperedge_index}
use koalisi.Topology.EventLog.{
  append, append_all, new, clear, vertex_events, hyperedge_events, contracted_vertices,
  joined_sources, push_each, select, select_all,
}
use koalisi.Topology.EventLog.Chronology.{IsChronological}
use koalisi.Topology.EventLog.Valid.{IsValid, append_all-IsValid}
use koalisi.Topology.Queries.{
  scan_until, vertex_exists_step, hyperedge_exists_step, vertex_exists_at, vertex_weight_at,
  hyperedge_exists_at, hyperedge_weight_at, hyperedge_vertices_at,
}
use koalisi.Topology.Queries.World.{
  empty, apply, replay, up_to, is_some, weight_of, vertices_of, IsReplayable,
}
use koalisi.Topology.Queries.TimeTravel.{world_at, vertex_queries_replay, hyperedge_queries_replay}
use koalisi.Topology.Queries.Clears.{vertex_survives_clear}
use koalisi.Tests.Samples.{sample_events, sample_log}

sample-IsValid : IsValid sample_log
unfolding clear
sample-IsValid = (append_all-IsValid sample_events new).0

sample_order : IsChronological sample_log.events
unfolding append_all append timestamp
sample_order = omega arith

sample-IsReplayable : IsReplayable empty (up_to 6 sample_log.events)
unfolding append_all append timestamp apply
sample-IsReplayable = (tt, (tt, (tt, (tt, (refl, (tt, ((refl, refl), tt)))))))

vertex_queries_replay_example :
    (vertex_exists_at sample_log 1 6 ≡ is_some ((world_at sample_log 6).vertex 1))
    × (vertex_weight_at sample_log 1 6 ≡ (world_at sample_log 6).vertex 1)
vertex_queries_replay_example =
    vertex_queries_replay sample_log 1 6 sample-IsValid.indexed sample_order sample-IsReplayable

hyperedge_queries_replay_example :
    (hyperedge_exists_at sample_log 1 6 ≡ is_some ((world_at sample_log 6).hyperedge 1))
    × (hyperedge_weight_at sample_log 1 6 ≡ weight_of ((world_at sample_log 6).hyperedge 1))
    × (hyperedge_vertices_at sample_log 1 6 ≡ vertices_of ((world_at sample_log 6).hyperedge 1))
hyperedge_queries_replay_example =
    hyperedge_queries_replay sample_log 1 6 sample-IsValid.indexed sample_order sample-IsReplayable

vertex_there : vertex_exists_at sample_log 0 9 ≡ true
unfolding vertex_exists_at vertex_events append_all append timestamp select_all select
    HashMap.update vertex_index contracted_vertices push_each scan_until vertex_exists_step
vertex_there = refl

hyperedge_there : hyperedge_exists_at sample_log 0 9 ≡ true
unfolding hyperedge_exists_at hyperedge_events append_all append timestamp select_all select
    HashMap.update hyperedge_index joined_sources push_each scan_until hyperedge_exists_step
hyperedge_there = refl

vertex_survives_clear_example :
    (vertex_exists_at (append (graph_cleared 9 1 1) sample_log) 0 9 ≡ true)
    × (is_some ((replay empty (append (graph_cleared 9 1 1) sample_log).events).vertex 0) ≡ false)
vertex_survives_clear_example =
    vertex_survives_clear sample_log 9 1 1 0 9 sample-IsValid.indexed vertex_there

vertex_past : All (λ e. timestamp e ≤ 8) (vertex_events sample_log 1)
unfolding vertex_events append_all append timestamp select_all select HashMap.update vertex_index
    contracted_vertices push_each
vertex_past = omega arith

hyperedge_past : All (λ e. timestamp e ≤ 8) (hyperedge_events sample_log 1)
unfolding hyperedge_events append_all append timestamp select_all select HashMap.update
    hyperedge_index joined_sources push_each
hyperedge_past = omega arith
