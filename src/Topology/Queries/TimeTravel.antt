-- ===== src/Topology/Queries/TimeTravel.antt =====
-- The five queries about a moment agree with the replay of the log up to that moment
-- (src/topology/queries.rs).
use koalisi.Common.{◌≡◌}
use koalisi.Topology.Timestamp.{Timestamp}
use koalisi.Topology.Events.{VertexIndex, HyperedgeIndex}
use koalisi.Topology.EventLog.{EventLog}
use koalisi.Topology.EventLog.Indexed.{IsIndexed, vertex_events-copies, hyperedge_events-copies}
use koalisi.Topology.EventLog.Chronology.{IsChronological}
use koalisi.Topology.Queries.{
  vertex_exists_at, vertex_weight_at, hyperedge_exists_at, hyperedge_weight_at,
  hyperedge_vertices_at,
}
use koalisi.Topology.Queries.World.{
  World, weight_of, vertices_of, empty, replay, up_to, is_some, IsReplayable,
}
use koalisi.Topology.Queries.Scans.{scan_until-replay}
use koalisi.Topology.Queries.Vertices.{vertex_exists-Follows, vertex_weight-Follows}
use koalisi.Topology.Queries.Hyperedges.{
  hyperedge_exists-Follows, hyperedge_weight-Follows, hyperedge_vertices-Follows,
}

module _ {V HE : Type 0} where
  -- What stands at a moment: the replay of all events of the log up to then.
  abbrev pub world_at : EventLog V HE → Timestamp → World V HE
  world_at log t = replay empty (up_to t log.events)

  -- Take an indexed log in time order whose events up to a moment clear nothing, change only what
  -- is there, and name no join's target among its sources. Then a vertex exists at that moment
  -- exactly when it has a weight in the replay of these events, and the weight at that moment is
  -- the one in the replay.
  pub vertex_queries_replay :
      (log : EventLog V HE) (v : VertexIndex) (t : Timestamp)
      → IsIndexed log
      → IsChronological log.events
      → IsReplayable empty (up_to t log.events)
      → (vertex_exists_at log v t ≡ is_some ((world_at log t).vertex v))
        × (vertex_weight_at log v t ≡ (world_at log t).vertex v)
  unfolding vertex_exists_at vertex_weight_at
  vertex_queries_replay log v t indexed order enabled = rw (vertex_events-copies log v indexed) (
    scan_until-replay (vertex_exists-Follows v) t empty log.events order enabled,
    scan_until-replay (vertex_weight-Follows v) t empty log.events order enabled,
  )

  -- Take an indexed log in time order whose events up to a moment clear nothing, change only what
  -- is there, and name no join's target among its sources. Then a hyperedge exists at that moment
  -- exactly when it stands in the replay of these events, and its weight and its vertices at that
  -- moment are those in the replay.
  pub hyperedge_queries_replay :
      (log : EventLog V HE) (h : HyperedgeIndex) (t : Timestamp)
      → IsIndexed log
      → IsChronological log.events
      → IsReplayable empty (up_to t log.events)
      → (hyperedge_exists_at log h t ≡ is_some ((world_at log t).hyperedge h))
        × (hyperedge_weight_at log h t ≡ weight_of ((world_at log t).hyperedge h))
        × (hyperedge_vertices_at log h t ≡ vertices_of ((world_at log t).hyperedge h))
  unfolding hyperedge_exists_at hyperedge_weight_at hyperedge_vertices_at
  hyperedge_queries_replay log h t indexed order enabled =
      rw (hyperedge_events-copies log h indexed) (
        scan_until-replay (hyperedge_exists-Follows h) t empty log.events order enabled,
        scan_until-replay (hyperedge_weight-Follows h) t empty log.events order enabled,
        scan_until-replay (hyperedge_vertices-Follows h) t empty log.events order enabled,
      )
