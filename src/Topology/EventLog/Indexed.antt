-- ===== src/Topology/EventLog/Indexed.antt =====
-- The indexes by vertex and by hyperedge list the right events (src/topology/event_log.rs).
use koalisi.Common.{ℕ, ◌+◌, ◌≡◌, refl, to_list, count}
use native.Mathlib.Nat.{zero-add}
use koalisi.Common.HashMap
use koalisi.Topology.Events.{
  TemporalEvent, VertexIndex, HyperedgeIndex, vertex_index, hyperedge_index,
}
use koalisi.Topology.EventLog.{
  EventLog, new, append, or_default, contracted_vertices, joined_sources, vertex_events,
  hyperedge_events,
}
use koalisi.Topology.EventLog.Positions.{
  copies, positions, positions-append, select-positions, get-push_twice,
}

module _ {V HE : Type 0} where
  -- How often an event names a vertex: as its subject, or among the vertices it contracts.
  abbrev pub vertex_mentions : VertexIndex → TemporalEvent V HE → ℕ
  vertex_mentions v e = count v (to_list (vertex_index e)) + count v (contracted_vertices e)

  -- How often an event names a hyperedge: as its subject, or among the sources of a join.
  abbrev pub hyperedge_mentions : HyperedgeIndex → TemporalEvent V HE → ℕ
  hyperedge_mentions h e = count h (to_list (hyperedge_index e)) + count h (joined_sources e)

  -- Each index lists the positions of the events that name its key.
  pub record IsIndexed (log : EventLog V HE) : Type 0 where
    pub by_vertex :
        (v : VertexIndex)
        → or_default (HashMap.get v log.vertex_index) ≡ positions (vertex_mentions v) 0 log.events
    pub by_hyperedge :
        (h : HyperedgeIndex)
        → or_default (HashMap.get h log.hyperedge_index)
          ≡ positions (hyperedge_mentions h) 0 log.events

  pub new-IsIndexed : IsIndexed new
  new-IsIndexed = record { by_vertex = λ v. refl; by_hyperedge = λ h. refl }

  pub append-IsIndexed :
      (e : TemporalEvent V HE) (log : EventLog V HE) → IsIndexed log → IsIndexed (append e log)
  unfolding append
  append-IsIndexed e log h = record {
    by_vertex = λ v. rw (get-push_twice, h.by_vertex v, positions-append, zero-add);
    by_hyperedge = λ k. rw (get-push_twice, h.by_hyperedge k, positions-append, zero-add);
  }

  -- On an indexed log, the events of a vertex are all events that name the vertex, each as
  -- often as it names it, in the order in which they were recorded.
  pub vertex_events-copies :
      (log : EventLog V HE) (v : VertexIndex)
      → IsIndexed log
      → vertex_events log v ≡ copies (vertex_mentions v) log.events
  unfolding vertex_events
  vertex_events-copies log v h = rw (h.by_vertex v) (select-positions _ log.events)

  -- On an indexed log, the events of a hyperedge are all events that name the hyperedge, each
  -- as often as it names it, in the order in which they were recorded.
  pub hyperedge_events-copies :
      (log : EventLog V HE) (k : HyperedgeIndex)
      → IsIndexed log
      → hyperedge_events log k ≡ copies (hyperedge_mentions k) log.events
  unfolding hyperedge_events
  hyperedge_events-copies log k h = rw (h.by_hyperedge k) (select-positions _ log.events)
