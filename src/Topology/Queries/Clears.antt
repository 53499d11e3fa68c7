-- ===== src/Topology/Queries/Clears.antt =====
-- The time-travel queries and the two events that clear the graph (src/topology/queries.rs).
use koalisi.Common.{ℕ, ◌≡◌, refl, ◌∙◌, true, false, List, [], ◌∷◌, ◌++◌, append-nil}
use koalisi.Topology.Timestamp.{Timestamp}
use koalisi.Topology.Events.{
  TemporalEvent, graph_cleared, hyperedges_cleared, VertexIndex, HyperedgeIndex, vertex_index,
  hyperedge_index,
}
use koalisi.Topology.EventLog.{
  EventLog, append, contracted_vertices, joined_sources, vertex_events, hyperedge_events,
}
use koalisi.Topology.EventLog.Positions.{copies-append}
use koalisi.Topology.EventLog.Indexed.{
  IsIndexed, append-IsIndexed, vertex_mentions, hyperedge_mentions, vertex_events-copies,
  hyperedge_events-copies,
}
use koalisi.Topology.EventLog.Valid.{events-append}
use koalisi.Topology.Queries.{vertex_exists_at, hyperedge_exists_at}
use koalisi.Topology.Queries.World.{World, empty, apply, replay, is_some}

module _ {V HE : Type 0} where
  vertex_events-unnamed :
      (e : TemporalEvent V HE) (log : EventLog V HE) (v : VertexIndex)
      → IsIndexed log
      → vertex_mentions v e ≡ 0
      → vertex_events (append e log) v ≡ vertex_events log v
  vertex_events-unnamed e log v h none =
      rw
        (
          vertex_events-copies (append e log) v (append-IsIndexed e log h),
          vertex_events-copies log v h,
          events-append,
          copies-append,
          none,
        )
        (append-nil _)

  hyperedge_events-unnamed :
      (e : TemporalEvent V HE) (log : EventLog V HE) (k : HyperedgeIndex)
      → IsIndexed log
      → hyperedge_mentions k e ≡ 0
      → hyperedge_events (append e log) k ≡ hyperedge_events log k
  hyperedge_events-unnamed e log k h none =
      rw
        (
          hyperedge_events-copies (append e log) k (append-IsIndexed e log h),
          hyperedge_events-copies log k h,
          events-append,
          copies-append,
          none,
        )
        (append-nil _)

  replay-append :
      (w : World V HE) (es : List (TemporalEvent V HE)) (e : TemporalEvent V HE)
      → replay w (es ++ e ∷ []) ≡ apply (replay w es) e
  unfolding replay
  replay-append w [] e = refl
  replay-append w (x ∷ es) e = replay-append (apply w x) es e

  vertex_exists_at-cleared :
      (log : EventLog V HE) (t : Timestamp) (n m : ℕ) (v : VertexIndex) (s : Timestamp)
      → IsIndexed log
      → vertex_exists_at (append (graph_cleared t n m) log) v s ≡ vertex_exists_at log v s
  unfolding vertex_exists_at vertex_index contracted_vertices
  vertex_exists_at-cleared log t n m v s h =
      rw (vertex_events-unnamed (graph_cleared t n m) log v h refl)

  hyperedge_exists_at-cleared :
      (log : EventLog V HE) (t : Timestamp) (n : ℕ) (k : HyperedgeIndex) (s : Timestamp)
      → IsIndexed log
      → hyperedge_exists_at (append (hyperedges_cleared t n) log) k s ≡ hyperedge_exists_at log k s
  unfolding hyperedge_exists_at hyperedge_index joined_sources
  hyperedge_exists_at-cleared log t n k s h =
      rw (hyperedge_events-unnamed (hyperedges_cleared t n) log k h refl)

  gone_after_clear :
      (es : List (TemporalEvent V HE)) (t : Timestamp) (n m : ℕ) (v : VertexIndex)
      → is_some ((replay empty (es ++ graph_cleared t n m ∷ [])).vertex v) ≡ false
  unfolding apply
  gone_after_clear es t n m v = rw (replay-append empty es (graph_cleared t n m))

  -- Clearing the graph is not seen by the query: a vertex that exists at a moment according to an
  -- indexed log still exists at that moment after the clear is recorded, whatever its timestamp,
  -- although no vertex stands in the replay of the log with the clear.
  pub vertex_survives_clear :
      (log : EventLog V HE) (t : Timestamp) (n m : ℕ) (v : VertexIndex) (s : Timestamp)
      → IsIndexed log
      → vertex_exists_at log v s ≡ true
      → (vertex_exists_at (append (graph_cleared t n m) log) v s ≡ true)
        × (is_some ((replay empty (append (graph_cleared t n m) log).events).vertex v) ≡ false)
  vertex_survives_clear log t n m v s h e = (
    vertex_exists_at-cleared log t n m v s h ∙ e,
    rw events-append (gone_after_clear log.events t n m v),
  )

  hyperedge_gone_after_clear :
      (es : List (TemporalEvent V HE)) (t : Timestamp) (n : ℕ) (k : HyperedgeIndex)
      → is_some ((replay empty (es ++ hyperedges_cleared t n ∷ [])).hyperedge k) ≡ false
  unfolding apply
  hyperedge_gone_after_clear es t n k = rw (replay-append empty es (hyperedges_cleared t n))

  -- Clearing the hyperedges is not seen by the query: a hyperedge that exists at a moment according
  -- to an indexed log still exists at that moment after the clear is recorded, whatever its
  -- timestamp, although no hyperedge stands in the replay of the log with the clear.
  pub hyperedge_survives_clear :
      (log : EventLog V HE) (t : Timestamp) (n : ℕ) (k : HyperedgeIndex) (s : Timestamp)
      → IsIndexed log
      → hyperedge_exists_at log k s ≡ true
      → (hyperedge_exists_at (append (hyperedges_cleared t n) log) k s ≡ true)
        × (is_some ((replay empty (append (hyperedges_cleared t n) log).events).hyperedge k)
            ≡ false)
  hyperedge_survives_clear log t n k s h e = (
    hyperedge_exists_at-cleared log t n k s h ∙ e,
    rw events-append (hyperedge_gone_after_clear log.events t n k),
  )
