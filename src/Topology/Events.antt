-- ===== src/Topology/Events.antt =====
-- src/topology/events.rs: the events of the temporal hypergraph, what each event is indexed under,
-- and the running counts by kind. The counts are `usize` in the source; the events are held in
-- memory, so that a count cannot reach 2^64, and here they are plain numbers.
pub mod Totals
use koalisi.Common.{ℕ, ◌+◌, Bool, true, false, Option, none, some, List}
use koalisi.Topology.Timestamp.{Timestamp}

-- The index types of the graph library, and `SnapshotId`: numbers in tuple structs.
abbrev pub VertexIndex : Type 0
VertexIndex = ℕ

abbrev pub HyperedgeIndex : Type 0
HyperedgeIndex = ℕ

abbrev pub SnapshotId : Type 0
SnapshotId = ℕ

pub data TemporalEvent (V HE : Type 0) : Type 0 where
  vertex_added : Timestamp → VertexIndex → V → TemporalEvent V HE
  vertex_removed : Timestamp → VertexIndex → V → TemporalEvent V HE
  -- the old and the new weight
  vertex_weight_updated : Timestamp → VertexIndex → V → V → TemporalEvent V HE
  hyperedge_added : Timestamp → HyperedgeIndex → List VertexIndex → HE → TemporalEvent V HE
  hyperedge_removed : Timestamp → HyperedgeIndex → List VertexIndex → HE → TemporalEvent V HE
  -- the old and the new weight
  hyperedge_weight_updated : Timestamp → HyperedgeIndex → HE → HE → TemporalEvent V HE
  -- the old and the new vertices
  hyperedge_vertices_updated :
      Timestamp → HyperedgeIndex → List VertexIndex → List VertexIndex → TemporalEvent V HE
  -- the old and the new vertices
  hyperedge_reversed :
      Timestamp → HyperedgeIndex → List VertexIndex → List VertexIndex → TemporalEvent V HE
  -- the target, the sources, and the new vertices of the target
  hyperedges_joined :
      Timestamp → HyperedgeIndex → List HyperedgeIndex → List VertexIndex → TemporalEvent V HE
  -- the hyperedge, the contracted vertices, the target vertex, the old and the new vertices
  vertices_contracted :
      Timestamp
      → HyperedgeIndex
      → List VertexIndex
      → VertexIndex
      → List VertexIndex
      → List VertexIndex
      → TemporalEvent V HE
  hyperedges_cleared : Timestamp → ℕ → TemporalEvent V HE
  -- how many vertices and hyperedges there were
  graph_cleared : Timestamp → ℕ → ℕ → TemporalEvent V HE
  snapshot_marker : Timestamp → SnapshotId → TemporalEvent V HE

module _ {V HE : Type 0} where
  unfoldable pub timestamp : TemporalEvent V HE → Timestamp
  timestamp (vertex_added t i w) = t
  timestamp (vertex_removed t i w) = t
  timestamp (vertex_weight_updated t i old new) = t
  timestamp (hyperedge_added t i vs w) = t
  timestamp (hyperedge_removed t i vs w) = t
  timestamp (hyperedge_weight_updated t i old new) = t
  timestamp (hyperedge_vertices_updated t i old new) = t
  timestamp (hyperedge_reversed t i old new) = t
  timestamp (hyperedges_joined t i sources new) = t
  timestamp (vertices_contracted t i contracted target old new) = t
  timestamp (hyperedges_cleared t n) = t
  timestamp (graph_cleared t n m) = t
  timestamp (snapshot_marker t s) = t

  unfoldable pub vertex_index : TemporalEvent V HE → Option VertexIndex
  vertex_index (vertex_added t i w) = some i
  vertex_index (vertex_removed t i w) = some i
  vertex_index (vertex_weight_updated t i old new) = some i
  vertex_index (vertices_contracted t i contracted target old new) = some target
  vertex_index _ = none

  unfoldable pub hyperedge_index : TemporalEvent V HE → Option HyperedgeIndex
  hyperedge_index (hyperedge_added t i vs w) = some i
  hyperedge_index (hyperedge_removed t i vs w) = some i
  hyperedge_index (hyperedge_weight_updated t i old new) = some i
  hyperedge_index (hyperedge_vertices_updated t i old new) = some i
  hyperedge_index (hyperedge_reversed t i old new) = some i
  hyperedge_index (hyperedges_joined t i sources new) = some i
  hyperedge_index (vertices_contracted t i contracted target old new) = some i
  hyperedge_index _ = none

  unfoldable pub is_mutation : TemporalEvent V HE → Bool
  is_mutation (snapshot_marker t s) = false
  is_mutation _ = true

pub record EventStats : Type 0 where
  pub vertex_added : ℕ
  pub vertex_removed : ℕ
  pub vertex_updated : ℕ
  pub hyperedge_added : ℕ
  pub hyperedge_removed : ℕ
  pub hyperedge_updated : ℕ
  pub transforms : ℕ
  pub clears : ℕ
  pub snapshots : ℕ

-- `EventStats::default`
abbrev pub no_stats : EventStats
no_stats = record {
  vertex_added = 0;
  vertex_removed = 0;
  vertex_updated = 0;
  hyperedge_added = 0;
  hyperedge_removed = 0;
  hyperedge_updated = 0;
  transforms = 0;
  clears = 0;
  snapshots = 0;
}

-- `EventStats::count`
unfoldable pub count_event : {V HE : Type 0} → EventStats → TemporalEvent V HE → EventStats
count_event s (vertex_added t i w) = record s { vertex_added = s.vertex_added + 1 }
count_event s (vertex_removed t i w) = record s { vertex_removed = s.vertex_removed + 1 }
count_event s (vertex_weight_updated t i old new) = record s {
  vertex_updated = s.vertex_updated + 1;
}
count_event s (hyperedge_added t i vs w) = record s { hyperedge_added = s.hyperedge_added + 1 }
count_event s (hyperedge_removed t i vs w) = record s {
  hyperedge_removed = s.hyperedge_removed + 1;
}
count_event s (hyperedge_weight_updated t i old new) = record s {
  hyperedge_updated = s.hyperedge_updated + 1;
}
count_event s (hyperedge_vertices_updated t i old new) = record s {
  hyperedge_updated = s.hyperedge_updated + 1;
}
count_event s (hyperedge_reversed t i old new) = record s { transforms = s.transforms + 1 }
count_event s (hyperedges_joined t i sources new) = record s { transforms = s.transforms + 1 }
count_event s (vertices_contracted t i contracted target old new) = record s {
  transforms = s.transforms + 1;
}
count_event s (hyperedges_cleared t n) = record s { clears = s.clears + 1 }
count_event s (graph_cleared t n m) = record s { clears = s.clears + 1 }
count_event s (snapshot_marker t i) = record s { snapshots = s.snapshots + 1 }

unfoldable pub total : EventStats → ℕ
total s =
    s.vertex_added + s.vertex_removed + s.vertex_updated + s.hyperedge_added + s.hyperedge_removed
    + s.hyperedge_updated + s.transforms + s.clears + s.snapshots
