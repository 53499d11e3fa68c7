-- ===== src/Topology/Hypergraph.antt =====
-- The graph library, `catgraph_applied::Hypergraph`, which src/topology/temporal.rs wraps, and the
-- sender of an event tap, a bounded tokio channel. Neither is code of this repository: both are
-- parameters, of which nothing is assumed.
use koalisi.Common.{ℕ, List}
use koalisi.Topology.Events.{TemporalEvent, VertexIndex, HyperedgeIndex}
use koalisi.Topology.Errors.{Attempt}

-- What `try_send` says of the event: taken, or dropped because the channel is full or closed.
pub data SendOutcome : Type 0 where
  sent full closed : SendOutcome

-- The calls that the topology layer makes. A call that changes the graph returns the graph after
-- it, also where it fails.
pub record Library (V HE : Type 0) : Type 1 where
  pub Graph : Type 0
  pub HypergraphError : Type 0
  pub new : Graph
  pub add_vertex : V → Graph → Graph × VertexIndex
  pub get_vertex_weight : VertexIndex → Graph → Attempt HypergraphError V
  pub remove_vertex : VertexIndex → Graph → Graph × Attempt HypergraphError (Unit {0})
  pub update_vertex_weight : VertexIndex → V → Graph → Graph × Attempt HypergraphError (Unit {0})
  pub add_hyperedge : List VertexIndex → HE → Graph → Graph × Attempt HypergraphError HyperedgeIndex
  pub get_hyperedge_weight : HyperedgeIndex → Graph → Attempt HypergraphError HE
  pub get_hyperedge_vertices : HyperedgeIndex → Graph → Attempt HypergraphError (List VertexIndex)
  pub remove_hyperedge : HyperedgeIndex → Graph → Graph × Attempt HypergraphError (Unit {0})
  pub update_hyperedge_weight :
      HyperedgeIndex → HE → Graph → Graph × Attempt HypergraphError (Unit {0})
  pub update_hyperedge_vertices :
      HyperedgeIndex → List VertexIndex → Graph → Graph × Attempt HypergraphError (Unit {0})
  pub reverse_hyperedge : HyperedgeIndex → Graph → Graph × Attempt HypergraphError (Unit {0})
  pub join_hyperedges : List HyperedgeIndex → Graph → Graph × Attempt HypergraphError HyperedgeIndex
  pub contract_hyperedge_vertices :
      HyperedgeIndex
      → List VertexIndex
      → VertexIndex
      → Graph
      → Graph × Attempt HypergraphError (List VertexIndex)
  pub count_vertices : Graph → ℕ
  pub count_hyperedges : Graph → ℕ
  pub clear_hyperedges : Graph → Graph
  pub clear : Graph → Graph
  pub Tap : Type 0
  pub try_send : TemporalEvent V HE → Tap → Tap × SendOutcome
