-- ===== src/Topology/Temporal/Mutations.antt =====
-- The mutations of src/topology/temporal.rs: for each the job under the graph's write lock, and the
-- event and the value that are made from its output.
use koalisi.Common.{ℕ, List, [], ◌∷◌}
use koalisi.Topology.Events.{
  vertex_added, vertex_removed, vertex_weight_updated, hyperedge_added, hyperedge_removed,
  hyperedge_weight_updated, hyperedge_vertices_updated, hyperedge_reversed, hyperedges_joined,
  vertices_contracted, hyperedges_cleared, graph_cleared, VertexIndex, HyperedgeIndex,
}
use koalisi.Topology.Errors.{Outcome, ok, panicked}
use koalisi.Topology.Jobs.{◌>>=◌, ◌>>◌, pure, ask, call, give, change}
use koalisi.Topology.Hypergraph.{Library}
use koalisi.Topology.Temporal.{TemporalHypergraph, mutate}

-- `indices[1..]`, which panics on an empty slice
abbrev pub slice_from_one : {E : Type 0} → List ℕ → Outcome E (List ℕ)
slice_from_one [] = panicked
slice_from_one (i ∷ is) = ok is

module _ {V HE : Type 0} (lib : Library V HE) where
  abbrev State : Type 0
  State = TemporalHypergraph lib

  abbrev Failable : Type 0 → Type 0
  Failable A = Outcome lib.HypergraphError A

  unfoldable pub add_vertex : V → State → State × Failable VertexIndex
  add_vertex weight =
      mutate lib (change (lib.add_vertex weight)) (λ t i. (vertex_added t i weight, i))

  unfoldable pub remove_vertex : VertexIndex → State → State × Failable (Unit {0})
  remove_vertex index =
      mutate lib
        (do weight ← ask (lib.get_vertex_weight index); call (lib.remove_vertex index); pure weight)
        (λ t weight. (vertex_removed t index weight, tt))

  unfoldable pub update_vertex_weight : VertexIndex → V → State → State × Failable (Unit {0})
  update_vertex_weight index new_weight =
      mutate lib
        (do
          old_weight ← ask (lib.get_vertex_weight index)
          call (lib.update_vertex_weight index new_weight)
          pure old_weight)
        (λ t old_weight. (vertex_weight_updated t index old_weight new_weight, tt))

  unfoldable pub add_hyperedge : List VertexIndex → HE → State → State × Failable HyperedgeIndex
  add_hyperedge vertices weight =
      mutate lib (call (lib.add_hyperedge vertices weight))
        (λ t index. (hyperedge_added t index vertices weight, index))

  unfoldable pub remove_hyperedge : HyperedgeIndex → State → State × Failable (Unit {0})
  remove_hyperedge index =
      mutate lib {T = List VertexIndex × HE}
        (do
          vertices ← ask (lib.get_hyperedge_vertices index)
          weight ← ask (lib.get_hyperedge_weight index)
          call (lib.remove_hyperedge index)
          pure (vertices, weight))
        (λ t (vertices, weight). (hyperedge_removed t index vertices weight, tt))

  unfoldable pub update_hyperedge_weight : HyperedgeIndex → HE → State → State × Failable (Unit {0})
  update_hyperedge_weight index new_weight =
      mutate lib
        (do
          old_weight ← ask (lib.get_hyperedge_weight index)
          call (lib.update_hyperedge_weight index new_weight)
          pure old_weight)
        (λ t old_weight. (hyperedge_weight_updated t index old_weight new_weight, tt))

  unfoldable pub update_hyperedge_vertices :
      HyperedgeIndex → List VertexIndex → State → State × Failable (Unit {0})
  update_hyperedge_vertices index new_vertices =
      mutate lib
        (do
          old_vertices ← ask (lib.get_hyperedge_vertices index)
          call (lib.update_hyperedge_vertices index new_vertices)
          pure old_vertices)
        (λ t old_vertices. (hyperedge_vertices_updated t index old_vertices new_vertices, tt))

  -- `mutator` may fail, and it may panic.
  unfoldable pub update_hyperedge_vertices_try :
      HyperedgeIndex
      → (List VertexIndex → Failable (List VertexIndex))
      → State
      → State × Failable (Unit {0})
  update_hyperedge_vertices_try index mutator =
      mutate lib {T = List VertexIndex × List VertexIndex}
        (do
          old_vertices ← ask (lib.get_hyperedge_vertices index)
          new_vertices ← give (mutator old_vertices)
          call (lib.update_hyperedge_vertices index new_vertices)
          pure (old_vertices, new_vertices))
        (λ t (old_vertices, new_vertices).
          (hyperedge_vertices_updated t index old_vertices new_vertices, tt))

  unfoldable pub reverse_hyperedge : HyperedgeIndex → State → State × Failable (List VertexIndex)
  reverse_hyperedge index =
      mutate lib {T = List VertexIndex × List VertexIndex}
        (do
          old_vertices ← ask (lib.get_hyperedge_vertices index)
          call (lib.reverse_hyperedge index)
          new_vertices ← ask (lib.get_hyperedge_vertices index)
          pure (old_vertices, new_vertices))
        (λ t (old_vertices, new_vertices).
          (hyperedge_reversed t index old_vertices new_vertices, new_vertices))

  unfoldable pub join_hyperedges : List HyperedgeIndex → State → State × Failable (Unit {0})
  join_hyperedges indices =
      mutate lib {T = HyperedgeIndex × List HyperedgeIndex × List VertexIndex}
        (do
          target_index ← call (lib.join_hyperedges indices)
          source_indices ← give (slice_from_one indices)
          new_vertices ← ask (lib.get_hyperedge_vertices target_index)
          pure (target_index, source_indices, new_vertices))
        (λ t (target_index, source_indices, new_vertices).
          (hyperedges_joined t target_index source_indices new_vertices, tt))

  unfoldable pub contract_hyperedge_vertices :
      HyperedgeIndex → List VertexIndex → VertexIndex → State → State × Failable (List VertexIndex)
  contract_hyperedge_vertices hyperedge_index vertices target =
      mutate lib {T = List VertexIndex × List VertexIndex}
        (do
          old_vertices ← ask (lib.get_hyperedge_vertices hyperedge_index)
          new_vertices ← call (lib.contract_hyperedge_vertices hyperedge_index vertices target)
          pure (old_vertices, new_vertices))
        (λ t (old_vertices, new_vertices). (
          vertices_contracted t hyperedge_index vertices target old_vertices new_vertices,
          new_vertices,
        ))

  unfoldable pub clear_hyperedges : State → State × Failable (Unit {0})
  clear_hyperedges =
      mutate lib (change (λ g. (lib.clear_hyperedges g, lib.count_hyperedges g)))
        (λ t count. (hyperedges_cleared t count, tt))

  unfoldable pub clear : State → State × Failable (Unit {0})
  clear =
      mutate lib {T = ℕ × ℕ}
        (change (λ g. (lib.clear g, (lib.count_vertices g, lib.count_hyperedges g))))
        (λ t (vertex_count, hyperedge_count). (graph_cleared t vertex_count hyperedge_count, tt))
