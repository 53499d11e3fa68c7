-- ===== src/Topology/Queries/Vertices.antt =====
-- The loops about one vertex follow the replay (src/topology/queries.rs).
use koalisi.Common.{ℕ, suc, ◌≡◌, refl, Bool, Option, arith, ap}
use koalisi.Topology.Events.{
  TemporalEvent, vertex_added, vertex_removed, vertex_weight_updated, hyperedges_cleared,
  graph_cleared, VertexIndex, vertex_index,
}
use koalisi.Topology.EventLog.{contracted_vertices}
use koalisi.Topology.EventLog.Indexed.{vertex_mentions}
use koalisi.Topology.Queries.{vertex_exists_step, vertex_weight_step}
use koalisi.Topology.Queries.World.{World, apply, is_some, IsEnabled}
use koalisi.Topology.Queries.Scans.{Follows}

module _ {V HE : Type 0} (v : VertexIndex) where
  vertex_exists-again :
      (b : Bool) (e : TemporalEvent V HE)
      → vertex_exists_step (vertex_exists_step b e) e ≡ vertex_exists_step b e
  unfolding vertex_exists_step
  vertex_exists-again b (vertex_added t i w) = refl
  vertex_exists-again b _ = refl

  vertex_exists-skipped :
      (w : World V HE) (e : TemporalEvent V HE)
      → IsEnabled w e
      → vertex_mentions v e ≡ 0
      → is_some ((apply w e).vertex v) ≡ is_some (w.vertex v)
  unfolding apply vertex_index contracted_vertices
  vertex_exists-skipped w (vertex_added t i a) enabled h = ground arith
  vertex_exists-skipped w (vertex_removed t i a) enabled h = ground arith
  vertex_exists-skipped w (vertex_weight_updated t i old fresh) enabled h = ground arith
  vertex_exists-skipped w (hyperedges_cleared t n) enabled h = absurd enabled
  vertex_exists-skipped w (graph_cleared t n m) enabled h = absurd enabled
  vertex_exists-skipped w _ enabled h = refl

  vertex_exists-stepped :
      (w : World V HE) (e : TemporalEvent V HE) (k : ℕ)
      → IsEnabled w e
      → vertex_mentions v e ≡ suc k
      → is_some ((apply w e).vertex v) ≡ vertex_exists_step (is_some (w.vertex v)) e
  unfolding apply vertex_index contracted_vertices vertex_exists_step
  vertex_exists-stepped w (vertex_added t i a) k enabled h = ground arith
  vertex_exists-stepped w (vertex_removed t i a) k enabled h = ground arith
  vertex_exists-stepped w (vertex_weight_updated t i old fresh) k enabled h =
      ground (arith, ap (λ j. is_some (w.vertex j)) {x = i} {y = v})
  vertex_exists-stepped w (graph_cleared t n m) k enabled h = absurd enabled
  vertex_exists-stepped w _ k enabled h = refl

  vertex_weight-again :
      (o : Option V) (e : TemporalEvent V HE)
      → vertex_weight_step (vertex_weight_step o e) e ≡ vertex_weight_step o e
  unfolding vertex_weight_step
  vertex_weight-again o (vertex_added t i w) = refl
  vertex_weight-again o _ = refl

  vertex_weight-skipped :
      (w : World V HE) (e : TemporalEvent V HE)
      → IsEnabled w e
      → vertex_mentions v e ≡ 0
      → (apply w e).vertex v ≡ w.vertex v
  unfolding apply vertex_index contracted_vertices
  vertex_weight-skipped w (vertex_added t i a) enabled h = ground arith
  vertex_weight-skipped w (vertex_removed t i a) enabled h = ground arith
  vertex_weight-skipped w (vertex_weight_updated t i old fresh) enabled h = ground arith
  vertex_weight-skipped w (graph_cleared t n m) enabled h = absurd enabled
  vertex_weight-skipped w _ enabled h = refl

  vertex_weight-stepped :
      (w : World V HE) (e : TemporalEvent V HE) (k : ℕ)
      → IsEnabled w e
      → vertex_mentions v e ≡ suc k
      → (apply w e).vertex v ≡ vertex_weight_step (w.vertex v) e
  unfolding apply vertex_index contracted_vertices vertex_weight_step
  vertex_weight-stepped w (vertex_added t i a) k enabled h = ground arith
  vertex_weight-stepped w (vertex_removed t i a) k enabled h = ground arith
  vertex_weight-stepped w (vertex_weight_updated t i old fresh) k enabled h = ground arith
  vertex_weight-stepped w (graph_cleared t n m) k enabled h = absurd enabled
  vertex_weight-stepped w _ k enabled h = refl

  pub vertex_exists-Follows :
      Follows {V = V} {HE = HE} vertex_exists_step (vertex_mentions v) (λ w. is_some (w.vertex v))
  vertex_exists-Follows = record {
    again = vertex_exists-again;
    skipped = vertex_exists-skipped;
    stepped = vertex_exists-stepped;
  }

  pub vertex_weight-Follows :
      Follows {V = V} {HE = HE} vertex_weight_step (vertex_mentions v) (λ w. w.vertex v)
  vertex_weight-Follows = record {
    again = vertex_weight-again;
    skipped = vertex_weight-skipped;
    stepped = vertex_weight-stepped;
  }
