-- ===== src/Topology/Queries/Hyperedges.antt =====
-- The loops about one hyperedge follow the replay (src/topology/queries.rs).
use koalisi.Common.{ℕ, suc, ◌≡◌, refl, Bool, Option, List, arith, contains-count, ap}
use koalisi.Topology.Events.{
  TemporalEvent, vertex_added, vertex_removed, vertex_weight_updated, hyperedge_added,
  hyperedge_removed, hyperedge_weight_updated, hyperedge_vertices_updated, hyperedge_reversed,
  hyperedges_joined, vertices_contracted, hyperedges_cleared, graph_cleared, snapshot_marker,
  VertexIndex, HyperedgeIndex, hyperedge_index,
}
use koalisi.Topology.EventLog.{joined_sources}
use koalisi.Topology.EventLog.Indexed.{hyperedge_mentions}
use koalisi.Topology.Queries.{hyperedge_exists_step, hyperedge_weight_step, hyperedge_vertices_step}
use koalisi.Topology.Queries.World.{World, weight_of, vertices_of, apply, is_some, IsEnabled}
use koalisi.Topology.Queries.Scans.{Follows}

module _ {V HE : Type 0} (h : HyperedgeIndex) where
  hyperedge-skipped :
      (w : World V HE) (e : TemporalEvent V HE)
      → IsEnabled w e
      → hyperedge_mentions h e ≡ 0
      → (apply w e).hyperedge h ≡ w.hyperedge h
  unfolding apply hyperedge_index joined_sources
  hyperedge-skipped w (vertex_added t i a) enabled n = refl
  hyperedge-skipped w (vertex_removed t i a) enabled n = refl
  hyperedge-skipped w (vertex_weight_updated t i old fresh) enabled n = refl
  hyperedge-skipped w (hyperedges_joined t i sources fresh) enabled n =
      ground (arith, contains-count h sources)
  hyperedge-skipped w (hyperedges_cleared t k) enabled n = absurd enabled
  hyperedge-skipped w (graph_cleared t k m) enabled n = absurd enabled
  hyperedge-skipped w (hyperedge_added t i vs a) enabled n = ground arith
  hyperedge-skipped w (hyperedge_removed t i vs a) enabled n = ground arith
  hyperedge-skipped w (hyperedge_weight_updated t i old fresh) enabled n = ground arith
  hyperedge-skipped w (hyperedge_vertices_updated t i old fresh) enabled n = ground arith
  hyperedge-skipped w (hyperedge_reversed t i old fresh) enabled n = ground arith
  hyperedge-skipped w (vertices_contracted t i contracted target old fresh) enabled n = ground arith
  hyperedge-skipped w _ enabled n = refl

  hyperedge_exists-again :
      (b : Bool) (e : TemporalEvent V HE)
      → hyperedge_exists_step h (hyperedge_exists_step h b e) e ≡ hyperedge_exists_step h b e
  unfolding hyperedge_exists_step
  hyperedge_exists-again b (hyperedges_joined t i sources fresh) = ground arith
  hyperedge_exists-again b _ = refl

  hyperedge_exists-stepped :
      (w : World V HE) (e : TemporalEvent V HE) (k : ℕ)
      → IsEnabled w e
      → hyperedge_mentions h e ≡ suc k
      → is_some ((apply w e).hyperedge h) ≡ hyperedge_exists_step h (is_some (w.hyperedge h)) e
  unfolding apply hyperedge_index joined_sources hyperedge_exists_step
  hyperedge_exists-stepped w (hyperedges_joined t i sources fresh) k enabled n =
      ground (arith, contains-count h sources)
  hyperedge_exists-stepped w (hyperedges_cleared t j) k enabled n = absurd enabled
  hyperedge_exists-stepped w (graph_cleared t j m) k enabled n = absurd enabled
  hyperedge_exists-stepped w (vertex_added t i a) k enabled n = refl
  hyperedge_exists-stepped w (vertex_removed t i a) k enabled n = refl
  hyperedge_exists-stepped w (vertex_weight_updated t i old fresh) k enabled n = refl
  hyperedge_exists-stepped w (snapshot_marker t s) k enabled n = refl
  hyperedge_exists-stepped w _ k enabled n = ground arith

  hyperedge_weight-again :
      (o : Option HE) (e : TemporalEvent V HE)
      → hyperedge_weight_step h (hyperedge_weight_step h o e) e ≡ hyperedge_weight_step h o e
  unfolding hyperedge_weight_step
  hyperedge_weight-again o (hyperedges_joined t i sources fresh) = ground arith
  hyperedge_weight-again o _ = refl

  hyperedge_weight-stepped :
      (w : World V HE) (e : TemporalEvent V HE) (k : ℕ)
      → IsEnabled w e
      → hyperedge_mentions h e ≡ suc k
      → weight_of ((apply w e).hyperedge h) ≡ hyperedge_weight_step h (weight_of (w.hyperedge h)) e
  unfolding apply hyperedge_index joined_sources hyperedge_weight_step
  hyperedge_weight-stepped w (hyperedges_joined t i sources fresh) k enabled n =
      ground (arith, contains-count h sources)
  hyperedge_weight-stepped w (hyperedges_cleared t j) k enabled n = absurd enabled
  hyperedge_weight-stepped w (graph_cleared t j m) k enabled n = absurd enabled
  hyperedge_weight-stepped w (vertex_added t i a) k enabled n = refl
  hyperedge_weight-stepped w (vertex_removed t i a) k enabled n = refl
  hyperedge_weight-stepped w (vertex_weight_updated t i old fresh) k enabled n = refl
  hyperedge_weight-stepped w (snapshot_marker t s) k enabled n = refl
  hyperedge_weight-stepped w _ k enabled n = ground arith

  hyperedge_vertices-again :
      (o : Option (List VertexIndex)) (e : TemporalEvent V HE)
      → hyperedge_vertices_step h (hyperedge_vertices_step h o e) e ≡ hyperedge_vertices_step h o e
  unfolding hyperedge_vertices_step
  hyperedge_vertices-again o (hyperedges_joined t i sources fresh) = ground arith
  hyperedge_vertices-again o _ = refl

  hyperedge_vertices-stepped :
      (w : World V HE) (e : TemporalEvent V HE) (k : ℕ)
      → IsEnabled w e
      → hyperedge_mentions h e ≡ suc k
      → vertices_of ((apply w e).hyperedge h)
        ≡ hyperedge_vertices_step h (vertices_of (w.hyperedge h)) e
  unfolding apply hyperedge_index joined_sources hyperedge_vertices_step
  hyperedge_vertices-stepped w (hyperedges_joined t i sources fresh) k enabled n =
      ground (arith, contains-count h sources)
  hyperedge_vertices-stepped w (hyperedges_cleared t j) k enabled n = absurd enabled
  hyperedge_vertices-stepped w (graph_cleared t j m) k enabled n = absurd enabled
  hyperedge_vertices-stepped w (vertex_added t i a) k enabled n = refl
  hyperedge_vertices-stepped w (vertex_removed t i a) k enabled n = refl
  hyperedge_vertices-stepped w (vertex_weight_updated t i old fresh) k enabled n = refl
  hyperedge_vertices-stepped w (snapshot_marker t s) k enabled n = refl
  hyperedge_vertices-stepped w _ k enabled n = ground arith

  pub hyperedge_exists-Follows :
      Follows {V = V} {HE = HE}
        (hyperedge_exists_step h)
        (hyperedge_mentions h)
        (λ w. is_some (w.hyperedge h))
  hyperedge_exists-Follows = record {
    again = hyperedge_exists-again;
    skipped = λ w e enabled n. ap is_some (hyperedge-skipped w e enabled n);
    stepped = hyperedge_exists-stepped;
  }

  pub hyperedge_weight-Follows :
      Follows {V = V} {HE = HE}
        (hyperedge_weight_step h)
        (hyperedge_mentions h)
        (λ w. weight_of (w.hyperedge h))
  hyperedge_weight-Follows = record {
    again = hyperedge_weight-again;
    skipped = λ w e enabled n. ap weight_of (hyperedge-skipped w e enabled n);
    stepped = hyperedge_weight-stepped;
  }

  pub hyperedge_vertices-Follows :
      Follows {V = V} {HE = HE}
        (hyperedge_vertices_step h)
        (hyperedge_mentions h)
        (λ w. vertices_of (w.hyperedge h))
  hyperedge_vertices-Follows = record {
    again = hyperedge_vertices-again;
    skipped = λ w e enabled n. ap vertices_of (hyperedge-skipped w e enabled n);
    stepped = hyperedge_vertices-stepped;
  }
