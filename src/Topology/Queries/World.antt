-- ===== src/Topology/Queries/World.antt =====
-- The reference for the time-travel queries (src/topology/queries.rs): the vertices and hyperedges
-- that stand when the events of a log are replayed one by one, all kinds together.
use koalisi.Common.{
  ℕ, ◌≡◌, Bool, true, false, Option, none, some, List, [], ◌∷◌, filter, contains, leb, ◌==◌,
  if◌then◌else◌,
}
use koalisi.Topology.Timestamp.{Timestamp}
use koalisi.Topology.Events.{
  TemporalEvent, vertex_added, vertex_removed, vertex_weight_updated, hyperedge_added,
  hyperedge_removed, hyperedge_weight_updated, hyperedge_vertices_updated, hyperedge_reversed,
  hyperedges_joined, vertices_contracted, hyperedges_cleared, graph_cleared, snapshot_marker,
  VertexIndex, HyperedgeIndex, timestamp,
}

pub record World (V HE : Type 0) : Type 0 where
  pub vertex : VertexIndex → Option V
  pub hyperedge : HyperedgeIndex → Option (HE × List VertexIndex)

abbrev pub is_some {ℓ} : {A : Type ℓ} → Option A → Bool
is_some none = false
is_some (some a) = true

abbrev pub weight_of : {HE : Type 0} → Option (HE × List VertexIndex) → Option HE
weight_of none = none
weight_of (some (a, vs)) = some a

abbrev pub vertices_of : {HE : Type 0} → Option (HE × List VertexIndex) → Option (List VertexIndex)
vertices_of none = none
vertices_of (some (a, vs)) = some vs

-- a function changed at one index
abbrev pub put {ℓ} : {A : Type ℓ} → ℕ → A → (ℕ → A) → ℕ → A
put i a f j = if i == j then a else f j

abbrev pub set_weight : {HE : Type 0} → HE → Option (HE × List ℕ) → Option (HE × List ℕ)
set_weight w none = none
set_weight w (some (w', vs)) = some (w, vs)

abbrev pub set_vertices : {HE : Type 0} → List ℕ → Option (HE × List ℕ) → Option (HE × List ℕ)
set_vertices vs none = none
set_vertices vs (some (w, vs')) = some (w, vs)

module _ {V HE : Type 0} where
  abbrev pub empty : World V HE
  empty = record { vertex = λ v. none; hyperedge = λ h. none }

  -- What one event does to the vertices and hyperedges.
  unfoldable pub apply : World V HE → TemporalEvent V HE → World V HE
  apply w (vertex_added t i a) = record w { vertex = put i (some a) w.vertex }
  apply w (vertex_removed t i a) = record w { vertex = put i none w.vertex }
  apply w (vertex_weight_updated t i old fresh) = record w { vertex = put i (some fresh) w.vertex }
  apply w (hyperedge_added t i vs a) = record w { hyperedge = put i (some (a, vs)) w.hyperedge }
  apply w (hyperedge_removed t i vs a) = record w { hyperedge = put i none w.hyperedge }
  apply w (hyperedge_weight_updated t i old fresh) = record w {
    hyperedge = put i (set_weight fresh (w.hyperedge i)) w.hyperedge;
  }
  apply w (hyperedge_vertices_updated t i old fresh) = record w {
    hyperedge = put i (set_vertices fresh (w.hyperedge i)) w.hyperedge;
  }
  apply w (hyperedge_reversed t i old fresh) = record w {
    hyperedge = put i (set_vertices fresh (w.hyperedge i)) w.hyperedge;
  }
  apply w (hyperedges_joined t i sources fresh) = record w {
    hyperedge = λ h.
        if i == h
        then set_vertices fresh (w.hyperedge h)
        else (if contains sources h then none else w.hyperedge h);
  }
  apply w (vertices_contracted t i contracted target old fresh) = record w {
    hyperedge = put i (set_vertices fresh (w.hyperedge i)) w.hyperedge;
  }
  apply w (hyperedges_cleared t n) = record w { hyperedge = λ h. none }
  apply w (graph_cleared t n m) = empty
  apply w (snapshot_marker t s) = w

  unfoldable pub replay : World V HE → List (TemporalEvent V HE) → World V HE
  replay w [] = w
  replay w (e ∷ es) = replay (apply w e) es

  -- The events up to a moment.
  abbrev pub up_to : Timestamp → List (TemporalEvent V HE) → List (TemporalEvent V HE)
  up_to t = filter (λ e. leb (timestamp e) t)

  -- An event changes only what is there, a join does not name its target among its sources, and
  -- nothing is cleared.
  abbrev pub IsEnabled : World V HE → TemporalEvent V HE → Type 0
  IsEnabled w (vertex_weight_updated t i old fresh) = is_some (w.vertex i) ≡ true
  IsEnabled w (hyperedge_weight_updated t i old fresh) = is_some (w.hyperedge i) ≡ true
  IsEnabled w (hyperedge_vertices_updated t i old fresh) = is_some (w.hyperedge i) ≡ true
  IsEnabled w (hyperedge_reversed t i old fresh) = is_some (w.hyperedge i) ≡ true
  IsEnabled w (hyperedges_joined t i sources fresh) =
      (is_some (w.hyperedge i) ≡ true) × (contains sources i ≡ false)
  IsEnabled w (vertices_contracted t i contracted target old fresh) = is_some (w.hyperedge i) ≡ true
  IsEnabled w (hyperedges_cleared t n) = ⊥
  IsEnabled w (graph_cleared t n m) = ⊥
  IsEnabled w _ = Unit

  abbrev pub IsReplayable : World V HE → List (TemporalEvent V HE) → Type 0
  IsReplayable w [] = Unit
  IsReplayable w (e ∷ es) = IsEnabled w e × IsReplayable (apply w e) es
